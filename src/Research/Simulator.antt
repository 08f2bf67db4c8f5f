-- ===== src/Research/Simulator.antt =====
-- The loop of internal/researchengine/simulator.go. It always counts; without a `SimulationMetrics` the
-- code does the same and counts nothing. The strategy is not nil.
use option_engine.Common.{
  ℕ, ◌+◌, ◌-◌, Bool, true, false, String, Option, none, some, List, [], ◌∷◌, ◌++◌, ltb, length,
  drop, if◌then◌else◌,
}
use option_engine.Common.Int.{ℤ, pos, pos_part, ◌*ℤ◌, ltb_ℤ}
use option_engine.Common.Float.{Float}
use option_engine.Domain.{is_zero}
use option_engine.Candle.{Candle}
use option_engine.Research.{
  Decision, buy, sell, exit, ignore, other, long, short, Signal, Context, Strategy, SimulatorConfig,
  SimulatedTrade, SimulationMetrics, no_metrics, is_action,
}
use option_engine.Research.Trades.{
  OpenPosition, position_from_open, update_excursion, open_position, can_open, close_position,
}

-- The journal, the open position, which `hasPos` says there is, and the counters.
pub record Book (F P : Type 0) : Type 0 where
  pub journal : List (SimulatedTrade F P)
  pub position : Option (OpenPosition F P)
  pub metrics : SimulationMetrics

-- The variables of the loop of `RunWithMetrics`, and the strategy's own state.
pub record Run (F P S : Type 0) : Type 0 where
  pub book : Book F P
  pub history : List (Candle F)
  pub strategy_state : S

-- `warmup * 3`, and at least 64.
unfoldable pub history_cap : ℤ → ℕ
history_cap warmup = if ltb_ℤ (warmup *ℤ pos 3) (pos 64) then 64 else pos_part (warmup *ℤ pos 3)

module _ {F : Type 0} where
  -- What both copies of the history's update do.
  unfoldable pub push_history : Bool → ℕ → Candle F → List (Candle F) → List (Candle F)
  push_history use_store cap candle h =
      let h' = h ++ candle ∷ [] in
      if use_store then h else if ltb cap (length h') then drop (length h' - cap) h' else h'

  -- The last candle, of a list that begins with `c`.
  unfoldable pub last_of : Candle F → List (Candle F) → Candle F
  last_of c [] = c
  last_of c (d ∷ ds) = last_of d ds

module _ {F P : Type 0} ⦃f : Float F⦄ where
  unfoldable pub excursed : Candle F → Option (OpenPosition F P) → Option (OpenPosition F P)
  excursed candle none = none
  excursed candle (some p) = some (update_excursion candle p)

-- A run reads its configuration and the strategy, and does not change them.
module _ {F P I S : Type 0} ⦃f : Float F⦄ (cfg : SimulatorConfig F) (s : Strategy F P I S) where
  -- `journal.Add(s.closePosition(…))`, `metrics.Closes++` and `hasPos = false`.
  unfoldable pub close_out : OpenPosition F P → Candle F → ℕ → Signal F P → Book F P → Book F P
  close_out p candle bar sig b = record {
    journal = b.journal ++ close_position cfg s.name p candle bar sig s.version ∷ [];
    position = none;
    metrics = record b.metrics { closes = b.metrics.closes + 1 };
  }

  -- The openings of the two branches, where there is no position.
  unfoldable pub open_long : Candle F → ℕ → Signal F P → String → Book F P → Book F P
  open_long candle bar sig regime b =
      if can_open cfg b.journal
      then record b {
        position = some (open_position cfg long candle bar sig regime);
        metrics = record b.metrics { opens_long = b.metrics.opens_long + 1 };
      }
      else b

  unfoldable pub open_short : Candle F → ℕ → Signal F P → String → Book F P → Book F P
  open_short candle bar sig regime b =
      if can_open cfg b.journal
      then record b {
        position = some (open_position cfg short candle bar sig regime);
        metrics = record b.metrics { opens_short = b.metrics.opens_short + 1 };
      }
      else b

  -- The branch of a BUY after its counter.
  unfoldable pub on_buy :
      Option (OpenPosition F P) → Candle F → ℕ → Signal F P → String → Book F P → Book F P
  on_buy none candle bar sig regime b = open_long candle bar sig regime b
  on_buy (some p) candle bar sig regime b = elim p.direction [
    | long ↦ record b {
      metrics = record b.metrics { ignored_buy_long = b.metrics.ignored_buy_long + 1 };
    }
    | short ↦ open_long candle bar sig regime (close_out p candle bar sig b)
  ]

  unfoldable pub on_sell :
      Option (OpenPosition F P) → Candle F → ℕ → Signal F P → String → Book F P → Book F P
  on_sell none candle bar sig regime b = open_short candle bar sig regime b
  on_sell (some p) candle bar sig regime b = elim p.direction [
    | short ↦ record b {
      metrics = record b.metrics { ignored_sell_short = b.metrics.ignored_sell_short + 1 };
    }
    | long ↦ open_short candle bar sig regime (close_out p candle bar sig b)
  ]

  unfoldable pub on_exit :
      Option (OpenPosition F P) → Candle F → ℕ → Signal F P → Book F P → Book F P
  on_exit none candle bar sig b = record b {
    metrics = record b.metrics { ignored_exit_flat = b.metrics.ignored_exit_flat + 1 };
  }
  on_exit (some p) candle bar sig b = close_out p candle bar sig b

  -- The switch on the decision.
  unfoldable pub act : Decision → Candle F → ℕ → Signal F P → String → Book F P → Book F P
  act buy candle bar sig regime b =
      on_buy b.position candle bar sig regime
        (record b { metrics = record b.metrics { buy_signals = b.metrics.buy_signals + 1 } })
  act sell candle bar sig regime b =
      on_sell b.position candle bar sig regime
        (record b { metrics = record b.metrics { sell_signals = b.metrics.sell_signals + 1 } })
  act exit candle bar sig regime b =
      on_exit b.position candle bar sig
        (record b { metrics = record b.metrics { exit_signals = b.metrics.exit_signals + 1 } })
  act ignore candle bar sig regime b = b
  act (other d) candle bar sig regime b = b

  unfoldable pub context_at : Option I → ℕ → Candle F → Run F P S → Context F I
  context_at store bar candle r = record {
    symbol = candle.symbol;
    timeframe = candle.timeframe;
    candle = candle;
    history = elim store [ none ↦ r.history | some i ↦ [] ];
    position = position_from_open r.book.position;
    market_regime = "";
    bar_index = bar;
    store = store;
    timestamp = if is_zero candle.close_time then candle.open_time else candle.close_time;
  }

  abbrev pub is_some : Option I → Bool
  is_some none = false
  is_some (some i) = true

  -- The book of a bar after the warm-up, with the signal of the strategy.
  unfoldable pub trade_bar : Candle F → ℕ → Signal F P → String → Book F P → Book F P
  trade_bar candle bar sig regime b =
      let b' = record b { position = excursed candle b.position } in
      if is_action sig.decision then act sig.decision candle bar sig regime b' else b'

  -- One round of the loop. The signal does not depend on the excursions, which a context leaves out.
  unfoldable pub step : Option I → ℕ → Candle F → Run F P S → Run F P S
  step store bar candle r =
      let ctx = context_at store bar candle r in
      let answer = s.evaluate ctx r.strategy_state in
      record {
        book =
            if ltb_ℤ (pos bar) s.warmup_bars
            then r.book
            else trade_bar candle bar answer.0 ctx.market_regime r.book;
        history = push_history (is_some store) (history_cap s.warmup_bars) candle r.history;
        strategy_state = answer.1;
      }

  unfoldable pub loop : Option I → ℕ → List (Candle F) → Run F P S → Run F P S
  loop store bar [] r = r
  loop store bar (c ∷ cs) r = loop store (bar + 1) cs (step store bar c r)

  -- The closing at the end of the data.
  unfoldable pub finish : Option (OpenPosition F P) → Candle F → ℕ → Run F P S → Book F P
  finish none last bar r = r.book
  finish (some p) last bar r =
      let exit_signal : Signal F P = record {
        decision = exit;
        confidence = f.of_int (pos 0);
        strength = f.of_int (pos 0);
        score = f.of_int (pos 0);
        reasons = "end of data" ∷ [];
        tags = [];
        indicators = [];
        parameters = s.parameters r.strategy_state;
        generated_at = last.close_time;
      } in
      let m = r.book.metrics in
      close_out p last bar exit_signal
        (record r.book { metrics = record m { end_of_data_closes = m.end_of_data_closes + 1 } })

  -- `RunWithMetrics`, of a simulator with its defaults: the journal, the counters, which stay as they
  -- were if there are no candles, and the strategy's state.
  unfoldable pub run_with_metrics :
      Option I
      → S
      → SimulationMetrics
      → List (Candle F)
      → List (SimulatedTrade F P) × SimulationMetrics
  run_with_metrics store s0 m [] = ([], m)
  run_with_metrics store s0 m (c ∷ cs) =
      let fresh : Book F P = record { journal = []; position = none; metrics = no_metrics } in
      let r = loop store 0 (c ∷ cs) (record { book = fresh; history = []; strategy_state = s0 }) in
      let b = finish r.book.position (last_of c cs) (length cs) r in (b.journal, b.metrics)
