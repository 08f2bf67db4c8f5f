-- ===== src/Research/Samples.antt =====
-- The simulator at concrete inputs.
use option_engine.Common.{
  refl, ℕ, ◌≤◌, ◌<◌, ◌*◌, ◌+◌, suc, ◌≡◌, true, false, String, Option, none, some, List, [], ◌∷◌,
  ◌++◌, length, map, arith, nat_beq, if◌then◌else◌,
}
use option_engine.Common.Pairwise.{Pairwise}
use option_engine.Common.Int.{ℤ, pos, negsuc, ltb_ℤ, ◌*ℤ◌}
use option_engine.Common.Float.{int_float}
use option_engine.Candle.{Candle, tf5m}
use option_engine.Research.{
  Decision, buy, sell, exit, ignore, Signal, Context, Strategy, SimulatorConfig, no_metrics,
  with_defaults, SimulationMetrics,
}
use option_engine.Research.Checks.{validate_journal, validate_simulation_metrics}
use option_engine.Research.Simulator.{Book, Run, run_with_metrics, loop, history_cap}
use option_engine.Research.Accounting.{run-IsSettled}
use option_engine.Research.Chronicle.{IsSigned, IsPriced, Precedes}
use option_engine.Research.Feed.{run-IsChronicle}
use option_engine.Research.Causality.{recorded, forget, briefing, briefings, loop_shows_past}

abbrev config : SimulatorConfig ℤ
config = record {
  initial_capital = pos 1000;
  quantity = pos 0;
  commission = pos 1;
  tax_rate = pos 0;
  slippage_pct = pos 0;
}

abbrev signal : Decision → Signal ℤ ℕ
signal d = record {
  decision = d;
  confidence = pos 1;
  strength = pos 1;
  score = pos 1;
  reasons = [];
  tags = [];
  indicators = [];
  parameters = 7;
  generated_at = 0;
}

-- Buys, turns round, and counts its calls.
abbrev turning : Strategy ℤ ℕ ℕ ℕ
turning = record {
  name = "turning";
  version = "1";
  warmup_bars = pos 1;
  parameters = λ s. 7;
  evaluate =
      λ ctx s. (signal (if nat_beq s 1 then buy else if nat_beq s 2 then sell else ignore), s + 1);
}

abbrev candle : ℕ → ℕ → Candle ℤ
candle t price = record {
  symbol = "A";
  timeframe = tf5m;
  open_price = pos price;
  high = pos price;
  low = pos price;
  close_price = pos price;
  volume = pos 1;
  vwap = pos price;
  trade_count = pos 1;
  open_time = t;
  close_time = t + 5;
}

abbrev rest : List (Candle ℤ)
rest = candle 5 100 ∷ candle 10 110 ∷ candle 15 90 ∷ []

turned_twice : length (run_with_metrics config turning none 0 no_metrics (candle 0 90 ∷ rest)).0 ≡ 2
unfolding run_with_metrics option_engine.Research.Simulator.finish loop
    option_engine.Research.Simulator.step option_engine.Research.Simulator.trade_bar
    option_engine.Research.Simulator.excursed option_engine.Research.Simulator.act
    option_engine.Research.Simulator.on_sell option_engine.Research.Simulator.on_buy
    option_engine.Research.Simulator.open_long option_engine.Research.Trades.can_open
    option_engine.Research.Trades.equity option_engine.Research.Trades.update_excursion
    option_engine.Research.Trades.open_position option_engine.Research.Simulator.open_short
    option_engine.Research.Simulator.close_out option_engine.Common.Int.◌+ℤ◌ ◌*ℤ◌
    option_engine.Common.Int.◌-ℤ◌ option_engine.Common.Int.div_trunc
    option_engine.Research.Trades.close_position option_engine.Research.Trades.excursion
    option_engine.Research.Trades.fill_price option_engine.Research.Trades.gross_pnl
turned_twice = refl

int_IsSigned : IsSigned ℤ
int_IsSigned a h = ground arith

priced : (n : ℕ) (t : ℕ) → 0 < n → IsPriced (with_defaults config) (candle t n)
unfolding with_defaults ◌*ℤ◌ option_engine.Common.Int.◌+ℤ◌ option_engine.Common.Int.◌-ℤ◌
    option_engine.Common.Int.div_trunc
priced n t h = (ground arith, ground arith)

run-IsSettled_example :
    let r = run_with_metrics config turning none 0 no_metrics (candle 0 90 ∷ rest) in
    (r.1.opens_long + r.1.opens_short ≡ r.1.closes)
    × (length r.0 ≡ r.1.closes)
    × (r.1.opens_long + r.1.opens_short ≤ r.1.buy_signals + r.1.sell_signals)
    × (validate_simulation_metrics r.1 ≡ [])
run-IsSettled_example = run-IsSettled config turning none 0 no_metrics (candle 0 90) rest

run-IsChronicle_example :
    let journal =
      (run_with_metrics (with_defaults config) turning none 0 no_metrics (candle 0 90 ∷ rest)).0 in
    (validate_journal 0 journal ≡ []) × Pairwise Precedes journal
run-IsChronicle_example =
    run-IsChronicle config turning int_IsSigned none 0 no_metrics (candle 0 90) rest (
      omega arith,
      omega arith,
      priced 90 0 (omega arith),
      (
        omega arith,
        omega arith,
        priced 100 5 (omega arith),
        (
          omega arith,
          omega arith,
          priced 110 10 (omega arith),
          (omega arith, omega arith, priced 90 15 (omega arith), tt),
        ),
      ),
    )

abbrev empty_book : Book ℤ ℕ
empty_book = record { journal = []; position = none; metrics = no_metrics }

abbrev noted : Run ℤ ℕ (ℕ × List (Context ℤ ℕ))
noted = record { book = empty_book; history = []; strategy_state = (0, []) }

loop_shows_past_example :
    (forget (loop config (recorded turning) (some 5) 0 rest noted)
      ≡ loop config turning (some 5) 0 rest (forget noted))
    × (map briefing (loop config (recorded turning) (some 5) 0 rest noted).strategy_state.1
        ≡ briefings (some 5) (history_cap (pos 1)) [] rest)
loop_shows_past_example = loop_shows_past config turning (some 5) rest 0 empty_book
