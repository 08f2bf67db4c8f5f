-- ===== src/Research/Trades.antt =====
-- Fills and trades of the simulator: the functions that internal/researchengine/simulator.go calls.
use option_engine.Common.{
  ℕ, ◌-◌, Bool, true, false, String, Option, none, some, List, [], ◌∷◌, ltb, if◌then◌else◌,
}
use option_engine.Common.Int.{ℤ, pos, ◌-ℤ◌, ltb_ℤ}
use option_engine.Common.Float.{Float}
use option_engine.Domain.{Instant, Duration}
use option_engine.Candle.{Candle}
use option_engine.Research.{
  Position, Direction, long, short, Signal, SimulatorConfig, SimulatedTrade,
}

pub record OpenPosition (F P : Type 0) : Type 0 where
  pub direction : Direction
  pub entry_price : F
  pub entry_mid : F
  pub entry_time : Instant
  pub entry_bar : ℕ
  pub quantity : ℤ
  pub entry_signal : Signal F P
  pub mfe : F
  pub mae : F
  pub regime : String

-- `t.Sub(u)`, which is 0 here if it is negative, and at most the greatest Duration.
unfoldable pub sub_time : Instant → Instant → Duration
sub_time t u = if ltb 9_223_372_036_854_775_807 (t - u) then 9_223_372_036_854_775_807 else t - u

module _ {F P : Type 0} where
  unfoldable pub position_from_open : Option (OpenPosition F P) → Position
  position_from_open none = Position.flat
  position_from_open (some p) = elim p.direction [ long ↦ Position.long | short ↦ Position.short ]

module _ {F : Type 0} ⦃f : Float F⦄ where
  abbrev pub zero_float : F
  zero_float = f.of_int (pos 0)

  abbrev pub hundred : F
  hundred = f.of_int (pos 100)

  -- `fillPrice`, of a configuration.
  unfoldable pub fill_price : SimulatorConfig F → F → Direction → Bool → F
  fill_price cfg close long true =
      f.mul close (f.add (f.of_int (pos 1)) (f.div cfg.slippage_pct hundred))
  fill_price cfg close long false =
      f.mul close (f.sub (f.of_int (pos 1)) (f.div cfg.slippage_pct hundred))
  fill_price cfg close short true =
      f.mul close (f.sub (f.of_int (pos 1)) (f.div cfg.slippage_pct hundred))
  fill_price cfg close short false =
      f.mul close (f.add (f.of_int (pos 1)) (f.div cfg.slippage_pct hundred))

  unfoldable pub gross_pnl : Direction → F → F → ℤ → F
  gross_pnl long entry exit' qty = f.mul (f.sub exit' entry) (f.of_int qty)
  gross_pnl short entry exit' qty = f.mul (f.sub entry exit') (f.of_int qty)

  unfoldable pub slippage_from_fill : F → F → ℤ → F
  slippage_from_fill fill mid qty =
      let diff = f.sub fill mid in
      f.mul (if f.lt diff zero_float then f.neg diff else diff) (f.of_int qty)

  -- The favourable and the adverse excursion.
  unfoldable pub excursion : Direction → F → F → F → ℤ → F × F
  excursion long entry high low qty =
      (f.mul (f.sub high entry) (f.of_int qty), f.mul (f.sub entry low) (f.of_int qty))
  excursion short entry high low qty =
      (f.mul (f.sub entry low) (f.of_int qty), f.mul (f.sub high entry) (f.of_int qty))

abbrev pub first_reason : List String → String
first_reason [] = "signal"
first_reason (r ∷ rs) = r

module _ {F P : Type 0} ⦃f : Float F⦄ where
  unfoldable pub update_excursion : Candle F → OpenPosition F P → OpenPosition F P
  update_excursion candle p =
      let e = excursion p.direction p.entry_price candle.high candle.low p.quantity in
      record p {
        mfe = if f.lt p.mfe e.0 then e.0 else p.mfe;
        mae = if f.lt p.mae e.1 then e.1 else p.mae;
      }

  -- `openPosition`
  unfoldable pub open_position :
      SimulatorConfig F → Direction → Candle F → ℕ → Signal F P → String → OpenPosition F P
  open_position cfg dir candle bar sig regime = record {
    direction = dir;
    entry_price = fill_price cfg candle.close_price dir true;
    entry_mid = candle.close_price;
    entry_time = candle.close_time;
    entry_bar = bar;
    quantity = cfg.quantity;
    entry_signal = sig;
    mfe = zero_float;
    mae = zero_float;
    regime = regime;
  }

  -- The capital after the trades of a journal.
  unfoldable pub equity : F → List (SimulatedTrade F P) → F
  equity e [] = e
  equity e (t ∷ ts) = equity (f.add e t.net_profit) ts

  unfoldable pub can_open : SimulatorConfig F → List (SimulatedTrade F P) → Bool
  can_open cfg journal = f.lt zero_float (equity cfg.initial_capital journal)

  -- `closePosition`
  unfoldable pub close_position :
      SimulatorConfig F
      → String
      → OpenPosition F P
      → Candle F
      → ℕ
      → Signal F P
      → String
      → SimulatedTrade F P
  close_position cfg strategy_name p candle bar exit_signal version =
      let exit_price = fill_price cfg candle.close_price p.direction false in
      let held = pos bar -ℤ pos p.entry_bar in
      let gross = gross_pnl p.direction p.entry_price exit_price p.quantity in
      let commission = f.mul cfg.commission (f.of_int (pos 2)) in
      let taxes = if f.lt gross zero_float then zero_float else f.mul gross cfg.tax_rate in
      let net = f.sub (f.sub gross commission) taxes in
      let entry_value = f.mul p.entry_price (f.of_int p.quantity) in
      record {
        strategy = strategy_name;
        strategy_version = version;
        parameter_set = p.entry_signal.parameters;
        entry_signal = p.entry_signal;
        exit_signal = exit_signal;
        symbol = candle.symbol;
        timeframe = candle.timeframe;
        entry_time = p.entry_time;
        exit_time = candle.close_time;
        entry_price = p.entry_price;
        exit_price = exit_price;
        quantity = p.quantity;
        direction = p.direction;
        commission = commission;
        taxes = taxes;
        slippage =
            f.add (slippage_from_fill p.entry_price p.entry_mid p.quantity)
              (slippage_from_fill exit_price candle.close_price p.quantity);
        gross_profit = gross;
        net_profit = net;
        return_percent =
            if f.lt zero_float entry_value
            then f.mul (f.div net entry_value) hundred
            else zero_float;
        max_favorable_excursion = p.mfe;
        max_adverse_excursion = p.mae;
        bars_held = if ltb_ℤ held (pos 1) then pos 1 else held;
        holding_duration = sub_time candle.close_time p.entry_time;
        market_regime = p.regime;
        exit_reason = first_reason exit_signal.reasons;
        risk_reward = if f.lt zero_float p.mae then f.div p.mfe p.mae else zero_float;
        expectancy_contribution = net;
      }
