-- ===== src/Research.antt =====
-- The research engine's simulator: its data. internal/researchengine/{trade,config,metrics,journal}.go
-- and internal/strategylib/{decision,context,signal,strategy}.go. Left out are a trade's random
-- identifier and what a context holds that the simulator leaves unset.
pub mod Trades
pub mod Simulator
pub mod Checks
pub mod Accounting
pub mod Chronicle
pub mod Journal
pub mod Feed
pub mod Causality
pub mod Samples
use option_engine.Common.{
  ℕ, zero, suc, Bool, true, false, String, Option, List, [], ◌∷◌, if◌then◌else◌,
}
use option_engine.Common.Int.{ℤ, pos, leb_ℤ}
use option_engine.Common.Dict.{Dict}
use option_engine.Common.Float.{Float, le}
use option_engine.Domain.{Instant, Duration}
use option_engine.Candle.{Candle, Timeframe}

-- `strategylib.Decision`; `other` is any other string.
pub data Decision : Type 0 where
  buy sell exit ignore : Decision
  other : String → Decision

pub data Position : Type 0 where
  flat long short : Position

pub data Direction : Type 0 where
  long short : Direction

-- `P` stands for the parameters of a strategy, a map[string]any.
pub record Signal (F P : Type 0) : Type 0 where
  pub decision : Decision
  pub confidence : F
  pub strength : F
  pub score : F
  pub reasons : List String
  pub tags : List String
  pub indicators : Dict String F
  pub parameters : P
  pub generated_at : Instant

-- `I` is the type of a shared indicator store.
pub record Context (F I : Type 0) : Type 0 where
  pub symbol : String
  pub timeframe : Timeframe
  pub candle : Candle F
  pub history : List (Candle F)
  pub position : Position
  pub market_regime : String
  pub bar_index : ℕ
  pub store : Option I
  pub timestamp : Instant

-- What the simulator uses of a plugin: `evaluate` goes from the strategy's own state to the next one.
pub record Strategy (F P I S : Type 0) : Type 0 where
  pub name : String
  pub version : String
  pub warmup_bars : ℤ
  pub parameters : S → P
  pub evaluate : Context F I → S → Signal F P × S

pub record SimulatorConfig (F : Type 0) : Type 0 where
  pub initial_capital : F
  pub quantity : ℤ
  pub commission : F
  pub tax_rate : F
  pub slippage_pct : F

pub record SimulatedTrade (F P : Type 0) : Type 0 where
  pub strategy : String
  pub strategy_version : String
  pub parameter_set : P
  pub entry_signal : Signal F P
  pub exit_signal : Signal F P
  pub symbol : String
  pub timeframe : Timeframe
  pub entry_time : Instant
  pub exit_time : Instant
  pub entry_price : F
  pub exit_price : F
  pub quantity : ℤ
  pub direction : Direction
  pub commission : F
  pub taxes : F
  pub slippage : F
  pub gross_profit : F
  pub net_profit : F
  pub return_percent : F
  pub max_favorable_excursion : F
  pub max_adverse_excursion : F
  pub bars_held : ℤ
  pub holding_duration : Duration
  pub market_regime : String
  pub exit_reason : String
  pub risk_reward : F
  pub expectancy_contribution : F

pub record SimulationMetrics : Type 0 where
  pub buy_signals : ℕ
  pub sell_signals : ℕ
  pub exit_signals : ℕ
  pub opens_long : ℕ
  pub opens_short : ℕ
  pub closes : ℕ
  pub ignored_buy_long : ℕ
  pub ignored_sell_short : ℕ
  pub ignored_exit_flat : ℕ
  pub end_of_data_closes : ℕ

abbrev pub no_metrics : SimulationMetrics
no_metrics = record {
  buy_signals = 0;
  sell_signals = 0;
  exit_signals = 0;
  opens_long = 0;
  opens_short = 0;
  closes = 0;
  ignored_buy_long = 0;
  ignored_sell_short = 0;
  ignored_exit_flat = 0;
  end_of_data_closes = 0;
}

-- `IsAction`
abbrev pub is_action : Decision → Bool
is_action buy = true
is_action sell = true
is_action exit = true
is_action _ = false

module _ {F : Type 0} ⦃f : Float F⦄ where
  -- `withDefaults`
  unfoldable pub with_defaults : SimulatorConfig F → SimulatorConfig F
  with_defaults c = record c {
    initial_capital =
        if le f.lt f.eq c.initial_capital (f.of_int (pos 0))
        then f.of_int (pos 100_000)
        else c.initial_capital;
    quantity = if leb_ℤ c.quantity (pos 0) then pos 1 else c.quantity;
  }
