-- ===== src/Strategy/Samples.antt =====
-- The strategy rules at a concrete input.
use option_engine.Common.{
  refl, not, if◌then◌else◌, ◌≡◌, true, false, none, some, [], ◌∷◌, All, String, List,
}
use option_engine.Common.Int.{ℤ, pos}
use option_engine.Common.Dict.{get}
use option_engine.Common.Float.{int_float}
use option_engine.Domain.{Action, series_key_eq}
use option_engine.Strategy.{
  InputSignal, Cache, Config, StrategyDecision, key_of, state_or_fresh, process, with_defaults,
}
use option_engine.Strategy.Legality.{IsSound, process-IsSound}

abbrev config : Config ℤ
config = record {
  enabled = true;
  subscriber_buffer = pos 256;
  min_confidence = pos 2;
  trend_following = true;
  mean_reversion = false;
  breakout = false;
}

abbrev buy : String → InputSignal ℤ
buy strategy = record {
  symbol = "A";
  timeframe = "5m";
  signal = "BUY";
  strategy = strategy;
  confidence = pos 3;
  timestamp = 100;
}

abbrev crossed : Cache ℤ
crossed = (process (λ a b. a) config (buy "ema_cross") []).1

abbrev actions : List (StrategyDecision ℤ) → List Action
actions [] = []
actions (d ∷ ds) = d.decision ∷ actions ds

-- The second of the two crosses opens a long position.
confirmed_entry :
    actions (process (λ a b. a) config (buy "macd_cross") crossed).0 ≡ Action.long_entry ∷ []
unfolding process option_engine.Strategy.evaluate get option_engine.Strategy.update
    option_engine.Common.Dict.put option_engine.Strategy.record_all
    option_engine.Strategy.eval_state option_engine.Strategy.eval_pair
    option_engine.Strategy.align_entry_signals option_engine.Strategy.position_allows_entry
confirmed_entry = refl

process-IsSound_example :
    All
      (IsSound
        (λ a b. a)
        config
        (key_of (buy "macd_cross"))
        (state_or_fresh (get (key_of (buy "macd_cross")) crossed)).position)
      (process (λ a b. a) config (buy "macd_cross") crossed).0
process-IsSound_example = process-IsSound (λ a b. a) config (buy "macd_cross") crossed
