-- ===== src/Risk/Samples.antt =====
-- The risk engine at concrete inputs: an engine with room for one position and two trades a day.
use option_engine.Common.{
  ◌-◌, ◌%◌, ◌≡◌, refl, ◌&&◌, true, some, List, [], ◌∷◌, arith, if◌then◌else◌,
}
use option_engine.Common.Int.{ℤ, pos}
use option_engine.Common.Dict.{get, put, count_where}
use option_engine.Common.Float.{int_float}
use option_engine.Domain.{Instant, Action, long_entry, short_entry, long_exit, series_key_eq}
use option_engine.Risk.{
  flat, long, approved, rejected, Config, InputDecision, Cache, new_cache, with_defaults, process,
  process_all, position_of, key_of, evaluate, reset_day_if_needed, start_day, series_state, decide,
  is_full, refuse, approve, new_trade_intent, apply, moved, is_approved,
}
use option_engine.Risk.Moves.{Move, process-Move, process_position}
use option_engine.Risk.Limits.{IsUsable, Inv, process_all_within_limits}
use option_engine.Risk.Days.{approvals, exhausted_refuses_exits}

abbrev pub sample_config : Config ℤ
sample_config = record {
  enabled = true;
  subscriber_buffer = pos 256;
  min_confidence = pos 1;
  max_positions = pos 1;
  max_trades_per_day = pos 2;
  default_quantity = pos 1;
  day_reset_timezone = "UTC";
}

-- Days of a hundred nanoseconds.
abbrev pub sample_day : Instant → Instant
sample_day t = t - t % 100

abbrev pub decision_at : Action → Instant → InputDecision ℤ
decision_at a t = record {
  symbol = "NIFTY";
  timeframe = "5m";
  decision = a;
  strategy = "trend";
  confidence = pos 3;
  timestamp = t;
  reason = "signal";
}

abbrev pub sample_cache : Cache
sample_cache = new_cache sample_day

abbrev used_up : Cache
used_up = record {
  series = (key_of (decision_at long_entry 110), long) ∷ [];
  trades_today = 2;
  reset_day = 100;
  location = some sample_day;
}

abbrev sample_session : List (InputDecision ℤ)
sample_session =
    decision_at long_entry 110 ∷ decision_at long_exit 120 ∷ decision_at short_entry 130 ∷ []

pub entry_approved :
    (process sample_config (decision_at long_entry 110) sample_cache).1.status ≡ approved
unfolding process evaluate reset_day_if_needed start_day series_state decide is_full approve
    new_trade_intent new_cache get count_where put
entry_approved = refl

session_statuses : approvals (process_all sample_config sample_session sample_cache).1 ≡ 2
unfolding process_all process evaluate reset_day_if_needed start_day series_state decide is_full
    approve refuse new_trade_intent new_cache get put count_where apply moved
session_statuses = refl

sample_IsUsable : IsUsable sample_config
sample_IsUsable = record { positions = omega arith; trades = omega arith }

sample_Inv : Inv sample_config sample_cache
unfolding new_cache count_where
sample_Inv = record { active = omega arith; trades = omega arith }

process_all_within_limits_example :
    Inv
      (with_defaults (pos 1) sample_config)
      (process_all (with_defaults (pos 1) sample_config) sample_session sample_cache).0
process_all_within_limits_example =
    process_all_within_limits (pos 1) sample_config sample_day sample_session

process-Move_example : Move flat long_entry (
    position_of
      (process sample_config (decision_at long_entry 110) sample_cache).0
      (key_of (decision_at long_entry 110)))
unfolding new_cache get
process-Move_example =
    process-Move sample_config (decision_at long_entry 110) sample_cache entry_approved

process_position_example :
    let (c', intent) = process sample_config (decision_at long_entry 110) sample_cache in
    position_of c' (key_of (decision_at long_entry 110))
    ≡ (if is_approved intent.status && true then long else flat)
unfolding new_cache get moved
process_position_example =
    process_position sample_config (decision_at long_entry 110) sample_cache
      (key_of (decision_at long_entry 110))

exhausted_refuses_exits_example :
    let (c', i) = process sample_config (decision_at long_exit 140) used_up in
    (i.status ≡ rejected) × (position_of c' (key_of (decision_at long_exit 140)) ≡ long)
unfolding get
exhausted_refuses_exits_example =
    exhausted_refuses_exits sample_config (decision_at long_exit 140) used_up sample_day refl
      (omega arith) (omega arith) (omega arith)
