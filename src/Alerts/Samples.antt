-- ===== src/Alerts/Samples.antt =====
-- The alert engine at concrete inputs.
use option_engine.Common.{
  refl, ap, ℕ, ◌≤◌, ◌≡◌, true, String, Option, none, some, List, [], ◌∷◌, length, arith,
}
use option_engine.Common.Int.{ℤ, pos, ◌<ℤ◌}
use option_engine.Common.Float.{int_float}
use option_engine.Domain.{Instant}
use option_engine.Alerts.{Text, StateUpdate, Config, Engine}
use option_engine.Alerts.Store.{new_cache, no_health}
use option_engine.Alerts.Rules.{new_engine, with_defaults, handle_all}
use option_engine.Common.Pairwise.{Pairwise}
use option_engine.Alerts.Cooldown.{Spaced}
use option_engine.Alerts.Spacing.{alerts-Spaced}

abbrev plain : Text ℤ
plain = record {
  trim_space = λ s. s;
  to_upper = λ s. s;
  equal_fold = λ s t. true;
  parse_float = λ s. some (pos 1);
  abs = λ a. a;
  sprintf = λ s args. s;
  date_of = λ t. "20260302";
  encodes = λ a. true;
}

abbrev config : Config ℤ
config = record {
  enabled = true;
  subscriber_buffer = pos 0;
  confidence_change_threshold = pos 0;
  cooldown_seconds = pos 2;
}

abbrev update_at : Instant → StateUpdate ℤ
update_at t = record {
  recommendation_id = "R1";
  symbol = "A";
  timeframe = "5m";
  strategy = "trend";
  current_status = "ACTIVE";
  confidence = pos 1;
  latest_timeline_entry = record {
    timestamp = t;
    event = "Exit Recommended";
    reason = "stop";
    previous_value = "";
    new_value = "";
  };
  summary = "";
}

-- The second update comes within the cooldown, and the third is out of order.
abbrev updates : List (StateUpdate ℤ × Instant)
updates =
    (update_at 5_000_000_000, 0)
    ∷ (update_at 6_000_000_000, 0)
    ∷ (update_at 1_000_000_000, 0)
    ∷ (update_at 7_000_000_000, 0)
    ∷ []

abbrev engine : Engine ℤ
engine = record {
  cfg = with_defaults plain (pos 1) config;
  cache = new_cache (pos 2_000_000_000);
  health = no_health;
}

made : new_engine plain (pos 1) config ≡ some engine
unfolding new_engine option_engine.Alerts.Rules.is_valid with_defaults
    option_engine.Alerts.Store.cooldown_of option_engine.Common.Int.int64
    option_engine.Common.Int.◌*ℤ◌
made = refl

-- The creation, and two of the four exits.
three_alerts : length (handle_all plain updates engine).cache.history ≡ 3
unfolding handle_all option_engine.Alerts.Rules.handle option_engine.Alerts.Rules.parse_state_update
    option_engine.Alerts.Rules.respond option_engine.Alerts.Rules.evaluate_alerts
    option_engine.Alerts.Store.mark_seen option_engine.Alerts.Rules.candidate_loop
    option_engine.Alerts.Rules.event_alerts option_engine.Alerts.Rules.handle_candidate
    option_engine.Alerts.Store.should_emit option_engine.Alerts.Rules.publish
    option_engine.Alerts.Store.record_alert option_engine.Alerts.Store.next_alert_id
    option_engine.Alerts.Rules.note_none option_engine.Alerts.Store.record_health
    option_engine.Alerts.Store.record_type new_cache option_engine.Common.Dict.get
    option_engine.Common.Dict.put option_engine.Common.Int.◌-ℤ◌
three_alerts = refl

alerts-Spaced_example :
    Pairwise (Spaced engine.cache.cooldown) (handle_all plain updates engine).cache.history
    × (pos 0 <ℤ engine.cache.cooldown)
    × (length (handle_all plain updates engine).cache.history ≤ 10_000)
alerts-Spaced_example = alerts-Spaced plain (pos 1) config engine updates made
