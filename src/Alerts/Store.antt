-- ===== src/Alerts/Store.antt =====
-- alerts/{cache,config,health}.go: what the engine remembers and counts.
use option_engine.Common.{
  ℕ, ◌+◌, ◌-◌, Bool, true, false, not, ◌&&◌, String, Option, none, some, List, [], ◌∷◌, ◌++◌, ltb,
  if◌then◌else◌, ◌==◌, string_eq, length, drop, keep,
}
use option_engine.Common.Int.{ℤ, pos, ◌-ℤ◌, ◌*ℤ◌, leb_ℤ, ltb_ℤ, int64, u64}
use option_engine.Common.Dict.{get, put, has}
use option_engine.Common.Float.{Float}
use option_engine.Domain.{Instant}
use option_engine.Alerts.{
  Text, AlertType, recommendation_created, confidence_increased, confidence_decreased,
  status_changed, entry_zone_reached, exit_recommended, recommendation_closed, StateUpdate,
  AlertGenerated, CandidateAlert, Config, FingerprintKey, fingerprint_eq, DateKey, date_key_eq,
  AlertId, Cache, Health,
}

abbrev or_zero : Option ℕ → ℕ
or_zero none = 0
or_zero (some n) = n

abbrev counted : ℕ → ℕ
counted n = u64 (n + 1)

-- `recordNoMeaningfulAlert`
unfoldable pub record_no_meaningful_alert : Health → Health
record_no_meaningful_alert h = record h { duplicates_suppressed = counted h.duplicates_suppressed }

-- The switch of `record`.
unfoldable pub record_type : AlertType → Health → Health
record_type confidence_increased h = record h { confidence_alerts = counted h.confidence_alerts }
record_type confidence_decreased h = record h { confidence_alerts = counted h.confidence_alerts }
record_type status_changed h = record h { status_alerts = counted h.status_alerts }
record_type entry_zone_reached h = record h { status_alerts = counted h.status_alerts }
record_type exit_recommended h = record h { status_alerts = counted h.status_alerts }
record_type recommendation_created h = record h { created_alerts = counted h.created_alerts }
record_type recommendation_closed h = record h { closed_alerts = counted h.closed_alerts }

-- `healthSnapshot.record`
unfoldable pub record_health : AlertType → Bool → Bool → Bool → Health → Health
record_health t emitted duplicate cooldown h =
    if cooldown
    then record h { cooldown_suppressed = counted h.cooldown_suppressed }
    else if duplicate
    then record h { duplicates_suppressed = counted h.duplicates_suppressed }
    else if not emitted
    then h
    else record_type t (record h { alerts_generated = counted h.alerts_generated })

abbrev pub no_health : Health
no_health = record {
  alerts_generated = 0;
  duplicates_suppressed = 0;
  confidence_alerts = 0;
  status_alerts = 0;
  created_alerts = 0;
  closed_alerts = 0;
  cooldown_suppressed = 0;
}

abbrev pub is_empty : List CandidateAlert → Bool
is_empty [] = true
is_empty (x ∷ xs) = false

-- `at.Sub(last) < c.cooldown`; `Sub` stops at the bounds of int64, which `cooldown` does not pass.
abbrev pub is_cooling : ℤ → Instant → Option Instant → Bool
is_cooling cooldown at none = false
is_cooling cooldown at (some last) = ltb_ℤ (pos at -ℤ pos last) cooldown

module _ {F : Type 0} where
  -- `NewCache`
  unfoldable pub new_cache : ℤ → Cache F
  new_cache cooldown = record {
    cooldown = if leb_ℤ cooldown (pos 0) then pos 300_000_000_000 else cooldown;
    max_history = 10_000;
    seen_recommendations = [];
    last_emitted = [];
    seq_by_symbol_date = [];
    history = [];
  }

  -- `Config.Cooldown`: a product of int64.
  unfoldable pub cooldown_of : Config F → ℤ
  cooldown_of cfg = int64 (cfg.cooldown_seconds *ℤ pos 1_000_000_000)

  -- `MarkSeen`
  unfoldable pub mark_seen : String → Cache F → Bool × Cache F
  mark_seen id c =
      if has id c.seen_recommendations
      then (false, c)
      else (true, record c { seen_recommendations = put id tt c.seen_recommendations })

  abbrev pub key_of : StateUpdate F → AlertType → String → FingerprintKey
  key_of update t reason = record {
    recommendation_id = update.recommendation_id;
    alert_type = t;
    current_status = update.current_status;
    reason = reason;
  }

  -- `ShouldEmit`
  unfoldable pub should_emit :
      StateUpdate F → AlertType → String → Instant → Cache F → Bool × Cache F
  should_emit update t reason at c =
      let key = key_of update t reason in
      if is_cooling c.cooldown at (get key c.last_emitted)
      then (false, c)
      else (true, record c { last_emitted = put key at c.last_emitted })

  -- `Record`
  unfoldable pub record_alert : AlertGenerated F → Cache F → Cache F
  record_alert alert c =
      let history = c.history ++ alert ∷ [] in
      record c {
        history =
            if ltb c.max_history (length history)
            then drop (length history - c.max_history) history
            else history;
      }

module _ {F : Type 0} ⦃f : Float F⦄ (fmt : Text F) where
  -- `NextAlertID`
  unfoldable pub next_alert_id : String → Instant → Cache F → AlertId × Cache F
  next_alert_id symbol at c =
      let key : DateKey = record { date = fmt.date_of at; symbol = symbol } in
      let number = counted (or_zero (get key c.seq_by_symbol_date)) in
      (
        record { date = fmt.date_of at; symbol = symbol; number = number },
        record c { seq_by_symbol_date = put key number c.seq_by_symbol_date },
      )

  -- `List`: the strategy is not looked at.
  abbrev pub passes : String → String → String → F → AlertGenerated F → Bool
  passes symbol timeframe status confidence_min a =
      not (not (symbol == "") && not (a.symbol == symbol))
      && not (not (timeframe == "") && not (a.timeframe == timeframe))
      && not (not (status == "") && not (a.current_status == status))
      && not (f.lt (f.of_int (pos 0)) confidence_min && f.lt a.confidence confidence_min)

  unfoldable pub list : String → String → String → String → F → Cache F → List (AlertGenerated F)
  list symbol strategy timeframe status confidence_min c =
      keep (passes symbol timeframe status confidence_min) c.history
