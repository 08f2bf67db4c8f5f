-- ===== src/Alerts/Rules.antt =====
-- alerts/{config,rules,engine}.go: the rules and the handler.
use option_engine.Common.{
  Bool, true, false, not, ◌&&◌, ◌||◌, String, Option, none, some, List, [], ◌∷◌, ◌++◌,
  if◌then◌else◌, ◌==◌, string_eq,
}
use option_engine.Common.Int.{pos, leb_ℤ, ltb_ℤ}
use option_engine.Common.Float.{Float, le}
use option_engine.Domain.{Instant, is_zero}
use option_engine.Alerts.{
  Text, AlertType, recommendation_created, confidence_increased, confidence_decreased,
  status_changed, entry_zone_reached, exit_recommended, recommendation_closed, StateUpdate,
  TimelineEntry, CandidateAlert, Config, fingerprint_eq, date_key_eq, Cache, Engine,
}
use option_engine.Alerts.Store.{
  record_no_meaningful_alert, record_health, no_health, is_empty, new_cache, cooldown_of, mark_seen,
  should_emit, record_alert, next_alert_id,
}

module _ {F : Type 0} ⦃f : Float F⦄ (fmt : Text F) where
  -- `confidenceDelta`
  unfoldable pub confidence_delta : TimelineEntry → F
  confidence_delta e = elim (fmt.parse_float e.previous_value) [
    | none ↦ f.of_int (pos 0)
    | some prev ↦ elim (fmt.parse_float e.new_value) [
      | none ↦ f.of_int (pos 0)
      | some next ↦ fmt.abs (f.sub next prev)
    ]
  ]

  -- `isMeaningfulStatusTransition`
  unfoldable pub is_meaningful_status_transition : String → String → Bool
  is_meaningful_status_transition previous next =
      let p = fmt.to_upper (fmt.trim_space previous) in
      let n = fmt.to_upper (fmt.trim_space next) in
      not (p == "" || n == "" || p == n) && not (n == "ACTIVE")

  abbrev candidate : AlertType → String → List String → StateUpdate F → CandidateAlert
  candidate t message args u = record {
    alert_type = t;
    message = fmt.sprintf message args;
    reason = u.latest_timeline_entry.reason;
  }

  abbrev of_series : AlertType → String → StateUpdate F → List CandidateAlert
  of_series t message u = candidate t message (u.symbol ∷ u.timeframe ∷ []) u ∷ []

  -- The switch of `evaluateAlerts`.
  unfoldable pub event_alerts : StateUpdate F → Config F → List CandidateAlert
  event_alerts u cfg =
      let e = u.latest_timeline_entry in
      let big = le f.lt f.eq cfg.confidence_change_threshold (confidence_delta e) in
      if e.event == "Confidence Increased"
      then if big then of_series confidence_increased "Confidence increased for %s %s" u else []
      else if e.event == "Confidence Decreased"
      then if big then of_series confidence_decreased "Confidence decreased for %s %s" u else []
      else if e.event == "Exit Recommended"
      then of_series exit_recommended "Exit recommended for %s %s" u
      else if e.event == "Closed"
      then of_series recommendation_closed "Recommendation closed for %s %s" u
      else if e.event == "Status Changed"
      then if fmt.equal_fold e.new_value "ACTIVE"
        then of_series entry_zone_reached "Entry zone reached for %s %s" u
        else if is_meaningful_status_transition e.previous_value e.new_value
        then candidate status_changed "Status changed to %s for %s %s"
            (e.new_value ∷ u.symbol ∷ u.timeframe ∷ []) u
          ∷ []
        else []
      else []

  -- `evaluateAlerts`
  unfoldable pub evaluate_alerts : StateUpdate F → Config F → Bool → List CandidateAlert
  evaluate_alerts u cfg first_seen =
      (if first_seen then of_series recommendation_created "New recommendation for %s %s" u else [])
      ++ event_alerts u cfg

  -- `publish`: the alert is kept unless it cannot be encoded; the bus is left out.
  unfoldable pub publish : StateUpdate F → CandidateAlert → Instant → Cache F → Cache F
  publish u x at c =
      let (id, c') = next_alert_id fmt u.symbol at c in
      if fmt.encodes u.confidence
      then record_alert
          (record {
            alert_id = id;
            recommendation_id = u.recommendation_id;
            symbol = u.symbol;
            timeframe = u.timeframe;
            alert_type = x.alert_type;
            current_status = u.current_status;
            confidence = u.confidence;
            message = x.message;
            reason = x.reason;
            generated_at = at;
          })
          c'
      else c'

  -- One round of the loop of `handle`.
  unfoldable pub handle_candidate : StateUpdate F → Instant → CandidateAlert → Engine F → Engine F
  handle_candidate u at x e =
      let (allowed, c) = should_emit u x.alert_type x.reason at e.cache in
      if allowed
      then record e {
        cache = publish u x at c;
        health = record_health x.alert_type true false false e.health;
      }
      else record e { health = record_health x.alert_type false false true e.health }

  unfoldable pub candidate_loop :
      StateUpdate F → Instant → List CandidateAlert → Engine F → Engine F
  candidate_loop u at [] e = e
  candidate_loop u at (x ∷ xs) e = candidate_loop u at xs (handle_candidate u at x e)

  -- `parseStateUpdate`, on a payload that JSON has read.
  unfoldable pub parse_state_update : StateUpdate F → Option (StateUpdate F)
  parse_state_update raw =
      if raw.recommendation_id == "" || raw.symbol == "" || raw.timeframe == ""
      then none
      else some (record raw {
        strategy = fmt.trim_space raw.strategy;
        current_status = fmt.to_upper (fmt.trim_space raw.current_status);
      })

  -- The first branch of `handle` after `MarkSeen`: there are no candidates.
  unfoldable pub note_none : Bool → Engine F → Engine F
  note_none first_seen e =
      if first_seen then e else record e { health = record_no_meaningful_alert e.health }

  -- `handle` of a parsed update, at its time.
  unfoldable pub respond : StateUpdate F → Instant → Engine F → Engine F
  respond u at e =
      let seen = mark_seen u.recommendation_id e.cache in
      let candidates = evaluate_alerts u e.cfg seen.0 in
      let marked = record e { cache = seen.1 } in
      if is_empty candidates then note_none seen.0 marked else candidate_loop u at candidates marked

  abbrev pub time_of : StateUpdate F → Instant → Instant
  time_of u now =
      if is_zero u.latest_timeline_entry.timestamp then now else u.latest_timeline_entry.timestamp

  -- `handle`, at the clock's time `now`.
  unfoldable pub handle : StateUpdate F → Instant → Engine F → Engine F
  handle raw now e = elim (parse_state_update raw) [
    | none ↦ e
    | some u ↦ respond u (time_of u now) e
  ]

  unfoldable pub handle_all : List (StateUpdate F × Instant) → Engine F → Engine F
  handle_all [] e = e
  handle_all ((u, now) ∷ us) e = handle_all us (handle u now e)

  -- `WithDefaults`; `default` is 0.05.
  unfoldable pub with_defaults : F → Config F → Config F
  with_defaults default c = record c {
    subscriber_buffer = if leb_ℤ c.subscriber_buffer (pos 0) then pos 256 else c.subscriber_buffer;
    confidence_change_threshold =
        if le f.lt f.eq c.confidence_change_threshold (f.of_int (pos 0))
        then default
        else c.confidence_change_threshold;
    cooldown_seconds = if leb_ℤ c.cooldown_seconds (pos 0) then pos 300 else c.cooldown_seconds;
  }

  -- `Validate` finds nothing wrong.
  unfoldable pub is_valid : Config F → Bool
  is_valid c =
      not c.enabled
      || (not (ltb_ℤ c.subscriber_buffer (pos 1))
          && not (
              le f.lt f.eq c.confidence_change_threshold (f.of_int (pos 0))
              || f.lt (f.of_int (pos 1)) c.confidence_change_threshold)
          && not (ltb_ℤ c.cooldown_seconds (pos 1)))

  -- `New`, with a bus and a clock.
  unfoldable pub new_engine : F → Config F → Option (Engine F)
  new_engine default config =
      let cfg = with_defaults default config in
      if is_valid cfg
      then some (record { cfg = cfg; cache = new_cache (cooldown_of cfg); health = no_health })
      else none
