-- ===== src/Alerts/Spacing.antt =====
-- How alerts of the same content are spaced: alerts/engine.go.
use mathlib.Core.Option.{some-injective}
use option_engine.Common.{
  ◌+◌, ◌≤◌, ◌≡◌, refl, sym, ap, false, String, some, inl, inr, List, [], ◌∷◌, arith, Bool-cases,
  Option-cases, string_eq, length, All, All-map,
}
use option_engine.Common.Int.{ℤ, pos, pos_part, ◌<ℤ◌}
use option_engine.Common.Dict.{get, has, get-put_self}
use option_engine.Common.Float.{Float}
use option_engine.Domain.{Instant}
use option_engine.Alerts.{
  Text, CandidateAlert, StateUpdate, FingerprintKey, fingerprint_eq, Cache, Engine, Config,
}
use option_engine.Alerts.Store.{
  is_cooling, should_emit, next_alert_id, key_of, mark_seen, is_empty, cooldown_of, new_cache,
}
use option_engine.Alerts.Rules.{
  publish, handle_candidate, candidate_loop, evaluate_alerts, parse_state_update, respond,
  note_none, time_of, is_valid, with_defaults, handle, handle_all, new_engine,
}
use option_engine.Common.Pairwise.{Pairwise}
use option_engine.Alerts.Cooldown.{
  fingerprint, Spaced, Remembered, IsSpaced, record_alert-IsSpaced, emitted, emit_old,
}

module _ {F : Type 0} ⦃f : Float F⦄ (fmt : Text F) where
  -- Remembering an emission keeps what is known of the alerts so far, and spaces the next one.
  emitted-IsSpaced :
      (cooldown : ℤ) (key : FingerprintKey) (at : Instant) (c : Cache F)
      → IsSpaced cooldown c
      → is_cooling c.cooldown at (get key c.last_emitted) ≡ false
      → IsSpaced cooldown (emitted key at c)
        × All (λ a. fingerprint a ≡ key → a.generated_at + pos_part cooldown ≤ at) c.history
  emitted-IsSpaced cooldown key at c i h =
      let h' = rw i.configured at h in
      (
        record {
          configured = i.configured;
          positive = i.positive;
          limit = i.limit;
          bounded = i.bounded;
          remembered =
              All-map (Remembered c) (Remembered (emitted key at c)) c.history
                (λ a r. (emit_old cooldown key at c a i.positive h' r).0) i.remembered;
          spaced = i.spaced;
        },
        All-map (Remembered c) _ c.history (λ a r. (emit_old cooldown key at c a i.positive h' r).1)
            i.remembered,
      )

  publish-IsSpaced :
      (cooldown : ℤ) (u : StateUpdate F) (x : CandidateAlert) (at : Instant) (c : Cache F)
      → IsSpaced cooldown c
      → is_cooling c.cooldown at (get (key_of u x.alert_type x.reason) c.last_emitted) ≡ false
      → IsSpaced cooldown (publish fmt u x at (emitted (key_of u x.alert_type x.reason) at c))
  unfolding publish next_alert_id
  publish-IsSpaced cooldown u x at c i h =
      let key = key_of u x.alert_type x.reason in
      let next = emitted-IsSpaced cooldown key at c i h in
      let numbered = (next_alert_id fmt u.symbol at (emitted key at c)).1 in
      let i' : IsSpaced cooldown numbered = record {
        configured = next.0.configured;
        positive = next.0.positive;
        limit = next.0.limit;
        bounded = next.0.bounded;
        remembered = next.0.remembered;
        spaced = next.0.spaced;
      } in
      elim (Bool-cases (fmt.encodes u.confidence)) [
        | inl y ↦ rw y (
            record_alert-IsSpaced cooldown numbered _ i'
              (at, get-put_self key at c.last_emitted, omega arith) next.1)
        | inr n ↦ rw n i'
      ]

  handle_candidate-IsSpaced :
      (cooldown : ℤ) (u : StateUpdate F) (at : Instant) (x : CandidateAlert) (e : Engine F)
      → IsSpaced cooldown e.cache
      → IsSpaced cooldown (handle_candidate fmt u at x e).cache
  unfolding handle_candidate should_emit
  handle_candidate-IsSpaced cooldown u at x e i =
      elim (Bool-cases (
        is_cooling e.cache.cooldown at
          (get (key_of u x.alert_type x.reason) e.cache.last_emitted))) [
            | inl y ↦ rw y i
            | inr n ↦ rw n (publish-IsSpaced cooldown u x at e.cache i n)
          ]

  candidate_loop-IsSpaced :
      (cooldown : ℤ) (u : StateUpdate F) (at : Instant) (xs : List CandidateAlert) (e : Engine F)
      → IsSpaced cooldown e.cache
      → IsSpaced cooldown (candidate_loop fmt u at xs e).cache
  unfolding candidate_loop
  candidate_loop-IsSpaced cooldown u at [] e i = i
  candidate_loop-IsSpaced cooldown u at (x ∷ xs) e i =
      candidate_loop-IsSpaced cooldown u at xs (handle_candidate fmt u at x e)
        (handle_candidate-IsSpaced cooldown u at x e i)

  mark_seen-IsSpaced :
      (cooldown : ℤ) (id : String) (c : Cache F)
      → IsSpaced cooldown c
      → IsSpaced cooldown (mark_seen id c).1
  unfolding mark_seen
  mark_seen-IsSpaced cooldown id c i = elim (Bool-cases (has id c.seen_recommendations)) [
    | inl y ↦ rw y i
    | inr n ↦ rw n (record {
      configured = i.configured;
      positive = i.positive;
      limit = i.limit;
      bounded = i.bounded;
      remembered = i.remembered;
      spaced = i.spaced;
    })
  ]

  respond-IsSpaced :
      (cooldown : ℤ) (u : StateUpdate F) (at : Instant) (e : Engine F)
      → IsSpaced cooldown e.cache
      → IsSpaced cooldown (respond fmt u at e).cache
  unfolding respond note_none
  respond-IsSpaced cooldown u at e i =
      let seen = mark_seen u.recommendation_id e.cache in
      let marked = record e { cache = seen.1 } in
      let xs = evaluate_alerts fmt u e.cfg seen.0 in
      let i' = mark_seen-IsSpaced cooldown u.recommendation_id e.cache i in
      elim (Bool-cases (is_empty xs)) [
        | inr k ↦ rw k (candidate_loop-IsSpaced cooldown u at xs marked i')
        | inl k ↦ elim (Bool-cases seen.0) [ inl s ↦ rw (k, s) i' | inr s ↦ rw (k, s) i' ]
      ]

  handle-IsSpaced :
      (cooldown : ℤ) (raw : StateUpdate F) (now : Instant) (e : Engine F)
      → IsSpaced cooldown e.cache
      → IsSpaced cooldown (handle fmt raw now e).cache
  unfolding handle
  handle-IsSpaced cooldown raw now e i = elim (Option-cases (parse_state_update fmt raw)) [
    | inl n ↦ rw (n, handle) i
    | inr (u, y) ↦ rw (y, handle) (respond-IsSpaced cooldown u (time_of fmt u now) e i)
  ]

  handle_all-IsSpaced :
      (cooldown : ℤ) (us : List (StateUpdate F × Instant)) (e : Engine F)
      → IsSpaced cooldown e.cache
      → IsSpaced cooldown (handle_all fmt us e).cache
  unfolding handle_all
  handle_all-IsSpaced cooldown [] e i = i
  handle_all-IsSpaced cooldown ((u, now) ∷ us) e i =
      handle_all-IsSpaced cooldown us (handle fmt u now e) (handle-IsSpaced cooldown u now e i)

  new_cache-IsSpaced :
      (cooldown : ℤ)
      → IsSpaced {F = F} (new_cache {F = F} cooldown).cooldown (new_cache {F = F} cooldown)
  unfolding new_cache
  new_cache-IsSpaced cooldown = record {
    configured = refl;
    positive = ground arith;
    limit = refl;
    bounded = omega arith;
    remembered = tt;
    spaced = tt;
  }

  -- Whatever updates a new engine handles, and in whatever order their times are, two alerts of its
  -- history with the same recommendation, type, status and reason are at least the cooldown apart, the
  -- later one in the history also later in time; the cooldown is positive, and the history holds at most
  -- 10,000 alerts.
  pub alerts-Spaced :
      (default : F) (config : Config F) (e : Engine F) (us : List (StateUpdate F × Instant))
      → new_engine fmt default config ≡ some e
      → Pairwise (Spaced e.cache.cooldown) (handle_all fmt us e).cache.history
        × (pos 0 <ℤ e.cache.cooldown)
        × (length (handle_all fmt us e).cache.history ≤ 10_000)
  unfolding new_engine
  alerts-Spaced default config e us h =
      elim (Bool-cases (is_valid fmt (with_defaults fmt default config))) [
        | inr n ↦ absurd (cc (rw n at h))
        | inl y ↦
            let cache = new_cache (cooldown_of (with_defaults fmt default config)) in
            let same : e.cache ≡ cache =
              sym (ap (λ (e : Engine F). e.cache) (some-injective _ _ (rw y at h))) in
            let i : IsSpaced e.cache.cooldown e.cache =
              rw same (new_cache-IsSpaced (cooldown_of (with_defaults fmt default config))) in
            let last = handle_all-IsSpaced e.cache.cooldown us e i in
            (last.spaced, last.positive, last.bounded)
      ]
