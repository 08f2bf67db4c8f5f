-- ===== src/Alerts/Cooldown.antt =====
-- What alerts/cache.go keeps apart, and how many it keeps.
use option_engine.Common.{
  ◌+◌, ◌-◌, ◌≤◌, ◌≡◌, sym, ◌∙◌, false, some, inl, inr, [], ◌∷◌, ◌++◌, arith, ltb, Bool-cases, ◌==◌,
  ==_iff, string_eq, length, length-drop, All, All-append,
}
use option_engine.Common.Int.{ℤ, pos, pos_part, ◌-ℤ◌, ◌<ℤ◌}
use option_engine.Common.Dict.{get, put, get-put}
use option_engine.Common.Arrays.{All-drop}
use option_engine.Domain.{Instant}
use option_engine.Alerts.{AlertGenerated, FingerprintKey, fingerprint_eq, Cache}
use option_engine.Alerts.Store.{is_cooling, record_alert}
use option_engine.Common.Pairwise.{Pairwise, Pairwise-snoc, Pairwise-drop}

-- Past the cooldown, what was remembered of the fingerprint lies a cooldown back.
cooled :
    (cooldown : ℤ) (at last : Instant)
    → is_cooling cooldown at (some last) ≡ false
    → pos 0 <ℤ cooldown
    → last + pos_part cooldown ≤ at
unfolding ◌-ℤ◌
cooled cooldown at last h p = ground (arith, h, p)

module _ {F : Type 0} where
  abbrev pub fingerprint : AlertGenerated F → FingerprintKey
  fingerprint a = record {
    recommendation_id = a.recommendation_id;
    alert_type = a.alert_type;
    current_status = a.current_status;
    reason = a.reason;
  }

  -- Alerts with the same fingerprint are at least a cooldown apart, the later one last.
  abbrev pub Spaced : ℤ → AlertGenerated F → AlertGenerated F → Type 0
  Spaced cooldown a b =
      fingerprint a ≡ fingerprint b → a.generated_at + pos_part cooldown ≤ b.generated_at

  -- No alert is younger than what is remembered of its fingerprint.
  abbrev pub Remembered : Cache F → AlertGenerated F → Type 0
  Remembered c a =
      (last : Instant) × (get (fingerprint a) c.last_emitted ≡ some last) × (a.generated_at ≤ last)

  pub record IsSpaced (cooldown : ℤ) (c : Cache F) : Type 0 where
    pub configured : c.cooldown ≡ cooldown
    pub positive : pos 0 <ℤ cooldown
    pub limit : c.max_history ≡ 10_000
    pub bounded : length c.history ≤ 10_000
    pub remembered : All (Remembered c) c.history
    pub spaced : Pairwise (Spaced cooldown) c.history

  pub record_alert-IsSpaced :
      (cooldown : ℤ) (c : Cache F) (a : AlertGenerated F)
      → IsSpaced cooldown c
      → Remembered c a
      → All (λ x. Spaced cooldown x a) c.history
      → IsSpaced cooldown (record_alert a c)
  unfolding record_alert
  record_alert-IsSpaced cooldown c a i r s =
      let history = c.history ++ a ∷ [] in
      let remembered = All-append (Remembered c) c.history (a ∷ []) i.remembered (r, tt) in
      let spaced = Pairwise-snoc (Spaced cooldown) c.history a i.spaced s in
      let n = length history - c.max_history in
      elim (Bool-cases (ltb c.max_history (length history))) [
        | inl y ↦ rw y (record {
          configured = i.configured;
          positive = i.positive;
          limit = i.limit;
          bounded = omega (arith, length-drop n history, i.limit);
          remembered = All-drop (Remembered c) n history remembered;
          spaced = Pairwise-drop (Spaced cooldown) n history spaced;
        })
        | inr k ↦ rw k (record {
          configured = i.configured;
          positive = i.positive;
          limit = i.limit;
          bounded = ground (arith, k, i.limit);
          remembered = remembered;
          spaced = spaced;
        })
      ]

  abbrev pub emitted : FingerprintKey → Instant → Cache F → Cache F
  emitted key at c = record c { last_emitted = put key at c.last_emitted }

  pub emit_old :
      (cooldown : ℤ) (key : FingerprintKey) (at : Instant) (c : Cache F) (a : AlertGenerated F)
      → pos 0 <ℤ cooldown
      → is_cooling cooldown at (get key c.last_emitted) ≡ false
      → Remembered c a
      → Remembered (emitted key at c) a
        × (fingerprint a ≡ key → a.generated_at + pos_part cooldown ≤ at)
  emit_old cooldown key at c a p h (last, e, l) = elim (Bool-cases (key == fingerprint a)) [
    | inl y ↦
        let same : key ≡ fingerprint a = (==_iff key (fingerprint a)).0 y in
        let before : last + pos_part cooldown ≤ at =
          cooled cooldown at last (rw (same, e) at h) p in
        (
          (at, get-put key (fingerprint a) at c.last_emitted ∙ rw y, omega (arith, before, l)),
          λ _. omega (arith, before, l),
        )
    | inr n ↦ (
      (last, get-put key (fingerprint a) at c.last_emitted ∙ rw n e, l),
      λ same. absurd (ground (arith, n, (==_iff key (fingerprint a)).1 (sym same))),
    )
  ]
