-- ===== src/WalkForward/Leakage.antt =====
-- The windows of internal/walkforward/windows.go do not test on what they trained on.
use mathlib.Core.Option.{some-injective}
use option_engine.Common.{
  ℕ, ◌≤◌, ◌<◌, ◌≡◌, refl, sym, ap, ◌∙◌, ◌⊎◌, inl, inr, ◌||◌, Bool, true, false, String, none, some,
  List, arith, ltb, ltb→lt, Bool-cases, if◌then◌else◌, ◌==◌, string_eq, get_elem?,
}
use option_engine.Common.Int.{ℤ, pos_part, ltb_ℤ, ◌<ℤ◌}
use option_engine.Domain.{Instant}
use option_engine.WalkForward.{Window, window_at, generate_windows}
use option_engine.WalkForward.Windows.{
  IsDayCount, refused, generate_windows-IsAll, validation_order, window_within,
}

kept :
    (b c : Bool) (v w : Window)
    → (if b || c then none else some v) ≡ some w
    → (v ≡ w) × (b ≡ false) × (c ≡ false)
kept false false v w h = (some-injective v w h, refl, refl)
kept false true v w h = cc
kept true c v w h = cc

module _ (add_days : Instant → ℕ → Instant) (days : IsDayCount add_days) (fresh_id : String) where
  -- A window of the result is the one of its index, the arguments are good, and it ends in time.
  generated :
      (id : String) (data_start data_end : Instant) (train validation step : ℤ) (ws : List Window)
      (j : ℕ) (w : Window)
      → generate_windows add_days fresh_id id data_start data_end train validation step ≡ some ws
      → get_elem? ws j ≡ some w
      → (w
          ≡ window_at add_days
              (if id == "" then fresh_id else id)
              data_start
              (pos_part train)
              (pos_part validation)
              (pos_part step)
              j)
        × (refused data_start data_end train validation step ≡ false)
        × (w.validation_end ≤ data_end)
  generated id data_start data_end train validation step ws j w made h =
      let all =
        generate_windows-IsAll add_days days fresh_id id data_start data_end train validation
          step in
      let same : all.0 ≡ ws = some-injective _ _ (sym all.1 ∙ made) in
      let at = sym (all.2 j) ∙ ap (λ l. get_elem? l j) same ∙ h in
      let v =
        window_at add_days (if id == "" then fresh_id else id) data_start (pos_part train)
          (pos_part validation) (pos_part step) j in
      let t =
        kept (refused data_start data_end train validation step) (ltb data_end v.validation_end) v w
          at in
      let in_time : v.validation_end ≤ data_end = ground (arith, t.2) in
      (sym t.0, t.1, rw t.0 at in_time)

  -- Where clocks are not put forward or back, each generated window, also if it is the only one,
  -- trains within the data before it validates, right up to the validation, which ends within the
  -- data. And a later window validates only after it has, unless the validation is longer than the
  -- step.
  pub windows_disjoint :
      (id : String) (data_start data_end : Instant) (train validation step : ℤ) (ws : List Window)
      (i j : ℕ) (v w : Window)
      → generate_windows add_days fresh_id id data_start data_end train validation step ≡ some ws
      → get_elem? ws i ≡ some v
      → get_elem? ws j ≡ some w
      → i ≤ j
      → (data_start ≤ v.train_start)
        × (v.train_start < v.train_end)
        × (v.train_end ≡ v.validation_start)
        × (v.validation_start < v.validation_end)
        × (v.validation_end ≤ data_end)
        × ((i ≡ j) ⊎ (step <ℤ validation) ⊎ (v.validation_end ≤ w.validation_start))
  windows_disjoint id data_start data_end train validation step ws i j v w made hv hw l =
      let first = generated id data_start data_end train validation step ws i v made hv in
      let later = generated id data_start data_end train validation step ws j w made hw in
      let ident = if id == "" then fresh_id else id in
      let within =
        window_within add_days days ident data_start data_end (pos_part train) (pos_part validation)
          (pos_part step) i (ground (arith, first.1)) (ground (arith, first.1)) in
      let apart : (i ≡ j) ⊎ (step <ℤ validation) ⊎ (v.validation_end ≤ w.validation_start) =
        elim (Bool-cases (ltb i j)) [
          | inr n ↦ inl (ground (arith, n, l))
          | inl y ↦ elim (Bool-cases (ltb_ℤ step validation)) [
            | inl long ↦ inr (inl (ground (arith, long)))
            | inr short ↦ inr (
                inr (
                  rw (first.0, later.0)
                    (validation_order add_days days ident data_start (pos_part train)
                      (pos_part validation) (pos_part step) i j (ltb→lt i j y)
                      (ground (arith, first.1, short)))))
          ]
        ] in
      (
        rw first.0 within.0,
        rw first.0 within.1,
        rw first.0 within.2,
        rw first.0 within.3,
        first.2,
        apart,
      )
