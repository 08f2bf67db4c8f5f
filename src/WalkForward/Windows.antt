-- ===== src/WalkForward/Windows.antt =====
-- Which windows `GenerateWindows` of internal/walkforward/windows.go makes, and how they lie.
use option_engine.Common.{
  ℕ, zero, suc, ◌+◌, ◌-◌, ◌*◌, ◌≤◌, ◌<◌, ◌≡◌, refl, ap, ◌∙◌, ◌||◌, Bool, true, false, String, none,
  some, inl, inr, List, [], ◌∷◌, ◌++◌, arith, ltb, ltb→lt, lt→ltb, Bool-cases, if◌then◌else◌, ◌==◌,
  string_eq, length, get_elem?, length-append,
}
use option_engine.Common.Int.{ℤ, pos, pos_part, ltb_ℤ}
use native.Mathlib.Nat.{mul-le-mul_left, mul-le-mul_right}
use option_engine.Common.Arrays.{get_elem?_end, get_elem?_front, get_elem?_last}
use option_engine.Domain.{Instant}
use option_engine.WalkForward.{Window, window_at, window_loop, generate_windows}

-- What is documented of adding days, where clocks are not put forward or back.
pub record IsDayCount (add_days : Instant → ℕ → Instant) : Type 0 where
  pub add_zero : (t : Instant) → add_days t 0 ≡ t
  pub add_add : (t : Instant) (m n : ℕ) → add_days (add_days t m) n ≡ add_days t (m + n)
  pub add_later : (t : Instant) (n : ℕ) → 0 < n → t < add_days t n

-- The arguments for which `GenerateWindows` returns nil.
abbrev pub refused : Instant → Instant → ℤ → ℤ → ℤ → Bool
refused data_start data_end train validation step =
    (ltb_ℤ train (pos 1) || ltb_ℤ validation (pos 1) || ltb_ℤ step (pos 1))
    || ltb data_end data_start

module _ (add_days : Instant → ℕ → Instant) (days : IsDayCount add_days) where
  -- More days lead further.
  add_strict : (t : Instant) (m n : ℕ) → m < n → add_days t m < add_days t n
  add_strict t m n h =
      let e : m + (n - m) ≡ n = omega arith in
      rw e at
        (rw (days.add_add t m (n - m)) at (days.add_later (add_days t m) (n - m) (omega arith)))

  add_mono : (t : Instant) (m n : ℕ) → m ≤ n → add_days t m ≤ add_days t n
  add_mono t m n h = elim (Bool-cases (ltb m n)) [
    | inl y ↦ omega (arith, add_strict t m n (ltb→lt m n y))
    | inr k ↦ let e : m ≡ n = ground (arith, k) in rw e (omega arith)
  ]

  -- Days are at least nanoseconds.
  add_grows : (t : Instant) (n : ℕ) → t + n ≤ add_days t n
  add_grows t zero = omega (arith, days.add_zero t)
  add_grows t (suc n) = omega (arith, add_grows t n, add_strict t n (suc n) (omega arith))

  module _ (id : String) (data_start data_end : Instant) (train validation step : ℕ) where
    abbrev at : ℕ → Window
    at = window_at add_days id data_start train validation step

    abbrev ends : ℕ → Instant
    ends k = (at k).validation_end

    ends_at : (k : ℕ) → ends k ≡ add_days data_start (k * step + train + validation)
    unfolding window_at
    ends_at k =
        days.add_add (add_days data_start (k * step)) train validation
        ∙ days.add_add data_start (k * step) (train + validation)
        ∙ ap (add_days data_start) (omega arith)

    ends_mono : (j k : ℕ) → j ≤ k → ends j ≤ ends k
    ends_mono j k h =
        rw (ends_at j, ends_at k)
          (add_mono data_start (j * step + train + validation) (k * step + train + validation)
            (omega (arith, mul-le-mul_right step h)))

    -- An index fits if its validation ends with the data or before.
    abbrev late : ℕ → Bool
    late k = ltb data_end (ends k)

    -- What the loop has when it comes to an index: that many windows, and each of them fits.
    record SoFar (k : ℕ) (ws : List Window) : Type 0 where
      sized : length ws ≡ k
      held : (j : ℕ) → j < k → (get_elem? ws j ≡ some (at j)) × (late j ≡ false)

    -- The windows are those of the indices that fit, in order.
    abbrev pub IsAll : List Window → Type 0
    IsAll ws = (j : ℕ) → get_elem? ws j ≡ (if late j then none else some (at j))

    none_yet : SoFar 0 []
    none_yet = record { sized = refl; held = λ j h. absurd (omega arith) }

    snoc-SoFar :
        (k : ℕ) (ws : List Window) → SoFar k ws → late k ≡ false → SoFar (k + 1) (ws ++ at k ∷ [])
    snoc-SoFar k ws i f = record {
      sized = omega (arith, i.sized, length-append ws (at k ∷ []));
      held = λ j h. elim (Bool-cases (ltb j k)) [
        | inl y ↦
            let l : j < k = ltb→lt j k y in
            (
              get_elem?_front ws (at k ∷ []) j (omega (arith, i.sized)) ∙ (i.held j l).0,
              (i.held j l).1,
            )
        | inr n ↦
            let e : j ≡ k = ground (arith, n, h) in
            rw e (rw i.sized at (get_elem?_last ws (at k)), f)
      ];
    }

    end-IsAll : (k : ℕ) (ws : List Window) → SoFar k ws → late k ≡ true → IsAll ws
    end-IsAll k ws i f j = elim (Bool-cases (ltb j k)) [
      | inl y ↦ let h = i.held j (ltb→lt j k y) in rw (h.0, h.1)
      | inr n ↦
          let l : k ≤ j = ground (arith, n) in
          let past : late j ≡ true =
            lt→ltb data_end (ends j) (omega (arith, ltb→lt data_end (ends k) f, ends_mono k j l)) in
          rw past (get_elem?_end ws j (omega (arith, i.sized)))
    ]

    -- With fuel up to an index that does not fit the loop ends.
    loop-IsAll :
        (fuel k : ℕ) (ws : List Window)
        → SoFar k ws
        → late (k + fuel) ≡ true
        → (vs : List Window) × (window_loop add_days
              (suc fuel)
              id
              data_start
              data_end
              train
              validation
              step
              k
              ws
            ≡ some vs)
          × IsAll vs
    unfolding window_loop
    loop-IsAll zero k ws i f =
        let z : k + 0 ≡ k = omega arith in
        let y : late k ≡ true = rw z at f in (ws, rw y, end-IsAll k ws i y)
    loop-IsAll (suc fuel) k ws i f = elim (Bool-cases (late k)) [
      | inl y ↦ (ws, rw y, end-IsAll k ws i y)
      | inr n ↦
          let z : k + 1 + fuel ≡ k + suc fuel = omega arith in
          let rest = loop-IsAll fuel (k + 1) (ws ++ at k ∷ []) (snoc-SoFar k ws i n) (rw z f) in
          (rest.0, rw n rest.1, rest.2)
    ]

    -- A window for each nanosecond of the data is too many.
    far-late : 0 < train → 0 < step → late (0 + (data_end - data_start)) ≡ true
    far-late t s =
        let n = data_end - data_start in
        let z : 0 + n ≡ n = omega arith in
        rw z (
          lt→ltb data_end (ends n) (
            omega (
              arith,
              ends_at n,
              add_grows data_start (n * step + train + validation),
              mul-le-mul_left {m = 1} {n = step} n s,
            )))

  module _ (fresh_id : String) where
    -- Where clocks are not put forward or back, `GenerateWindows` ends, and its result holds exactly the
    -- windows whose validation does not end after the data, in the order of their indices from 0 on;
    -- none if a length is below 1 or the data ends before it starts.
    pub generate_windows-IsAll :
        (id : String) (data_start data_end : Instant) (train validation step : ℤ)
        → (ws : List Window) × (generate_windows add_days fresh_id id data_start data_end train
              validation step
            ≡ some ws)
          × ((j : ℕ)
              → get_elem? ws j ≡ (
                  let w =
                    window_at add_days
                      (if id == "" then fresh_id else id)
                      data_start
                      (pos_part train)
                      (pos_part validation)
                      (pos_part step)
                      j in
                  if refused data_start data_end train validation step
                    || ltb data_end w.validation_end
                  then none
                  else some w))
    unfolding generate_windows
    generate_windows-IsAll id data_start data_end train validation step =
        let ident = if id == "" then fresh_id else id in
        elim (Bool-cases (ltb_ℤ train (pos 1) || ltb_ℤ validation (pos 1) || ltb_ℤ step (pos 1))) [
          | inl y ↦ ([], rw y, λ j. rw y)
          | inr n ↦ elim (Bool-cases (ltb data_end data_start)) [
            | inl y ↦ ([], rw (n, y), λ j. rw (n, y))
            | inr m ↦
                let t : 0 < pos_part train = ground (arith, n) in
                let s : 0 < pos_part step = ground (arith, n) in
                let fuel : data_end - data_start + 1 ≡ suc (data_end - data_start) = omega arith in
                let run =
                  loop-IsAll ident data_start data_end (pos_part train) (pos_part validation)
                    (pos_part step) (data_end - data_start) 0 []
                    (none_yet ident data_start data_end (pos_part train) (pos_part validation)
                      (pos_part step))
                    (far-late ident data_start data_end (pos_part train) (pos_part validation)
                      (pos_part step) t s) in
                (run.0, rw (n, m, fuel) run.1, λ j. rw (n, m) (run.2 j))
          ]
        ]

  -- A later window validates after an earlier one, if steps are no shorter than validations.
  pub validation_order :
      (id : String) (data_start : Instant) (train validation step i j : ℕ)
      → i < j
      → validation ≤ step
      → (window_at add_days id data_start train validation step i).validation_end
        ≤ (window_at add_days id data_start train validation step j).validation_start
  unfolding window_at
  validation_order id data_start train validation step i j l h =
      rw (days.add_add, days.add_add, days.add_add)
        (add_mono data_start (i * step + (train + validation)) (j * step + train)
          (omega (arith, h, mul-le-mul_right step l)))

  -- A window trains and validates one after the other within the data.
  pub window_within :
      (id : String) (data_start data_end : Instant) (train validation step j : ℕ)
      → 0 < train
      → 0 < validation
      → let w = window_at add_days id data_start train validation step j in
        (data_start ≤ w.train_start)
        × (w.train_start < w.train_end)
        × (w.train_end ≡ w.validation_start)
        × (w.validation_start < w.validation_end)
  unfolding window_at
  window_within id data_start data_end train validation step j t v = (
    omega (arith, add_grows data_start (j * step)),
    days.add_later (add_days data_start (j * step)) train t,
    refl,
    days.add_later (add_days (add_days data_start (j * step)) train) validation v,
  )
