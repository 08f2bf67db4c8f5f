-- ===== src/Indicator/Rolling.antt =====
-- The reference of Indicator/Average against the mean of indicators/sma.go's comments: without
-- rounding the running sum is that of the last closes.
use option_engine.Common.{
  ℕ, ◌-◌, ◌≤◌, ◌<◌, ◌≡◌, refl, ap, ◌∙◌, sym, ◌⊎◌, inl, inr, List, [], ◌∷◌, ◌++◌, arith, ltb,
  Bool-cases, length, length-append, length-drop,
}
use mathlib.Core.List.{append_assoc, append-nil}
use option_engine.Common.Int.{ℤ, int_laws, ◌+ℤ◌, ◌-ℤ◌}
use option_engine.Common.Float.{Float, int_float}
use option_engine.Indicator.Sma.{zero_value}
use option_engine.Indicator.Ring.{window, window-snoc}
use option_engine.Indicator.Average.{next_sum, running_from}

-- Sums without rounding, as those of whole numbers are.
record IsExact (F : Type 0) ⦃f : Float F⦄ : Type 0 where
  add_swap : (a b c : F) → f.add (f.add a b) c ≡ f.add (f.add a c) b
  sub-add : (a b : F) → f.sub (f.add a b) b ≡ a

int_add_swap : (a b c : ℤ) → a +ℤ b +ℤ c ≡ a +ℤ c +ℤ b
int_add_swap a b c = grind int_laws

int_sub-add : (a b : ℤ) → a +ℤ b -ℤ b ≡ a
int_sub-add a b = grind int_laws

int_IsExact : IsExact ℤ
int_IsExact = record { add_swap = int_add_swap; sub-add = int_sub-add }

head_cases {ℓ} : {A : Type ℓ} (xs : List A) → (xs ≡ []) ⊎ ((x : A) × (ys : List A) × (xs ≡ x ∷ ys))
head_cases [] = inl refl
head_cases (x ∷ xs) = inr (x, xs, refl)

module _ {F : Type 0} ⦃f : Float F⦄ where
  abbrev pub total_from : F → List F → F
  total_from acc [] = acc
  total_from acc (x ∷ xs) = total_from (f.add acc x) xs

  total-snoc :
      (acc : F) (h : List F) (x : F) → total_from acc (h ++ x ∷ []) ≡ f.add (total_from acc h) x
  total-snoc acc [] x = refl
  total-snoc acc (y ∷ h) x = total-snoc (f.add acc y) h x

  window_short : (p : ℕ) (h : List F) → length h ≤ p → window p h ≡ h
  window_short p h l = let e : length h - p ≡ 0 = omega arith in rw e

  module _ (exact : IsExact F) where
    total-front : (acc o : F) (w : List F) → total_from acc (o ∷ w) ≡ f.add (total_from acc w) o
    total-front acc o [] = refl
    total-front acc o (x ∷ w) =
        ap (λ a. total_from a w) (exact.add_swap acc o x) ∙ total-front (f.add acc x) o w

    next_total :
        (p : ℕ) (past : List F) (x : F)
        → 0 < p
        → next_sum p past (total_from zero_value (window p past)) x
          ≡ total_from zero_value (window p (past ++ x ∷ []))
    next_total p past x z = elim (Bool-cases (ltb (length past) p)) [
      | inl y ↦
          let l : length past < p = ground (arith, y) in
          let l' : length (past ++ x ∷ []) ≤ p = omega (arith, l, length-append past (x ∷ [])) in
          rw (y, window_short p past (omega arith), window_short p (past ++ x ∷ []) l')
            (sym (total-snoc zero_value past x))
      | inr n ↦
          let l : p ≤ length past = ground (arith, n) in
          elim (head_cases (window p past)) [
            | inl none_left ↦
                absurd
                  (omega (arith, ap (λ l. length l) none_left, length-drop (length past - p) past))
            | inr (o, w, e) ↦
                rw (n, window-snoc p past x o w z l e, e)
                  (ap (λ a. f.add (f.sub a o) x) (total-front zero_value o w)
                    ∙ ap (λ a. f.add a x) (exact.sub-add (total_from zero_value w) o)
                    ∙ sym (total-snoc zero_value w x))
          ]
    ]

    running-total :
        (p : ℕ) (past xs : List F)
        → 0 < p
        → running_from p past (total_from zero_value (window p past)) xs
          ≡ total_from zero_value (window p (past ++ xs))
    running-total p past [] z = rw append-nil
    running-total p past (x ∷ xs) z =
        ap (λ a. running_from p (past ++ x ∷ []) a xs) (next_total p past x z)
        ∙ running-total p (past ++ x ∷ []) xs z
        ∙ ap (λ l. total_from zero_value (window p l)) (append_assoc past (x ∷ []) xs)

-- Over whole numbers the reference is the sum of the last `p` closes.
pub int_running_total :
    (p : ℕ) (h : List ℤ)
    → 0 < p
    → running_from p [] zero_value h ≡ total_from zero_value (window p h)
int_running_total p h z =
    ap (λ a. running_from p [] a h)
      (sym (ap (λ l. total_from zero_value l) (window_short p [] (omega arith))))
    ∙ running-total int_IsExact p [] h z
