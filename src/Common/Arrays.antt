-- ===== src/Common/Arrays.antt =====
-- Go's slices at an index: a write, and what a list holds behind an index.
use Prim.Native.Nat.{ℕ, zero, suc, ◌≤◌, ◌<◌}
use mathlib.Core.Path.{◌≡◌, refl, ap}
use mathlib.Core.Option.{none, some}
use mathlib.Core.List.{List, [], ◌∷◌, ◌++◌, append-nil}
use native.Mathlib.Omega.{arith}
use option_engine.Common.Lists.{length, take, drop, get_elem?, All}

module _ {ℓ} {A : Type ℓ} where
  -- `xs[i] = x`, within bounds.
  unfoldable pub set : List A → ℕ → A → List A
  set [] i x = []
  set (y ∷ ys) zero x = x ∷ ys
  set (y ∷ ys) (suc i) x = y ∷ set ys i x

  -- `make([]T, n)`
  unfoldable pub repeat : ℕ → A → List A
  repeat zero x = []
  repeat (suc n) x = x ∷ repeat n x

  pub length-repeat : (n : ℕ) (x : A) → length (repeat n x) ≡ n
  unfolding repeat
  length-repeat zero x = refl
  length-repeat (suc n) x = ap suc (length-repeat n x)

  pub length-set : (xs : List A) (i : ℕ) (x : A) → length (set xs i x) ≡ length xs
  unfolding set
  length-set [] i x = refl
  length-set (y ∷ ys) zero x = refl
  length-set (y ∷ ys) (suc i) x = ap suc (length-set ys i x)

  -- The element at an index stands in front of what follows it.
  pub drop_at :
      (xs : List A) (i : ℕ)
      → i < length xs
      → (y : A) × (get_elem? xs i ≡ some y) × (drop i xs ≡ y ∷ drop (suc i) xs)
  drop_at [] i h = absurd (omega arith)
  drop_at (x ∷ xs) zero h = (x, refl, refl)
  drop_at (x ∷ xs) (suc i) h = drop_at xs i (omega arith)

  pub drop_all : (i : ℕ) (xs : List A) → length xs ≤ i → drop i xs ≡ []
  drop_all zero [] h = refl
  drop_all zero (x ∷ xs) h = absurd (omega arith)
  drop_all (suc i) [] h = refl
  drop_all (suc i) (x ∷ xs) h = drop_all i xs (omega arith)

  pub take_all : (i : ℕ) (xs : List A) → length xs ≤ i → take i xs ≡ xs
  take_all zero [] h = refl
  take_all zero (x ∷ xs) h = absurd (omega arith)
  take_all (suc i) [] h = refl
  take_all (suc i) (x ∷ xs) h = ap (◌∷◌ x) (take_all i xs (omega arith))

  pub take-set :
      (xs : List A) (i : ℕ) (x : A)
      → i < length xs
      → take (suc i) (set xs i x) ≡ take i xs ++ x ∷ []
  unfolding set
  take-set [] i x h = absurd (omega arith)
  take-set (y ∷ ys) zero x h = refl
  take-set (y ∷ ys) (suc i) x h = ap (◌∷◌ y) (take-set ys i x (omega arith))

  pub drop-set : (xs : List A) (i : ℕ) (x : A) → drop (suc i) (set xs i x) ≡ drop (suc i) xs
  unfolding set
  drop-set [] i x = refl
  drop-set (y ∷ ys) zero x = refl
  drop-set (y ∷ ys) (suc i) x = drop-set ys i x

  pub drop-snoc :
      (i : ℕ) (xs : List A) (x : A) → i ≤ length xs → drop i (xs ++ x ∷ []) ≡ drop i xs ++ x ∷ []
  drop-snoc zero xs x h = refl
  drop-snoc (suc i) [] x h = absurd (omega arith)
  drop-snoc (suc i) (y ∷ ys) x h = drop-snoc i ys x (omega arith)

  All-insert {κ} :
      (P : A → Type κ) (x : A) (ys xs : List A) → P x → All P (ys ++ xs) → All P (ys ++ x ∷ xs)
  All-insert P x [] xs p h = (p, h)
  All-insert P x (y ∷ ys) xs p h = (h.0, All-insert P x ys xs p h.1)

  pub All-swap {κ} : (P : A → Type κ) (xs ys : List A) → All P (xs ++ ys) → All P (ys ++ xs)
  All-swap P [] ys h = rw append-nil h
  All-swap P (x ∷ xs) ys h = All-insert P x ys xs h.0 (All-swap P xs ys h.1)

  pub All-drop {κ} : (P : A → Type κ) (n : ℕ) (xs : List A) → All P xs → All P (drop n xs)
  All-drop P zero xs h = h
  All-drop P (suc n) [] h = h
  All-drop P (suc n) (x ∷ xs) h = All-drop P n xs h.1

  pub All-front {κ} : (P : A → Type κ) (xs ys : List A) → All P (xs ++ ys) → All P xs
  All-front P [] ys h = tt
  All-front P (x ∷ xs) ys h = (h.0, All-front P xs ys h.1)

  pub get_elem?_end : (xs : List A) (i : ℕ) → length xs ≤ i → get_elem? xs i ≡ none
  get_elem?_end [] i h = refl
  get_elem?_end (x ∷ xs) zero h = absurd (omega arith)
  get_elem?_end (x ∷ xs) (suc i) h = get_elem?_end xs i (omega arith)

  pub get_elem?_front :
      (xs ys : List A) (i : ℕ) → i < length xs → get_elem? (xs ++ ys) i ≡ get_elem? xs i
  get_elem?_front [] ys i h = absurd (omega arith)
  get_elem?_front (x ∷ xs) ys zero h = refl
  get_elem?_front (x ∷ xs) ys (suc i) h = get_elem?_front xs ys i (omega arith)

  pub get_elem?_last : (xs : List A) (x : A) → get_elem? (xs ++ x ∷ []) (length xs) ≡ some x
  get_elem?_last [] x = refl
  get_elem?_last (y ∷ xs) x = get_elem?_last xs x
