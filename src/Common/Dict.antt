-- ===== src/Common/Dict.antt =====
-- Go's maps, as association lists with the first entry of a key in force. Go gives no order of
-- iteration; code that ranges over a map is modelled over the list, and a theorem about it that
-- depends on the order says so.
use Prim.Native.Nat.{ℕ, suc, ◌+◌, ◌≤◌}
use mathlib.Core.Path.{◌≡◌, refl, ap}
use mathlib.Core.Logic.{◌≢◌, inl, inr}
use mathlib.Core.List.{List, [], ◌∷◌}
use mathlib.Core.Option.{Option, none, some}
use mathlib.Core.Bool.{Bool, true, false}
use native.Mathlib.Omega.{arith}
use option_engine.Common.Tests.{if◌then◌else◌, Bool-cases}
use option_engine.Common.Equality.{Comparable, ◌==◌, ==_iff, ==_refl}

abbrev pub Dict {ℓ κ} : Type ℓ → Type κ → Type (ℓ ⊔ κ)
Dict K V = List (K × V)

abbrev pub bit : Bool → ℕ
bit true = 1
bit false = 0

abbrev pub is_some {ℓ} : {A : Type ℓ} → Option A → Bool
is_some none = false
is_some (some a) = true

-- How much an entry, if there is one, adds to a count.
abbrev pub bit_of {ℓ} : {A : Type ℓ} → (A → Bool) → Option A → ℕ
bit_of p none = 0
bit_of p (some a) = bit (p a)

module _ {ℓ κ} {K : Type ℓ} {V : Type κ} ⦃e : Comparable K⦄ where
  unfoldable pub get : K → Dict K V → Option V
  get k [] = none
  get k ((j, v) ∷ m) = if j == k then some v else get k m

  -- `m[k] = v`
  unfoldable pub put : K → V → Dict K V → Dict K V
  put k v [] = (k, v) ∷ []
  put k v ((j, w) ∷ m) = if j == k then (k, v) ∷ m else (j, w) ∷ put k v m

  -- `delete(m, k)`
  unfoldable pub remove : K → Dict K V → Dict K V
  remove k [] = []
  remove k ((j, w) ∷ m) = if j == k then remove k m else (j, w) ∷ remove k m

  abbrev pub has : K → Dict K V → Bool
  has k m = is_some (get k m)

  -- `len(m)`
  unfoldable pub size : Dict K V → ℕ
  size [] = 0
  size (x ∷ m) = suc (size m)

  -- The number of entries whose value passes a test.
  unfoldable pub count_where : (V → Bool) → Dict K V → ℕ
  count_where p [] = 0
  count_where p ((j, w) ∷ m) = bit (p w) + count_where p m

  -- A key is found at most once.
  unfoldable pub IsUnique : Dict K V → Type 0
  IsUnique [] = Unit {0}
  IsUnique ((j, w) ∷ m) = (has j m ≡ false) × IsUnique m

  pub get-put :
      (k j : K) (v : V) (m : Dict K V) → get j (put k v m) ≡ (if k == j then some v else get j m)
  unfolding get put
  get-put k j v [] = refl
  get-put k j v ((i, w) ∷ m) = ground (arith, ==_iff k j, ==_iff i k, ==_iff i j, get-put k j v m)

  pub get-put_self : (k : K) (v : V) (m : Dict K V) → get k (put k v m) ≡ some v
  get-put_self k v m = ground (arith, get-put k k v m, ==_refl k)

  pub get-put_ne : (k j : K) (v : V) (m : Dict K V) → k ≢ j → get j (put k v m) ≡ get j m
  get-put_ne k j v m h = elim (Bool-cases (k == j)) [
    | inl y ↦ absurd (h ((==_iff k j).0 y))
    | inr n ↦ ground (arith, get-put k j v m)
  ]

  pub get-remove :
      (k j : K) (m : Dict K V) → get j (remove k m) ≡ (if k == j then none else get j m)
  unfolding get remove
  get-remove k j [] = ground arith
  get-remove k j ((i, w) ∷ m) = ground (arith, ==_iff k j, ==_iff i k, ==_iff i j, get-remove k j m)

  pub count_where-put :
      (p : V → Bool) (k : K) (v : V) (m : Dict K V)
      → count_where p (put k v m) + bit_of p (get k m) ≡ count_where p m + bit (p v)
  unfolding count_where get put
  count_where-put p k v [] = omega arith
  count_where-put p k v ((i, w) ∷ m) = elim (Bool-cases (i == k)) [
    | inl y ↦ rw (y, put, get) (omega arith)
    | inr n ↦ rw (n, put, get) (omega (arith, count_where-put p k v m))
  ]

  pub size-put :
      (k : K) (v : V) (m : Dict K V) → size (put k v m) ≡ size m + (if has k m then 0 else 1)
  unfolding size get put
  size-put k v [] = omega arith
  size-put k v ((i, w) ∷ m) = elim (Bool-cases (i == k)) [
    | inl y ↦ rw (y, put, get) (omega arith)
    | inr n ↦ rw (n, put, get) (omega (arith, size-put k v m))
  ]

  pub size-remove_le : (k : K) (m : Dict K V) → size (remove k m) ≤ size m
  unfolding size remove
  size-remove_le k [] = omega arith
  size-remove_le k ((i, w) ∷ m) = ground (arith, size-remove_le k m)

  pub count_where-remove_le :
      (p : V → Bool) (k : K) (m : Dict K V) → count_where p (remove k m) ≤ count_where p m
  unfolding count_where remove
  count_where-remove_le p k [] = omega arith
  count_where-remove_le p k ((i, w) ∷ m) = ground (arith, count_where-remove_le p k m)

  pub count_where-le-size : (p : V → Bool) (m : Dict K V) → count_where p m ≤ size m
  unfolding count_where size
  count_where-le-size p [] = omega arith
  count_where-le-size p ((i, w) ∷ m) = ground (arith, count_where-le-size p m)

  pub put-IsUnique : (k : K) (v : V) (m : Dict K V) → IsUnique m → IsUnique (put k v m)
  unfolding IsUnique put
  put-IsUnique k v [] u = (unfold get in refl, tt)
  put-IsUnique k v ((i, w) ∷ m) u = elim (Bool-cases (i == k)) [
    | inl y ↦ rw (y, put) (rw (ap (λ j. has j m) ((==_iff i k).0 y)) at u.0, u.1)
    | inr n ↦
        rw (n, put)
          (ground (arith, get-put k i v m, ==_iff k i, ==_iff i k, u.0), put-IsUnique k v m u.1)
  ]

  pub remove-IsUnique : (k : K) (m : Dict K V) → IsUnique m → IsUnique (remove k m)
  unfolding IsUnique remove
  remove-IsUnique k [] u = tt
  remove-IsUnique k ((i, w) ∷ m) u = elim (Bool-cases (i == k)) [
    | inl y ↦ rw (y, remove) (remove-IsUnique k m u.1)
    | inr n ↦ rw (n, remove) (ground (arith, get-remove k i m, u.0), remove-IsUnique k m u.1)
  ]

  pub remove_absent : (k : K) (m : Dict K V) → get k m ≡ none → remove k m ≡ m
  unfolding get remove
  remove_absent k [] h = refl
  remove_absent k ((i, w) ∷ m) h = elim (Bool-cases (i == k)) [
    | inl y ↦ absurd (ground (arith, y))
    | inr n ↦ rw (n, remove) (ap (◌∷◌ (i, w)) (remove_absent k m (ground (arith, n))))
  ]

  -- Removing a present key of a map with unique keys takes out exactly that entry.
  pub size-remove :
      (k : K) (m : Dict K V) → IsUnique m → size (remove k m) + (if has k m then 1 else 0) ≡ size m
  unfolding IsUnique size get remove
  size-remove k [] u = omega arith
  size-remove k ((i, w) ∷ m) u = elim (Bool-cases (i == k)) [
    | inl y ↦
        let e : i ≡ k = (==_iff i k).0 y in
        let gone : get k m ≡ none = ground (arith, rw e at u.0) in
        rw (y, remove, get) (omega (arith, ap size (remove_absent k m gone)))
    | inr n ↦ rw (n, remove, get) (omega (arith, size-remove k m u.1))
  ]
