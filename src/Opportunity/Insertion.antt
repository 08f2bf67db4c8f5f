-- ===== src/Opportunity/Insertion.antt =====
-- A sort that does what sort.Slice is documented to do, so that what internal/opportunity/ranking.go
-- relies on can be met.
use option_engine.Common.{
  ◌≡◌, refl, false, Bool, List, [], ◌∷◌, arith, if◌then◌else◌, Bool-cases, inl, inr, All, All-map,
}
use mathlib.Core.List.Permᴰ
use mathlib.Core.List.{Permᴰ}
use option_engine.Common.Pairwise.{Pairwise}
use option_engine.Opportunity.Order.{IsStrictWeak, IsSort}

module _ {A : Type 0} (less : A → A → Bool) where
  unfoldable pub insert : A → List A → List A
  insert x [] = x ∷ []
  insert x (y ∷ ys) = if less x y then x ∷ y ∷ ys else y ∷ insert x ys

  unfoldable pub insertion_sort : List A → List A
  insertion_sort [] = []
  insertion_sort (x ∷ xs) = insert x (insertion_sort xs)

  insert-perm : (x : A) (ys : List A) → Permᴰ (insert x ys) (x ∷ ys)
  unfolding insert
  insert-perm x [] = Permᴰ.refl (x ∷ [])
  insert-perm x (y ∷ ys) = elim (Bool-cases (less x y)) [
    | inl l ↦ rw l (Permᴰ.refl (x ∷ y ∷ ys))
    | inr n ↦ rw n (Permᴰ.trans (Permᴰ.cons refl (insert-perm x ys)) (Permᴰ.swap refl refl))
  ]

  insertion_sort-perm : (xs : List A) → Permᴰ (insertion_sort xs) xs
  unfolding insertion_sort
  insertion_sort-perm [] = Permᴰ.nil
  insertion_sort-perm (x ∷ xs) =
      Permᴰ.trans (insert-perm x (insertion_sort xs)) (Permᴰ.cons refl (insertion_sort-perm xs))

  insert-All : (P : A → Type 0) (x : A) (ys : List A) → P x → All P ys → All P (insert x ys)
  unfolding insert
  insert-All P x [] p h = (p, tt)
  insert-All P x (y ∷ ys) p h = elim (Bool-cases (less x y)) [
    | inl l ↦ rw l (p, h)
    | inr n ↦ rw n (h.0, insert-All P x ys p h.1)
  ]

  module _ (weak : IsStrictWeak less) where
    insert-Pairwise :
        (x : A) (ys : List A)
        → Pairwise (λ (a : A) (b : A). less b a ≡ false) ys
        → Pairwise (λ (a : A) (b : A). less b a ≡ false) (insert x ys)
    unfolding insert
    insert-Pairwise x [] h = (tt, tt)
    insert-Pairwise x (y ∷ ys) h = elim (Bool-cases (less x y)) [
      | inl l ↦
          let back : less y x ≡ false = ground (arith, weak.trans x y x, weak.irrefl x) in
          rw l (
            (
              back,
              All-map (λ (z : A). less z y ≡ false) (λ (z : A). less z x ≡ false) ys
                  (λ z e. weak.not_trans z y x e back) h.0,
            ),
            h,
          )
      | inr n ↦ rw n (insert-All (λ (z : A). less z y ≡ false) x ys n h.0, insert-Pairwise x ys h.1)
    ]

    insertion_sort-Pairwise :
        (xs : List A) → Pairwise (λ (a : A) (b : A). less b a ≡ false) (insertion_sort xs)
    unfolding insertion_sort
    insertion_sort-Pairwise [] = tt
    insertion_sort-Pairwise (x ∷ xs) =
        insert-Pairwise x (insertion_sort xs) (insertion_sort-Pairwise xs)

pub insertion_sort-IsSort : (F : Type 0) → IsSort F (λ order xs. insertion_sort order xs)
insertion_sort-IsSort F = record {
  permutes = λ order xs. insertion_sort-perm order xs;
  sorts = λ order xs weak. insertion_sort-Pairwise order weak xs;
}
