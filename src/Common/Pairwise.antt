-- ===== src/Common/Pairwise.antt =====
-- Lists whose every two elements are related, the earlier one to the later one.
use mathlib.Core.List.{List, [], ◌∷◌, ◌++◌}
use Prim.Native.Nat.{ℕ, zero, suc}
use option_engine.Common.Lists.{drop, All, All-append}

module _ {ℓ κ} {A : Type ℓ} (R : A → A → Type κ) where
  -- Every element stands in the relation to all later ones.
  abbrev pub Pairwise : List A → Type κ
  Pairwise [] = Unit
  Pairwise (x ∷ xs) = All (R x) xs × Pairwise xs

  pub Pairwise-snoc :
      (xs : List A) (y : A) → Pairwise xs → All (λ x. R x y) xs → Pairwise (xs ++ y ∷ [])
  Pairwise-snoc [] y p h = (tt, tt)
  Pairwise-snoc (x ∷ xs) y p h =
      (All-append (R x) xs (y ∷ []) p.0 (h.0, tt), Pairwise-snoc xs y p.1 h.1)

  pub Pairwise-drop : (n : ℕ) (xs : List A) → Pairwise xs → Pairwise (drop n xs)
  Pairwise-drop zero xs p = p
  Pairwise-drop (suc n) [] p = p
  Pairwise-drop (suc n) (x ∷ xs) p = Pairwise-drop n xs p.1
