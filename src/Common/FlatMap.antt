-- ===== src/Common/FlatMap.antt =====
-- Lists of lists joined: nested loops that append, as the library's `flat_map`.
use mathlib.Core.Path.{◌≡◌, refl}
use mathlib.Core.List.{List, [], ◌∷◌, ◌++◌, map, flat_map, append_assoc, map-append}
use option_engine.Common.Lists.{All, All-append}

module _ {ℓ κ} {A : Type ℓ} {B : Type κ} where
  pub flat_map-append :
      (f : A → List B) (xs ys : List A) → flat_map f (xs ++ ys) ≡ flat_map f xs ++ flat_map f ys
  unfolding flat_map
  flat_map-append f [] ys = refl
  flat_map-append f (x ∷ xs) ys = simp (flat_map-append f xs ys, append_assoc)

  pub All-flat_map {κ'} :
      (P : B → Type κ') (f : A → List B) (xs : List A)
      → ((x : A) → All P (f x))
      → All P (flat_map f xs)
  unfolding flat_map
  All-flat_map P f [] h = tt
  All-flat_map P f (x ∷ xs) h = All-append P (f x) (flat_map f xs) (h x) (All-flat_map P f xs h)

  pub All-of_map {κ'} :
      (P : B → Type κ') (f : A → B) (xs : List A) → All (λ x. P (f x)) xs → All P (map f xs)
  All-of_map P f [] h = tt
  All-of_map P f (x ∷ xs) h = (h.0, All-of_map P f xs h.1)

  pub flat_map-congr :
      (f g : A → List B) (xs : List A) → ((x : A) → f x ≡ g x) → flat_map f xs ≡ flat_map g xs
  unfolding flat_map
  flat_map-congr f g [] h = refl
  flat_map-congr f g (x ∷ xs) h = rw (h x, flat_map-congr f g xs h)

module _ {ℓ κ κ'} {A : Type ℓ} {B : Type κ} {C : Type κ'} where
  pub map-flat_map :
      (g : B → C) (f : A → List B) (xs : List A)
      → map g (flat_map f xs) ≡ flat_map (λ x. map g (f x)) xs
  unfolding flat_map
  map-flat_map g f [] = refl
  map-flat_map g f (x ∷ xs) = simp (map-append, map-flat_map g f xs)

  pub flat_map-map :
      (g : B → List C) (f : A → B) (xs : List A)
      → flat_map g (map f xs) ≡ flat_map (λ x. g (f x)) xs
  unfolding flat_map
  flat_map-map g f [] = refl
  flat_map-map g f (x ∷ xs) = rw (flat_map-map g f xs)

module _ {ℓ} {A : Type ℓ} where
  pub map_same : (f : A → A) (xs : List A) → All (λ x. f x ≡ x) xs → map f xs ≡ xs
  map_same f [] h = refl
  map_same f (x ∷ xs) h = rw (h.0, map_same f xs h.1)
