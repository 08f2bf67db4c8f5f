-- ===== src/Opportunity/Order.antt =====
-- What sort.Slice is documented to do, and that the order of internal/opportunity/ranking.go is one
-- that it accepts.
use option_engine.Common.{
  ◌≡◌, sym, true, false, Bool, not, ◌||◌, List, arith, if◌then◌else◌, Bool-cases, inl, inr, String,
  subst,
}
use mathlib.Core.List.{Permᴰ}
use option_engine.Common.Pairwise.{Pairwise}
use option_engine.Common.Float.{Float}
use option_engine.Opportunity.Ranking.{RankedOpportunity, Sorter, less, string_lt}
use option_engine.Opportunity.Text.{string_lt_irrefl, string_lt_trans, string_lt_total}

-- float64 without NaN: of three values, what is between the outer two is below or above the third; and
-- equal are those of which neither is less.
pub record IsLinear (F : Type 0) ⦃f : Float F⦄ : Type 0 where
  pub lt_irrefl : (a : F) → f.lt a a ≡ false
  pub lt_trans : (a b c : F) → f.lt a b ≡ true → f.lt b c ≡ true → f.lt a c ≡ true
  pub lt_split : (a b c : F) → f.lt a c ≡ true → (f.lt a b || f.lt b c) ≡ true
  pub eq_neither : (a b : F) → f.eq a b ≡ not (f.lt a b || f.lt b a)

-- The requirements that the documentation of package sort makes of `Less`.
pub record IsStrictWeak {A : Type 0} (less' : A → A → Bool) : Type 0 where
  pub irrefl : (a : A) → less' a a ≡ false
  pub trans : (a b c : A) → less' a b ≡ true → less' b c ≡ true → less' a c ≡ true
  pub not_trans : (a b c : A) → less' a b ≡ false → less' b c ≡ false → less' a c ≡ false

-- sort.Slice permutes a slice, and sorts it if the order meets the requirements.
pub record IsSort (F : Type 0) (sort_slice : Sorter F) : Type 0 where
  pub permutes :
      (order : RankedOpportunity F → RankedOpportunity F → Bool) (xs : List (RankedOpportunity F))
      → Permᴰ (sort_slice order xs) xs
  pub sorts :
      (order : RankedOpportunity F → RankedOpportunity F → Bool) (xs : List (RankedOpportunity F))
      → IsStrictWeak order
      → Pairwise (λ a b. order b a ≡ false) (sort_slice order xs)

-- The order on pairs of a confidence and a symbol.
module _ {F : Type 0} ⦃f : Float F⦄ (linear : IsLinear F) where
  abbrev above : F → String → F → String → Bool
  above x s y t = if f.eq x y then string_lt s t else f.lt y x

  above_trans :
      (x : F) (s : String) (y : F) (t : String) (z : F) (u : String)
      → above x s y t ≡ true
      → above y t z u ≡ true
      → above x s z u ≡ true
  above_trans x s y t z u h k = ground (
    arith,
    linear.eq_neither x y,
    linear.eq_neither y z,
    linear.eq_neither x z,
    linear.lt_trans z y x,
    linear.lt_split z y x,
    linear.lt_split x y z,
    linear.lt_split y z x,
    linear.lt_split z x y,
    linear.lt_split x z y,
    linear.lt_split y x z,
    string_lt_trans s t u,
  )

  string_not_trans :
      (s t u : String) → string_lt s t ≡ false → string_lt t u ≡ false → string_lt s u ≡ false
  string_not_trans s t u h k = elim (Bool-cases (string_lt t s)) [
    | inl y ↦ ground (arith, string_lt_trans t s u)
    | inr n ↦ subst (λ x. string_lt x u ≡ false) (sym (string_lt_total s t h n)) k
  ]

  above_not_trans :
      (x : F) (s : String) (y : F) (t : String) (z : F) (u : String)
      → above x s y t ≡ false
      → above y t z u ≡ false
      → above x s z u ≡ false
  above_not_trans x s y t z u h k = ground (
    arith,
    linear.eq_neither x y,
    linear.eq_neither y z,
    linear.eq_neither x z,
    linear.lt_trans x y z,
    linear.lt_split z y x,
    linear.lt_split x y z,
    linear.lt_split y z x,
    linear.lt_split z x y,
    linear.lt_split x z y,
    linear.lt_split y x z,
    string_not_trans s t u,
  )

  pub less-IsStrictWeak : IsStrictWeak (less {F = F})
  unfolding less
  less-IsStrictWeak = record {
    irrefl = λ a. ground (
      arith,
      linear.eq_neither a.result.confidence a.result.confidence,
      linear.lt_irrefl a.result.confidence,
      string_lt_irrefl a.result.symbol,
    );
    trans = λ a b c h k.
        above_trans a.result.confidence a.result.symbol b.result.confidence b.result.symbol
          c.result.confidence c.result.symbol h k;
    not_trans = λ a b c h k.
        above_not_trans a.result.confidence a.result.symbol b.result.confidence b.result.symbol
          c.result.confidence c.result.symbol h k;
  }
