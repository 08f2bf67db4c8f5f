-- ===== src/Opportunity/Tiers.antt =====
-- The ranking of internal/opportunity/ranking.go is a ranking.
use option_engine.Common.{
  ℕ, zero, suc, ◌+◌, ◌≤◌, ◌≡◌, refl, sym, ap, subst, ◌∙◌, false, Bool, List, [], ◌∷◌, ◌++◌, map,
  arith, Bool-cases, inl, inr, length, drop, take-append-drop, All,
}
use mathlib.Core.List.{Permᴰ, append-nil}
use option_engine.Common.Pairwise.{Pairwise}
use option_engine.Common.Arrays.{drop_all}
use option_engine.Common.Int.{pos, pos_part, leb_ℤ}
use option_engine.Common.Float.{Float}
use option_engine.Domain.{Instant}
use option_engine.Opportunity.{
  Classification, buy, watch, ignore, Decimals, Config, SymbolState, PlatformState, ScoreResult,
  classify, compute,
}
use option_engine.Opportunity.Ranking.{
  RankedOpportunity, Sorter, less, number, scored, rank, top_of,
}
use option_engine.Opportunity.Order.{IsLinear, IsSort, less-IsStrictWeak}

module _ {A : Type 0} (P : A → Type 0) where
  pub All-Permᴰ : {xs ys : List A} → Permᴰ xs ys → All P ys → All P xs
  All-Permᴰ Permᴰ.nil h = tt
  All-Permᴰ (Permᴰ.cons e p) h = (subst P (sym e) h.0, All-Permᴰ p h.1)
  All-Permᴰ (Permᴰ.swap e g) h = (subst P (sym e) h.1.0, (subst P (sym g) h.0, h.1.1))
  All-Permᴰ (Permᴰ.trans p q) h = All-Permᴰ p (All-Permᴰ q h)

Permᴰ-map : {A B : Type 0} (g : A → B) {xs ys : List A} → Permᴰ xs ys → Permᴰ (map g xs) (map g ys)
Permᴰ-map g Permᴰ.nil = Permᴰ.nil
Permᴰ-map g (Permᴰ.cons e p) = Permᴰ.cons (ap g e) (Permᴰ-map g p)
Permᴰ-map g (Permᴰ.swap e h) = Permᴰ.swap (ap g e) (ap g h)
Permᴰ-map g (Permᴰ.trans p q) = Permᴰ.trans (Permᴰ-map g p) (Permᴰ-map g q)

abbrev pub tier : Classification → ℕ
tier buy = 2
tier watch = 1
tier ignore = 0

-- The numbers from `i` on.
abbrev pub count_from : ℕ → ℕ → List ℕ
count_from i zero = []
count_from i (suc n) = i ∷ count_from (i + 1) n

module _ {F : Type 0} ⦃f : Float F⦄ where
  -- The later result is not the more confident one, nor in a higher tier.
  pub record Leads (x y : ScoreResult F) : Type 0 where
    pub confident : f.lt x.confidence y.confidence ≡ false
    pub tiered : tier y.classification ≤ tier x.classification

  abbrev pub IsClassified : Config F → RankedOpportunity F → Type 0
  IsClassified cfg x =
      x.result.classification ≡ classify x.result.confidence cfg.buy_threshold cfg.watch_threshold

  All-IsClassified :
      (dec : Decimals F) (cfg : Config F) (now : Instant) (p : PlatformState F)
      (ss : List (SymbolState F))
      → All (IsClassified cfg) (map (scored dec cfg now p) ss)
  unfolding compute
  All-IsClassified dec cfg now p [] = tt
  All-IsClassified dec cfg now p (s ∷ ss) = (refl, All-IsClassified dec cfg now p ss)

  number_results :
      (i : ℕ) (xs : List (RankedOpportunity F))
      → map (λ (x : RankedOpportunity F). x.result) (number i xs)
        ≡ map (λ (x : RankedOpportunity F). x.result) xs
  unfolding number
  number_results i [] = refl
  number_results i (x ∷ xs) = ap (◌∷◌ x.result) (number_results (i + 1) xs)

  pub length-number : (i : ℕ) (xs : List (RankedOpportunity F)) → length (number i xs) ≡ length xs
  unfolding number
  length-number i [] = refl
  length-number i (x ∷ xs) = ap suc (length-number (i + 1) xs)

  number_ranks :
      (i : ℕ) (xs : List (RankedOpportunity F))
      → map (λ (x : RankedOpportunity F). x.rank) (number i xs) ≡ count_from i (length xs)
  unfolding number
  number_ranks i [] = refl
  number_ranks i (x ∷ xs) = ap (◌∷◌ i) (number_ranks (i + 1) xs)

  scored_results :
      (dec : Decimals F) (cfg : Config F) (now : Instant) (p : PlatformState F)
      (ss : List (SymbolState F))
      → map (λ (x : RankedOpportunity F). x.result) (map (scored dec cfg now p) ss)
        ≡ map (λ s. compute dec cfg s p) ss
  scored_results dec cfg now p [] = refl
  scored_results dec cfg now p (s ∷ ss) =
      ap (◌∷◌ (compute dec cfg s p)) (scored_results dec cfg now p ss)

  -- `TopN` is a front part.
  top-prefix :
      (cfg : Config F) (xs : List (RankedOpportunity F))
      → top_of cfg xs ++ drop (pos_part cfg.top_n) xs ≡ xs
  unfolding top_of
  top-prefix cfg xs = elim (Bool-cases (leb_ℤ (pos (length xs)) cfg.top_n)) [
    | inl y ↦
        rw y
          (ap (λ r. xs ++ r) (drop_all (pos_part cfg.top_n) xs (ground (arith, y))) ∙ append-nil xs)
    | inr n ↦ rw n (take-append-drop (pos_part cfg.top_n) xs)
  ]

  module _ (linear : IsLinear F) where
    classify_mono : (x y b w : F) → f.lt x y ≡ false → tier (classify y b w) ≤ tier (classify x b w)
    unfolding classify
    classify_mono x y b w h = ground (
      arith,
      linear.eq_neither b x,
      linear.eq_neither b y,
      linear.eq_neither w x,
      linear.eq_neither w y,
      linear.lt_split x y b,
      linear.lt_split x y w,
      linear.lt_trans x b y,
      linear.lt_trans x w y,
    )

    less-Leads :
        (cfg : Config F) (x y : RankedOpportunity F)
        → IsClassified cfg x
        → IsClassified cfg y
        → less y x ≡ false
        → Leads x.result y.result
    unfolding less
    less-Leads cfg x y cx cy h =
        let c : f.lt x.result.confidence y.result.confidence ≡ false =
          ground (arith, linear.eq_neither y.result.confidence x.result.confidence) in
        record {
          confident = c;
          tiered =
              rw (cx, cy)
                (classify_mono x.result.confidence y.result.confidence cfg.buy_threshold
                  cfg.watch_threshold c);
        }

    All-Leads :
        (cfg : Config F) (x : RankedOpportunity F) (i : ℕ) (ys : List (RankedOpportunity F))
        → IsClassified cfg x
        → All (IsClassified cfg) ys
        → All (λ (y : RankedOpportunity F). less y x ≡ false) ys
        → All (λ (y : RankedOpportunity F). Leads x.result y.result) (number i ys)
    unfolding number
    All-Leads cfg x i [] cx cs h = tt
    All-Leads cfg x i (y ∷ ys) cx cs h =
        (less-Leads cfg x y cx cs.0 h.0, All-Leads cfg x (i + 1) ys cx cs.1 h.1)

    Pairwise-Leads :
        (cfg : Config F) (i : ℕ) (xs : List (RankedOpportunity F))
        → All (IsClassified cfg) xs
        → Pairwise (λ (x : RankedOpportunity F) (y : RankedOpportunity F). less y x ≡ false) xs
        → Pairwise
            (λ (x : RankedOpportunity F) (y : RankedOpportunity F). Leads x.result y.result)
            (number i xs)
    unfolding number
    Pairwise-Leads cfg i [] cs h = tt
    Pairwise-Leads cfg i (x ∷ xs) cs h =
        (All-Leads cfg x (i + 1) xs cs.0 cs.1 h.0, Pairwise-Leads cfg (i + 1) xs cs.1 h.1)

    -- If sort.Slice does what it is documented to do, and the values are no NaNs: a ranking holds the
    -- score of each symbol once, the ranks count from 1, nowhere does a more confident result or one
    -- of a higher tier stand behind, and `TopN` is the front of the ranking.
    pub rank-IsRanking :
        (sort_slice : Sorter F) (sorting : IsSort F sort_slice) (dec : Decimals F) (cfg : Config F)
        (now : Instant) (ss : List (SymbolState F)) (p : PlatformState F)
        → let ranked = rank sort_slice dec cfg now ss p in
          Permᴰ
            (map (λ (x : RankedOpportunity F). x.result) ranked)
            (map (λ s. compute dec cfg s p) ss)
          × (map (λ (x : RankedOpportunity F). x.rank) ranked ≡ count_from 1 (length ranked))
          × Pairwise
              (λ (x : RankedOpportunity F) (y : RankedOpportunity F). Leads x.result y.result)
              ranked
          × (top_of cfg ranked ++ drop (pos_part cfg.top_n) ranked ≡ ranked)
    unfolding rank
    rank-IsRanking sort_slice sorting dec cfg now ss p =
        let order : RankedOpportunity F → RankedOpportunity F → Bool = less in
        let xs = map (scored dec cfg now p) ss in
        let sorted = sort_slice order xs in
        let moved : Permᴰ sorted xs = sorting.permutes order xs in
        let cs : All (IsClassified cfg) sorted =
          All-Permᴰ (IsClassified cfg) moved (All-IsClassified dec cfg now p ss) in
        (
          rw (number_results 1 sorted, ← scored_results dec cfg now p ss)
              (Permᴰ-map (λ (x : RankedOpportunity F). x.result) moved),
          number_ranks 1 sorted ∙ ap (count_from 1) (sym (length-number 1 sorted)),
          Pairwise-Leads cfg 1 sorted cs (sorting.sorts order xs (less-IsStrictWeak linear)),
          top-prefix cfg (number 1 sorted),
        )
