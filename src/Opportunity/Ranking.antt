-- ===== src/Opportunity/Ranking.antt =====
-- Ranking: internal/opportunity/ranking.go. `sort_slice` stands for sort.Slice, `now` for time.Now.
use option_engine.Common.{
  ℕ, ◌+◌, Bool, true, false, String, List, [], ◌∷◌, map, length, take, if◌then◌else◌, string_eq,
}
use Prim.Native.Nat.{Ordering}
use Prim.Native.String.{compare}
use option_engine.Common.Int.{pos, pos_part, leb_ℤ}
use option_engine.Common.Float.{Float}
use option_engine.Domain.{Instant, is_zero, series_key_eq}
use option_engine.Opportunity.{
  Classification, buy, watch, ignore, Decimals, Config, SymbolState, PlatformState, ScoreResult,
  zero_float, compute,
}

pub record RankedOpportunity (F : Type 0) : Type 0 where
  pub result : ScoreResult F
  pub rank : ℕ
  pub timestamp : Instant

pub record Summary (F : Type 0) : Type 0 where
  pub opportunities_ranked : ℕ
  pub top_candidates : ℕ
  pub average_confidence : F
  pub buy_count : ℕ
  pub watch_count : ℕ
  pub ignore_count : ℕ

-- `s < t` on strings: byte by byte, which in UTF-8 is code point by code point.
unfoldable pub string_lt : String → String → Bool
string_lt s t = elim (compare s t) [ Ordering.lt ↦ true | _ ↦ false ]

-- sort.Slice, of the elements' order.
abbrev pub Sorter : Type 0 → Type 0
Sorter F =
    (RankedOpportunity F → RankedOpportunity F → Bool)
    → List (RankedOpportunity F)
    → List (RankedOpportunity F)

module _ {F : Type 0} where
  -- The counter of a class.
  unfoldable pub count_class : Classification → Summary F → Summary F
  count_class buy s = record s { buy_count = s.buy_count + 1 }
  count_class watch s = record s { watch_count = s.watch_count + 1 }
  count_class ignore s = record s { ignore_count = s.ignore_count + 1 }

module _ {F : Type 0} ⦃f : Float F⦄ where
  -- What the slice is sorted by.
  unfoldable pub less : RankedOpportunity F → RankedOpportunity F → Bool
  less a b =
      if f.eq a.result.confidence b.result.confidence
      then string_lt a.result.symbol b.result.symbol
      else f.lt b.result.confidence a.result.confidence

  -- `scored[i].Rank = i + 1`, from a rank on.
  unfoldable pub number : ℕ → List (RankedOpportunity F) → List (RankedOpportunity F)
  number i [] = []
  number i (x ∷ xs) = record x { rank = i } ∷ number (i + 1) xs

  abbrev pub scored :
      Decimals F → Config F → Instant → PlatformState F → SymbolState F → RankedOpportunity F
  scored dec cfg now p s = record {
    result = compute dec cfg s p;
    rank = 0;
    timestamp = if is_zero s.updated_at then now else s.updated_at;
  }

  -- `Rank`
  unfoldable pub rank :
      Sorter F
      → Decimals F
      → Config F
      → Instant
      → List (SymbolState F)
      → PlatformState F
      → List (RankedOpportunity F)
  rank sort_slice dec cfg now states p =
      number 1 (sort_slice less (map (scored dec cfg now p) states))

  -- `TopN`, of a positive number.
  unfoldable pub top_of : Config F → List (RankedOpportunity F) → List (RankedOpportunity F)
  top_of cfg ranked =
      if leb_ℤ (pos (length ranked)) cfg.top_n then ranked else take (pos_part cfg.top_n) ranked

  -- The loop of `Summarize`, with its sum and its counters.
  unfoldable pub tally : List (RankedOpportunity F) → F → Summary F → F × Summary F
  tally [] total s = (total, s)
  tally (x ∷ xs) total s =
      tally xs (f.add total x.result.confidence) (count_class x.result.classification s)

  abbrev pub blank : ℕ → ℕ → Summary F
  blank ranked top = record {
    opportunities_ranked = ranked;
    top_candidates = top;
    average_confidence = zero_float;
    buy_count = 0;
    watch_count = 0;
    ignore_count = 0;
  }

  unfoldable pub summarize : List (RankedOpportunity F) → List (RankedOpportunity F) → Summary F
  summarize [] top = blank 0 (length top)
  summarize (x ∷ xs) top =
      let (total, s) = tally (x ∷ xs) zero_float (blank (length (x ∷ xs)) (length top)) in
      record s { average_confidence = f.div total (f.of_int (pos (length (x ∷ xs)))) }
