-- ===== src/Opportunity/Samples.antt =====
-- The opportunity engine at concrete inputs: whole numbers, insertion sort.
use option_engine.Common.{
  refl, ℕ, ◌≡◌, true, not, ◌||◌, String, List, [], ◌∷◌, ◌++◌, length, map, drop, arith,
}
use mathlib.Core.List.{Permᴰ}
use option_engine.Common.Pairwise.{Pairwise}
use option_engine.Common.Int.{ℤ, pos, pos_part, ltb_ℤ, beq_ℤ}
use option_engine.Common.Float.{int_float, int_IsOrdered}
use option_engine.Domain.{Instant}
use option_engine.Opportunity.{Config, SymbolState, PlatformState, Event, compute}
use option_engine.Opportunity.Ranking.{RankedOpportunity, rank, top_of}
use option_engine.Opportunity.Engine.{handle_all, new_engine}
use option_engine.Opportunity.Insertion.{insertion_sort, insertion_sort-IsSort}
use option_engine.Opportunity.Order.{IsLinear}
use option_engine.Opportunity.Tiers.{Leads, count_from, rank-IsRanking}
use option_engine.Opportunity.Range.{IsKept}
use option_engine.Opportunity.Session.{session-IsKept}

abbrev config : Config ℤ
config = record {
  enabled = true;
  top_n = pos 1;
  subscriber_buffer = pos 256;
  buy_threshold = pos 1;
  watch_threshold = pos 1;
  weights = record {
    signal = pos 1;
    strategy = pos 0;
    performance = pos 0;
    optimization = pos 0;
    walk_forward = pos 0;
    monte_carlo = pos 0;
  };
}

int_lt_split : (a b c : ℤ) → ltb_ℤ a c ≡ true → (ltb_ℤ a b || ltb_ℤ b c) ≡ true
int_lt_split a b c h = ground arith

int_eq_neither : (a b : ℤ) → beq_ℤ a b ≡ not (ltb_ℤ a b || ltb_ℤ b a)
int_eq_neither a b = ground arith

int_IsLinear : IsLinear ℤ
int_IsLinear = record {
  lt_irrefl = int_IsOrdered.lt_irrefl;
  lt_trans = int_IsOrdered.lt_trans;
  lt_split = int_lt_split;
  eq_neither = int_eq_neither;
}

abbrev state : String → ℕ → SymbolState ℤ
state symbol signal = record {
  symbol = symbol;
  timeframe = "5m";
  signal_confidence = pos signal;
  strategy_confidence = pos 0;
  risk_approved = true;
  performance_score = pos 0;
  optimization_score = pos 0;
  scanner_score = pos 0;
  scanner_confidence = pos 0;
  scanner_status = "";
  updated_at = 7;
}

abbrev states : List (SymbolState ℤ)
states = state "B" 0 ∷ state "A" 1 ∷ []

abbrev platform : PlatformState ℤ
platform = record { walk_forward_score = pos 0; monte_carlo_score = pos 0; updated_at = 0 }

rank-IsRanking_example :
    let ranked = rank insertion_sort (λ _. pos 1) config 9 states platform in
    Permᴰ
      (map (λ (x : RankedOpportunity ℤ). x.result) ranked)
      (map (λ s. compute (λ _. pos 1) config s platform) states)
    × (map (λ (x : RankedOpportunity ℤ). x.rank) ranked ≡ count_from 1 (length ranked))
    × Pairwise
        (λ (x : RankedOpportunity ℤ) (y : RankedOpportunity ℤ). Leads x.result y.result)
        ranked
    × (top_of config ranked ++ drop (pos_part config.top_n) ranked ≡ ranked)
rank-IsRanking_example =
    rank-IsRanking int_IsLinear insertion_sort (insertion_sort-IsSort ℤ) (λ _. pos 1) config 9
      states platform

abbrev events : List (Instant × Event ℤ)
events =
    (10, Event.signal "A" "5m" (pos 1) 10)
    ∷ (11, Event.scanner "A" "5m" "MATCHED" (pos 1) (pos 1) 11)
    ∷ (12, Event.scanner "B" "5m" "MATCHED" (pos 0) (pos 1) 12)
    ∷ []

session-IsKept_example :
    IsKept 1 (handle_all insertion_sort (λ _. true) (λ _. pos 1) config events new_engine)
session-IsKept_example =
    session-IsKept int_IsOrdered refl insertion_sort (insertion_sort-IsSort ℤ) (λ _. true)
      (λ _. pos 1) config events
