-- ===== src/Opportunity/Session.antt =====
-- Any events handled by internal/opportunity/engine.go.
use option_engine.Common.{
  ◌≡◌, refl, false, Bool, ◌||◌, List, [], ◌∷◌, map, arith, Bool-cases, inl, inr, All, ◌==◌,
  string_eq,
}
use option_engine.Common.Int.{pos_part}
use option_engine.Common.Float.{Float, IsOrdered}
use option_engine.Domain.{Instant}
use option_engine.Opportunity.{
  Decimals, Config, SymbolState, PlatformState, Event, compute, weighted, components_of, zero_float,
  one_float,
}
use option_engine.Opportunity.Ranking.{
  RankedOpportunity, Sorter, less, number, scored, rank, top_of,
}
use option_engine.Opportunity.Engine.{
  Publication, Engine, rank_and_publish, handle, handle_all, new_engine, all_symbols,
}
use option_engine.Opportunity.Order.{IsSort}
use option_engine.Opportunity.Tiers.{All-Permᴰ}
use option_engine.Opportunity.Range.{
  InUnit, IsKept, clamp01-InUnit, summarize_counts, publish_all-IsKept, recached, top-IsPublishable,
}

module _ {F : Type 0} ⦃f : Float F⦄ (ordered : IsOrdered F)
    (unit : f.lt one_float zero_float ≡ false) (sort_slice : Sorter F)
    (sorting : IsSort F sort_slice) (encodes : Publication F → Bool) (dec : Decimals F)
    (cfg : Config F) where
  scored_units :
      (now : Instant) (p : PlatformState F) (ss : List (SymbolState F))
      → All
          (λ (x : RankedOpportunity F). InUnit x.result.confidence)
          (map (scored dec cfg now p) ss)
  unfolding compute
  scored_units now p [] = tt
  scored_units now p (s ∷ ss) = (
    clamp01-InUnit (weighted cfg.weights (components_of dec s p)) (ordered.lt_irrefl zero_float)
        (ordered.lt_irrefl one_float) unit,
    scored_units now p ss,
  )

  rank_and_publish-IsKept :
      (now at : Instant) (e : Engine F)
      → IsKept (pos_part cfg.top_n) e
      → IsKept (pos_part cfg.top_n) (rank_and_publish sort_slice encodes dec cfg now at e)
  unfolding rank_and_publish rank
  rank_and_publish-IsKept now at e k =
      let xs = map (scored dec cfg now e.cache.platform) (all_symbols e.cache) in
      let units =
        All-Permᴰ (λ (x : RankedOpportunity F). InUnit x.result.confidence)
          (sorting.permutes less xs) (scored_units now e.cache.platform (all_symbols e.cache)) in
      let ranked = number 1 (sort_slice less xs) in
      let (tops, l) = top-IsPublishable cfg (sort_slice less xs) units in
      let (counts, n) = summarize_counts ranked (top_of cfg ranked) in
      publish_all-IsKept encodes (pos_part cfg.top_n) _ _ _ tops (record {
        history = k.history;
        published = k.published;
        counted = counts;
        top = omega (arith, l, n);
      })

  handle-IsKept :
      (now : Instant) (evt : Event F) (e : Engine F)
      → IsKept (pos_part cfg.top_n) e
      → IsKept (pos_part cfg.top_n) (handle sort_slice encodes dec cfg now evt e)
  unfolding handle
  handle-IsKept now (Event.signal symbol timeframe confidence at) e k =
      elim (Bool-cases (symbol == "")) [ inl y ↦ rw y k | inr m ↦ rw m (recached e _ k) ]
  handle-IsKept now (Event.strategy symbol timeframe confidence at) e k =
      elim (Bool-cases (symbol == "")) [ inl y ↦ rw y k | inr m ↦ rw m (recached e _ k) ]
  handle-IsKept now (Event.risk symbol timeframe status at) e k = elim (Bool-cases (symbol == "")) [
    | inl y ↦ rw y k
    | inr m ↦ rw m (recached e _ k)
  ]
  handle-IsKept now (Event.performance symbol timeframe win_rate realized unrealized at) e k =
      recached e _ k
  handle-IsKept now (Event.optimization symbol timeframe score at) e k = recached e _ k
  handle-IsKept now (Event.walk_forward score at) e k = recached e _ k
  handle-IsKept now (Event.monte_carlo probability at) e k = recached e _ k
  handle-IsKept now (Event.scanner symbol timeframe status score confidence at) e k =
      elim (Bool-cases (symbol == "" || timeframe == "")) [
        | inl y ↦ rw y k
        | inr m ↦ rw m (rank_and_publish-IsKept now at _ (recached e _ k))
      ]
  handle-IsKept now Event.unreadable e k = k

  all-IsKept :
      (es : List (Instant × Event F)) (e : Engine F)
      → IsKept (pos_part cfg.top_n) e
      → IsKept (pos_part cfg.top_n) (handle_all sort_slice encodes dec cfg es e)
  unfolding handle_all
  all-IsKept [] e k = k
  all-IsKept ((now, evt) ∷ es) e k = all-IsKept es _ (handle-IsKept now evt e k)

  -- If sort.Slice permutes what it sorts, and 1 is not less than 0: after any events that a new
  -- engine handled, every published opportunity has a confidence neither below 0 nor above 1 and a
  -- rank from 1 to the configured number, the history is within its limit, and the counters of the
  -- last summary add up to what was ranked, with at most the configured number of top candidates.
  pub session-IsKept :
      (es : List (Instant × Event F))
      → IsKept (pos_part cfg.top_n) (handle_all sort_slice encodes dec cfg es new_engine)
  session-IsKept es =
      all-IsKept es new_engine
        (record { history = omega arith; published = tt; counted = refl; top = omega arith })
