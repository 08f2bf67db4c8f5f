-- ===== src/Opportunity/Range.antt =====
-- What internal/opportunity/engine.go publishes and keeps over any events.
use option_engine.Common.{
  ℕ, zero, suc, ◌+◌, ◌-◌, ◌≤◌, ◌≡◌, refl, sym, ap, subst, ◌∙◌, false, Bool, List, [], ◌∷◌, ◌++◌,
  arith, if◌then◌else◌, Bool-cases, inl, inr, length, take, drop, All, All-append, take-append-drop,
  length-drop, string_eq,
}
use option_engine.Common.Int.{pos, pos_part, leb_ℤ}
use option_engine.Common.Float.{Float}
use option_engine.Common.Arrays.{All-front}
use option_engine.Domain.{Instant}
use option_engine.Opportunity.{
  Classification, buy, watch, ignore, Config, clamp01, zero_float, one_float, Cache,
}
use option_engine.Opportunity.Ranking.{
  RankedOpportunity, Summary, number, top_of, tally, count_class, summarize, blank,
}
use option_engine.Opportunity.Engine.{
  Publication, Engine, max_opportunity_history, publish, publish_all,
}
use option_engine.Opportunity.Tiers.{length-number}

module _ {F : Type 0} ⦃f : Float F⦄ where
  abbrev pub InUnit : F → Type 0
  InUnit v = (f.lt v zero_float ≡ false) × (f.lt one_float v ≡ false)

  pub record IsPublishable (n : ℕ) (x : RankedOpportunity F) : Type 0 where
    pub confidence : InUnit x.result.confidence
    pub from_one : 1 ≤ x.rank
    pub to_top : x.rank ≤ n

  pub record IsKept (n : ℕ) (e : Engine F) : Type 0 where
    pub history : length e.history ≤ max_opportunity_history
    pub published : All (λ (p : Publication F). IsPublishable n p.item) e.published
    pub counted :
        e.summary.buy_count + e.summary.watch_count + e.summary.ignore_count
        ≡ e.summary.opportunities_ranked
    pub top : e.summary.top_candidates ≤ n

  pub clamp01-InUnit :
      (v : F)
      → f.lt zero_float zero_float ≡ false
      → f.lt one_float one_float ≡ false
      → f.lt one_float zero_float ≡ false
      → InUnit (clamp01 v)
  unfolding clamp01
  clamp01-InUnit v a b c = (ground arith, ground arith)

  count_class_counts :
      (c : Classification) (s : Summary F)
      → let r = count_class c s in
        (r.buy_count + r.watch_count + r.ignore_count
          ≡ s.buy_count + s.watch_count + s.ignore_count + 1)
        × (r.opportunities_ranked ≡ s.opportunities_ranked)
        × (r.top_candidates ≡ s.top_candidates)
  unfolding count_class
  count_class_counts buy s = (omega arith, refl, refl)
  count_class_counts watch s = (omega arith, refl, refl)
  count_class_counts ignore s = (omega arith, refl, refl)

  tally_counts :
      (xs : List (RankedOpportunity F)) (t : F) (s : Summary F)
      → let r = (tally xs t s).1 in
        (r.buy_count + r.watch_count + r.ignore_count
          ≡ s.buy_count + s.watch_count + s.ignore_count + length xs)
        × (r.opportunities_ranked ≡ s.opportunities_ranked)
        × (r.top_candidates ≡ s.top_candidates)
  unfolding tally
  tally_counts [] t s = (omega arith, refl, refl)
  tally_counts (x ∷ xs) t s =
      let c = count_class_counts x.result.classification s in
      let r =
        tally_counts xs (f.add t x.result.confidence) (count_class x.result.classification s) in
      (omega (arith, c.0, r.0), r.1 ∙ c.1, r.2 ∙ c.2)

  pub summarize_counts :
      (xs top : List (RankedOpportunity F))
      → let s = summarize xs top in
        (s.buy_count + s.watch_count + s.ignore_count ≡ s.opportunities_ranked)
        × (s.top_candidates ≡ length top)
  unfolding summarize
  summarize_counts [] top = (refl, refl)
  summarize_counts (x ∷ xs) top =
      let c = tally_counts (x ∷ xs) zero_float (blank (length (x ∷ xs)) (length top)) in
      (omega (arith, c.0, c.1), c.2)

  added :
      (encodes : Publication F → Bool) (n : ℕ) (p : Publication F) (ps : List (Publication F))
      → IsPublishable n p.item
      → All (λ (q : Publication F). IsPublishable n q.item) ps
      → All (λ (q : Publication F). IsPublishable n q.item) (if encodes p then ps ++ p ∷ [] else ps)
  added encodes n p ps px k = elim (Bool-cases (encodes p)) [
    | inl y ↦
        rw y (All-append (λ (q : Publication F). IsPublishable n q.item) ps (p ∷ []) k (px, tt))
    | inr m ↦ rw m k
  ]

  publish-IsKept :
      (encodes : Publication F → Bool) (n : ℕ) (at : Instant) (x : RankedOpportunity F)
      (e : Engine F)
      → IsPublishable n x
      → IsKept n e
      → IsKept n (publish encodes at x e)
  unfolding publish
  publish-IsKept encodes n at x e px k =
      let h = e.history ++ x ∷ [] in
      let p : Publication F = record { item = x; at = at } in
      record {
        history = ground (arith, length-drop (length h - max_opportunity_history) h);
        published = added encodes n p e.published px k.published;
        counted = k.counted;
        top = k.top;
      }

  -- None of this is about the cache.
  pub recached :
      {n : ℕ} (e : Engine F) (c : Cache F) → IsKept n e → IsKept n (record e { cache = c })
  recached e c k = record {
    history = k.history;
    published = k.published;
    counted = k.counted;
    top = k.top;
  }

  pub publish_all-IsKept :
      (encodes : Publication F → Bool) (n : ℕ) (at : Instant) (xs : List (RankedOpportunity F))
      (e : Engine F)
      → All (IsPublishable n) xs
      → IsKept n e
      → IsKept n (publish_all encodes at xs e)
  unfolding publish_all
  publish_all-IsKept encodes n at [] e px k = k
  publish_all-IsKept encodes n at (x ∷ xs) e px k =
      publish_all-IsKept encodes n at xs (publish encodes at x e) px.1
        (publish-IsKept encodes n at x e px.0 k)

  number-IsPublishable :
      (n i : ℕ) (xs : List (RankedOpportunity F))
      → 1 ≤ i
      → i + length xs ≤ n + 1
      → All (λ (x : RankedOpportunity F). InUnit x.result.confidence) xs
      → All (IsPublishable n) (number i xs)
  unfolding number
  number-IsPublishable n i [] l b u = tt
  number-IsPublishable n i (x ∷ xs) l b u = (
    record { confidence = u.0; from_one = l; to_top = omega arith },
    number-IsPublishable n (i + 1) xs (omega arith) (omega arith) u.1,
  )

  take-number :
      (k i : ℕ) (xs : List (RankedOpportunity F)) → take k (number i xs) ≡ number i (take k xs)
  unfolding number
  take-number zero i xs = refl
  take-number (suc k) i [] = refl
  take-number (suc k) i (x ∷ xs) = ap (◌∷◌ (record x { rank = i })) (take-number k (i + 1) xs)

  length-take-le : (k : ℕ) (xs : List (RankedOpportunity F)) → length (take k xs) ≤ k
  length-take-le zero xs = omega arith
  length-take-le (suc k) [] = omega arith
  length-take-le (suc k) (x ∷ xs) = omega (arith, length-take-le k xs)

  -- What `TopN` leaves of numbered results.
  pub top-IsPublishable :
      (cfg : Config F) (xs : List (RankedOpportunity F))
      → All (λ (x : RankedOpportunity F). InUnit x.result.confidence) xs
      → All (IsPublishable (pos_part cfg.top_n)) (top_of cfg (number 1 xs))
        × (length (top_of cfg (number 1 xs)) ≤ pos_part cfg.top_n)
  unfolding top_of
  top-IsPublishable cfg xs u =
      let n = pos_part cfg.top_n in
      elim (Bool-cases (leb_ℤ (pos (length (number 1 xs))) cfg.top_n)) [
        | inl y ↦
            let l : length (number 1 xs) ≤ n = ground (arith, y) in
            rw y (
              number-IsPublishable n 1 xs (omega arith) (omega (arith, l, length-number 1 xs)) u,
              l,
            )
        | inr m ↦
            let front : All (λ (x : RankedOpportunity F). InUnit x.result.confidence) (take n xs) =
              All-front (λ (x : RankedOpportunity F). InUnit x.result.confidence) (take n xs)
                (drop n xs)
                (subst (All (λ (x : RankedOpportunity F). InUnit x.result.confidence))
                  (sym (take-append-drop n xs)) u) in
            rw (m, take-number n 1 xs)
              (
                number-IsPublishable n 1 (take n xs) (omega arith)
                    (omega (arith, length-take-le n xs)) front,
                omega (arith, length-number 1 (take n xs), length-take-le n xs),
              )
      ]
