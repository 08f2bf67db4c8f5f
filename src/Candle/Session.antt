-- ===== src/Candle/Session.antt =====
-- What the aggregator hands out over a session of ticks (aggregator.go, `Update`, `Flush`).
use option_engine.Common.{
  ◌≡◌, refl, ◌∙◌, inl, inr, true, false, String, Option, none, some, List, [], ◌∷◌, ◌++◌, arith,
  ltb, string_eq, if◌then◌else◌, Bool-cases, Option-cases, All, All-append,
}
use option_engine.Common.Dict.{Dict, get}
use option_engine.Common.Float.{Float, IsOrdered}
use option_engine.Domain.{Instant, Duration, Tick}
use option_engine.Candle.{
  Timeframe, reject_stale, BarBuilder, has_ticks, bucket_start, bucket_close, is_stale_policy,
}
use option_engine.Candle.Aggregator.{
  BarKey, bar_key_eq, Options, Aggregator, new_aggregator, Progress, evict_idle, in_progress,
  snapshot, flush, apply_tick, refuse_tick, existing_bar, first_bar, update_one, update_loop,
  tick_time, update, update_all,
}
use option_engine.Candle.Ohlc.{Ordered, AllBars, evict_loop-Fine, update_loop-Fine}

abbrev pub or_empty {ℓ} : {A : Type ℓ} → Option (List A) → List A
or_empty none = []
or_empty (some xs) = xs

module _ {F : Type 0} ⦃n : Float F⦄ where
  evict_idle-Fine :
      (idle : Duration) (symbol : String) (now : Instant) (a : Aggregator F)
      → AllBars a.bars
      → let (a', out) = evict_idle idle symbol now a in AllBars a'.bars × All Ordered out
  unfolding evict_idle
  evict_idle-Fine idle symbol now a v = evict_loop-Fine idle symbol now a.order a v

  update-Fine :
      (opts : Options) (ordered : IsOrdered F) (tick : Tick F) (tfs : List Timeframe)
      (a : Aggregator F)
      → AllBars a.bars
      → let r = update opts tick tfs a in AllBars r.0.bars × All Ordered (or_empty r.1)
  unfolding update
  update-Fine opts ordered tick tfs a v =
      let ts = tick_time tick in
      let started : (p : Progress F)
          → AllBars p.agg.bars × All Ordered p.closed
          → (let (fine, q) = update_loop opts tick ts tfs p in
              AllBars q.agg.bars × All Ordered (or_empty (if fine then some q.closed else none))) =
        λ p w.
          let (v', ok) = update_loop-Fine opts ordered tick ts tfs p w in
          (
            v',
            elim (Bool-cases (update_loop opts tick ts tfs p).0) [
              | inl f ↦ rw f ok
              | inr f ↦ rw f tt
            ],
          ) in
      elim (Bool-cases (ltb 0 opts.idle_evict)) [
        | inl e ↦
            let (a', out) = evict_idle opts.idle_evict tick.symbol ts a in
            rw (e, update)
              (started (record { agg = a'; closed = out; rejected = 0 })
                (evict_idle-Fine opts.idle_evict tick.symbol ts a v))
        | inr e ↦ rw (e, update) (started (record { agg = a; closed = []; rejected = 0 }) (v, tt))
      ]

  update_all-Fine :
      (opts : Options) (ordered : IsOrdered F) (tfs : List Timeframe) (ticks : List (Tick F))
      (a : Aggregator F)
      → AllBars a.bars
      → let (a', out) = update_all opts tfs ticks a in AllBars a'.bars × All Ordered out
  unfolding update_all
  update_all-Fine opts ordered tfs [] a v = (v, tt)
  update_all-Fine opts ordered tfs (t ∷ ts) a v =
      let r = update opts t tfs a in
      let (v', ok) = update-Fine opts ordered t tfs a v in
      let (v'', ok') = update_all-Fine opts ordered tfs ts r.0 v' in
      (v'', All-append Ordered (or_empty r.1) _ ok ok')

  in_progress-Ordered :
      (keys : List BarKey) (bars : Dict BarKey (BarBuilder F))
      → AllBars bars
      → All Ordered (in_progress keys bars)
  unfolding in_progress
  in_progress-Ordered [] bars v = tt
  in_progress-Ordered (k ∷ ks) bars v =
      let ok = in_progress-Ordered ks bars v in
      elim (Option-cases (get k bars)) [
        | inl e ↦ rw (e, in_progress) ok
        | inr (b, e) ↦ elim (Bool-cases (has_ticks b)) [
          | inl h ↦ rw (e, h, in_progress) (v k b e, ok)
          | inr h ↦ rw (e, h, in_progress) ok
        ]
      ]

-- Every candle that the engine hands out, over any session of ticks and at the flush that ends it,
-- has its prices in order: neither its open nor its close is above its high or below its low, and
-- its high is not below its low. Of the order of prices only this is used: it is irreflexive and
-- transitive, as that of float64 is with NaN.
pub candles-Ordered :
    {F : Type 0} ⦃n : Float F⦄ (opts : Options) (ordered : IsOrdered F) (tfs : List Timeframe)
    (ticks : List (Tick F))
    → let (a, out) = update_all opts tfs ticks new_aggregator in All Ordered (out ++ (flush a).1)
unfolding flush snapshot new_aggregator
candles-Ordered opts ordered tfs ticks =
    let (a, out) = update_all opts tfs ticks new_aggregator in
    let (v, ok) =
      update_all-Fine opts ordered tfs ticks new_aggregator (λ k b h. unfold get in cc) in
    All-append Ordered out (flush a).1 ok (in_progress-Ordered a.order a.bars v)

stale_policy :
    (opts : Options) → opts.order_policy ≡ reject_stale → is_stale_policy opts.order_policy ≡ true
stale_policy opts stale = rw stale refl

module _ {F : Type 0} ⦃n : Float F⦄ (opts : Options)
    (stale : opts.order_policy ≡ reject_stale) where
  closed-update_one :
      (tick : Tick F) (ts : Instant) (tf : Timeframe) (o c : Instant) (p : Progress F)
      → (update_one opts tick ts tf o c p).closed ≡ p.closed
  unfolding update_one existing_bar first_bar refuse_tick apply_tick
  closed-update_one tick ts tf o c p = ground (arith, stale_policy opts stale)

  closed-update_loop :
      (tick : Tick F) (ts : Instant) (tfs : List Timeframe) (p : Progress F)
      → (update_loop opts tick ts tfs p).1.closed ≡ p.closed
  unfolding update_loop
  closed-update_loop tick ts [] p = refl
  closed-update_loop tick ts (tf ∷ tfs) p =
      elim (Option-cases (bucket_start opts.day_start ts tf)) [
        | inl e ↦ rw (e, update_loop) refl
        | inr (o, e) ↦ elim (Option-cases (bucket_close o tf)) [
          | inl f ↦ rw (e, f, update_loop) refl
          | inr (c, f) ↦
              rw (e, f, update_loop)
                (closed-update_loop tick ts tfs (update_one opts tick ts tf o c p)
                  ∙ closed-update_one tick ts tf o c p)
        ]
      ]

  -- Under the policy `reject_stale`, and without eviction of idle series, no tick ever completes a
  -- candle: whatever ticks arrive, of whatever times, the session hands out none.
  pub stale_policy_closes_nothing :
      (tfs : List Timeframe) (ticks : List (Tick F)) (a : Aggregator F)
      → opts.idle_evict ≡ 0
      → (update_all opts tfs ticks a).1 ≡ []
  unfolding update_all update
  stale_policy_closes_nothing tfs [] a idle = refl
  stale_policy_closes_nothing tfs (t ∷ ts) a idle =
      let none' : ltb 0 opts.idle_evict ≡ false = rw idle refl in
      let p : Progress F = record { agg = a; closed = []; rejected = 0 } in
      let quiet = closed-update_loop t (tick_time t) tfs p in
      let rest = stale_policy_closes_nothing tfs ts (update opts t tfs a).0 idle in
      ground (arith, none', quiet, rest)
