-- ===== src/Candle/Ohlc.antt =====
-- Every candle's prices are in order (aggregator.go).
use option_engine.Common.{
  ◌≡◌, refl, subst, ◌⊎◌, inl, inr, false, ◌&&◌, not, String, some, List, [], ◌∷◌, ◌++◌, arith, ltb,
  nat_beq, ◌==◌, string_eq, Bool-cases, Option-cases, All, All-append,
}
use option_engine.Common.Int.{pos, beq_ℤ, ltb_ℤ}
use option_engine.Common.Dict.{Dict, get, put, remove, get-put, get-remove}
use option_engine.Common.Float.{Float, IsOrdered}
use option_engine.Domain.{Instant, Duration, Tick}
use option_engine.Candle.{
  Timeframe, VolumeMode, Candle, BarBuilder, Weight, tick_weight, has_ticks, new_bar_builder,
  add_price, add_volume, add_tick, bucket_start, bucket_close, is_stale_policy,
}
use option_engine.Candle.Aggregator.{
  BarKey, bar_key_eq, Options, Aggregator, Progress, is_closed, is_fresh, emit_bar, evict_bar,
  evict_loop, apply_tick, refuse_tick, existing_bar, first_bar, update_one, update_loop,
}

module _ {F : Type 0} ⦃n : Float F⦄ where
  -- High is not below, and low not above, the other prices. (Not below: NaN is not ordered at all.)
  pub record IsOhlc (o h l c : F) : Type 0 where
    pub high_open : n.lt h o ≡ false
    pub high_close : n.lt h c ≡ false
    pub open_low : n.lt o l ≡ false
    pub close_low : n.lt c l ≡ false
    pub high_low : n.lt h l ≡ false

  abbrev pub Ordered : Candle F → Type 0
  Ordered c = IsOhlc c.open_price c.high c.low c.close_price

  add_price-Ordered :
      (o : IsOrdered F) (price : F) (c : Candle F)
      → (c.trade_count ≡ pos 0) ⊎ Ordered c
      → Ordered (add_price price c)
  unfolding add_price
  add_price-Ordered o price c v = elim (Bool-cases (beq_ℤ c.trade_count (pos 0))) [
    | inl first ↦
        let same = o.lt_irrefl price in
        rw (first, add_price)
          (record {
            high_open = same;
            high_close = same;
            open_low = same;
            close_low = same;
            high_low = same;
          })
    | inr later ↦ elim v [
      | inl z ↦ absurd (ground (arith, z, later))
      | inr w ↦
          rw (later, add_price)
            (record {
              high_open = ground (arith, w.high_open, o.lt_trans c.high price c.open_price);
              high_close = ground (arith, o.lt_irrefl price);
              open_low = ground (arith, w.open_low, o.lt_trans c.open_price price c.low);
              close_low = ground (arith, o.lt_irrefl price);
              high_low =
                  ground (arith, w.high_low, o.lt_irrefl price, o.lt_trans c.high price c.low);
            })
    ]
  ]

  add_volume-Ordered :
      (price : F) (w : Weight) (b : BarBuilder F)
      → Ordered b.candle
      → Ordered (add_volume price w b).candle
  unfolding add_volume
  add_volume-Ordered price w b v = elim (Bool-cases w.has_next) [
    | inl h ↦ elim (Bool-cases (ltb_ℤ (pos 0) w.weight)) [
      | inl p ↦ rw (h, p, add_volume) v
      | inr p ↦ rw (h, p, add_volume) v
    ]
    | inr h ↦ elim (Bool-cases (ltb_ℤ (pos 0) w.weight)) [
      | inl p ↦ rw (h, p, add_volume) v
      | inr p ↦ rw (h, p, add_volume) v
    ]
  ]

  -- A tick keeps a bar's prices in order, and puts those of a new bar in order.
  add_tick-Ordered :
      (o : IsOrdered F) (tick : Tick F) (mode : VolumeMode) (b : BarBuilder F)
      → (b.candle.trade_count ≡ pos 0) ⊎ Ordered b.candle
      → Ordered (add_tick tick mode b).candle
  unfolding add_tick
  add_tick-Ordered o tick mode b v =
      add_volume-Ordered tick.ltp (tick_weight mode tick.volume b.last_volume b.has_last_vol)
        (record b { candle = add_price tick.ltp b.candle })
        (add_price-Ordered o tick.ltp b.candle v)

  -- Every bar in progress is in order.
  abbrev pub AllBars : Dict BarKey (BarBuilder F) → Type 0
  AllBars bars = (k : BarKey) (b : BarBuilder F) → get k bars ≡ some b → Ordered b.candle

  put-AllBars :
      (k : BarKey) (b : BarBuilder F) (bars : Dict BarKey (BarBuilder F))
      → Ordered b.candle
      → AllBars bars
      → AllBars (put k b bars)
  put-AllBars k b bars w v j c h = elim (Bool-cases (k == j)) [
    | inl y ↦
        let same : b ≡ c = ground (arith, get-put k j b bars, y, h) in
        subst (λ x. Ordered x.candle) same w
    | inr d ↦ v j c (ground (arith, get-put k j b bars, d, h))
  ]

  remove-AllBars :
      (k : BarKey) (bars : Dict BarKey (BarBuilder F)) → AllBars bars → AllBars (remove k bars)
  remove-AllBars k bars v j c h = v j c (ground (arith, get-remove k j bars, h))

  -- What a step leaves: bars in order, and candles in order among those handed out.
  abbrev pub Fine : Aggregator F → List (Candle F) → Type 0
  Fine a out = AllBars a.bars × All Ordered out

  emit_bar-Fine :
      (k : BarKey) (b : BarBuilder F) (a : Aggregator F)
      → Ordered b.candle
      → AllBars a.bars
      → let (a', out) = emit_bar k b a in Fine a' out × (a'.bars ≡ a.bars)
  unfolding emit_bar
  emit_bar-Fine k b a w v = elim (Bool-cases (has_ticks b)) [
    | inl h ↦ rw (h, emit_bar) ((v, (w, tt)), refl)
    | inr h ↦ rw (h, emit_bar) ((v, tt), refl)
  ]

  evict_bar-Fine :
      (k : BarKey) (a : Aggregator F)
      → AllBars a.bars
      → let (a', out) = evict_bar k a in Fine a' out
  unfolding evict_bar
  evict_bar-Fine k a v = elim (Option-cases (get k a.bars)) [
    | inl e ↦ rw (e, evict_bar) (remove-AllBars k a.bars v, tt)
    | inr (b, e) ↦
        let (a', out) = emit_bar k b a in
        let ((v', ok), same) = emit_bar-Fine k b a (v k b e) v in
        rw (e, evict_bar) (remove-AllBars k a'.bars v', ok)
  ]

  pub evict_loop-Fine :
      (idle : Duration) (symbol : String) (now : Instant) (keys : List BarKey) (a : Aggregator F)
      → AllBars a.bars
      → let r = evict_loop idle symbol now keys a in Fine r.0 r.2
  unfolding evict_loop
  evict_loop-Fine idle symbol now [] a v = (v, tt)
  evict_loop-Fine idle symbol now (k ∷ ks) a v =
      elim (Bool-cases (k.symbol == symbol && not (is_fresh idle (get k a.last_activity) now))) [
        | inr stay ↦ rw (stay, evict_loop) (evict_loop-Fine idle symbol now ks a v)
        | inl gone ↦
            let (a', out) = evict_bar k a in
            let (v', ok) = evict_bar-Fine k a v in
            let (v'', ok') = evict_loop-Fine idle symbol now ks a' v' in
            rw (gone, evict_loop) (v'', All-append Ordered out _ ok ok')
      ]

  abbrev pub FineProgress : Progress F → Type 0
  FineProgress p = Fine p.agg p.closed

module _ {F : Type 0} ⦃n : Float F⦄ (opts : Options) (ordered : IsOrdered F) where
  apply_tick-Fine :
      (tick : Tick F) (ts : Instant) (k : BarKey) (b : BarBuilder F) (p : Progress F)
      → (b.candle.trade_count ≡ pos 0) ⊎ Ordered b.candle
      → FineProgress p
      → FineProgress (apply_tick opts tick ts k b p)
  unfolding apply_tick
  apply_tick-Fine tick ts k b p w (v, ok) = (
    put-AllBars k (add_tick tick opts.volume_mode b) p.agg.bars
        (add_tick-Ordered ordered tick opts.volume_mode b w) v,
    ok,
  )

  existing_bar-Fine :
      (tick : Tick F) (ts : Instant) (k : BarKey) (o c : Instant) (b : BarBuilder F)
      (p : Progress F)
      → Ordered b.candle
      → FineProgress p
      → FineProgress (existing_bar opts tick ts k o c b p)
  unfolding existing_bar refuse_tick
  existing_bar-Fine tick ts k o c b p w v =
      let (a, out) = emit_bar k b p.agg in
      let ((v', ok), same) = emit_bar-Fine k b p.agg w v.0 in
      let rolled = record p { agg = a; closed = p.closed ++ out } in
      let fresh = new_bar_builder tick.symbol k.timeframe o c in
      let kept = apply_tick-Fine tick ts k b p (inr w) v in
      elim (Bool-cases (ltb o b.candle.open_time)) [
        | inl old ↦ rw (old, existing_bar) v
        | inr old ↦ elim (Bool-cases (is_stale_policy opts.order_policy)) [
          | inl s ↦ elim (Bool-cases (is_closed (get k p.agg.last_closed) o)) [
            | inl d ↦ rw (old, s, d, existing_bar) v
            | inr d ↦ rw (old, s, d, existing_bar) kept
          ]
          | inr s ↦ elim (Bool-cases (nat_beq o b.candle.open_time)) [
            | inl d ↦ rw (old, s, d, existing_bar) kept
            | inr d ↦
                rw (old, s, d, existing_bar)
                  (apply_tick-Fine tick ts k fresh rolled (inl (unfold new_bar_builder in refl))
                    (v', All-append Ordered p.closed out v.1 ok))
          ]
        ]
      ]

  first_bar-Fine :
      (tick : Tick F) (ts : Instant) (k : BarKey) (o c : Instant) (p : Progress F)
      → FineProgress p
      → FineProgress (first_bar opts tick ts k o c p)
  unfolding first_bar refuse_tick
  first_bar-Fine tick ts k o c p v =
      let listed = record p { agg = record p.agg { order = p.agg.order ++ k ∷ [] } } in
      let fresh = new_bar_builder tick.symbol k.timeframe o c in
      elim (Bool-cases
        (is_stale_policy opts.order_policy && is_closed (get k p.agg.last_closed) o)) [
          | inl d ↦ rw (d, first_bar) v
          | inr d ↦
              rw (d, first_bar)
                (apply_tick-Fine tick ts k fresh listed (inl (unfold new_bar_builder in refl)) v)
        ]

  update_one-Fine :
      (tick : Tick F) (ts : Instant) (tf : Timeframe) (o c : Instant) (p : Progress F)
      → FineProgress p
      → FineProgress (update_one opts tick ts tf o c p)
  unfolding update_one
  update_one-Fine tick ts tf o c p v =
      let k : BarKey = record { symbol = tick.symbol; timeframe = tf } in
      elim (Option-cases (get k p.agg.bars)) [
        | inl e ↦ rw (e, update_one) (first_bar-Fine tick ts k o c p v)
        | inr (b, e) ↦ rw (e, update_one) (existing_bar-Fine tick ts k o c b p (v.0 k b e) v)
      ]

  pub update_loop-Fine :
      (tick : Tick F) (ts : Instant) (tfs : List Timeframe) (p : Progress F)
      → FineProgress p
      → FineProgress (update_loop opts tick ts tfs p).1
  unfolding update_loop
  update_loop-Fine tick ts [] p v = v
  update_loop-Fine tick ts (tf ∷ tfs) p v =
      elim (Option-cases (bucket_start opts.day_start ts tf)) [
        | inl e ↦ rw (e, update_loop) v
        | inr (o, e) ↦ elim (Option-cases (bucket_close o tf)) [
          | inl f ↦ rw (e, f, update_loop) v
          | inr (c, f) ↦
              rw (e, f, update_loop)
                (update_loop-Fine tick ts tfs (update_one opts tick ts tf o c p)
                  (update_one-Fine tick ts tf o c p v))
        ]
      ]
