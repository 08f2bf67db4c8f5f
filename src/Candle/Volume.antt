-- ===== src/Candle/Volume.antt =====
-- The volume of a new bar (aggregator.go, `tickWeight`; VOLUME_CONTRACT.md).
use option_engine.Common.{
  ◌<◌, ◌≡◌, ◌∙◌, true, false, some, arith, ltb, lt→ltb, nat_beq, if◌then◌else◌,
}
use option_engine.Common.Int.{
  ℤ, pos, ◌+ℤ◌, ltb_ℤ, ◌<ℤ◌, int64, int64_of_range, two63, pos_part, +ℤ_parts, eq_of_parts,
}
use option_engine.Common.Dict.{get, get-put_self}
use option_engine.Common.Float.{Float}
use option_engine.Domain.{Instant, Tick}
use option_engine.Candle.{
  Timeframe, cumulative, reject_older, Candle, BarBuilder, Weight, tick_weight, new_bar_builder,
  add_price, add_volume, add_tick,
}
use option_engine.Candle.Aggregator.{
  BarKey, bar_key_eq, Options, Progress, emit_bar, apply_tick, existing_bar,
}

-- With no volume remembered, the whole of a tick's volume is its weight.
first_weight : (v : ℤ) → pos 0 <ℤ v → (tick_weight cumulative v (pos 0) false).weight ≡ v
unfolding tick_weight
first_weight v h = ground (arith, h)

module _ {F : Type 0} ⦃n : Float F⦄ where
  volume-add_volume :
      (price : F) (w : Weight) (b : BarBuilder F)
      → (add_volume price w b).candle.volume
        ≡ (if ltb_ℤ (pos 0) w.weight then int64 (b.candle.volume +ℤ w.weight) else b.candle.volume)
  unfolding add_volume
  volume-add_volume price w b = ground arith

  volume-add_price : (price : F) (c : Candle F) → (add_price price c).volume ≡ c.volume
  unfolding add_price
  volume-add_price price c = ground arith

  first_volume :
      (tick : Tick F) (tf : Timeframe) (o c : Instant)
      → pos 0 <ℤ tick.volume
      → pos_part tick.volume < two63
      → (add_tick tick cumulative (new_bar_builder tick.symbol tf o c)).candle.volume ≡ tick.volume
  unfolding add_tick new_bar_builder
  first_volume tick tf o c h r =
      let b = new_bar_builder tick.symbol tf o c in
      let w = tick_weight cumulative tick.volume (pos 0) false in
      let same : pos 0 +ℤ tick.volume ≡ tick.volume =
        eq_of_parts (pos 0 +ℤ tick.volume) tick.volume
          (omega (arith, +ℤ_parts (pos 0) tick.volume)) in
      let some' : ltb_ℤ (pos 0) tick.volume ≡ true = lt→ltb _ _ h in
      volume-add_volume tick.ltp w (record b { candle = add_price tick.ltp b.candle })
      ∙ rw (first_weight tick.volume h, volume-add_price tick.ltp b.candle, some', same)
          (int64_of_range tick.volume r (ground (arith, h)))

  -- A tick of a later bucket opens a bar whose volume is the whole of the tick's volume, in the mode
  -- in which that is the running total of the session, and whatever volume the bar before it had
  -- remembered. (The volume is above zero, and the policy is the default one.)
  pub rolled_bar_counts_session :
      (opts : Options) (tick : Tick F) (ts : Instant) (k : BarKey) (o c : Instant)
      (b : BarBuilder F) (p : Progress F)
      → opts.volume_mode ≡ cumulative
      → opts.order_policy ≡ reject_older
      → b.candle.open_time < o
      → pos 0 <ℤ tick.volume
      → pos_part tick.volume < two63
      → (b' : BarBuilder F) × (get k (existing_bar opts tick ts k o c b p).agg.bars ≡ some b')
        × (b'.candle.volume ≡ tick.volume)
  unfolding existing_bar apply_tick
  rolled_bar_counts_session opts tick ts k o c b p mode policy later h r =
      let fresh = new_bar_builder tick.symbol k.timeframe o c in
      let (a, out) = emit_bar k b p.agg in
      let forward : ltb o b.candle.open_time ≡ false = ground (arith, later) in
      let new' : nat_beq o b.candle.open_time ≡ false = ground (arith, later) in
      (
        add_tick tick cumulative fresh,
        rw (forward, policy, new', mode, existing_bar)
            (get-put_self k (add_tick tick cumulative fresh) a.bars),
        first_volume tick k.timeframe o c h r,
      )
