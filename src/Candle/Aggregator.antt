-- ===== src/Candle/Aggregator.antt =====
-- The aggregator: the bars in progress and what a tick does to them (aggregator.go).
-- A bar is changed in place behind its pointer, which only the map holds: it is stored again.
use option_engine.Common.{
  ℕ, ◌+◌, ◌-◌, Bool, true, false, ◌&&◌, not, String, Option, none, some, List, [], ◌∷◌, ◌++◌, ltb,
  leb, nat_beq, Comparable, ◌==◌, ==_iff, string_eq, if◌then◌else◌, ◌≡◌, ◌↔◌, arith, length,
}
use option_engine.Common.Dict.{Dict, get, put, remove, size}
use option_engine.Common.Float.{Float}
use option_engine.Domain.{Instant, Duration, is_zero, Tick}
use option_engine.Candle.{
  Timeframe, tf1m, tf3m, tf5m, tf15m, tf30m, tf1h, tf1d, other, VolumeMode, cumulative, OrderPolicy,
  reject_older, is_stale_policy, Candle, BarBuilder, has_ticks, new_bar_builder, add_tick,
  bucket_start, bucket_close,
}

abbrev pub tf_beq : Timeframe → Timeframe → Bool
tf_beq tf1m tf1m = true
tf_beq tf3m tf3m = true
tf_beq tf5m tf5m = true
tf_beq tf15m tf15m = true
tf_beq tf30m tf30m = true
tf_beq tf1h tf1h = true
tf_beq tf1d tf1d = true
tf_beq (other s) (other t) = s == t
tf_beq _ _ = false

tf_beq_iff : (a b : Timeframe) → (tf_beq a b ≡ true) ↔ (a ≡ b)
tf_beq_iff (other s) (other t) = ground (arith, ==_iff s t)
tf_beq_iff a b = ground arith

pub record BarKey : Type 0 where
  pub symbol : String
  pub timeframe : Timeframe

abbrev bar_key_beq : BarKey → BarKey → Bool
bar_key_beq a b = a.symbol == b.symbol && tf_beq a.timeframe b.timeframe

pub bar_key_beq_iff : (a b : BarKey) → (bar_key_beq a b ≡ true) ↔ (a ≡ b)
bar_key_beq_iff a b = ground (arith, ==_iff a.symbol b.symbol, tf_beq_iff a.timeframe b.timeframe)

instance abbrev pub bar_key_eq : Comparable BarKey
bar_key_eq = record { equal = bar_key_beq; equal_iff = bar_key_beq_iff }

-- The options with their defaults in place; `day_start` is what the location is used for.
pub record Options : Type 0 where
  pub volume_mode : VolumeMode
  pub order_policy : OrderPolicy
  pub idle_evict : Duration
  pub day_start : Instant → Instant

pub record Aggregator (F : Type 0) : Type 0 where
  pub bars : Dict BarKey (BarBuilder F)
  pub order : List BarKey
  pub last_activity : Dict BarKey Instant
  pub last_closed : Dict BarKey Instant

pub record UpdateStats : Type 0 where
  pub closed : ℕ
  pub rejected : ℕ
  pub evicted : ℕ

-- The state of `Update` inside its loop.
pub record Progress (F : Type 0) : Type 0 where
  pub agg : Aggregator F
  pub closed : List (Candle F)
  pub rejected : ℕ

-- `NewAggregator`: an option that is the empty string takes its default.
unfoldable pub new_options :
    Option VolumeMode → Option OrderPolicy → Duration → (Instant → Instant) → Options
new_options mode policy idle day_start = record {
  volume_mode = elim mode [ none ↦ cumulative | some m ↦ m ];
  order_policy = elim policy [ none ↦ reject_older | some p ↦ p ];
  idle_evict = idle;
  day_start = day_start;
}

unfoldable pub new_aggregator : {F : Type 0} → Aggregator F
new_aggregator = record { bars = []; order = []; last_activity = []; last_closed = [] }

-- `last, ok := a.lastClosed[key]; ok && !open.After(last)`
abbrev pub is_closed : Option Instant → Instant → Bool
is_closed none open' = false
is_closed (some last) open' = leb open' last

-- `!ok || now.Sub(last) <= a.idleEvict`
abbrev pub is_fresh : Duration → Option Instant → Instant → Bool
is_fresh idle none now = true
is_fresh idle (some last) now = leb (now - last) idle

module _ {F : Type 0} where
  -- A completed bar is emitted if it holds a tick.
  unfoldable pub emit_bar : BarKey → BarBuilder F → Aggregator F → Aggregator F × List (Candle F)
  emit_bar key b a =
      if has_ticks b
      then (record a { last_closed = put key b.candle.open_time a.last_closed }, b.candle ∷ [])
      else (a, [])

  -- An idle series: its bar closes, and leaves the maps.
  unfoldable pub evict_bar : BarKey → Aggregator F → Aggregator F × List (Candle F)
  evict_bar key a =
      let (a', out) : Aggregator F × List (Candle F) = elim (get key a.bars) [
        | none ↦ (a, [])
        | some b ↦ emit_bar key b a
      ] in
      (record a' { bars = remove key a'.bars; last_activity = remove key a'.last_activity }, out)

  -- The loop of `evictIdleLocked`: what is kept of the order, and what closes.
  unfoldable pub evict_loop :
      Duration
      → String
      → Instant
      → List BarKey
      → Aggregator F
      → Aggregator F × List BarKey × List (Candle F)
  evict_loop idle symbol now [] a = (a, [], [])
  evict_loop idle symbol now (key ∷ keys) a =
      let idle' = key.symbol == symbol && not (is_fresh idle (get key a.last_activity) now) in
      let (gone, out) = evict_bar key a in
      let kept_rest = evict_loop idle symbol now keys a in
      let gone_rest = evict_loop idle symbol now keys gone in
      if idle'
      then (gone_rest.0, gone_rest.1, out ++ gone_rest.2)
      else (kept_rest.0, key ∷ kept_rest.1, kept_rest.2)

  unfoldable pub evict_idle :
      Duration → String → Instant → Aggregator F → Aggregator F × List (Candle F)
  evict_idle idle symbol now a =
      let (a', keep, closed) = evict_loop idle symbol now a.order a in
      (record a' { order = keep }, closed)

  unfoldable pub in_progress : List BarKey → Dict BarKey (BarBuilder F) → List (Candle F)
  in_progress [] bars = []
  in_progress (key ∷ keys) bars =
      let rest = in_progress keys bars in
      elim (get key bars) [ none ↦ rest | some b ↦ if has_ticks b then b.candle ∷ rest else rest ]

  unfoldable pub snapshot : Aggregator F → List (Candle F)
  snapshot a = in_progress a.order a.bars

  unfoldable pub flush : Aggregator F → Aggregator F × List (Candle F)
  flush a = (record { bars = []; order = []; last_activity = []; last_closed = [] }, snapshot a)

  unfoldable pub active_builders : Aggregator F → ℕ
  active_builders a = size a.bars

abbrev pub tick_time : {F : Type 0} → Tick F → Instant
tick_time tick = if is_zero tick.provider_ts then tick.received_at else tick.provider_ts

module _ {F : Type 0} ⦃n : Float F⦄ (opts : Options) where
  -- The end of the loop's body: the tick goes into the bar of its series.
  unfoldable pub apply_tick : Tick F → Instant → BarKey → BarBuilder F → Progress F → Progress F
  apply_tick tick ts key b p = record p {
    agg = record p.agg {
      bars = put key (add_tick tick opts.volume_mode b) p.agg.bars;
      last_activity = put key ts p.agg.last_activity;
    };
  }

  unfoldable pub refuse_tick : Progress F → Progress F
  refuse_tick p = record p { rejected = p.rejected + 1 }

  -- The `switch` for a series that has a bar.
  unfoldable pub existing_bar :
      Tick F → Instant → BarKey → Instant → Instant → BarBuilder F → Progress F → Progress F
  existing_bar tick ts key open' close' b p =
      let (a, out) = emit_bar key b p.agg in
      let rolled = record p { agg = a; closed = p.closed ++ out } in
      if ltb open' b.candle.open_time
      then refuse_tick p
      else if is_stale_policy opts.order_policy
      then if is_closed (get key p.agg.last_closed) open'
        then refuse_tick p
        else apply_tick tick ts key b p
      else if nat_beq open' b.candle.open_time
      then apply_tick tick ts key b p
      else apply_tick tick ts key (new_bar_builder tick.symbol key.timeframe open' close') rolled

  unfoldable pub first_bar : Tick F → Instant → BarKey → Instant → Instant → Progress F → Progress F
  first_bar tick ts key open' close' p =
      let listed = record p { agg = record p.agg { order = p.agg.order ++ key ∷ [] } } in
      if is_stale_policy opts.order_policy && is_closed (get key p.agg.last_closed) open'
      then refuse_tick p
      else apply_tick tick ts key (new_bar_builder tick.symbol key.timeframe open' close') listed

  -- One round of the loop over the timeframes.
  unfoldable pub update_one :
      Tick F → Instant → Timeframe → Instant → Instant → Progress F → Progress F
  update_one tick ts tf open' close' p =
      let key : BarKey = record { symbol = tick.symbol; timeframe = tf } in
      elim (get key p.agg.bars) [
        | none ↦ first_bar tick ts key open' close' p
        | some b ↦ existing_bar tick ts key open' close' b p
      ]

  -- The loop, and whether it ran to its end: an unknown timeframe stops it.
  unfoldable pub update_loop : Tick F → Instant → List Timeframe → Progress F → Bool × Progress F
  update_loop tick ts [] p = (true, p)
  update_loop tick ts (tf ∷ tfs) p = elim (bucket_start opts.day_start ts tf) [
    | none ↦ (false, p)
    | some open' ↦ elim (bucket_close open' tf) [
      | none ↦ (false, p)
      | some close' ↦ update_loop tick ts tfs (update_one tick ts tf open' close' p)
    ]
  ]

  -- `Update`. After an error the caller gets no candles, not even those that eviction closed.
  unfoldable pub update :
      Tick F → List Timeframe → Aggregator F → Aggregator F × Option (List (Candle F)) × UpdateStats
  update tick tfs a =
      let ts = tick_time tick in
      let evicts = ltb 0 opts.idle_evict in
      let (a', evicted) = if evicts then evict_idle opts.idle_evict tick.symbol ts a else (a, []) in
      let (fine, p) =
        update_loop tick ts tfs (record { agg = a'; closed = evicted; rejected = 0 }) in
      (
        p.agg,
        if fine then some p.closed else none,
        record { closed = 0; rejected = p.rejected; evicted = length evicted },
      )

  -- A session: each tick with its configured timeframes, and all candles that are handed out.
  unfoldable pub update_all :
      List Timeframe → List (Tick F) → Aggregator F → Aggregator F × List (Candle F)
  update_all tfs [] a = (a, [])
  update_all tfs (t ∷ ts) a =
      let (a', closed, stats) = update t tfs a in
      let out : List (Candle F) = elim closed [ none ↦ [] | some cs ↦ cs ] in
      let (a'', rest) = update_all tfs ts a' in (a'', out ++ rest)
