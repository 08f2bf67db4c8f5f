-- ===== src/Candle.antt =====
-- The candle engine: internal/analytics/candle/{timeframe,volume,config,aggregator}.go and the candle
-- and tick of internal/domain/market. A candle's random identifier is left out.
pub mod Bucket
pub mod Aggregator
pub mod Ohlc
pub mod Session
pub mod Volume
pub mod Samples
use option_engine.Common.{
  ℕ, ◌+◌, ◌-◌, ◌%◌, Bool, true, false, ◌&&◌, not, String, Option, none, some, List, [], ◌∷◌, ◌++◌,
  ltb, leb, nat_beq, Comparable, ◌==◌, ==_iff, string_eq, if◌then◌else◌, ◌≡◌, ◌↔◌, arith,
}
use option_engine.Common.Int.{
  ℤ, pos, pos_part, ◌+ℤ◌, ◌-ℤ◌, ◌*ℤ◌, div_trunc, int64, ltb_ℤ, leb_ℤ, beq_ℤ,
}
use option_engine.Common.Float.{Float}
use option_engine.Domain.{Instant, Duration, is_zero, Tick}

-- The strings of `market.Timeframe`; `other` is any other.
pub data Timeframe : Type 0 where
  tf1m tf3m tf5m tf15m tf30m tf1h tf1d : Timeframe
  other : String → Timeframe

abbrev pub minute : Duration
minute = 60_000_000_000

-- `Duration`; nothing stands for its error.
unfoldable pub duration : Timeframe → Option Duration
duration tf1m = some 60_000_000_000
duration tf3m = some 180_000_000_000
duration tf5m = some 300_000_000_000
duration tf15m = some 900_000_000_000
duration tf30m = some 1_800_000_000_000
duration tf1h = some 3_600_000_000_000
duration tf1d = some 86_400_000_000_000
duration (other s) = none

abbrev pub is_daily : Timeframe → Bool
is_daily tf1d = true
is_daily _ = false

-- 1 January 1970 UTC: 719,162 days after Go's zero time.
abbrev pub unix_epoch : Instant
unix_epoch = 62_135_596_800_000_000_000

-- `t.UnixNano()`, an int64.
unfoldable pub unix_nano : Instant → ℤ
unix_nano t = int64 (pos t -ℤ pos unix_epoch)

-- `time.Unix(0, n)`, for an instant that is not before the zero time.
unfoldable pub unix : ℤ → Instant
unix z = pos_part (z +ℤ pos unix_epoch)

-- The start of the bar of a timeframe that is shorter than a day. The quotient times the width is no
-- further from 0 than the epoch itself, so that the product does not wrap.
unfoldable pub intraday_start : Instant → Duration → Instant
unfolding unix unix_nano
intraday_start ts width =
    let local = if nat_beq (width % minute) 0 then ts - ts % minute else ts in
    unix (div_trunc (unix_nano local) width *ℤ pos width)

-- `BucketStart`; `day_start` stands for `time.Date(y, m, d, 0, 0, 0, 0, loc)` of an instant's day.
unfoldable pub bucket_start : (Instant → Instant) → Instant → Timeframe → Option Instant
bucket_start day_start ts tf = elim (duration tf) [
  | none ↦ none
  | some width ↦
      if is_daily tf
      then some (day_start ts)
      else if nat_beq width 0
      then none
      else some (intraday_start ts width)
]

unfoldable pub bucket_close : Instant → Timeframe → Option Instant
bucket_close open' tf = elim (duration tf) [ none ↦ none | some d ↦ some (open' + d) ]

pub data VolumeMode : Type 0 where
  cumulative incremental : VolumeMode

pub data OrderPolicy : Type 0 where
  reject_older reject_stale : OrderPolicy

abbrev pub is_stale_policy : OrderPolicy → Bool
is_stale_policy reject_older = false
is_stale_policy reject_stale = true

pub record Candle (F : Type 0) : Type 0 where
  pub symbol : String
  pub timeframe : Timeframe
  pub open_price : F
  pub high : F
  pub low : F
  pub close_price : F
  pub volume : ℤ
  pub vwap : F
  pub trade_count : ℤ
  pub open_time : Instant
  pub close_time : Instant

pub record BarBuilder (F : Type 0) : Type 0 where
  pub candle : Candle F
  pub vwap_numer : F
  pub vwap_denom : F
  pub last_volume : ℤ
  pub has_last_vol : Bool

-- What `tickWeight` gives: the weight, the volume to remember, and whether there is one.
pub record Weight : Type 0 where
  pub weight : ℤ
  pub next_last : ℤ
  pub has_next : Bool

unfoldable pub tick_weight : VolumeMode → ℤ → ℤ → Bool → Weight
tick_weight incremental volume last has_last =
    if leb_ℤ volume (pos 0)
    then record { weight = pos 0; next_last = last; has_next = has_last }
    else record { weight = volume; next_last = last; has_next = has_last }
tick_weight cumulative volume last has_last =
    if leb_ℤ volume (pos 0)
    then record { weight = pos 0; next_last = last; has_next = has_last }
    else if not has_last
    then record { weight = volume; next_last = volume; has_next = true }
    else if ltb_ℤ last volume
    then record { weight = int64 (volume -ℤ last); next_last = volume; has_next = true }
    else if ltb_ℤ volume last
    then record { weight = volume; next_last = volume; has_next = true }
    else record { weight = pos 0; next_last = last; has_next = true }

abbrev pub has_ticks : {F : Type 0} → BarBuilder F → Bool
has_ticks b = ltb_ℤ (pos 0) b.candle.trade_count

module _ {F : Type 0} ⦃n : Float F⦄ where
  unfoldable pub new_bar_builder : String → Timeframe → Instant → Instant → BarBuilder F
  new_bar_builder symbol tf open' close' =
      let zero' = n.of_int (pos 0) in
      record {
        candle = record {
          symbol = symbol;
          timeframe = tf;
          open_price = zero';
          high = zero';
          low = zero';
          close_price = zero';
          volume = pos 0;
          vwap = zero';
          trade_count = pos 0;
          open_time = open';
          close_time = close';
        };
        vwap_numer = zero';
        vwap_denom = zero';
        last_volume = pos 0;
        has_last_vol = false;
      }

  -- The first half of `addTick`: open, high, low and close.
  unfoldable pub add_price : F → Candle F → Candle F
  add_price price c =
      if beq_ℤ c.trade_count (pos 0)
      then record c { open_price = price; high = price; low = price; close_price = price }
      else record c {
        high = if n.lt c.high price then price else c.high;
        low = if n.lt price c.low then price else c.low;
        close_price = price;
      }

  -- The second half: volume and VWAP.
  unfoldable pub add_volume : F → Weight → BarBuilder F → BarBuilder F
  add_volume price w b =
      let b' =
        if w.has_next then record b { last_volume = w.next_last; has_last_vol = true } else b in
      let numer = n.add b'.vwap_numer (n.mul price (n.of_int w.weight)) in
      let denom = n.add b'.vwap_denom (n.of_int w.weight) in
      let volume = int64 (b'.candle.volume +ℤ w.weight) in
      if ltb_ℤ (pos 0) w.weight
      then record b' {
        candle = record b'.candle {
          volume = volume;
          vwap = if n.lt (n.of_int (pos 0)) denom then n.div numer denom else b'.candle.vwap;
        };
        vwap_numer = numer;
        vwap_denom = denom;
      }
      else b'

  unfoldable pub add_tick : Tick F → VolumeMode → BarBuilder F → BarBuilder F
  add_tick tick mode b =
      let priced = record b { candle = add_price tick.ltp b.candle } in
      let w = tick_weight mode tick.volume b.last_volume b.has_last_vol in
      let b' = add_volume tick.ltp w priced in
      record b' {
        candle = record b'.candle { trade_count = int64 (b'.candle.trade_count +ℤ pos 1) };
      }
