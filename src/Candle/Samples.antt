-- ===== src/Candle/Samples.antt =====
-- The candle engine at concrete ticks, prices being whole numbers.
use option_engine.Common.{
  ℕ, ◌+◌, ◌≡◌, ◌<◌, ◌≤◌, refl, Bool, true, false, String, Option, none, some, List, [], ◌∷◌, ◌++◌,
  arith, All,
}
use option_engine.Common.Int.{ℤ, pos}
use option_engine.Common.Dict.{get}
use option_engine.Common.Float.{int_float, int_IsOrdered}
use option_engine.Domain.{Instant, Tick, index}
use option_engine.Candle.{
  Timeframe, tf1m, tf5m, cumulative, reject_older, reject_stale, BarBuilder, new_bar_builder,
  add_tick, unix_epoch, minute, bucket_start, bucket_close,
}
use option_engine.Candle.Bucket.{IsRecent, bucket_contains, bucket_unique}
use option_engine.Candle.Aggregator.{
  BarKey, bar_key_eq, Options, new_aggregator, Progress, existing_bar, update_all, flush,
}
use option_engine.Candle.Ohlc.{Ordered}
use option_engine.Candle.Session.{candles-Ordered, stale_policy_closes_nothing}
use option_engine.Candle.Volume.{rolled_bar_counts_session}

abbrev midnight : Instant → Instant
midnight t = t

abbrev options : Options
options = record {
  volume_mode = cumulative;
  order_policy = reject_older;
  idle_evict = 0;
  day_start = midnight;
}

abbrev stale_options : Options
stale_options = record options { order_policy = reject_stale }

-- A tick some nanoseconds after the beginning of 1970.
abbrev tick_at : ℕ → ℕ → ℕ → Tick ℤ
tick_at after price volume = record {
  symbol = "NIFTY";
  exchange = "NSE";
  instrument_type = index;
  ltp = pos price;
  open_price = pos 0;
  high = pos 0;
  low = pos 0;
  close_price = pos 0;
  volume = pos volume;
  bid = pos 0;
  ask = pos 0;
  bid_qty = pos 0;
  ask_qty = pos 0;
  oi = pos 0;
  provider_ts = unix_epoch + after;
  received_at = 0;
  sequence_num = pos 0;
}

abbrev session : List (Tick ℤ)
session =
    tick_at 1 10 100
    ∷ tick_at 2 12 150
    ∷ tick_at 60_000_000_001 9 160
    ∷ tick_at 60_000_000_005 8 170
    ∷ []

abbrev some_time : Instant
some_time = unix_epoch + 400_000_000_123

some_time-IsRecent : IsRecent some_time
some_time-IsRecent = (omega arith, omega arith)

bucket_contains_example :
    (o c : Instant) × (bucket_start midnight some_time tf5m ≡ some o)
    × (bucket_close o tf5m ≡ some c)
    × (o ≤ some_time)
    × (some_time < c)
bucket_contains_example = bucket_contains midnight tf5m some_time refl some_time-IsRecent

abbrev open_time : Instant
open_time = unix_epoch + 300_000_000_000

abbrev close_time : Instant
close_time = unix_epoch + 600_000_000_000

bucket_unique_example : bucket_start midnight (unix_epoch + 599_999_999_999) tf5m ≡ some open_time
unfolding bucket_start bucket_close option_engine.Candle.duration
    option_engine.Candle.intraday_start option_engine.Common.Int.◌+ℤ◌ option_engine.Common.Int.◌*ℤ◌
    option_engine.Common.Int.div_trunc option_engine.Common.Int.int64 option_engine.Common.Int.◌-ℤ◌
bucket_unique_example =
    bucket_unique midnight tf5m some_time (unix_epoch + 599_999_999_999) open_time close_time refl
      some_time-IsRecent (omega arith, omega arith) refl refl (omega arith) (omega arith)

candles-Ordered_example :
    let (a, out) = update_all options (tf1m ∷ tf5m ∷ []) session new_aggregator in
    All Ordered (out ++ (flush a).1)
candles-Ordered_example = candles-Ordered options int_IsOrdered (tf1m ∷ tf5m ∷ []) session

stale_policy_closes_nothing_example :
    (update_all stale_options (tf1m ∷ []) session new_aggregator).1 ≡ []
stale_policy_closes_nothing_example =
    stale_policy_closes_nothing stale_options refl (tf1m ∷ []) session new_aggregator refl

abbrev minute_key : BarKey
minute_key = record { symbol = "NIFTY"; timeframe = tf1m }

abbrev first_minute : BarBuilder ℤ
first_minute =
    add_tick (tick_at 1 10 100) cumulative
      (new_bar_builder "NIFTY" tf1m unix_epoch (unix_epoch + minute))

abbrev before : Progress ℤ
before = record { agg = new_aggregator; closed = []; rejected = 0 }

rolled_bar_counts_session_example :
    (b' : BarBuilder ℤ) × (get minute_key
        (existing_bar options
          (tick_at 60_000_000_001 9 160)
          (unix_epoch + 60_000_000_001)
          minute_key
          (unix_epoch + minute)
          (unix_epoch + 120_000_000_000)
          first_minute
          before).agg.bars
      ≡ some b')
    × (b'.candle.volume ≡ pos 160)
unfolding add_tick new_bar_builder option_engine.Candle.add_volume option_engine.Candle.tick_weight
    option_engine.Candle.add_price
rolled_bar_counts_session_example =
    rolled_bar_counts_session options (tick_at 60_000_000_001 9 160) (unix_epoch + 60_000_000_001)
      minute_key (unix_epoch + minute) (unix_epoch + 120_000_000_000) first_minute before refl refl
      (omega arith) (omega arith) (omega arith)
