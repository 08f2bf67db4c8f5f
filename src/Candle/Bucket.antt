-- ===== src/Candle/Bucket.antt =====
-- Where a bar begins and ends (timeframe.go).
use option_engine.Common.{
  ℕ, ◌+◌, ◌-◌, ◌*◌, ◌/◌, ◌%◌, ◌≤◌, ◌<◌, ◌≡◌, refl, ap, ◌∙◌, Bool, true, false, none, some, arith,
  nat_beq,
}
use option_engine.Common.Int.{pos, ◌+ℤ◌, ◌-ℤ◌, ◌*ℤ◌, two63, int64_of_range, div_trunc}
use native.Mathlib.Nat.{zero-div}
use option_engine.Domain.{Instant, Duration}
use option_engine.Candle.{
  Timeframe, tf1m, tf3m, tf5m, tf15m, tf30m, tf1h, tf1d, other, minute, duration, unix_epoch,
  unix_nano, unix, intraday_start, bucket_start, bucket_close,
}

-- An instant that `UnixNano` can tell, and not before 1970.
abbrev pub IsRecent : Instant → Type 0
IsRecent t = (unix_epoch ≤ t) × (t < unix_epoch + two63)

sub_epoch : (t : Instant) → unix_epoch ≤ t → pos t -ℤ pos unix_epoch ≡ pos (t - unix_epoch)
unfolding ◌-ℤ◌
sub_epoch t h = ground arith

unix_nano_recent : (t : Instant) → IsRecent t → unix_nano t ≡ pos (t - unix_epoch)
unfolding unix_nano
unix_nano_recent t h =
    rw (sub_epoch t h.0) (int64_of_range (pos (t - unix_epoch)) (omega arith) (omega arith))

div_trunc_pos : (a w : ℕ) → div_trunc (pos a) w ≡ pos (a / w)
unfolding div_trunc
div_trunc_pos a w = rw (zero-div w) (ground arith)

unix_mul : (a w : ℕ) → unix (pos a *ℤ pos w) ≡ a * w + unix_epoch
unfolding unix ◌*ℤ◌ ◌+ℤ◌
unix_mul a w = ground arith

-- The start of a bar, in natural numbers.
start_at : Duration → Instant → Instant
start_at w ts = (ts - ts % minute - unix_epoch) / w * w + unix_epoch

intraday-start_at : (ts w : ℕ) → IsRecent ts → w % minute ≡ 0 → intraday_start ts w ≡ start_at w ts
unfolding intraday_start start_at
intraday-start_at ts w h m =
    let local = ts - ts % minute in
    let recent : IsRecent local = (omega (arith, h.0), omega (arith, h.1)) in
    let whole : nat_beq (w % minute) 0 ≡ true = ground (arith, m) in
    rw (whole, intraday_start)
      (rw (unix_nano_recent local recent, div_trunc_pos (local - unix_epoch) w)
        (unix_mul ((local - unix_epoch) / w) w))

-- The timeframes shorter than a day.
abbrev pub is_intraday : Timeframe → Bool
is_intraday tf1d = false
is_intraday (other s) = false
is_intraday _ = true

abbrev width : Timeframe → Duration
width tf = elim (duration tf) [ none ↦ 0 | some d ↦ d ]

bucket-start_at :
    (day_start : Instant → Instant) (tf : Timeframe) (ts : Instant)
    → is_intraday tf ≡ true
    → IsRecent ts
    → bucket_start day_start ts tf ≡ some (start_at (width tf) ts)
unfolding bucket_start duration
bucket-start_at day_start tf1m ts i h = ap some (intraday-start_at ts 60_000_000_000 h refl)
bucket-start_at day_start tf3m ts i h = ap some (intraday-start_at ts 180_000_000_000 h refl)
bucket-start_at day_start tf5m ts i h = ap some (intraday-start_at ts 300_000_000_000 h refl)
bucket-start_at day_start tf15m ts i h = ap some (intraday-start_at ts 900_000_000_000 h refl)
bucket-start_at day_start tf30m ts i h = ap some (intraday-start_at ts 1_800_000_000_000 h refl)
bucket-start_at day_start tf1h ts i h = ap some (intraday-start_at ts 3_600_000_000_000 h refl)
bucket-start_at day_start _ ts i h = cc

bucket-close_at :
    (tf : Timeframe) (o : Instant) → is_intraday tf ≡ true → bucket_close o tf ≡ some (o + width tf)
unfolding bucket_close duration
bucket-close_at tf o i = ground arith

start_at_contains :
    (tf : Timeframe) (ts : ℕ)
    → is_intraday tf ≡ true
    → unix_epoch ≤ ts
    → (start_at (width tf) ts ≤ ts) × (ts < start_at (width tf) ts + width tf)
unfolding start_at duration
start_at_contains tf1m ts i h = (omega arith, omega arith)
start_at_contains tf3m ts i h = (omega arith, omega arith)
start_at_contains tf5m ts i h = (omega arith, omega arith)
start_at_contains tf15m ts i h = (omega arith, omega arith)
start_at_contains tf30m ts i h = (omega arith, omega arith)
start_at_contains tf1h ts i h = (omega arith, omega arith)
start_at_contains _ ts i h = cc

start_at_same :
    (tf : Timeframe) (ts u : ℕ)
    → is_intraday tf ≡ true
    → unix_epoch ≤ ts
    → start_at (width tf) ts ≤ u
    → u < start_at (width tf) ts + width tf
    → start_at (width tf) u ≡ start_at (width tf) ts
unfolding start_at duration
start_at_same tf1m ts u i h l m = omega arith
start_at_same tf3m ts u i h l m = omega arith
start_at_same tf5m ts u i h l m = omega arith
start_at_same tf15m ts u i h l m = omega arith
start_at_same tf30m ts u i h l m = omega arith
start_at_same tf1h ts u i h l m = omega arith
start_at_same _ ts u i h l m = cc

-- The bar that a tick falls into, for a timeframe shorter than a day: it exists and contains the
-- tick's instant, which is from 1970 on and within the range of int64 nanoseconds.
pub bucket_contains :
    (day_start : Instant → Instant) (tf : Timeframe) (ts : Instant)
    → is_intraday tf ≡ true
    → IsRecent ts
    → (o c : Instant) × (bucket_start day_start ts tf ≡ some o)
      × (bucket_close o tf ≡ some c)
      × (o ≤ ts)
      × (ts < c)
bucket_contains day_start tf ts i h =
    let o = start_at (width tf) ts in
    let (low, high) = start_at_contains tf ts i h.0 in
    (o, o + width tf, bucket-start_at day_start tf ts i h, bucket-close_at tf o i, low, high)

-- Every instant that a bar contains falls into that bar, so that the bars of a timeframe shorter
-- than a day never overlap. Both instants are from 1970 on and within the range of int64
-- nanoseconds.
pub bucket_unique :
    (day_start : Instant → Instant) (tf : Timeframe) (ts u o c : Instant)
    → is_intraday tf ≡ true
    → IsRecent ts
    → IsRecent u
    → bucket_start day_start ts tf ≡ some o
    → bucket_close o tf ≡ some c
    → o ≤ u
    → u < c
    → bucket_start day_start u tf ≡ some o
bucket_unique day_start tf ts u o c i h r e f l m =
    let start : start_at (width tf) ts ≡ o = cc (bucket-start_at day_start tf ts i h, e) in
    let close : o + width tf ≡ c = cc (bucket-close_at tf o i, f) in
    bucket-start_at day_start tf u i r
    ∙ ap some (
        start_at_same tf ts u i h.0 (omega (arith, l, start)) (omega (arith, m, start, close))
        ∙ start)
