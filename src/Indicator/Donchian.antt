-- ===== src/Indicator/Donchian.antt =====
-- indicators/donchian.go
use option_engine.Common.{
  ℕ, zero, suc, ◌+◌, ◌-◌, ◌%◌, Bool, true, false, ◌||◌, Option, none, some, List, ltb,
  if◌then◌else◌, get_elem?, length, ◌>>=◌,
}
use option_engine.Common.Int.{ℤ, pos, negsuc, leb_ℤ, ltb_ℤ, pos_part}
use option_engine.Common.Arrays.{repeat}
use option_engine.Common.Float.{Float}
use option_engine.Indicator.Sma.{zero_value, set_elem?}

pub record DonchianChannel (F : Type 0) : Type 0 where
  pub period : ℕ
  pub highs : List F
  pub lows : List F
  pub idx : ℕ
  pub count : ℕ
  pub upper : F
  pub lower : F
  pub warmed : Bool

pub record DonchianResult (F : Type 0) : Type 0 where
  pub upper : F
  pub lower : F
  pub warmed_up : Bool
  pub samples : ℕ

module _ {F : Type 0} ⦃f : Float F⦄ where
  -- `NewDonchianChannel`: `make` panics on a negative length.
  unfoldable pub new_donchian : ℤ → Option (DonchianChannel F)
  new_donchian (negsuc n) = none
  new_donchian (pos n) = some (record {
    period = n;
    highs = repeat n zero_value;
    lows = repeat n zero_value;
    idx = 0;
    count = 0;
    upper = zero_value;
    lower = zero_value;
    warmed = false;
  })

  -- The loop of `compute` and of `ChannelFromSlice`: `n` rounds from index `i`.
  unfoldable pub scan : ℕ → ℕ → List F → List F → F → F → Option (F × F)
  scan zero i highs lows upper lower = some (upper, lower)
  scan (suc n) i highs lows upper lower = do
    high ← get_elem? highs i
    low ← get_elem? lows i
    scan n (i + 1) highs lows (if f.lt upper high then high else upper)
        (if f.lt low lower then low else lower)

  abbrev pub reported : DonchianChannel F → DonchianResult F
  reported d = record { upper = d.upper; lower = d.lower; warmed_up = true; samples = d.count }

  unfoldable pub compute : DonchianChannel F → Option (DonchianChannel F × DonchianResult F)
  compute d = do
    high ← get_elem? d.highs 0
    low ← get_elem? d.lows 0
    bounds ← scan (d.period - 1) 1 d.highs d.lows high low
    let e = record d { upper = bounds.0; lower = bounds.1; warmed = true }
    some (e, reported e)

  abbrev pub early : DonchianChannel F → DonchianResult F
  early d = record { upper = zero_value; lower = zero_value; warmed_up = false; samples = d.count }

  -- `Update` until the buffers are full.
  unfoldable pub fill : F → F → DonchianChannel F → Option (DonchianChannel F × DonchianResult F)
  fill high low d = do
    highs ← set_elem? d.highs d.count high
    lows ← set_elem? d.lows d.count low
    let e = record d { highs = highs; lows = lows; count = d.count + 1 }
    if ltb e.count e.period then some (e, early e) else compute e

  -- `Update` from then on: the oldest pair makes room.
  unfoldable pub slide : F → F → DonchianChannel F → Option (DonchianChannel F × DonchianResult F)
  slide high low d = do
    highs ← set_elem? d.highs d.idx high
    lows ← set_elem? d.lows d.idx low
    let idx = (d.idx + 1) % d.period
    compute (record d { highs = highs; lows = lows; idx = idx; count = d.count + 1 })

  -- `Update`, on a pair of a high and a low.
  unfoldable pub update : F × F → DonchianChannel F → Option (DonchianChannel F × DonchianResult F)
  update (high, low) d = if ltb d.count d.period then fill high low d else slide high low d

  -- `ChannelFromSlice`: the bounds, and whether there were enough candles.
  unfoldable pub channel_from_slice : List F → List F → ℤ → Option (F × F × Bool)
  channel_from_slice highs lows period =
      if leb_ℤ period (pos 0)
        || ltb_ℤ (pos (length highs)) period
        || ltb_ℤ (pos (length lows)) period
      then some (zero_value, zero_value, false)
      else (do
        let start = length highs - pos_part period
        high ← get_elem? highs start
        low ← get_elem? lows start
        bounds ← scan (length highs - (start + 1)) (start + 1) highs lows high low
        some (bounds.0, bounds.1, true))
