-- ===== src/Indicator/Rsi.antt =====
-- indicators/rsi.go
use option_engine.Common.{ℕ, ◌+◌, Bool, true, false, if◌then◌else◌}
use option_engine.Common.Int.{ℤ, pos, ◌-ℤ◌, ltb_ℤ}
use option_engine.Common.Float.{Float}
use option_engine.Indicator.{Result}

pub record Rsi (F : Type 0) : Type 0 where
  pub period : ℤ
  pub prev_close : F
  pub has_prev : Bool
  pub sum_gain : F
  pub sum_loss : F
  pub change_count : ℕ
  pub avg_gain : F
  pub avg_loss : F
  pub value : F
  pub count : ℕ
  pub warmed : Bool

module _ {F : Type 0} ⦃f : Float F⦄ where
  abbrev number : ℕ → F
  number n = f.of_int (pos n)

  -- `NewRSI`
  unfoldable pub new_rsi : ℤ → Rsi F
  new_rsi period = record {
    period = period;
    prev_close = number 0;
    has_prev = false;
    sum_gain = number 0;
    sum_loss = number 0;
    change_count = 0;
    avg_gain = number 0;
    avg_loss = number 0;
    value = number 0;
    count = 0;
    warmed = false;
  }

  -- `computeRSI`
  unfoldable pub compute_rsi : F → F → F
  compute_rsi avg_gain avg_loss =
      if f.eq avg_loss (number 0)
      then if f.eq avg_gain (number 0) then number 50 else number 100
      else f.sub (number 100) (f.div (number 100) (f.add (number 1) (f.div avg_gain avg_loss)))

  unfoldable pub gain_of : F → F
  gain_of change = if f.lt (number 0) change then change else number 0

  unfoldable pub loss_of : F → F
  loss_of change =
      if f.lt (number 0) change
      then number 0
      else if f.lt change (number 0)
      then f.neg change
      else number 0

  -- `(avg*float64(period-1) + x) / float64(period)`
  abbrev pub smoothed : ℤ → F → F → F
  smoothed period avg x = f.div (f.add (f.mul avg (f.of_int (period -ℤ pos 1))) x) (f.of_int period)

  -- `Update` before the indicator is warm.
  unfoldable pub seed : F → F → Rsi F → Rsi F × Result F
  seed gain loss r =
      let sum_gain = f.add r.sum_gain gain in
      let sum_loss = f.add r.sum_loss loss in
      let change_count = r.change_count + 1 in
      let s = record r { sum_gain = sum_gain; sum_loss = sum_loss; change_count = change_count } in
      if ltb_ℤ (pos change_count) r.period
      then (s, record { value = number 0; warmed_up = false; samples = r.count })
      else (let avg_gain = f.div sum_gain (f.of_int r.period) in
          let avg_loss = f.div sum_loss (f.of_int r.period) in
          let value = compute_rsi avg_gain avg_loss in
          (
            record s { avg_gain = avg_gain; avg_loss = avg_loss; value = value; warmed = true },
            record { value = value; warmed_up = true; samples = r.count },
          ))

  -- `Update` from then on: Wilder's smoothing.
  unfoldable pub smooth : F → F → Rsi F → Rsi F × Result F
  smooth gain loss r =
      let avg_gain = smoothed r.period r.avg_gain gain in
      let avg_loss = smoothed r.period r.avg_loss loss in
      let value = compute_rsi avg_gain avg_loss in
      (
        record r { avg_gain = avg_gain; avg_loss = avg_loss; value = value },
        record { value = value; warmed_up = true; samples = r.count },
      )

  unfoldable pub update : F → Rsi F → Rsi F × Result F
  update close r =
      let count = r.count + 1 in
      if r.has_prev
      then (let change = f.sub close r.prev_close in
          let s = record r { count = count; prev_close = close } in
          if r.warmed
          then smooth (gain_of change) (loss_of change) s
          else seed (gain_of change) (loss_of change) s)
      else (
        record r { count = count; prev_close = close; has_prev = true },
        record { value = number 0; warmed_up = false; samples = count },
      )
