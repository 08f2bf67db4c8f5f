-- ===== src/Indicator/Ema.antt =====
-- indicators/ema.go
use option_engine.Common.{ℕ, ◌+◌, Bool, true, false, if◌then◌else◌}
use option_engine.Common.Int.{ℤ, pos, ◌+ℤ◌, ltb_ℤ}
use option_engine.Common.Float.{Float}
use option_engine.Indicator.{Result}

pub record Ema (F : Type 0) : Type 0 where
  pub period : ℤ
  pub alpha : F
  pub sum : F
  pub value : F
  pub count : ℕ
  pub warmed : Bool

module _ {F : Type 0} ⦃f : Float F⦄ where
  -- `NewEMA`
  unfoldable pub new_ema : ℤ → Ema F
  new_ema period = record {
    period = period;
    alpha = f.div (f.of_int (pos 2)) (f.of_int (period +ℤ pos 1));
    sum = f.of_int (pos 0);
    value = f.of_int (pos 0);
    count = 0;
    warmed = false;
  }

  unfoldable pub update : F → Ema F → Ema F × Result F
  update close e =
      let count = e.count + 1 in
      if e.warmed
      then (let value =
            f.add (f.mul e.alpha close) (f.mul (f.sub (f.of_int (pos 1)) e.alpha) e.value) in
          (
            record e { count = count; value = value },
            record { value = value; warmed_up = true; samples = count },
          ))
      else (let sum = f.add e.sum close in
          if ltb_ℤ (pos count) e.period
          then (
            record e { count = count; sum = sum },
            record { value = f.of_int (pos 0); warmed_up = false; samples = count },
          )
          else (let value = f.div sum (f.of_int e.period) in
              (
                record e { count = count; sum = sum; value = value; warmed = true },
                record { value = value; warmed_up = true; samples = count },
              )))
