-- ===== src/Indicator/Sma.antt =====
-- indicators/sma.go
use option_engine.Common.{
  ℕ, ◌+◌, ◌%◌, Bool, true, false, Option, none, some, List, ltb, if◌then◌else◌, get_elem?, ◌>>=◌,
  length, ◌<◌, ◌≡◌, lt→ltb, arith,
}
use option_engine.Common.Int.{ℤ, pos, negsuc}
use option_engine.Common.Arrays.{set, repeat}
use option_engine.Common.Float.{Float}
use option_engine.Indicator.{Result}

pub record Sma (F : Type 0) : Type 0 where
  pub period : ℕ
  pub buf : List F
  pub idx : ℕ
  pub count : ℕ
  pub sum : F

module _ {F : Type 0} ⦃f : Float F⦄ where
  abbrev pub zero_value : F
  zero_value = f.of_int (pos 0)

  abbrev pub of_count : ℕ → F
  of_count n = f.of_int (pos n)

  -- `NewSMA`: `make` panics on a negative length.
  unfoldable pub new_sma : ℤ → Option (Sma F)
  new_sma (negsuc n) = none
  new_sma (pos n) =
      some (record { period = n; buf = repeat n zero_value; idx = 0; count = 0; sum = zero_value })

  -- A write out of range panics.
  abbrev pub set_elem? : List F → ℕ → F → Option (List F)
  set_elem? xs i x = if ltb i (length xs) then some (set xs i x) else none

  abbrev pub early : Sma F → Result F
  early s = record { value = zero_value; warmed_up = false; samples = s.count }

  abbrev pub mean : Sma F → Result F
  mean s = record { value = f.div s.sum (of_count s.period); warmed_up = true; samples = s.count }

  -- `Update` until the buffer is full.
  unfoldable pub fill : F → Sma F → Option (Sma F × Result F)
  fill close s = do
    buf ← set_elem? s.buf s.count close
    let t = record s { buf = buf; sum = f.add s.sum close; count = s.count + 1 }
    some (t, if ltb t.count t.period then early t else mean t)

  -- `Update` from then on: the oldest price makes room.
  unfoldable pub slide : F → Sma F → Option (Sma F × Result F)
  slide close s = do
    oldest ← get_elem? s.buf s.idx
    buf ← set_elem? s.buf s.idx close
    let idx = (s.idx + 1) % s.period
    let sum = f.add (f.sub s.sum oldest) close
    let t = record s { buf = buf; idx = idx; sum = sum; count = s.count + 1 }
    some (t, mean t)

  unfoldable pub update : F → Sma F → Option (Sma F × Result F)
  update close s = if ltb s.count s.period then fill close s else slide close s

  -- `Value`
  unfoldable pub value : Sma F → F × Bool
  value s =
      if ltb s.count s.period then (zero_value, false) else (f.div s.sum (of_count s.period), true)

  -- A write within bounds does not panic.
  pub set_elem?-set :
      (xs : List F) (i n : ℕ) (x : F) → length xs ≡ n → i < n → set_elem? xs i x ≡ some (set xs i x)
  set_elem?-set xs i n x e h = rw (lt→ltb i (length xs) (omega (arith, e)))
