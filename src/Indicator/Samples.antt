-- ===== src/Indicator/Samples.antt =====
-- The indicators at concrete inputs.
use option_engine.Common.{
  refl, ℕ, Bool, true, false, Option, some, ◌≡◌, List, [], ◌∷◌, map, arith, ltb, ◌>>=◌,
}
use option_engine.Common.Int.{ℤ, pos, ltb_ℤ, beq_ℤ}
use option_engine.Common.Float.{int_float}
use option_engine.Indicator.{Result, feed_all}
use option_engine.Indicator.Sma
use option_engine.Indicator.Sma.{Sma, new_sma}
use option_engine.Indicator.Donchian
use option_engine.Indicator.Donchian.{
  DonchianChannel, DonchianResult, new_donchian, channel_from_slice,
}
use option_engine.Indicator.Average.{sma-average}
use option_engine.Indicator.Paired.{Matches}
use option_engine.Indicator.Bounds.{IsTotal}
use option_engine.Indicator.Agreement.{donchian-channel}

int_lt_asym : (a b : ℤ) → ltb_ℤ a b ≡ true → ltb_ℤ b a ≡ false
int_lt_asym a b h = ground arith

int_ge_trans : (a b c : ℤ) → ltb_ℤ a b ≡ false → ltb_ℤ b c ≡ false → ltb_ℤ a c ≡ false
int_ge_trans a b c h k = ground arith

int_eq_of_ge : (a b : ℤ) → ltb_ℤ a b ≡ false → ltb_ℤ b a ≡ false → beq_ℤ a b ≡ true
int_eq_of_ge a b h k = ground arith

int_IsTotal : IsTotal ℤ (λ _. Unit {0})
int_IsTotal = record {
  zero_is = tt;
  lt_asym = λ a b _ _. int_lt_asym a b;
  ge_trans = λ a b c _ _ _. int_ge_trans a b c;
  eq_of_ge = λ a b _ _. int_eq_of_ge a b;
}

abbrev closes : List ℤ
closes = pos 3 ∷ pos 9 ∷ pos 6 ∷ pos 12 ∷ []

abbrev sixteen : ℤ × Bool
sixteen = (pos 16, true)

abbrev four_numbers : Unit {0} × (Unit {0} × (Unit {0} × (Unit {0} × Unit {0})))
four_numbers = (tt, (tt, (tt, (tt, tt))))

abbrev bars : List (ℤ × ℤ)
bars = (pos 9, pos 4) ∷ (pos 7, pos 5) ∷ (pos 8, pos 3) ∷ []

sma-average_example :
    (s : Sma ℤ) × (r : Sma ℤ × Result ℤ) × ((new_sma (pos 2) >>= feed_all Sma.update closes)
      ≡ some s)
    × (Sma.update (pos 20) s ≡ some r)
    × (Sma.value r.0 ≡ sixteen)
    × ((r.1.value, r.1.warmed_up) ≡ sixteen)
    × (r.1.samples ≡ 5)
unfolding option_engine.Common.Int.div_trunc option_engine.Common.Int.◌+ℤ◌
    option_engine.Common.Int.◌-ℤ◌
sma-average_example = sma-average 2 closes (pos 20) (omega arith)

donchian-channel_example :
    (d : DonchianChannel ℤ) × (r : DonchianChannel ℤ × DonchianResult ℤ) × (c : ℤ × ℤ × Bool)
    × ((new_donchian (pos 2) >>= feed_all Donchian.update bars) ≡ some d)
    × (Donchian.update (pos 6, pos 5) d ≡ some r)
    × (channel_from_slice
          (pos 9 ∷ pos 7 ∷ pos 8 ∷ pos 6 ∷ [])
          (pos 4 ∷ pos 5 ∷ pos 3 ∷ pos 5 ∷ [])
          (pos 2)
        ≡ some c)
    × Matches r.1 c
donchian-channel_example =
    donchian-channel (λ _. Unit {0}) int_IsTotal 2 bars (pos 6) (pos 5) (omega arith) four_numbers
      four_numbers

channel_runs :
    channel_from_slice
      (pos 9 ∷ pos 7 ∷ pos 8 ∷ pos 6 ∷ [])
      (pos 4 ∷ pos 5 ∷ pos 3 ∷ pos 5 ∷ [])
      (pos 2)
    ≡ some (pos 8, pos 3, true)
unfolding channel_from_slice Donchian.scan
channel_runs = refl
