-- ===== src/Common/Float.antt =====
-- Go's float64 as an interface: the operations that the code applies to prices, and the two facts
-- about `<` that hold of every IEEE 754 value, NaN included.
use mathlib.Core.Path.{◌≡◌}
use mathlib.Core.Bool.{Bool, true, false, ◌||◌}
use native.Mathlib.Omega.{arith}
use Prim.Native.Nat.{suc}
use option_engine.Common.Int.{ℤ, pos, negsuc, ◌+ℤ◌, ◌-ℤ◌, ◌*ℤ◌, div_trunc, ltb_ℤ, beq_ℤ}

pub record Float (F : Type 0) : Type 0 where
  pub of_int : ℤ → F
  pub add : F → F → F
  pub sub : F → F → F
  pub mul : F → F → F
  pub div : F → F → F
  pub neg : F → F
  pub lt : F → F → Bool
  pub eq : F → F → Bool

-- `a <= b`: false if either is NaN.
abbrev pub le {ℓ} : {F : Type ℓ} → (F → F → Bool) → (F → F → Bool) → F → F → Bool
le lt eq a b = lt a b || eq a b

pub record IsOrdered (F : Type 0) ⦃f : Float F⦄ : Type 0 where
  pub lt_irrefl : (a : F) → f.lt a a ≡ false
  pub lt_trans : (a b c : F) → f.lt a b ≡ true → f.lt b c ≡ true → f.lt a c ≡ true

-- Whole numbers, to run the code on: a quotient is rounded towards zero, and x / 0 is 0.
abbrev quot_ℤ : ℤ → ℤ → ℤ
quot_ℤ a (pos n) = div_trunc a n
quot_ℤ a (negsuc n) = pos 0 -ℤ div_trunc a (suc n)

instance abbrev pub int_float : Float ℤ
int_float = record {
  of_int = λ a. a;
  add = ◌+ℤ◌;
  sub = ◌-ℤ◌;
  mul = ◌*ℤ◌;
  div = quot_ℤ;
  neg = λ a. pos 0 -ℤ a;
  lt = ltb_ℤ;
  eq = beq_ℤ;
}

int_lt_irrefl : (a : ℤ) → ltb_ℤ a a ≡ false
int_lt_irrefl a = ground arith

int_lt_trans : (a b c : ℤ) → ltb_ℤ a b ≡ true → ltb_ℤ b c ≡ true → ltb_ℤ a c ≡ true
int_lt_trans a b c h k = ground arith

pub int_IsOrdered : IsOrdered ℤ
int_IsOrdered = record { lt_irrefl = int_lt_irrefl; lt_trans = int_lt_trans }
