-- ===== src/Strategy/Settings.antt =====
-- The checks of a configuration in analytics/strategy/config.go, and what of them can still fail
-- once the defaults are filled in.
use option_engine.Common.{
  ◌≡◌, refl, ◌++◌, Bool, true, false, not, ◌||◌, String, Option, none, some, List, [], ◌∷◌, arith,
  if◌then◌else◌,
}
use option_engine.Common.Int.{ℤ, pos, ltb_ℤ, leb_ℤ}
use option_engine.Common.Float.{Float, le}
use option_engine.Strategy.{Config, with_defaults}

module _ {F : Type 0} where
  unfoldable pub has_active_strategies : Config F → Bool
  has_active_strategies c = c.trend_following || c.mean_reversion || c.breakout

  unfoldable pub enabled_strategies : Config F → List String
  enabled_strategies c =
      (if c.trend_following then "trend_following" ∷ [] else [])
      ++ (if c.mean_reversion then "mean_reversion" ∷ [] else [])
      ++ (if c.breakout then "breakout" ∷ [] else [])

abbrev pub is_empty : List String → Bool
is_empty [] = true
is_empty (s ∷ ss) = false

buffer_fine : (n : ℤ) → ltb_ℤ (if leb_ℤ n (pos 0) then pos 256 else n) (pos 1) ≡ false
buffer_fine n = ground arith

module _ {F : Type 0} ⦃f : Float F⦄ where
  -- `Validate`, whose error is its text.
  unfoldable pub validate : Config F → Option String
  validate c =
      if not c.enabled
      then none
      else if ltb_ℤ c.subscriber_buffer (pos 1)
      then some "strategy: subscriber_buffer must be >= 1"
      else if not (has_active_strategies c)
      then some "strategy: at least one strategy must be enabled when engine is enabled"
      else if f.lt c.min_confidence (f.of_int (pos 0)) || f.lt (f.of_int (pos 1)) c.min_confidence
      then some "strategy: min_confidence must be between 0 and 1"
      else none

  has_active_strategies-enabled_strategies :
      (c : Config F) → not (has_active_strategies c) ≡ is_empty (enabled_strategies c)
  unfolding has_active_strategies enabled_strategies
  has_active_strategies-enabled_strategies c = ground arith

  confidence_fine :
      (half a : F)
      → f.lt half (f.of_int (pos 0)) ≡ false
      → f.lt (if le f.lt f.eq a (f.of_int (pos 0)) then half else a) (f.of_int (pos 0)) ≡ false
  confidence_fine half a h = ground arith

  -- If the default of the least confidence is not below 0, a configuration with its defaults is refused
  -- only if it is enabled, and either lists no enabled strategy or demands a confidence above 1; the
  -- error is the one of the first of these two that applies.
  pub validate-with_defaults :
      (half : F) (c : Config F)
      → f.lt half (f.of_int (pos 0)) ≡ false
      → validate (with_defaults half c) ≡ (
          if not c.enabled
          then none
          else if is_empty (enabled_strategies c)
          then some "strategy: at least one strategy must be enabled when engine is enabled"
          else if f.lt (f.of_int (pos 1)) (with_defaults half c).min_confidence
          then some "strategy: min_confidence must be between 0 and 1"
          else none)
  unfolding validate with_defaults has_active_strategies
  validate-with_defaults half c h =
      rw
        (
          buffer_fine c.subscriber_buffer,
          confidence_fine half c.min_confidence h,
          has_active_strategies-enabled_strategies c,
        )
        refl
