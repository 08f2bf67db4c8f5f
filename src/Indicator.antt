-- ===== src/Indicator.antt =====
-- The indicators: internal/analytics/indicator/indicators/{result,sma,ema,rsi,donchian}.go. A slice
-- index out of range is a panic, and a panic is `none`. Counts are Go's int without overflow.
pub mod Sma
pub mod Ema
pub mod Rsi
pub mod Donchian
pub mod Ring
pub mod Average
pub mod Rolling
pub mod Channel
pub mod Paired
pub mod Bounds
pub mod Agreement
pub mod Warm
pub mod Samples
use option_engine.Common.{ℕ, Bool, Option, none, some, List, [], ◌∷◌, ◌>>=◌}

pub record Result (F : Type 0) : Type 0 where
  pub value : F
  pub warmed_up : Bool
  pub samples : ℕ

-- One calculator fed with a list of inputs.
unfoldable pub feed_all {ℓ κ κ'} :
    {S : Type ℓ} {X : Type κ} {R : Type κ'} → (X → S → Option (S × R)) → List X → S → Option S
feed_all update [] s = some s
feed_all update (x ∷ xs) s = do r ← update x s; feed_all update xs r.0
