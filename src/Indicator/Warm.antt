-- ===== src/Indicator/Warm.antt =====
-- When the indicators of indicators/{ema,rsi}.go are warm.
use option_engine.Common.{
  ℕ, suc, ◌+◌, ◌-◌, ◌≡◌, refl, false, not, ◌&&◌, List, [], ◌∷◌, arith, length, ltb,
}
use option_engine.Common.Int.{ℤ, pos, ltb_ℤ}
use option_engine.Common.Float.{Float}
use option_engine.Indicator.Ema
use option_engine.Indicator.Ema.{Ema, new_ema}
use option_engine.Indicator.Rsi
use option_engine.Indicator.Rsi.{Rsi, new_rsi, seed, smooth}

module _ {F : Type 0} ⦃f : Float F⦄ where
  unfoldable pub ema_all : List F → Ema F → Ema F
  ema_all [] e = e
  ema_all (x ∷ xs) e = ema_all xs (Ema.update x e).0

  unfoldable pub rsi_all : List F → Rsi F → Rsi F
  rsi_all [] r = r
  rsi_all (x ∷ xs) r = rsi_all xs (Rsi.update x r).0

  -- Warm from the first count on that is not below the period.
  abbrev IsEma : ℤ → ℕ → Ema F → Type 0
  IsEma period n e =
      (e.period ≡ period) × (e.count ≡ n) × (e.warmed ≡ (ltb 0 n && not (ltb_ℤ (pos n) period)))

  update-IsEma :
      (period : ℤ) (n : ℕ) (x : F) (e : Ema F)
      → IsEma period n e
      → IsEma period (n + 1) (Ema.update x e).0
        × ((Ema.update x e).1.warmed_up ≡ (Ema.update x e).0.warmed)
  unfolding Ema.update
  update-IsEma period n x e i = ground (arith, i)

  -- Warm from the first change on that is not below the period; the changes are counted until then.
  abbrev IsRsi : ℤ → ℕ → Rsi F → Type 0
  IsRsi period n r =
      (r.period ≡ period)
      × (r.count ≡ n)
      × (r.has_prev ≡ ltb 0 n)
      × (r.warmed ≡ (ltb 1 n && not (ltb_ℤ (pos (n - 1)) period)))
      × ((r.warmed ≡ false) → r.change_count ≡ n - 1)

  update-IsRsi :
      (period : ℤ) (n : ℕ) (x : F) (r : Rsi F)
      → IsRsi period n r
      → IsRsi period (n + 1) (Rsi.update x r).0
        × ((Rsi.update x r).1.warmed_up ≡ (Rsi.update x r).0.warmed)
        × ((Rsi.update x r).1.samples ≡ n + 1)
  unfolding Rsi.update seed smooth
  update-IsRsi period n x r i = ground (arith, i)

  ema_all-IsEma :
      (period : ℤ) (xs : List F) (n : ℕ) (e : Ema F)
      → IsEma period n e
      → IsEma period (n + length xs) (ema_all xs e)
  unfolding ema_all
  ema_all-IsEma period [] n e i = let z : n + 0 ≡ n = omega arith in rw z i
  ema_all-IsEma period (x ∷ xs) n e i =
      let z : n + suc (length xs) ≡ n + 1 + length xs = omega arith in
      rw z (ema_all-IsEma period xs (n + 1) (Ema.update x e).0 (update-IsEma period n x e i).0)

  rsi_all-IsRsi :
      (period : ℤ) (xs : List F) (n : ℕ) (r : Rsi F)
      → IsRsi period n r
      → IsRsi period (n + length xs) (rsi_all xs r)
  unfolding rsi_all
  rsi_all-IsRsi period [] n r i = let z : n + 0 ≡ n = omega arith in rw z i
  rsi_all-IsRsi period (x ∷ xs) n r i =
      let z : n + suc (length xs) ≡ n + 1 + length xs = omega arith in
      rw z (rsi_all-IsRsi period xs (n + 1) (Rsi.update x r).0 (update-IsRsi period n x r i).0)

  -- After any closes the next one gets a warmed-up result of the exponential average exactly if the
  -- closes so far, itself included, are not fewer than the period, and of the strength index exactly
  -- if the changes between them are not, of which there must be one.
  pub indicators_warm :
      (period : ℤ) (xs : List F) (x : F)
      → ((Ema.update x (ema_all xs (new_ema period))).1.warmed_up
          ≡ not (ltb_ℤ (pos (length xs + 1)) period))
        × ((Rsi.update x (rsi_all xs (new_rsi period))).1.warmed_up
            ≡ (ltb 0 (length xs) && not (ltb_ℤ (pos (length xs)) period)))
        × ((Rsi.update x (rsi_all xs (new_rsi period))).1.samples ≡ length xs + 1)
  unfolding new_ema new_rsi
  indicators_warm period xs x =
      let z : 0 + length xs ≡ length xs = omega arith in
      let e = rw z at (ema_all-IsEma period xs 0 (new_ema period) (refl, refl, ground arith)) in
      let r = rw z at (
        rsi_all-IsRsi period xs 0 (new_rsi period)
          (refl, refl, ground arith, ground arith, ground arith)) in
      let e' = update-IsEma period (length xs) x (ema_all xs (new_ema period)) e in
      let r' = update-IsRsi period (length xs) x (rsi_all xs (new_rsi period)) r in
      (ground (arith, e'.1, e'.0.2), ground (arith, r'.1, r'.0.3), r'.2)
