-- ===== src/Indicator/Bounds.antt =====
-- The best elements of the ring are those of the window: indicators/donchian.go.
use option_engine.Common.{
  ℕ, ◌-◌, ◌<◌, ◌≡◌, refl, Bool, true, false, List, ◌++◌, arith, ltb, length, take, drop, All,
  take-append-drop, length-append,
}
use option_engine.Common.Float.{Float}
use option_engine.Common.Arrays.{All-swap, All-drop}
use option_engine.Indicator.Sma.{zero_value}
use option_engine.Indicator.Donchian.{DonchianChannel, reported}
use option_engine.Indicator.Ring.{IsFull, window}
use option_engine.Indicator.Channel.{above, below, best, best_member, best_swap, measured}
use option_engine.Indicator.Paired.{IsChannel, Matches, channel_of}

-- Go's `<` and `==` on numbers that are no NaN.
pub record IsTotal (F : Type 0) ⦃f : Float F⦄ (N : F → Type 0) : Type 0 where
  pub zero_is : N zero_value
  pub lt_asym : (a b : F) → N a → N b → f.lt a b ≡ true → f.lt b a ≡ false
  pub ge_trans :
      (a b c : F) → N a → N b → N c → f.lt a b ≡ false → f.lt b c ≡ false → f.lt a c ≡ false
  pub eq_of_ge : (a b : F) → N a → N b → f.lt a b ≡ false → f.lt b a ≡ false → f.eq a b ≡ true

module _ {F : Type 0} ⦃f : Float F⦄ where
  module _ (N : F → Type 0) (total : IsTotal F N) where
    -- The best element of the buffer is as good as the best one of the window.
    ring_best :
        (better : F → F → Bool)
        (asym : (a b : F) → N a → N b → better a b ≡ true → better b a ≡ false)
        (trans : (a b c : F)
          → N a
          → N b
          → N c
          → better a b ≡ false
          → better b c ≡ false
          → better a c ≡ false)
        (p : ℕ) (buf : List F) (idx : ℕ) (h : List F)
        → 0 < p
        → All N h
        → IsFull p buf idx h
        → (better (best better zero_value buf) (best better zero_value (window p h)) ≡ false)
          × (better (best better zero_value (window p h)) (best better zero_value buf) ≡ false)
          × N (best better zero_value buf)
          × N (best better zero_value (window p h))
    ring_best better asym trans p buf idx h z nh r =
        let all : All N (window p h) = All-drop N (length h - p) h nh in
        let whole : take idx buf ++ drop idx buf ≡ buf = take-append-drop idx buf in
        let front : All N (drop idx buf ++ take idx buf) = rw r.holds all in
        let back : All N (take idx buf ++ drop idx buf) =
          All-swap N (drop idx buf) (take idx buf) front in
        let size : length (take idx buf ++ drop idx buf) ≡ p = rw whole r.sized in
        let size' : length (drop idx buf ++ take idx buf) ≡ p = omega (
          arith,
          size,
          length-append (take idx buf) (drop idx buf),
          length-append (drop idx buf) (take idx buf),
        ) in
        (
          rw (r.holds, whole) at
              (best_swap better N asym trans zero_value (drop idx buf) (take idx buf)
                (omega (arith, size')) front),
          rw (r.holds, whole) at
              (best_swap better N asym trans zero_value (take idx buf) (drop idx buf)
                (omega (arith, size)) back),
          best_member better N zero_value buf (omega (arith, r.sized)) (rw whole at back),
          best_member better N zero_value (window p h) (omega (arith, rw r.holds at size')) all,
        )

    pub full-Matches :
        (p : ℕ) (hs ls : List F) (d : DonchianChannel F)
        → IsChannel p hs ls d
        → All N hs
        → All N ls
        → IsFull p d.highs d.idx hs
        → IsFull p d.lows d.idx ls
        → Matches (reported (measured d)) (channel_of p hs ls)
    full-Matches p hs ls d i nh nl rh rl =
        let enough : ltb (length hs) p ≡ false = ground (arith, rh.enough) in
        let u =
          ring_best above (λ a b na nb. total.lt_asym b a nb na)
            (λ a b c na nb nc x y. total.ge_trans c b a nc nb na y x) p d.highs d.idx hs i.positive
            nh rh in
        let l = ring_best below total.lt_asym total.ge_trans p d.lows d.idx ls i.positive nl rl in
        rw enough (
          refl,
          total.eq_of_ge (best above zero_value d.highs) (best above zero_value (window p hs)) u.2
              u.3 u.1 u.0,
          total.eq_of_ge (best below zero_value d.lows) (best below zero_value (window p ls)) l.2
              l.3 l.0 l.1,
        )
