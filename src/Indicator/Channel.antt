-- ===== src/Indicator/Channel.antt =====
-- What the scans of indicators/donchian.go find, whatever order the slice is in.
use option_engine.Common.{
  ℕ, zero, suc, ◌+◌, ◌-◌, ◌≤◌, ◌<◌, ◌≡◌, sym, ap, subst, ◌∙◌, ◌||◌, Bool, true, false, some, inl,
  inr, List, [], ◌∷◌, ◌++◌, arith, ltb, Bool-cases, if◌then◌else◌, length, drop, length-append, All,
}
use option_engine.Common.Int.{pos, leb_ℤ, ltb_ℤ}
use option_engine.Common.Float.{Float}
use option_engine.Common.Arrays.{drop_at, drop_all, All-swap}
use option_engine.Indicator.Sma.{zero_value}
use option_engine.Indicator.Donchian.{DonchianChannel, scan, compute, reported, channel_from_slice}
use option_engine.Indicator.Ring.{window}

-- What a scan keeps: an element replaces the best one so far if it is better.
module _ {F : Type 0} (better : F → F → Bool) where
  unfoldable pub pick : F → List F → F
  pick m [] = m
  pick m (x ∷ xs) = pick (if better x m then x else m) xs

  abbrev pub best : F → List F → F
  best d [] = d
  best d (x ∷ xs) = pick x xs

  pub pick_member {ℓ} : (P : F → Type ℓ) (m : F) (xs : List F) → P m → All P xs → P (pick m xs)
  unfolding pick
  pick_member P m [] p h = p
  pick_member P m (x ∷ xs) p h = elim (Bool-cases (better x m)) [
    | inl y ↦ rw y (pick_member P x xs h.0 h.1)
    | inr n ↦ rw n (pick_member P m xs p h.1)
  ]

  pub best_member {ℓ} :
      (P : F → Type ℓ) (d : F) (xs : List F) → 0 < length xs → All P xs → P (best d xs)
  best_member P d [] z h = absurd (omega arith)
  best_member P d (x ∷ xs) z h = pick_member P x xs h.0 h.1

  module _ (N : F → Type 0) (asym : (a b : F) → N a → N b → better a b ≡ true → better b a ≡ false)
      (trans : (a b c : F)
        → N a
        → N b
        → N c
        → better a b ≡ false
        → better b c ≡ false
        → better a c ≡ false) where
    -- Nothing scanned is better than what the scan keeps.
    pick_best :
        (m : F) (xs : List F)
        → N m
        → All N xs
        → (better m (pick m xs) ≡ false) × All (λ y. better y (pick m xs) ≡ false) xs
    unfolding pick
    pick_best m [] p h = (elim (Bool-cases (better m m)) [ inl y ↦ asym m m p p y | inr n ↦ n ], tt)
    pick_best m (x ∷ xs) p h = elim (Bool-cases (better x m)) [
      | inl y ↦
          let rest = pick_best x xs h.0 h.1 in
          let kept = pick_member N x xs h.0 h.1 in
          let e : pick m (x ∷ xs) ≡ pick x xs = rw y in
          subst (λ b. (better m b ≡ false) × All (λ y. better y b ≡ false) (x ∷ xs)) (sym e)
            (trans m x (pick x xs) p h.0 kept (asym x m h.0 p y) rest.0, (rest.0, rest.1))
      | inr n ↦
          let rest = pick_best m xs p h.1 in
          let kept = pick_member N m xs p h.1 in
          let e : pick m (x ∷ xs) ≡ pick m xs = rw n in
          subst (λ b. (better m b ≡ false) × All (λ y. better y b ≡ false) (x ∷ xs)) (sym e)
            (rest.0, (trans x m (pick m xs) h.0 p kept n rest.0, rest.1))
    ]

    best-best : (d : F) (xs : List F) → All N xs → All (λ y. better y (best d xs) ≡ false) xs
    best-best d [] h = tt
    best-best d (x ∷ xs) h = pick_best x xs h.0 h.1

    -- The same elements in another order: neither best one is better than the other.
    pub best_swap :
        (d : F) (xs ys : List F)
        → 0 < length (xs ++ ys)
        → All N (xs ++ ys)
        → better (best d (ys ++ xs)) (best d (xs ++ ys)) ≡ false
    best_swap d xs ys z h =
        best_member (λ y. better y (best d (xs ++ ys)) ≡ false) d (ys ++ xs)
          (omega (arith, length-append xs ys, length-append ys xs))
          (All-swap (λ y. better y (best d (xs ++ ys)) ≡ false) xs ys (best-best d (xs ++ ys) h))

module _ {F : Type 0} ⦃f : Float F⦄ where
  abbrev pub above : F → F → Bool
  above x m = f.lt m x

  abbrev pub below : F → F → Bool
  below x m = f.lt x m

  -- The loop picks from the elements that it has not passed.
  pub scan-pick :
      (n i : ℕ) (highs lows : List F) (u l : F)
      → length highs ≡ i + n
      → length lows ≡ i + n
      → scan n i highs lows u l ≡ some (pick above u (drop i highs), pick below l (drop i lows))
  unfolding scan pick
  scan-pick zero i highs lows u l e e' =
      rw (drop_all i highs (omega (arith, e)), drop_all i lows (omega (arith, e')))
  scan-pick (suc n) i highs lows u l e e' =
      let h = drop_at highs i (omega (arith, e)) in
      let k = drop_at lows i (omega (arith, e')) in
      let j : i + 1 ≡ suc i = omega arith in
      rw (h.1, k.1, h.2, k.2)
        (scan-pick n (i + 1) highs lows (if above h.0 u then h.0 else u)
            (if below k.0 l then k.0 else l) (omega (arith, e)) (omega (arith, e'))
          ∙ rw j)

  abbrev pub measured : DonchianChannel F → DonchianChannel F
  measured d = record d {
    upper = best above zero_value d.highs;
    lower = best below zero_value d.lows;
    warmed = true;
  }

  pub compute-best :
      (d : DonchianChannel F)
      → 0 < d.period
      → length d.highs ≡ d.period
      → length d.lows ≡ d.period
      → compute d ≡ some (measured d, reported (measured d))
  unfolding compute
  compute-best d z e e' =
      let h = drop_at d.highs 0 (omega (arith, e)) in
      let k = drop_at d.lows 0 (omega (arith, e')) in
      let s =
        scan-pick (d.period - 1) 1 d.highs d.lows h.0 k.0 (omega (arith, e)) (omega (arith, e')) in
      rw (h.1, k.1, s, ap (best above zero_value) h.2, ap (best below zero_value) k.2)

  -- `ChannelFromSlice` has the best of the last `p` elements.
  pub channel-best :
      (p : ℕ) (highs lows : List F)
      → 0 < p
      → length lows ≡ length highs
      → channel_from_slice highs lows (pos p)
        ≡ some (
            if ltb (length highs) p then (zero_value, zero_value, false) else (
              best above zero_value (window p highs),
              best below zero_value (window p lows),
              true,
            ))
  unfolding channel_from_slice
  channel-best p highs lows z e =
      let test : (leb_ℤ (pos p) (pos 0)
            || ltb_ℤ (pos (length highs)) (pos p)
            || ltb_ℤ (pos (length lows)) (pos p))
          ≡ ltb (length highs) p =
        ground (arith, e) in
      elim (Bool-cases (ltb (length highs) p)) [
        | inl y ↦ rw (test, y)
        | inr n ↦
            let m : p ≤ length highs = ground (arith, n) in
            let h = drop_at highs (length highs - p) (omega arith) in
            let k = drop_at lows (length highs - p) (omega (arith, e)) in
            let i : length highs - p + 1 ≡ suc (length highs - p) = omega arith in
            let left : length lows - p ≡ length highs - p = omega (arith, e) in
            let s =
              scan-pick (length highs - (length highs - p + 1)) (length highs - p + 1) highs lows
                h.0 k.0 (omega arith) (omega (arith, e)) in
            rw (
              test,
              n,
              h.1,
              k.1,
              s,
              i,
              left,
              ap (best above zero_value) h.2,
              ap (best below zero_value) k.2,
            )
      ]
