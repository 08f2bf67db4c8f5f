-- ===== src/Indicator/Paired.antt =====
-- The two buffers of the channel of indicators/donchian.go move together.
use option_engine.Common.{
  ℕ, ◌+◌, ◌%◌, ◌<◌, ◌≡◌, refl, Bool, true, false, some, inl, inr, ◌⊎◌, List, [], ◌∷◌, ◌++◌, arith,
  ltb, ltb→lt, Bool-cases, if◌then◌else◌, length,
}
use option_engine.Common.Int.{pos}
use option_engine.Common.Float.{Float}
use option_engine.Common.Arrays.{set}
use option_engine.Indicator.Sma.{zero_value}
use option_engine.Indicator.Donchian.{DonchianChannel, DonchianResult, new_donchian}
use option_engine.Indicator.Ring.{
  IsFilling, IsFull, window, set-IsFilling, repeat-IsFilling, IsFilling-IsFull, slide-IsFull,
  length-snoc,
}
use option_engine.Indicator.Channel.{above, below, best}

module _ {F : Type 0} ⦃f : Float F⦄ where
  pub record IsChannel (p : ℕ) (hs ls : List F) (d : DonchianChannel F) : Type 0 where
    pub positive : 0 < p
    pub period : d.period ≡ p
    pub counted : d.count ≡ length hs
    pub paired : length ls ≡ length hs
    pub rings :
        (IsFilling p d.highs d.idx hs × IsFilling p d.lows d.idx ls × (length hs < p))
        ⊎ (IsFull p d.highs d.idx hs × IsFull p d.lows d.idx ls)

  -- The same verdict, and bounds that Go's `==` takes for equal.
  abbrev pub Matches : DonchianResult F → F × F × Bool → Type 0
  Matches r c = (r.warmed_up ≡ c.2) × (f.eq r.upper c.0 ≡ true) × (f.eq r.lower c.1 ≡ true)

  abbrev pub channel_of : ℕ → List F → List F → F × F × Bool
  channel_of p hs ls =
      if ltb (length hs) p
      then (zero_value, zero_value, false)
      else (best above zero_value (window p hs), best below zero_value (window p ls), true)

  pub new_donchian-IsChannel :
      (n : ℕ)
      → 0 < n
      → (d : DonchianChannel F) × (new_donchian (pos n) ≡ some d) × IsChannel n [] [] d
  unfolding new_donchian
  new_donchian-IsChannel n z = (
    _,
    refl,
    record {
      positive = z;
      period = refl;
      counted = refl;
      paired = refl;
      rings = inl (repeat-IsFilling n zero_value, repeat-IsFilling n zero_value, z);
    },
  )

  -- The state of a calculator after a write, before it is measured.
  abbrev pub written : F → F → ℕ → ℕ → DonchianChannel F → DonchianChannel F
  written high low at next d = record d {
    highs = set d.highs at high;
    lows = set d.lows at low;
    idx = next;
    count = d.count + 1;
  }

  pub fill-written :
      (p : ℕ) (hs ls : List F) (d : DonchianChannel F) (high low : F)
      → IsChannel p hs ls d
      → IsFilling p d.highs d.idx hs
      → IsFilling p d.lows d.idx ls
      → length hs < p
      → IsChannel p (hs ++ high ∷ []) (ls ++ low ∷ []) (written high low (length hs) d.idx d)
  fill-written p hs ls d high low i rh rl l =
      let h' = set-IsFilling p d.highs d.idx hs high rh l in
      let l' : IsFilling p (set d.lows (length hs) low) d.idx (ls ++ low ∷ []) =
        rw i.paired at (set-IsFilling p d.lows d.idx ls low rl (omega (arith, i.paired))) in
      record {
        positive = i.positive;
        period = i.period;
        counted = omega (arith, i.counted, length-snoc hs high);
        paired = omega (arith, i.paired, length-snoc hs high, length-snoc ls low);
        rings = elim (Bool-cases (ltb (length (hs ++ high ∷ [])) p)) [
          | inl y ↦ inl (h', l', ltb→lt (length (hs ++ high ∷ [])) p y)
          | inr n ↦
              let full : length (hs ++ high ∷ []) ≡ p = ground (arith, n, h'.short) in
              inr (
                IsFilling-IsFull p (set d.highs (length hs) high) d.idx (hs ++ high ∷ []) i.positive
                    h' full,
                IsFilling-IsFull p (set d.lows (length hs) low) d.idx (ls ++ low ∷ []) i.positive l'
                    (omega (arith, full, i.paired, length-snoc hs high, length-snoc ls low)),
              )
        ];
      }

  pub slide-written :
      (p : ℕ) (hs ls : List F) (d : DonchianChannel F) (high low : F)
      → IsChannel p hs ls d
      → IsFull p d.highs d.idx hs
      → IsFull p d.lows d.idx ls
      → IsChannel p
          (hs ++ high ∷ [])
          (ls ++ low ∷ [])
          (written high low d.idx ((d.idx + 1) % d.period) d)
  slide-written p hs ls d high low i rh rl = record {
    positive = i.positive;
    period = i.period;
    counted = omega (arith, i.counted, length-snoc hs high);
    paired = omega (arith, i.paired, length-snoc hs high, length-snoc ls low);
    rings =
        rw i.period
          (inr (slide-IsFull p d.highs d.idx hs high rh, slide-IsFull p d.lows d.idx ls low rl));
  }
