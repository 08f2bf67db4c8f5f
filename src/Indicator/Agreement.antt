-- ===== src/Indicator/Agreement.antt =====
-- The incremental channel of indicators/donchian.go is the channel of `ChannelFromSlice`.
use option_engine.Common.{
  ℕ, ◌+◌, ◌%◌, ◌<◌, ◌≡◌, refl, Bool, true, false, Option, some, inl, inr, List, [], ◌∷◌, ◌++◌,
  arith, ltb, lt→ltb, Bool-cases, if◌then◌else◌, length, ◌>>=◌, All, map,
}
use mathlib.Core.List.{append_assoc, append-nil}
use option_engine.Common.Int.{pos}
use option_engine.Common.Float.{Float}
use option_engine.Common.Arrays.{All-front}
use option_engine.Indicator.{feed_all}
use option_engine.Indicator.Sma.{zero_value, set_elem?-set}
use option_engine.Indicator.Donchian.{
  DonchianChannel, DonchianResult, new_donchian, compute, reported, early, fill, slide, update,
  channel_from_slice,
}
use option_engine.Indicator.Channel.{measured, compute-best, channel-best}
use option_engine.Indicator.Paired.{
  IsChannel, Matches, channel_of, new_donchian-IsChannel, written, fill-written, slide-written,
}
use option_engine.Indicator.Bounds.{IsTotal, full-Matches}

module _ {F : Type 0} ⦃f : Float F⦄ where
  module _ (N : F → Type 0) (total : IsTotal F N) where
    eq_zeros : f.eq zero_value zero_value ≡ true
    eq_zeros =
        let z = total.zero_is in
        let irrefl : f.lt zero_value zero_value ≡ false =
          elim (Bool-cases (f.lt zero_value zero_value)) [
            | inl y ↦ total.lt_asym zero_value zero_value z z y
            | inr n ↦ n
          ] in
        total.eq_of_ge zero_value zero_value z z irrefl irrefl

    -- An update that found `hs` and `ls` so far.
    abbrev Answers : ℕ → List F → List F → Option (DonchianChannel F × DonchianResult F) → Type 0
    Answers p hs ls o =
        (r : DonchianChannel F × DonchianResult F) × (o ≡ some r)
        × IsChannel p hs ls r.0
        × Matches r.1 (channel_of p hs ls)

    report-Answers :
        (p : ℕ) (hs ls : List F) (d : DonchianChannel F)
        → IsChannel p hs ls d
        → All N hs
        → All N ls
        → Answers p hs ls (if ltb d.count d.period then some (d, early d) else compute d)
    report-Answers p hs ls d i nh nl = elim i.rings [
      | inl (rh, rl, l) ↦
          let e : ltb d.count d.period ≡ true = rw (i.counted, i.period) (lt→ltb (length hs) p l) in
          let short : ltb (length hs) p ≡ true = lt→ltb (length hs) p l in
          ((d, early d), rw e, i, rw short (refl, eq_zeros, eq_zeros))
      | inr (rh, rl) ↦
          let e : ltb d.count d.period ≡ false =
            rw (i.counted, i.period) (ground (arith, rh.enough)) in
          let c =
            compute-best d (rw i.period i.positive) (rw i.period rh.sized) (rw i.period rl.sized) in
          (
            (measured d, reported (measured d)),
            rw e c,
            record {
              positive = i.positive;
              period = i.period;
              counted = i.counted;
              paired = i.paired;
              rings = i.rings;
            },
            full-Matches N total p hs ls d i nh nl rh rl,
          )
    ]

    update-Answers :
        (p : ℕ) (hs ls : List F) (d : DonchianChannel F) (high low : F)
        → IsChannel p hs ls d
        → All N (hs ++ high ∷ [])
        → All N (ls ++ low ∷ [])
        → Answers p (hs ++ high ∷ []) (ls ++ low ∷ []) (update (high, low) d)
    unfolding update fill slide
    update-Answers p hs ls d high low i nh nl = elim i.rings [
      | inl (rh, rl, l) ↦
          let e : ltb d.count d.period ≡ true = rw (i.counted, i.period) (lt→ltb (length hs) p l) in
          let r =
            report-Answers p (hs ++ high ∷ []) (ls ++ low ∷ [])
              (written high low (length hs) d.idx d) (fill-written p hs ls d high low i rh rl l) nh
              nl in
          (
            r.0,
            rw
                (
                  e,
                  i.counted,
                  set_elem?-set d.highs (length hs) p high rh.sized l,
                  set_elem?-set d.lows (length hs) p low rl.sized l,
                )
                (rw i.counted at r.1),
            r.2,
            r.3,
          )
      | inr (rh, rl) ↦
          let e : ltb d.count d.period ≡ false =
            rw (i.counted, i.period) (ground (arith, rh.enough)) in
          let next = (d.idx + 1) % d.period in
          let i' = slide-written p hs ls d high low i rh rl in
          let warm : ltb (d.count + 1) d.period ≡ false =
            rw (i.counted, i.period) (ground (arith, rh.enough)) in
          let r =
            report-Answers p (hs ++ high ∷ []) (ls ++ low ∷ []) (written high low d.idx next d) i'
              nh nl in
          (
            r.0,
            rw
                (
                  e,
                  set_elem?-set d.highs d.idx p high rh.sized rh.inside,
                  set_elem?-set d.lows d.idx p low rl.sized rl.inside,
                )
                (rw warm at r.1),
            r.2,
            r.3,
          )
    ]

    abbrev highs_of : List (F × F) → List F
    highs_of bars = map (λ b. b.0) bars

    abbrev lows_of : List (F × F) → List F
    lows_of bars = map (λ b. b.1) bars

    feed_all-IsChannel :
        (p : ℕ) (bars : List (F × F)) (hs ls : List F) (d : DonchianChannel F)
        → IsChannel p hs ls d
        → All N (hs ++ highs_of bars)
        → All N (ls ++ lows_of bars)
        → (e : DonchianChannel F) × (feed_all update bars d ≡ some e)
          × IsChannel p (hs ++ highs_of bars) (ls ++ lows_of bars) e
    unfolding feed_all
    feed_all-IsChannel p [] hs ls d i nh nl = (d, refl, rw (append-nil hs, append-nil ls) i)
    feed_all-IsChannel p ((high, low) ∷ bars) hs ls d i nh nl =
        let ah = append_assoc hs (high ∷ []) (highs_of bars) in
        let al = append_assoc ls (low ∷ []) (lows_of bars) in
        let nh' : All N ((hs ++ high ∷ []) ++ highs_of bars) = rw ah nh in
        let nl' : All N ((ls ++ low ∷ []) ++ lows_of bars) = rw al nl in
        let now =
          update-Answers p hs ls d high low i (All-front N (hs ++ high ∷ []) (highs_of bars) nh')
            (All-front N (ls ++ low ∷ []) (lows_of bars) nl') in
        let rest =
          feed_all-IsChannel p bars (hs ++ high ∷ []) (ls ++ low ∷ []) now.0.0 now.2 nh' nl' in
        (rest.0, rw now.1 rest.1, rw (ah, al) at rest.2)

    -- Fed with any bars that hold numbers, under a positive period, no update panics and neither does
    -- `ChannelFromSlice`, and the next update agrees with `ChannelFromSlice` on the bars so far: on
    -- whether there are enough of them, and on both bounds.
    pub donchian-channel :
        (p : ℕ) (bars : List (F × F)) (high low : F)
        → 0 < p
        → All N (highs_of bars ++ high ∷ [])
        → All N (lows_of bars ++ low ∷ [])
        → (d : DonchianChannel F) × (r : DonchianChannel F × DonchianResult F) × (c : F × F × Bool)
          × ((new_donchian (pos p) >>= feed_all update bars) ≡ some d)
          × (update (high, low) d ≡ some r)
          × (channel_from_slice (highs_of bars ++ high ∷ []) (lows_of bars ++ low ∷ []) (pos p)
              ≡ some c)
          × Matches r.1 c
    donchian-channel p bars high low z nh nl =
        let start = new_donchian-IsChannel p z in
        let fed =
          feed_all-IsChannel p bars [] [] start.0 start.2
            (All-front N (highs_of bars) (high ∷ []) nh)
            (All-front N (lows_of bars) (low ∷ []) nl) in
        let last = update-Answers p (highs_of bars) (lows_of bars) fed.0 high low fed.2 nh nl in
        (
          fed.0,
          last.0,
          channel_of p (highs_of bars ++ high ∷ []) (lows_of bars ++ low ∷ []),
          rw start.1 fed.1,
          last.1,
          channel-best p (highs_of bars ++ high ∷ []) (lows_of bars ++ low ∷ []) z last.2.paired,
          last.3,
        )
