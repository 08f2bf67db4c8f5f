-- ===== src/Indicator/Average.antt =====
-- The incremental average of indicators/sma.go: the running sum over the closes, without a ring.
use option_engine.Common.{
  ℕ, ◌+◌, ◌%◌, ◌<◌, ◌≡◌, refl, sym, ap, ◌∙◌, Bool, true, false, some, inl, inr, List, [], ◌∷◌, ◌++◌,
  arith, ltb, lt→ltb, Bool-cases, if◌then◌else◌, length, ◌>>=◌,
}
use mathlib.Core.List.{append_assoc, append-nil}
use option_engine.Common.Int.{pos}
use option_engine.Common.Float.{Float, int_float}
use option_engine.Common.Arrays.{set}
use option_engine.Indicator.{Result, feed_all}
use option_engine.Indicator.Sma.{
  Sma, new_sma, early, mean, set_elem?-set, update, fill, slide, value, zero_value, of_count,
}
use option_engine.Indicator.Ring.{
  IsFilling, IsFull, Ring, window, set-IsFilling, repeat-IsFilling, settle, slide-IsFull, oldest,
  length-snoc,
}

module _ {F : Type 0} ⦃f : Float F⦄ where
  -- The close that leaves the last `p`.
  abbrev pub first_of : List F → F
  first_of [] = zero_value
  first_of (x ∷ xs) = x

  -- The sum after one more close: while there are fewer than `p` the close is added, and from then on
  -- the one that stands `p` places before it is first taken off. Sums are rounded as they come.
  abbrev pub next_sum : ℕ → List F → F → F → F
  next_sum p past acc x =
      if ltb (length past) p then f.add acc x else f.add (f.sub acc (first_of (window p past))) x

  abbrev pub running_from : ℕ → List F → F → List F → F
  running_from p past acc [] = acc
  running_from p past acc (x ∷ xs) = running_from p (past ++ x ∷ []) (next_sum p past acc x) xs

  -- The reference: the running sum of the closes over `p`, once there are that many.
  abbrev pub average_of : ℕ → List F → F × Bool
  average_of p h =
      if ltb (length h) p
      then (zero_value, false)
      else (f.div (running_from p [] zero_value h) (of_count p), true)

  pub record IsSma (p : ℕ) (h : List F) (s : Sma F) : Type 0 where
    pub positive : 0 < p
    pub period : s.period ≡ p
    pub counted : s.count ≡ length h
    pub summed : s.sum ≡ running_from p [] zero_value h
    pub ring : Ring p s.buf s.idx h

  -- A calculator for whose result the reference stands.
  abbrev pub Reports : ℕ → List F → Sma F × Result F → Type 0
  Reports p h r =
      IsSma p h r.0
      × (value r.0 ≡ average_of p h)
      × ((r.1.value, r.1.warmed_up) ≡ average_of p h)
      × (r.1.samples ≡ length h)

  running-snoc :
      (p : ℕ) (past : List F) (acc : F) (h : List F) (x : F)
      → running_from p past acc (h ++ x ∷ []) ≡ next_sum p (past ++ h) (running_from p past acc h) x
  running-snoc p past acc [] x = rw append-nil
  running-snoc p past acc (y ∷ h) x =
      running-snoc p (past ++ y ∷ []) (next_sum p past acc y) h x
      ∙ ap (λ l. next_sum p l (running_from p (past ++ y ∷ []) (next_sum p past acc y) h) x)
          (append_assoc past (y ∷ []) h)

  new_sma-IsSma : (n : ℕ) → 0 < n → (s : Sma F) × (new_sma (pos n) ≡ some s) × IsSma n [] s
  unfolding new_sma
  new_sma-IsSma n z = (
    _,
    refl,
    record {
      positive = z;
      period = refl;
      counted = refl;
      summed = refl;
      ring = inl (repeat-IsFilling n zero_value, z);
    },
  )

  -- The state's value is the reference.
  value-average : (p : ℕ) (h : List F) (s : Sma F) → IsSma p h s → value s ≡ average_of p h
  unfolding value
  value-average p h s i = rw (i.counted, i.period, i.summed)

  -- Both phases hand out what `Value` would.
  result-Reports :
      (p : ℕ) (h : List F) (t : Sma F)
      → IsSma p h t
      → Reports p h (t, if ltb t.count t.period then early t else mean t)
  unfolding value
  result-Reports p h t i =
      let v : value t ≡ average_of p h = value-average p h t i in
      elim (Bool-cases (ltb t.count t.period)) [
        | inl y ↦ rw y (i, rw y at v, rw y at v, i.counted)
        | inr n ↦ rw n (i, rw n at v, rw n at v, i.counted)
      ]

  fill-IsSma :
      (p : ℕ) (h : List F) (s : Sma F) (x : F)
      → IsSma p h s
      → IsFilling p s.buf s.idx h
      → length h < p
      → (t : Sma F) × (fill x s ≡ some (t, if ltb t.count t.period then early t else mean t))
        × IsSma p (h ++ x ∷ []) t
  unfolding fill
  fill-IsSma p h s x i ring l =
      let t : Sma F = record s {
        buf = set s.buf (length h) x;
        sum = f.add s.sum x;
        count = s.count + 1;
      } in
      let next : IsFilling p t.buf t.idx (h ++ x ∷ []) = set-IsFilling p s.buf s.idx h x ring l in
      (
        t,
        rw (i.counted, set_elem?-set s.buf (length h) p x ring.sized l),
        record {
          positive = i.positive;
          period = i.period;
          counted = omega (arith, i.counted, length-snoc h x);
          summed =
              ap (λ a. f.add a x) i.summed
              ∙ sym (running-snoc p [] zero_value h x ∙ rw (lt→ltb (length h) p l) refl);
          ring = settle p t.buf t.idx (h ++ x ∷ []) i.positive next;
        },
      )

  slide-IsSma :
      (p : ℕ) (h : List F) (s : Sma F) (x : F)
      → IsSma p h s
      → IsFull p s.buf s.idx h
      → (t : Sma F) × (slide x s ≡ some (t, mean t)) × IsSma p (h ++ x ∷ []) t
  unfolding slide
  slide-IsSma p h s x i ring =
      let first = oldest p s.buf s.idx h ring in
      let o = first.0 in
      let full : ltb (length h) p ≡ false = ground (arith, ring.enough) in
      let t : Sma F = record s {
        buf = set s.buf s.idx x;
        idx = (s.idx + 1) % s.period;
        sum = f.add (f.sub s.sum first.0) x;
        count = s.count + 1;
      } in
      (
        t,
        rw (first.2, set_elem?-set s.buf s.idx p x ring.sized ring.inside),
        record {
          positive = i.positive;
          period = i.period;
          counted = omega (arith, i.counted, length-snoc h x);
          summed =
              ap (λ a. f.add (f.sub a o) x) i.summed
              ∙ sym (running-snoc p [] zero_value h x ∙ rw (full, first.3) refl);
          ring = inr (rw i.period (slide-IsFull p s.buf s.idx h x ring));
        },
      )

  update-Reports :
      (p : ℕ) (h : List F) (s : Sma F) (x : F)
      → IsSma p h s
      → (r : Sma F × Result F) × (update x s ≡ some r) × Reports p (h ++ x ∷ []) r
  unfolding update
  update-Reports p h s x i = elim i.ring [
    | inl (ring, l) ↦
        let e : ltb s.count s.period ≡ true = rw (i.counted, i.period) (lt→ltb (length h) p l) in
        let next = fill-IsSma p h s x i ring l in
        (_, rw e next.1, result-Reports p (h ++ x ∷ []) next.0 next.2)
    | inr ring ↦
        let e : ltb s.count s.period ≡ false =
          rw (i.counted, i.period) (ground (arith, ring.enough)) in
        let next = slide-IsSma p h s x i ring in
        let warm : ltb next.0.count next.0.period ≡ false =
          rw (next.2.counted, next.2.period) (ground (arith, ring.enough, length-snoc h x)) in
        (_, rw e next.1, (rw warm at (result-Reports p (h ++ x ∷ []) next.0 next.2)))
  ]

  feed_all-IsSma :
      (p : ℕ) (xs h : List F) (s : Sma F)
      → IsSma p h s
      → (t : Sma F) × (feed_all update xs s ≡ some t) × IsSma p (h ++ xs) t
  unfolding feed_all
  feed_all-IsSma p [] h s i = (s, refl, rw append-nil i)
  feed_all-IsSma p (x ∷ xs) h s i =
      let now = update-Reports p h s x i in
      let rest = feed_all-IsSma p xs (h ++ x ∷ []) now.0.0 now.2.0 in
      (rest.0, rw now.1 rest.1, rw (append_assoc h (x ∷ []) xs) at rest.2)

  -- After any closes, where the period is positive, no update panics, and the next update and `Value`
  -- hand out, if there were as many closes as the period, the running sum divided by the period, and
  -- no value before that. The sum starts from 0, adds each close, and, from the first close that is
  -- one too many on, first takes off the close that is a period older. Nothing is assumed of the
  -- arithmetic, so that rounding is the code's own.
  pub sma-average :
      (p : ℕ) (h : List F) (x : F)
      → 0 < p
      → (s : Sma F) × (r : Sma F × Result F) × ((new_sma (pos p) >>= feed_all update h) ≡ some s)
        × (update x s ≡ some r)
        × (value r.0 ≡ average_of p (h ++ x ∷ []))
        × ((r.1.value, r.1.warmed_up) ≡ average_of p (h ++ x ∷ []))
        × (r.1.samples ≡ length (h ++ x ∷ []))
  sma-average p h x z =
      let start = new_sma-IsSma p z in
      let fed = feed_all-IsSma p h [] start.0 start.2 in
      let last = update-Reports p h fed.0 x fed.2 in
      (fed.0, last.0, rw start.1 fed.1, last.1, last.2.1, last.2.2, last.2.3)
