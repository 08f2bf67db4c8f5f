-- ===== src/Market/EventBus/Fates.antt =====
-- What becomes of an event at a subscriber (eventbus.go, `Publish`), and of a channel that is read.
use option_engine.Common.{
  ℕ, ◌+◌, ◌-◌, ◌%◌, ◌≤◌, ◌<◌, ◌^◌, ◌≡◌, refl, ap, ◌⊎◌, inl, inr, Bool, true, false, Option, some,
  List, [], ◌∷◌, ◌++◌, arith, nat_eq, ◌==◌, ltb, if◌then◌else◌, Bool-cases, length,
}
use option_engine.Common.Dict.{Dict, get}
use option_engine.Market.EventBus.{
  Subscriber, accepts, offer, map_values, take_event, Step, publishes, receives,
}

module _ {E : Type 0} where
  pub get-map_values :
      (f : Subscriber E → Subscriber E) (k : ℕ) (m : Dict ℕ (Subscriber E)) (s : Subscriber E)
      → get k m ≡ some s
      → get k (map_values f m) ≡ some (f s)
  unfolding get
  get-map_values f k [] s h = cc
  get-map_values f k ((j, t) ∷ m) s h = elim (Bool-cases (j == k)) [
    | inl y ↦ let same : t ≡ s = ground (arith, y, h) in rw (y, get) (ap (λ x. some (f x)) same)
    | inr n ↦ rw (n, get) (get-map_values f k m s (ground (arith, n, h)))
  ]

  -- The fate of each event, told by how many wait in the channel of `id`: an event that the filter
  -- lets through is kept if fewer than `capacity` wait and lost if as many do, and a read from the
  -- channel takes one. The lists are the kept and the lost events, in order.
  pub data Fates (f : Option (E → Bool)) (capacity id : ℕ)
      : ℕ → List (Step E) → List E → List E → Type 0 where
    stops : (n : ℕ) → Fates f capacity id n [] [] []
    filtered :
        (n : ℕ) (e : E) (steps : List (Step E)) (kept lost : List E)
        → accepts f e ≡ false
        → Fates f capacity id n steps kept lost
        → Fates f capacity id n (publishes e ∷ steps) kept lost
    keeps :
        (n : ℕ) (e : E) (steps : List (Step E)) (kept lost : List E)
        → accepts f e ≡ true
        → n < capacity
        → Fates f capacity id (n + 1) steps kept lost
        → Fates f capacity id n (publishes e ∷ steps) (e ∷ kept) lost
    loses :
        (n : ℕ) (e : E) (steps : List (Step E)) (kept lost : List E)
        → accepts f e ≡ true
        → capacity ≤ n
        → Fates f capacity id n steps kept lost
        → Fates f capacity id n (publishes e ∷ steps) kept (e ∷ lost)
    reads :
        (n j : ℕ) (steps : List (Step E)) (kept lost : List E)
        → Fates f capacity id (if j == id then n - 1 else n) steps kept lost
        → Fates f capacity id n (receives j ∷ steps) kept lost

  -- What becomes of an event: filtered out, kept or dropped.
  pub offer_cases :
      (e : E) (s : Subscriber E)
      → ((accepts s.filter e ≡ false) × (offer e s ≡ s))
        ⊎ ((accepts s.filter e ≡ true)
            × (length s.queue < s.capacity)
            × (offer e s ≡ record s { queue = s.queue ++ e ∷ [] }))
        ⊎ ((accepts s.filter e ≡ true)
            × (s.capacity ≤ length s.queue)
            × (s.dropped + 1 < 2 ^ 64 → offer e s ≡ record s { dropped = s.dropped + 1 }))
  unfolding offer
  offer_cases e s = elim (Bool-cases (accepts s.filter e)) [
    | inr n ↦ inl (n, rw n refl)
    | inl y ↦ elim (Bool-cases (ltb (length s.queue) s.capacity)) [
      | inl l ↦ inr (inl (y, ground (arith, l), rw (y, l) refl))
      | inr m ↦ inr (
          inr (
            y,
            ground (arith, m),
            λ r.
                let e : (s.dropped + 1) % 2 ^ 64 ≡ s.dropped + 1 = omega (arith, r) in
                rw (y, m, e) refl,
          ))
    ]
  ]

  pub take_event_lem :
      (s : Subscriber E)
      → let (t, out) = take_event s in
        (out ++ t.queue ≡ s.queue)
        × (length t.queue ≡ length s.queue - 1)
        × (t.filter ≡ s.filter)
        × (t.dropped ≡ s.dropped)
        × (t.capacity ≡ s.capacity)
  unfolding take_event
  take_event_lem s =
      elim s.queue
        as (λ q.
          let t = take_event (record s { queue = q }) in
          (t.1 ++ t.0.queue ≡ q)
          × (length t.0.queue ≡ length q - 1)
          × (t.0.filter ≡ s.filter)
          × (t.0.dropped ≡ s.dropped)
          × (t.0.capacity ≡ s.capacity)) [
            | [] ↦ (refl, refl, refl, refl, refl)
            | e ∷ es ↦ (refl, omega arith, refl, refl, refl)
          ]
