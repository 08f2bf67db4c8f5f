-- ===== src/Market/EventBus/Accounting.antt =====
-- Nothing that is published to a subscriber is lost without being counted (eventbus.go, `Publish`).
use option_engine.Common.{
  ℕ, ◌+◌, ◌≤◌, ◌<◌, ◌^◌, ◌≡◌, refl, sym, ap, ◌∙◌, inl, inr, Bool, true, false, Option, some, List,
  [], ◌∷◌, ◌++◌, arith, nat_eq, ◌==◌, ==_iff, Bool-cases, Option-cases, length, length-append,
}
use mathlib.Core.List.{append_assoc, append-nil}
use option_engine.Common.Int.{ℤ}
use option_engine.Common.Dict.{get, get-put, get-put_self}
use option_engine.Market.EventBus.{
  Subscriber, Bus, make_subscriber, subscribe, accepts, offer, publish, take_event, receive, Step,
  publishes, receives, run,
}
use option_engine.Market.EventBus.Fates.{
  Fates, stops, filtered, keeps, loses, reads, get-map_values, offer_cases, take_event_lem,
}

-- A subscriber after some steps: what its reader got and what waits are, in order, what had waited
-- and the events that were kept; the lost ones are counted as dropped, and the channel holds no more
-- than its capacity.
pub record Accounts {E : Type 0} (id : ℕ) (s : Subscriber E) (steps : List (Step E)) (b : Bus E)
    (got : List E) : Type 0 where
  pub subscriber : Subscriber E
  pub found : get id b.subs ≡ some subscriber
  pub kept : List E
  pub lost : List E
  pub fates : Fates s.filter s.capacity id (length s.queue) steps kept lost
  pub delivered : got ++ subscriber.queue ≡ s.queue ++ kept
  pub counted : subscriber.dropped ≡ s.dropped + length lost
  pub fits : length subscriber.queue ≤ s.capacity

module _ {E : Type 0} (id : ℕ) where
  -- A read from another channel does not touch this one.
  receive_other :
      (j : ℕ) (b : Bus E)
      → (j == id) ≡ false
      → (get id (receive j b).0.subs ≡ get id b.subs) × ((receive j b).0.closed ≡ b.closed)
  unfolding receive
  receive_other j b n = elim (Option-cases (get j b.subs)) [
    | inl e ↦ rw (e, receive) (refl, refl)
    | inr (s, e) ↦ rw (e, receive) (get-put j id (take_event s).0 b.subs ∙ rw n refl, refl)
  ]

  receive_own :
      (j : ℕ) (b : Bus E) (s : Subscriber E)
      → (j == id) ≡ true
      → get id b.subs ≡ some s
      → (get id (receive j b).0.subs ≡ some (take_event s).0)
        × ((receive j b).0.closed ≡ b.closed)
        × ((receive j b).1 ≡ (take_event s).1)
  unfolding receive
  receive_own j b s y h =
      let here : get j b.subs ≡ some s = ap (λ k. get k b.subs) ((==_iff j id).0 y) ∙ h in
      rw (here, receive) (get-put j id (take_event s).0 b.subs ∙ rw y refl, refl, refl)

  -- What one step does to a subscriber goes before what the further ones do.
  filtered-Accounts :
      (e : E) (s : Subscriber E) (steps : List (Step E)) (b : Bus E) (got : List E)
      → accepts s.filter e ≡ false
      → Accounts id s steps b got
      → Accounts id s (publishes e ∷ steps) b got
  filtered-Accounts e s steps b got n v = record {
    subscriber = v.subscriber;
    found = v.found;
    kept = v.kept;
    lost = v.lost;
    fates = filtered _ e steps v.kept v.lost n v.fates;
    delivered = v.delivered;
    counted = v.counted;
    fits = v.fits;
  }

  kept-Accounts :
      (e : E) (s : Subscriber E) (steps : List (Step E)) (b : Bus E) (got : List E)
      → accepts s.filter e ≡ true
      → length s.queue < s.capacity
      → Accounts id (record s { queue = s.queue ++ e ∷ [] }) steps b got
      → Accounts id s (publishes e ∷ steps) b got
  kept-Accounts e s steps b got y l v =
      let one : length (s.queue ++ e ∷ []) ≡ length s.queue + 1 = length-append s.queue (e ∷ []) in
      record {
        subscriber = v.subscriber;
        found = v.found;
        kept = e ∷ v.kept;
        lost = v.lost;
        fates = keeps _ e steps v.kept v.lost y l (rw one at v.fates);
        delivered = v.delivered ∙ append_assoc s.queue (e ∷ []) v.kept;
        counted = v.counted;
        fits = v.fits;
      }

  lost-Accounts :
      (e : E) (s : Subscriber E) (steps : List (Step E)) (b : Bus E) (got : List E)
      → accepts s.filter e ≡ true
      → s.capacity ≤ length s.queue
      → Accounts id (record s { dropped = s.dropped + 1 }) steps b got
      → Accounts id s (publishes e ∷ steps) b got
  lost-Accounts e s steps b got y l v = record {
    subscriber = v.subscriber;
    found = v.found;
    kept = v.kept;
    lost = e ∷ v.lost;
    fates = loses _ e steps v.kept v.lost y l v.fates;
    delivered = v.delivered;
    counted = omega (arith, v.counted);
    fits = v.fits;
  }

  other-Accounts :
      (j : ℕ) (s : Subscriber E) (steps : List (Step E)) (b : Bus E) (got : List E)
      → (j == id) ≡ false
      → Accounts id s steps b got
      → Accounts id s (receives j ∷ steps) b got
  other-Accounts j s steps b got n v = record {
    subscriber = v.subscriber;
    found = v.found;
    kept = v.kept;
    lost = v.lost;
    fates = reads _ j steps v.kept v.lost (rw n v.fates);
    delivered = v.delivered;
    counted = v.counted;
    fits = v.fits;
  }

  read-Accounts :
      (j : ℕ) (s : Subscriber E) (steps : List (Step E)) (b : Bus E) (got : List E)
      → (j == id) ≡ true
      → let (t, out) = take_event s in
        Accounts id t steps b got → Accounts id s (receives j ∷ steps) b (out ++ got)
  read-Accounts j s steps b got y v =
      let (front, size, filter, drops, cap) = take_event_lem s in
      record {
        subscriber = v.subscriber;
        found = v.found;
        kept = v.kept;
        lost = v.lost;
        fates = reads _ j steps v.kept v.lost (rw y (rw (filter, cap, size) at v.fates));
        delivered =
            append_assoc (take_event s).1 got v.subscriber.queue
            ∙ ap (λ x. (take_event s).1 ++ x) v.delivered
            ∙ sym (append_assoc (take_event s).1 (take_event s).0.queue v.kept)
            ∙ ap (λ x. x ++ v.kept) front;
        counted = rw drops at v.counted;
        fits = rw cap at v.fits;
      }

  run-Accounts :
      (steps : List (Step E)) (b : Bus E) (s : Subscriber E)
      → get id b.subs ≡ some s
      → b.closed ≡ false
      → length s.queue ≤ s.capacity
      → s.dropped + length steps < 2 ^ 64
      → let (b', got) = run id steps b in Accounts id s steps b' got
  unfolding run
  run-Accounts [] b s h open' k r = record {
    subscriber = s;
    found = h;
    kept = [];
    lost = [];
    fates = stops _;
    delivered = sym (append-nil s.queue);
    counted = omega arith;
    fits = k;
  }
  run-Accounts (publishes e ∷ steps) b s h open' k r =
      let found : get id (publish e b).subs ≡ some (offer e s) =
        unfold publish in rw open' (get-map_values (offer e) id b.subs s h) in
      let still : (publish e b).closed ≡ false = unfold publish in rw open' refl in
      elim (offer_cases e s) [
        | inl (n, same) ↦
            filtered-Accounts e s steps _ _ n
              (run-Accounts steps (publish e b) s (found ∙ ap some same) still k (omega (arith, r)))
        | inr (inl (y, l, same)) ↦ kept-Accounts e s steps _ _ y l (
            run-Accounts steps (publish e b) (record s { queue = s.queue ++ e ∷ [] })
              (found ∙ ap some same) still (omega (arith, l, length-append s.queue (e ∷ [])))
              (omega (arith, r)))
        | inr (inr (y, l, same)) ↦ lost-Accounts e s steps _ _ y l (
            run-Accounts steps (publish e b) (record s { dropped = s.dropped + 1 })
              (found ∙ ap some (same (omega (arith, r)))) still k (omega (arith, r)))
      ]
  run-Accounts (receives j ∷ steps) b s h open' k r = elim (Bool-cases (j == id)) [
    | inr n ↦
        let (same, closed) = receive_other j b n in
        rw n (
          other-Accounts j s steps _ _ n
            (run-Accounts steps (receive j b).0 s (same ∙ h) (closed ∙ open') k (omega (arith, r))))
    | inl y ↦
        let (found, closed, out) = receive_own j b s y h in
        let (front, size, filter, drops, cap) = take_event_lem s in
        rw (y, out)
          (read-Accounts j s steps _ _ y (
            run-Accounts steps (receive j b).0 (take_event s).0 found (closed ∙ open')
              (omega (arith, k, cap, size)) (omega (arith, r, drops))))
  ]

-- A subscriber of an open bus, after any publications and reads, of its channel and of others: each
-- published event that its filter lets through is kept if there is room in its channel and lost if
-- not; the events that its reader got, followed by those that wait, are exactly the kept ones, in the
-- order of publication; as many were counted as dropped as were lost; and the channel holds no more
-- than its buffer. There are fewer than 2^64 steps.
pub run-subscribe :
    {E : Type 0} (buffer : ℤ) (f : Option (E → Bool)) (steps : List (Step E)) (b : Bus E)
    → b.closed ≡ false
    → length steps < 2 ^ 64
    → let (b', got) = run b.next steps (subscribe buffer f b).0 in
      Accounts b.next (make_subscriber buffer f) steps b' got
run-subscribe buffer f steps b open' few =
    let s = make_subscriber buffer f in
    run-Accounts b.next steps (subscribe buffer f b).0 s
      (unfold subscribe in rw open' (get-put_self b.next s b.subs))
      (unfold subscribe in rw open' refl) (unfold make_subscriber in omega arith)
      (unfold make_subscriber in omega (arith, few))
