-- ===== src/Market/EventBus.antt =====
-- The event bus: internal/market/eventbus/eventbus.go. A channel is the list of what it buffers; a
-- channel that was closed can still be read until it is empty, and stands in `ended`.
pub mod Fates
pub mod Accounting
use option_engine.Common.{
  ℕ, ◌+◌, Bool, true, false, not, Option, none, some, List, [], ◌∷◌, ◌++◌, ltb, nat_eq, ◌==◌,
  if◌then◌else◌, length,
}
use option_engine.Common.Int.{ℤ, pos, pos_part, ltb_ℤ, u64}
use option_engine.Common.Dict.{Dict, get, put, remove, size}

pub record Subscriber (E : Type 0) : Type 0 where
  pub capacity : ℕ
  pub queue : List E
  pub filter : Option (E → Bool)
  pub dropped : ℕ  -- uint64

pub record Bus (E : Type 0) : Type 0 where
  pub subs : Dict ℕ (Subscriber E)
  pub ended : Dict ℕ (Subscriber E)
  pub next : ℕ  -- uint64
  pub closed : Bool

module _ {E : Type 0} where
  unfoldable pub new_bus : Bus E
  new_bus = record { subs = []; ended = []; next = 0; closed = false }

  unfoldable pub make_subscriber : ℤ → Option (E → Bool) → Subscriber E
  make_subscriber buffer f = record {
    capacity = if ltb_ℤ buffer (pos 1) then 1 else pos_part buffer;
    queue = [];
    filter = f;
    dropped = 0;
  }

  -- `Subscribe`: the identifier; on a closed bus there is none, and the channel is closed and empty.
  unfoldable pub subscribe : ℤ → Option (E → Bool) → Bus E → Bus E × Option ℕ
  subscribe buffer f b = if b.closed then (b, none) else (
    record b { next = u64 (b.next + 1); subs = put b.next (make_subscriber buffer f) b.subs },
    some b.next,
  )

  -- `remove`, which `Subscription.Close` calls.
  unfoldable pub unsubscribe : ℕ → Bus E → Bus E
  unsubscribe id b = elim (get id b.subs) [
    | none ↦ b
    | some s ↦ record b { subs = remove id b.subs; ended = put id s b.ended }
  ]

  abbrev pub accepts : Option (E → Bool) → E → Bool
  accepts none e = true
  accepts (some f) e = f e

  -- What `Publish` does to one subscriber: a full channel drops the event.
  unfoldable pub offer : E → Subscriber E → Subscriber E
  offer e s =
      if not (accepts s.filter e)
      then s
      else if ltb (length s.queue) s.capacity
      then record s { queue = s.queue ++ e ∷ [] }
      else record s { dropped = u64 (s.dropped + 1) }

  abbrev pub map_values :
      (Subscriber E → Subscriber E) → Dict ℕ (Subscriber E) → Dict ℕ (Subscriber E)
  map_values f [] = []
  map_values f ((k, s) ∷ m) = (k, f s) ∷ map_values f m

  unfoldable pub publish : E → Bus E → Bus E
  publish e b = if b.closed then b else record b { subs = map_values (offer e) b.subs }

  abbrev pub append_all : Dict ℕ (Subscriber E) → Dict ℕ (Subscriber E) → Dict ℕ (Subscriber E)
  append_all [] m = m
  append_all ((k, s) ∷ l) m = (k, s) ∷ append_all l m

  unfoldable pub close : Bus E → Bus E
  close b =
      if b.closed
      then b
      else record b { closed = true; subs = []; ended = append_all b.subs b.ended }

  unfoldable pub count : Bus E → ℕ
  count b = size b.subs

  -- A subscriber reads from its channel: the oldest event in it, if there is one.
  unfoldable pub take_event : Subscriber E → Subscriber E × List E
  take_event s = elim s.queue as (λ _. Subscriber E × List E) [
    | [] ↦ (s, [])
    | e ∷ es ↦ (record s { queue = es }, e ∷ [])
  ]

  unfoldable pub receive : ℕ → Bus E → Bus E × List E
  receive id b = elim (get id b.subs) [
    | none ↦ (b, [])
    | some s ↦ let (s', out) = take_event s in (record b { subs = put id s' b.subs }, out)
  ]

-- What publishers and readers do, in the order in which the lock lets them.
pub data Step (E : Type 0) : Type 0 where
  publishes : E → Step E
  receives : ℕ → Step E

-- The bus after some steps, and what the reader of one channel got.
unfoldable pub run : {E : Type 0} → ℕ → List (Step E) → Bus E → Bus E × List E
run id [] b = (b, [])
run id (publishes e ∷ steps) b = run id steps (publish e b)
run id (receives j ∷ steps) b =
    let (b', out) = receive j b in
    let (b'', rest) = run id steps b' in (b'', if j == id then out ++ rest else rest)
