-- ===== src/Experiments/Scheduler.antt =====
-- internal/experiments/scheduler.go. A worker goroutine is its phase: between two phases it does one
-- operation that others can see, on the queue, the running set or the semaphore. The runner and the
-- callbacks are left out: an execution takes as long as its worker stays in `executing`.
use option_engine.Common.{
  ℕ, ◌+◌, ◌-◌, ◌*◌, ◌≡◌, ◌<◌, Bool, true, false, String, Option, none, some, List, [], ◌∷◌, ◌++◌,
  ltb, if◌then◌else◌, length, string_eq,
}
use option_engine.Common.Int.{ℤ, pos, pos_part, ltb_ℤ}
use option_engine.Common.Dict.{Dict, has, put, remove, size}
use option_engine.Common.Arrays.{repeat}

pub data Phase : Type 0 where
  idle : Phase
  waiting : String → Phase  -- for the semaphore
  executing : String → Phase
  finishing : String → Phase  -- the semaphore is given back, the run is not yet taken off
  stopped : Phase

-- What the workers share. The semaphore is the number of tokens in its channel.
pub record Shared : Type 0 where
  pub queue : List String
  pub running : Dict String (Unit {0})
  pub semaphore : ℕ

pub record Scheduler : Type 0 where
  pub shared : Shared
  pub phases : List Phase
  pub max_concurrent : ℕ
  pub queue_size : ℕ

-- `NewScheduler`, and `Start`, which starts the workers.
unfoldable pub new_scheduler : ℤ → ℤ → Scheduler
new_scheduler workers max_concurrent =
    let w = if ltb_ℤ workers (pos 1) then 1 else pos_part workers in
    let m = if ltb_ℤ max_concurrent (pos 1) then w else pos_part max_concurrent in
    record {
      shared = record { queue = []; running = []; semaphore = 0 };
      phases = repeat w idle;
      max_concurrent = m;
      queue_size = w * 4;
    }

-- `tryStart`
unfoldable pub try_start : String → Dict String (Unit {0}) → Bool × Dict String (Unit {0})
try_start id running = if has id running then (false, running) else (true, put id tt running)

-- `finish`
unfoldable pub finish : String → Dict String (Unit {0}) → Dict String (Unit {0})
finish id running = remove id running

-- `ActiveWorkers`
unfoldable pub active_workers : Scheduler → ℕ
active_workers s = size s.shared.running

-- `QueueDepth`
unfoldable pub queue_depth : Scheduler → ℕ
queue_depth s = length s.shared.queue

-- The next operation of a worker; `none` while it is blocked.
unfoldable pub advance : ℕ → Phase → Shared → Option (Phase × Shared)
advance m idle s = elim s.queue [
  | [] ↦ none
  | id ∷ rest ↦
      let started = try_start id s.running in
      if started.0
      then some (waiting id, record s { queue = rest; running = started.1 })
      else some (idle, record s { queue = rest })
]
advance m (waiting id) s =
    if ltb s.semaphore m
    then some (executing id, record s { semaphore = s.semaphore + 1 })
    else none
advance m (executing id) s = some (finishing id, record s { semaphore = s.semaphore - 1 })
advance m (finishing id) s = some (idle, record s { running = finish id s.running })
advance m stopped s = none

-- What a worker does that sees its context cancelled.
unfoldable pub cancel : Phase → Shared → Option (Phase × Shared)
cancel idle s = some (stopped, s)
cancel (waiting id) s = some (stopped, record s { running = finish id s.running })
cancel _ s = none

-- A worker moves on.
pub data Work (s u : Scheduler) : Type 0 where
  moves :
      (before after : List Phase) (p q : Phase) (shared : Shared)
      → s.phases ≡ before ++ p ∷ after
      → advance s.max_concurrent p s.shared ≡ some (q, shared)
      → u ≡ record s { shared = shared; phases = before ++ q ∷ after }
      → Work s u

-- One step of the program: a worker moves, a worker stops, or a run is put into the queue.
pub data Step (s u : Scheduler) : Type 0 where
  works : Work s u → Step s u
  stops :
      (before after : List Phase) (p q : Phase) (shared : Shared)
      → s.phases ≡ before ++ p ∷ after
      → cancel p s.shared ≡ some (q, shared)
      → u ≡ record s { shared = shared; phases = before ++ q ∷ after }
      → Step s u
  enqueues :
      (id : String)
      → length s.shared.queue < s.queue_size
      → u ≡ record s { shared = record s.shared { queue = s.shared.queue ++ id ∷ [] } }
      → Step s u

pub data Reach (s : Scheduler) : Scheduler → Type 0 where
  here : Reach s s
  next : {t u : Scheduler} → Reach s t → Step t u → Reach s u

-- The workers alone, from a state on.
pub data Works : Scheduler → Scheduler → Type 0 where
  done : {s : Scheduler} → Works s s
  more : {s t u : Scheduler} → Work s t → Works t u → Works s u
