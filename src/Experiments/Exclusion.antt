-- ===== src/Experiments/Exclusion.antt =====
-- No run is executed twice at a time, and no more runs than the limit: experiments/scheduler.go.
use option_engine.Common.{
  ℕ, zero, suc, ◌+◌, ◌≤◌, ◌≡◌, refl, String, some, inl, inr, List, [], ◌∷◌, ◌++◌, arith, Bool-cases,
  if◌then◌else◌, ◌==◌, ==_iff, string_eq,
}
use option_engine.Common.Int.{ℤ}
use option_engine.Common.Dict.{Dict, has, get, bit, put, remove, get-put, get-remove}
use option_engine.Common.Arrays.{repeat}
use option_engine.Experiments.Scheduler.{
  Phase, idle, waiting, executing, finishing, stopped, Shared, Scheduler, new_scheduler, try_start,
  finish, advance, cancel, Work, moves, Step, works, stops, enqueues, Reach, here, next,
}

module _ {ℓ} {A : Type ℓ} where
  abbrev pub sum_of : (A → ℕ) → List A → ℕ
  sum_of f [] = 0
  sum_of f (x ∷ xs) = f x + sum_of f xs

  pub sum_of-append : (f : A → ℕ) (xs ys : List A) → sum_of f (xs ++ ys) ≡ sum_of f xs + sum_of f ys
  sum_of-append f [] ys = omega arith
  sum_of-append f (x ∷ xs) ys = omega (arith, sum_of-append f xs ys)

  pub sum_of-repeat : (f : A → ℕ) (x : A) (n : ℕ) → f x ≡ 0 → sum_of f (repeat n x) ≡ 0
  unfolding repeat
  sum_of-repeat f x zero h = refl
  sum_of-repeat f x (suc n) h = omega (arith, h, sum_of-repeat f x n h)

-- The run that a worker has marked as its own.
abbrev pub holds : String → Phase → ℕ
holds id idle = 0
holds id (waiting r) = bit (r == id)
holds id (executing r) = bit (r == id)
holds id (finishing r) = bit (r == id)
holds id stopped = 0

abbrev pub executes : Phase → ℕ
executes (executing r) = 1
executes _ = 0

-- The running set is what the workers hold, each run once; the semaphore counts the executions.
pub record IsExclusive (s : Scheduler) : Type 0 where
  pub held : (id : String) → sum_of (holds id) s.phases ≡ bit (has id s.shared.running)
  pub counted : sum_of executes s.phases ≡ s.shared.semaphore
  pub within : s.shared.semaphore ≤ s.max_concurrent

has-put :
    (k j : String) (m : Dict String (Unit {0}))
    → bit (has j (put k tt m)) ≡ (if k == j then 1 else bit (has j m))
has-put k j m = elim (Bool-cases (k == j)) [
  | inl y ↦ rw (get-put k j tt m, y)
  | inr n ↦ rw (get-put k j tt m, n)
]

has-remove :
    (k j : String) (m : Dict String (Unit {0}))
    → bit (has j (remove k m)) ≡ (if k == j then 0 else bit (has j m))
has-remove k j m = elim (Bool-cases (k == j)) [
  | inl y ↦ rw (get-remove k j m, y)
  | inr n ↦ rw (get-remove k j m, n)
]

-- What a worker holds and the running set change alike, and so do what it executes and the semaphore.
abbrev IsBalanced : Phase → Phase → Shared → Shared → Type 0
IsBalanced p q s t =
    ((id : String) → holds id p + bit (has id t.running) ≡ holds id q + bit (has id s.running))
    × (executes p + t.semaphore ≡ executes q + s.semaphore)

-- A worker that holds what the running set has.
abbrev IsEntered : Phase → Shared → Type 0
IsEntered p s = ((id : String) → holds id p ≤ bit (has id s.running)) × (executes p ≤ s.semaphore)

take-IsBalanced :
    (m : ℕ) (q : Phase) (queue : List String) (s t : Shared)
    → s.queue ≡ queue
    → advance m idle s ≡ some (q, t)
    → IsBalanced idle q s t
unfolding advance try_start
take-IsBalanced m q [] s t e h = absurd (ground (arith, rw e at h))
take-IsBalanced m q (r ∷ rest) s t e h = elim (Bool-cases (has r s.running)) [
  | inl y ↦ (λ id. ground (arith, rw (e, y) at h), ground (arith, rw (e, y) at h))
  | inr n ↦ (
    λ id. ground (arith, rw (e, n) at h, n, has-put r id s.running, ==_iff r id),
    ground (arith, rw (e, n) at h),
  )
]

advance-IsBalanced :
    (m : ℕ) (p q : Phase) (s t : Shared)
    → advance m p s ≡ some (q, t)
    → IsEntered p s
    → IsBalanced p q s t
unfolding advance finish
advance-IsBalanced m idle q s t h i = take-IsBalanced m q s.queue s t refl h
advance-IsBalanced m (waiting r) q s t h i = (λ id. ground (arith, h), ground (arith, h))
advance-IsBalanced m (executing r) q s t h i = (λ id. ground (arith, h), ground (arith, h, i.1))
advance-IsBalanced m (finishing r) q s t h i =
    (λ id. ground (arith, h, has-remove r id s.running, i.0 id), ground (arith, h))
advance-IsBalanced m stopped q s t h i = absurd (ground (arith, h))

cancel-IsBalanced :
    (p q : Phase) (s t : Shared) → cancel p s ≡ some (q, t) → IsEntered p s → IsBalanced p q s t
unfolding cancel finish
cancel-IsBalanced idle q s t h i = (λ id. ground (arith, h), ground (arith, h))
cancel-IsBalanced (waiting r) q s t h i =
    (λ id. ground (arith, h, has-remove r id s.running, i.0 id), ground (arith, h))
cancel-IsBalanced _ q s t h i = absurd (ground (arith, h))

advance_within :
    (m : ℕ) (p q : Phase) (s t : Shared)
    → advance m p s ≡ some (q, t)
    → s.semaphore ≤ m
    → t.semaphore ≤ m
unfolding advance
advance_within m p q s t h l = ground (arith, h, l)

-- A sum over the workers, of whom one is looked at.
sum_of_one :
    (f : Phase → ℕ) (ps before after : List Phase) (p : Phase)
    → ps ≡ before ++ p ∷ after
    → sum_of f ps ≡ sum_of f before + f p + sum_of f after
sum_of_one f ps before after p e = rw e (omega (arith, sum_of-append f before (p ∷ after)))

entered :
    (s : Scheduler) (before after : List Phase) (p : Phase)
    → s.phases ≡ before ++ p ∷ after
    → IsExclusive s
    → IsEntered p s.shared
entered s before after p e i = (
  λ id. omega (arith, i.held id, sum_of_one (holds id) s.phases before after p e),
  omega (arith, i.counted, sum_of_one executes s.phases before after p e),
)

move-IsExclusive :
    (s u : Scheduler) (before after : List Phase) (p q : Phase) (shared : Shared)
    → s.phases ≡ before ++ p ∷ after
    → u ≡ record s { shared = shared; phases = before ++ q ∷ after }
    → IsBalanced p q s.shared shared
    → shared.semaphore ≤ s.max_concurrent
    → IsExclusive s
    → IsExclusive u
move-IsExclusive s u before after p q shared e e' b l i = rw e' (record {
  held = λ id. omega (
    arith,
    b.0 id,
    i.held id,
    sum_of_one (holds id) s.phases before after p e,
    sum_of_one (holds id) (before ++ q ∷ after) before after q refl,
  );
  counted = omega (
    arith,
    b.1,
    i.counted,
    sum_of_one executes s.phases before after p e,
    sum_of_one executes (before ++ q ∷ after) before after q refl,
  );
  within = l;
})

pub Work-IsExclusive : {s u : Scheduler} → Work s u → IsExclusive s → IsExclusive u
Work-IsExclusive {s} {u} (moves before after p q shared e h e') i =
    move-IsExclusive s u before after p q shared e e'
      (advance-IsBalanced s.max_concurrent p q s.shared shared h (entered s before after p e i))
      (advance_within s.max_concurrent p q s.shared shared h i.within) i

cancel_within :
    (p q : Phase) (s t : Shared) (m : ℕ)
    → cancel p s ≡ some (q, t)
    → s.semaphore ≤ m
    → t.semaphore ≤ m
unfolding cancel
cancel_within p q s t m h l = ground (arith, h, l)

Step-IsExclusive : {s u : Scheduler} → Step s u → IsExclusive s → IsExclusive u
Step-IsExclusive (works w) i = Work-IsExclusive w i
Step-IsExclusive {s} {u} (stops before after p q shared e h e') i =
    move-IsExclusive s u before after p q shared e e'
      (cancel-IsBalanced p q s.shared shared h (entered s before after p e i))
      (cancel_within p q s.shared shared s.max_concurrent h i.within) i
Step-IsExclusive (enqueues id l e) i =
    rw e (record { held = i.held; counted = i.counted; within = i.within })

pub Reach-IsExclusive : {s u : Scheduler} → Reach s u → IsExclusive s → IsExclusive u
Reach-IsExclusive here i = i
Reach-IsExclusive (next r st) i = Step-IsExclusive st (Reach-IsExclusive r i)

Reach-limit : {s u : Scheduler} → Reach s u → u.max_concurrent ≡ s.max_concurrent
Reach-limit here = refl
Reach-limit (next r (works (moves before after p q shared e h e'))) = rw e' (Reach-limit r)
Reach-limit (next r (stops before after p q shared e h e')) = rw e' (Reach-limit r)
Reach-limit (next r (enqueues id l e)) = rw e (Reach-limit r)

pub new_scheduler-IsExclusive : (w m : ℤ) → IsExclusive (new_scheduler w m)
unfolding new_scheduler get
new_scheduler-IsExclusive w m = record {
  held = λ id. sum_of-repeat (holds id) idle _ refl;
  counted = sum_of-repeat executes idle _ refl;
  within = omega arith;
}

-- Whatever the workers, the callers and the cancellations do after the start, and in whatever order,
-- no run is held by two workers at a time, the running set has exactly the runs that workers hold, and
-- no more runs are executed at a time than the limit.
pub scheduler_exclusive :
    (w m : ℤ) (s : Scheduler)
    → Reach (new_scheduler w m) s
    → ((id : String) → sum_of (holds id) s.phases ≤ 1)
      × ((id : String) → sum_of (holds id) s.phases ≡ bit (has id s.shared.running))
      × (sum_of executes s.phases ≤ (new_scheduler w m).max_concurrent)
scheduler_exclusive w m s r =
    let i = Reach-IsExclusive r (new_scheduler-IsExclusive w m) in
    (λ id. ground (arith, i.held id), i.held, omega (arith, i.counted, i.within, Reach-limit r))
