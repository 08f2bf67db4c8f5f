-- ===== src/Experiments/Progress.antt =====
-- Which moves the workers of experiments/scheduler.go have, and what each leaves to do.
use option_engine.Common.{
  ℕ, suc, ◌+◌, ◌*◌, ◌<◌, ◌≡◌, refl, ap, Bool, true, false, String, some, inl, inr, ◌⊎◌, List, [],
  ◌∷◌, ◌++◌, arith, lt→ltb, Bool-cases, length, All, string_eq,
}
use option_engine.Common.Dict.{has, put}
use option_engine.Experiments.Scheduler.{
  Phase, idle, waiting, executing, finishing, stopped, Shared, Scheduler, try_start, advance, Work,
  moves,
}
use option_engine.Experiments.Exclusion.{sum_of, sum_of-append, executes, IsExclusive}

abbrev pub weight : Phase → ℕ
weight (waiting r) = 3
weight (executing r) = 2
weight (finishing r) = 1
weight _ = 0

-- The operations that are left to do.
abbrev pub work_left : Scheduler → ℕ
work_left s = length s.shared.queue * 4 + sum_of weight s.phases

abbrev pub runs : Phase → Bool
runs stopped = false
runs _ = true

abbrev busy : Phase → Bool
busy (executing r) = true
busy (finishing r) = true
busy _ = false

abbrev waits : Phase → Bool
waits (waiting r) = true
waits _ = false

-- No worker was stopped.
abbrev pub IsRunning : Scheduler → Type 0
IsRunning s = All (λ p. runs p ≡ true) s.phases

-- Every worker is idle, and the queue is empty.
abbrev pub IsQuiet : Scheduler → Type 0
IsQuiet s = (s.shared.queue ≡ []) × All (λ p. p ≡ idle) s.phases

-- The first worker of a kind, or none of them is.
find :
    (f : Phase → Bool) (ps : List Phase)
    → All (λ p. f p ≡ false) ps
      ⊎ ((before : List Phase) × (p : Phase) × (after : List Phase) × (ps ≡ before ++ p ∷ after)
          × (f p ≡ true))
find f [] = inl tt
find f (p ∷ ps) = elim (Bool-cases (f p)) [
  | inl y ↦ inr ([], p, ps, refl, y)
  | inr n ↦ elim (find f ps) [
    | inl a ↦ inl (n, a)
    | inr (before, q, after, e, y) ↦ inr (p ∷ before, q, after, ap (◌∷◌ p) e, y)
  ]
]

advance_less :
    (m : ℕ) (p q : Phase) (s t : Shared) (queue : List String)
    → s.queue ≡ queue
    → advance m p s ≡ some (q, t)
    → length t.queue * 4 + weight q < length s.queue * 4 + weight p
unfolding advance
advance_less m idle q s t [] e h = absurd (ground (arith, rw e at h))
advance_less m idle q s t (r ∷ rest) e h = ground (arith, rw e at h, e)
advance_less m (waiting r) q s t queue e h = ground (arith, h)
advance_less m (executing r) q s t queue e h = ground (arith, h)
advance_less m (finishing r) q s t queue e h = ground (arith, h)
advance_less m stopped q s t queue e h = absurd (ground (arith, h))

pub Work-less : {s u : Scheduler} → Work s u → work_left u < work_left s
Work-less {s} {u} (moves before after p q shared e h e') =
    rw (e', e)
      (omega (
        arith,
        advance_less s.max_concurrent p q s.shared shared s.shared.queue refl h,
        sum_of-append weight before (p ∷ after),
        sum_of-append weight before (q ∷ after),
      ))

advance-runs :
    (m : ℕ) (p q : Phase) (s t : Shared) (queue : List String)
    → s.queue ≡ queue
    → advance m p s ≡ some (q, t)
    → runs q ≡ true
unfolding advance
advance-runs m idle q s t [] e h = absurd (ground (arith, rw e at h))
advance-runs m idle q s t (r ∷ rest) e h = ground (arith, rw e at h, e)
advance-runs m (waiting r) q s t queue e h = ground (arith, h)
advance-runs m (executing r) q s t queue e h = ground (arith, h)
advance-runs m (finishing r) q s t queue e h = ground (arith, h)
advance-runs m stopped q s t queue e h = absurd (ground (arith, h))

All-replace :
    (before after : List Phase) (p q : Phase)
    → All (λ p. runs p ≡ true) (before ++ p ∷ after)
    → runs q ≡ true
    → All (λ p. runs p ≡ true) (before ++ q ∷ after)
All-replace [] after p q h y = (y, h.1)
All-replace (b ∷ before) after p q h y = (h.0, All-replace before after p q h.1 y)

pub Work-IsRunning : {s u : Scheduler} → Work s u → IsRunning s → IsRunning u
Work-IsRunning {s} {u} (moves before after p q shared e h e') r = rw e' (
    All-replace before after p q (rw e at r)
      (advance-runs s.max_concurrent p q s.shared shared s.shared.queue refl h))

none_executes : (ps : List Phase) → All (λ p. busy p ≡ false) ps → sum_of executes ps ≡ 0
none_executes [] h = refl
none_executes (p ∷ ps) h = ground (arith, h.0, none_executes ps h.1)

All-idle :
    (ps : List Phase)
    → All (λ p. runs p ≡ true) ps
    → All (λ p. busy p ≡ false) ps
    → All (λ p. waits p ≡ false) ps
    → All (λ p. p ≡ idle) ps
All-idle [] r b w = tt
All-idle (idle ∷ ps) r b w = (refl, All-idle ps r.1 b.1 w.1)
All-idle (waiting i ∷ ps) r b w = cc
All-idle (executing i ∷ ps) r b w = cc
All-idle (finishing i ∷ ps) r b w = cc
All-idle (stopped ∷ ps) r b w = cc

abbrev Advances : ℕ → Phase → Shared → Type 0
Advances m p s = (q : Phase) × (t : Shared) × (advance m p s ≡ some (q, t))

busy-Advances : (m : ℕ) (p : Phase) (s : Shared) → busy p ≡ true → Advances m p s
unfolding advance
busy-Advances m (executing r) s h = (_, _, refl)
busy-Advances m (finishing r) s h = (_, _, refl)
busy-Advances m _ s h = cc

waits-Advances :
    (m : ℕ) (p : Phase) (s : Shared) → waits p ≡ true → s.semaphore < m → Advances m p s
unfolding advance
waits-Advances m (waiting r) s h l =
    (executing r, record s { semaphore = s.semaphore + 1 }, rw (lt→ltb s.semaphore m l))
waits-Advances m _ s h l = cc

idle-Advances :
    (m : ℕ) (s : Shared) (id : String) (rest : List String)
    → s.queue ≡ id ∷ rest
    → Advances m idle s
unfolding advance try_start
idle-Advances m s id rest e = elim (Bool-cases (has id s.running)) [
  | inl y ↦ (idle, record s { queue = rest }, rw (e, y))
  | inr n ↦ (waiting id, record s { queue = rest; running = put id tt s.running }, rw (e, n))
]

advance-Work :
    (s : Scheduler) (before after : List Phase) (p : Phase)
    → s.phases ≡ before ++ p ∷ after
    → Advances s.max_concurrent p s.shared
    → (u : Scheduler) × Work s u
advance-Work s before after p e (q, t, h) = (_, moves before after p q t e h refl)

first_idle :
    (s : Scheduler) (ps : List Phase)
    → s.phases ≡ ps
    → 0 < length ps
    → All (λ p. p ≡ idle) ps
    → Advances s.max_concurrent idle s.shared
    → (u : Scheduler) × Work s u
first_idle s [] e z a v = absurd (omega arith)
first_idle s (p ∷ ps) e z a v = advance-Work s [] ps idle (rw a.0 at e) v

-- Workers that are not done can move.
pub progress :
    (s : Scheduler)
    → IsExclusive s
    → IsRunning s
    → 0 < s.max_concurrent
    → 0 < length s.phases
    → IsQuiet s ⊎ ((u : Scheduler) × Work s u)
progress s i r m z = elim (find busy s.phases) [
  | inr (before, p, after, e, y) ↦
      inr (advance-Work s before after p e (busy-Advances s.max_concurrent p s.shared y))
  | inl b ↦ elim (find waits s.phases) [
    | inr (before, p, after, e, y) ↦
        let free : s.shared.semaphore < s.max_concurrent =
          omega (arith, i.counted, none_executes s.phases b, m) in
        inr (advance-Work s before after p e (waits-Advances s.max_concurrent p s.shared y free))
    | inl w ↦ at_rest s s.shared.queue refl (All-idle s.phases r b w) z
  ]
]
  where
    at_rest :
        (s : Scheduler) (queue : List String)
        → s.shared.queue ≡ queue
        → All (λ p. p ≡ idle) s.phases
        → 0 < length s.phases
        → IsQuiet s ⊎ ((u : Scheduler) × Work s u)
    at_rest s [] e a z = inl (e, a)
    at_rest s (id ∷ rest) e a z =
        inr (first_idle s s.phases refl z a (idle-Advances s.max_concurrent s.shared id rest e))

pub length-replace :
    (before after : List Phase) (p q : Phase)
    → length (before ++ p ∷ after) ≡ length (before ++ q ∷ after)
length-replace [] after p q = refl
length-replace (b ∷ before) after p q = ap suc (length-replace before after p q)

pub Work-sizes :
    {s u : Scheduler}
    → Work s u
    → (u.max_concurrent ≡ s.max_concurrent) × (length u.phases ≡ length s.phases)
Work-sizes {s} {u} (moves before after p q shared e h e') =
    rw (e', e) (refl, length-replace before after q p)
