-- ===== src/Experiments/Liveness.antt =====
-- The workers of experiments/scheduler.go empty the queue.
use option_engine.Common.{
  ℕ, zero, suc, ◌≤◌, ◌<◌, ◌≡◌, refl, ap, inl, inr, ◌⊎◌, arith, if◌then◌else◌, length, string_eq,
}
use option_engine.Common.Int.{ℤ, pos, pos_part, ltb_ℤ}
use option_engine.Common.Arrays.{length-repeat}
use option_engine.Experiments.Scheduler.{
  idle, Scheduler, new_scheduler, Work, works, stops, enqueues, Reach, here, next, Works, done,
  more,
}
use option_engine.Experiments.Exclusion.{
  IsExclusive, Work-IsExclusive, Reach-IsExclusive, new_scheduler-IsExclusive,
}
use option_engine.Experiments.Progress.{
  work_left, IsRunning, IsQuiet, Work-less, Work-IsRunning, progress, length-replace, Work-sizes,
}

pub drain :
    (n : ℕ) (s : Scheduler)
    → work_left s ≤ n
    → IsExclusive s
    → IsRunning s
    → 0 < s.max_concurrent
    → 0 < length s.phases
    → (u : Scheduler) × Works s u × IsQuiet u
drain zero s l i r m z = elim (progress s i r m z) [
  | inl quiet ↦ (s, done, quiet)
  | inr (t, w) ↦ absurd (omega (arith, Work-less w))
]
drain (suc n) s l i r m z = elim (progress s i r m z) [
  | inl quiet ↦ (s, done, quiet)
  | inr (t, w) ↦
      let sizes = Work-sizes w in
      let rest =
        drain n t (omega (arith, Work-less w)) (Work-IsExclusive w i) (Work-IsRunning w r)
          (omega (arith, sizes, m)) (omega (arith, sizes, z)) in
      (rest.0, more w rest.1, rest.2)
]

-- What every reachable state has of its start.
pub record IsStaffed (s : Scheduler) : Type 0 where
  pub exclusive : IsExclusive s
  pub limit : 0 < s.max_concurrent
  pub staff : 0 < length s.phases

Reach-sizes :
    {s u : Scheduler}
    → Reach s u
    → (u.max_concurrent ≡ s.max_concurrent) × (length u.phases ≡ length s.phases)
Reach-sizes here = (refl, refl)
Reach-sizes (next r (works w)) =
    let e = Work-sizes w in let e' = Reach-sizes r in (omega (arith, e, e'), omega (arith, e, e'))
Reach-sizes (next r (stops before after p q shared e h e')) =
    let l = length-replace before after q p in
    let i = Reach-sizes r in
    let k = ap (λ (s : Scheduler). length s.phases) e' in
    (rw e' i.0, omega (arith, l, k, ap length e, i.1))
Reach-sizes (next r (enqueues id l e)) = rw e (Reach-sizes r)

Reach-IsStaffed : (w m : ℤ) (s : Scheduler) → Reach (new_scheduler w m) s → IsStaffed s
unfolding new_scheduler
Reach-IsStaffed w m s r =
    let e = Reach-sizes r in
    let workers = if ltb_ℤ w (pos 1) then 1 else pos_part w in
    record {
      exclusive = Reach-IsExclusive r (new_scheduler-IsExclusive w m);
      limit = ground (arith, e.0);
      staff = ground (arith, e.1, length-repeat workers idle);
    }

Works-IsStaffed : {s u : Scheduler} → Works s u → IsStaffed s → IsStaffed u
Works-IsStaffed done i = i
Works-IsStaffed (more w ws) i =
    let e = Work-sizes w in
    Works-IsStaffed ws (record {
      exclusive = Work-IsExclusive w i.exclusive;
      limit = omega (arith, e, i.limit);
      staff = omega (arith, e, i.staff);
    })

Works-IsRunning : {s u : Scheduler} → Works s u → IsRunning s → IsRunning u
Works-IsRunning done r = r
Works-IsRunning (more w ws) r = Works-IsRunning ws (Work-IsRunning w r)

-- From any state that the scheduler comes to without a cancelled worker, and whatever the workers do
-- from there on, they never block one another: unless the queue is empty and all of them are idle, one
-- can move; each move leaves less to do; and so they get to an empty queue with all of them idle. An
-- execution is taken to return.
pub workers_drain :
    (w m : ℤ) (s t : Scheduler)
    → Reach (new_scheduler w m) s
    → IsRunning s
    → Works s t
    → (IsQuiet t ⊎ ((u : Scheduler) × Work t u))
      × ((u : Scheduler) → Work t u → work_left u < work_left t)
      × ((u : Scheduler) × Works t u × IsQuiet u)
workers_drain w m s t r running ws =
    let i = Works-IsStaffed ws (Reach-IsStaffed w m s r) in
    let alive = Works-IsRunning ws running in
    (
      progress t i.exclusive alive i.limit i.staff,
      λ u step. Work-less step,
      drain (work_left t) t (omega arith) i.exclusive alive i.limit i.staff,
    )
