-- ===== src/Migration.antt =====
-- Locks and migration of sharedFolderHW2/sched.c in the build for several processors: task_rq_lock,
-- double_rq_lock, wait_task_inactive, set_cpus_allowed and a pass of migration_thread; nr_running to
-- nr_context_switches.
pub mod Activation
pub mod Locks
pub mod Requests
use Prim.Native.Nat.{bit_and}
use os_hw.Base.{
  ℕ, zero, suc, ◌+◌, ◌^◌, Bool, true, false, not, ◌&&◌, ◌||◌, Option, none, some, List, [], ◌∷◌,
  upd, ltb, ◌==◌, if◌then◌else◌,
}
use os_hw.Base.Words.{wrap}
use os_hw.Balance.State.{SmpRq, Smp, SmpEnv, set_smp_rq}
use os_hw.Model.{Env, Task, Runqueue, Kernel, set_task, task_interruptible}
use os_hw.Runqueue.{activate_task, deactivate_task}

-- The locks that double_rq_lock takes, and those that double_rq_unlock gives back, in order.
unfoldable pub double_rq_lock : ℕ → ℕ → List ℕ
double_rq_lock rq1 rq2 =
    if rq1 == rq2 then rq1 ∷ [] else if ltb rq1 rq2 then rq1 ∷ rq2 ∷ [] else rq2 ∷ rq1 ∷ []

unfoldable pub double_rq_unlock : ℕ → ℕ → List ℕ
double_rq_unlock rq1 rq2 = rq1 ∷ (if not (rq1 == rq2) then rq2 ∷ [] else [])

-- The sum of a count over the processors from `i` on.
unfoldable pub sum_cpus : SmpEnv → (SmpRq → ℕ) → ℕ → ℕ → ℕ → Smp → ℕ
sum_cpus env part zero i sum m = sum
sum_cpus env part (suc n) i sum m =
    sum_cpus env part n (suc i) (wrap (sum + part (m.rqs (env.cpu_logical_map i)))) m

unfoldable pub nr_running : SmpEnv → Smp → ℕ
unfolding sum_cpus
nr_running env m = sum_cpus env (λ rq. rq.nr_running) env.smp_num_cpus 0 0 m

unfoldable pub nr_uninterruptible : SmpEnv → Smp → ℕ
unfolding sum_cpus
nr_uninterruptible env m = sum_cpus env (λ rq. rq.nr_uninterruptible) env.smp_num_cpus 0 0 m

unfoldable pub nr_context_switches : SmpEnv → Smp → ℕ
unfolding sum_cpus
nr_context_switches env m = sum_cpus env (λ rq. rq.nr_switches) env.smp_num_cpus 0 0 m

-- resched_task of the processor `this`
unfoldable pub resched_smp_task : ℕ → ℕ → Smp → Smp
resched_smp_task this p m =
    let t = m.kernel.tasks p in
    let flagged = record m { kernel = set_task m.kernel p (record t { need_resched = true }) } in
    if not t.need_resched && not (m.cpu p == this)
    then record flagged { sent = m.cpu p ∷ m.sent }
    else flagged

unfoldable pub kick_if_running : ℕ → ℕ → Smp → Smp
unfolding resched_smp_task
kick_if_running this p m = if p == (m.rqs (m.cpu p)).curr then resched_smp_task this p m else m

-- The part of a runqueue that the build for one processor has.
abbrev pub one_runqueue : SmpRq → Runqueue
one_runqueue rq = record {
  nr_running = rq.nr_running;
  nr_switches = rq.nr_switches;
  expired_timestamp = rq.expired_timestamp;
  nr_uninterruptible = rq.nr_uninterruptible;
  curr = rq.curr;
  idle = rq.idle;
  active = rq.active;
  expired = rq.expired;
  rt_short = rq.rt_short;
  overdue = rq.overdue;
}

-- What the code for one runqueue does to that of the processor `c`.
unfoldable pub on_cpu : ℕ → (Kernel → Kernel) → Smp → Smp
on_cpu c f m =
    let rq = m.rqs c in
    let k = f (record m.kernel { rq = one_runqueue rq }) in
    let counted = record rq {
      nr_running = k.rq.nr_running;
      nr_uninterruptible = k.rq.nr_uninterruptible;
    } in
    set_smp_rq (record m { kernel = k }) c counted

module _ (env : Env) (smp : SmpEnv) where
  -- task_rq_lock, with a bound on its tries
  unfoldable pub task_rq_lock : ℕ → ℕ → Smp → Option (ℕ × Smp)
  task_rq_lock zero p m = none
  task_rq_lock (suc tries) p m =
      let rq = m.cpu p in
      let m' = smp.spin_lock rq m in
      let again = task_rq_lock tries p m' in if m'.cpu p == rq then some (rq, m') else again

  -- wait_task_inactive, with a bound on its tries, which bounds those of task_rq_lock too
  unfoldable pub wait_task_inactive : ℕ → ℕ → Smp → Option Smp
  unfolding task_rq_lock
  wait_task_inactive zero p m = none
  wait_task_inactive (suc tries) p m =
      let relaxed = wait_task_inactive tries p (smp.cpu_relax m) in
      let locked : Option Smp = elim (task_rq_lock (suc tries) p m) as (λ o. Option Smp) [
        | none ↦ none
        | some (rq, m') ↦
            let again = wait_task_inactive tries p m' in
            if (m'.rqs rq).curr == p then again else some m'
      ] in
      if (m.rqs (m.cpu p)).curr == p then relaxed else locked

  -- set_cpus_allowed when the lock is held: the new mask is not empty.
  unfoldable pub allow_cpus : ℕ → ℕ → ℕ → Smp → Smp
  allow_cpus p new_mask rq m =
      let t = m.kernel.tasks p in
      let k = set_task m.kernel p (record t { cpus_allowed = new_mask }) in
      let m1 = record m { kernel = k } in
      let v = m1.rqs rq in
      let asked = set_smp_rq m1 rq (record v { migration_queue = p ∷ v.migration_queue }) in
      if not (bit_and new_mask (2 ^ m1.cpu p) == 0) then m1 else elim t.array as (λ o. Smp) [
        | some a ↦ smp.down p (smp.wake_up_process v.migration_thread asked)
        | none ↦
            if not (p == v.curr)
            then record m1 { cpu = upd m1.cpu p (smp.ffs new_mask) }
            else smp.down p (smp.wake_up_process v.migration_thread asked)
      ]

  -- set_cpus_allowed; `none` is BUG(), or the end of the bound on the tries.
  unfoldable pub set_cpus_allowed : ℕ → ℕ → ℕ → Smp → Option Smp
  unfolding allow_cpus
  set_cpus_allowed tries p mask m =
      let new_mask = bit_and mask smp.cpu_online_map in
      let locked : Option Smp = elim (task_rq_lock tries p m) as (λ o. Option Smp) [
        | none ↦ none
        | some (rq, m') ↦ some (allow_cpus p new_mask rq m')
      ] in
      if new_mask == 0 then none else locked

  -- The change of the runqueue, when both locks are held, by the migration thread of `this`.
  unfoldable pub migrate : ℕ → ℕ → ℕ → ℕ → Smp → Smp
  unfolding on_cpu
  migrate this p cpu_src cpu_dest m =
      let m1 = record m { cpu = upd m.cpu p cpu_dest } in
      let moved = on_cpu cpu_dest (activate_task env p) (on_cpu cpu_src (deactivate_task p) m1) in
      let requeued = elim (m.kernel.tasks p).array as (λ o. Smp) [ none ↦ m1 | some a ↦ moved ] in
      if cpu_src == this then requeued else m

  -- The effects of the waits for locks, in order.
  unfoldable pub take_locks : List ℕ → Smp → Smp
  take_locks [] m = m
  take_locks (c ∷ cs) m = take_locks cs (smp.spin_lock c m)

  -- From the label repeat on, with a bound on its tries.
  unfoldable pub lock_and_migrate : ℕ → ℕ → ℕ → ℕ → Smp → Option Smp
  unfolding migrate take_locks double_rq_lock
  lock_and_migrate zero this p cpu_dest m = none
  lock_and_migrate (suc tries) this p cpu_dest m =
      let cpu_src = m.cpu p in
      let m' = take_locks (double_rq_lock cpu_src cpu_dest) m in
      let again = lock_and_migrate tries this p cpu_dest m' in
      if not (m'.cpu p == cpu_src)
      then again
      else some (smp.up p (migrate this p cpu_src cpu_dest m'))

  -- A pass of migration_thread of the processor `this`, up to its call of schedule if there is no
  -- request.
  unfoldable pub serve_request : ℕ → ℕ → Smp → Option Smp
  unfolding lock_and_migrate
  serve_request tries this m0 =
      let m = smp.spin_lock this m0 in
      let rq = m.rqs this in
      let t = m.kernel.tasks m.kernel.current in
      let k = set_task m.kernel m.kernel.current (record t { state = task_interruptible }) in
      let m1 = record m { kernel = k } in
      elim rq.migration_queue as (λ o. Option Smp) [
        | [] ↦ some m1
        | p ∷ ps ↦
            let m2 = set_smp_rq m1 this (record rq { migration_queue = ps }) in
            lock_and_migrate tries this p (smp.ffs (m2.kernel.tasks p).cpus_allowed) m2
      ]
