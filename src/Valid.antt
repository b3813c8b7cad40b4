-- ===== src/Valid.antt =====
-- The invariant of the whole scheduler between two of its steps, over the state of Model.antt.
pub mod Moves
pub mod Parts
use os_hw.Base.{
  ℕ, ◌+◌, ◌≤◌, ◌<◌, ◌≡◌, ◌==◌, ◌≢◌, ◌⊎◌, Bool, true, false, Option, none, some, points_to,
}
use os_hw.Base.Words.{wrap}
use os_hw.Model.{Task, Runqueue, Kernel, max_prio, sched_short}
use os_hw.Prio.{overdue_task, pointer_to_my_active_prio_array}
use os_hw.Prio.Bounds.{IsTimeshare}
use os_hw.Queue.Sync.{InSync}
use os_hw.Queue.Frame.{load}

-- The array that a task of this kind belongs on: that of its class, or `expired` for `active`.
abbrev pub IsHome : Runqueue → Task → ℕ → Type 0
IsHome rq t a =
    (a ≡ pointer_to_my_active_prio_array t rq)
    ⊎ ((a ≡ rq.expired) × (pointer_to_my_active_prio_array t rq ≡ rq.active))

-- What holds of the fields of every task.
pub record IsTask (t : Task) : Type 0 where
  pub static : IsTimeshare t.static_prio
  pub saved : overdue_task t ≡ true → IsTimeshare t.overdue_static_prio
  pub flag : t.i_am_overdue ≤ 1
  pub settled : (t.policy == sched_short) ≡ false → t.i_am_overdue ≡ 0
  pub calm : t.just_got_forked ≡ false

-- The four pointers of the runqueue are those of its four arrays.
pub record HasArrays (rq : Runqueue) : Type 0 where
  pub timeshare : (rq.active ≡ 0) × (rq.expired ≡ 1) ⊎ (rq.active ≡ 1) × (rq.expired ≡ 0)
  pub rt_short : rq.rt_short ≡ 2
  pub overdue : rq.overdue ≡ 3

-- All but the count of the running tasks; `off` is a task that is just being moved.
pub record IsSound (off : Option ℕ) (k : Kernel) : Type 0 where
  pub sync : InSync off k
  pub homed :
      (q a : ℕ) → points_to off q ≡ false → (k.tasks q).array ≡ some a → IsHome k.rq (k.tasks q) a
  pub each : (q : ℕ) → IsTask (k.tasks q)
  pub queueable : (q : ℕ) → q ≢ k.rq.idle → (k.tasks q).prio < max_prio
  pub arrays : HasArrays k.rq
  pub curr : k.rq.curr ≡ k.current
  pub idle : (k.tasks k.rq.idle).array ≡ none

pub record IsValid (k : Kernel) : Type 0 where
  pub sound : IsSound none k
  pub running : k.rq.nr_running ≡ wrap (load k)
