-- ===== src/Machine/Invariant.antt =====
-- The invariant holds in every state that can be reached.
use os_hw.Base.{◌≡◌, refl, arith}
use mathlib.Core.Path.{subst}
use os_hw.Boot.Valid.{init_idle-sched_init-IsValid}
use os_hw.Machine.{Step, Reach}
use os_hw.Model.{Env, Kernel}
use os_hw.Nice.Outcome.{set_user_nice-IsValid}
use os_hw.Runqueue.Invariant.{try_to_wake_up-IsValid}
use os_hw.Schedule.Invariant.{schedule_pass-IsValid}
use os_hw.SetScheduler.Invariant.{setscheduler-IsValid}
use os_hw.Tick.Invariant.{scheduler_tick-IsValid}
use os_hw.Valid.{IsValid}
use os_hw.Valid.Moves.{keep, cong}
use os_hw.Wait.Invariant.{wake_up_common-IsValid}
use os_hw.Yield.Invariant.{yield_on-IsValid}

Step-IsValid : (env : Env) (k k' : Kernel) → Step env k k' → IsValid k → IsValid k'
Step-IsValid env _ _ (Step.clock k now) v =
    cong k (record k { jiffies = now }) v refl refl refl refl
Step-IsValid env _ _ (Step.tick k busy user_tick system a runs) v =
    scheduler_tick-IsValid env busy user_tick system a k v runs
Step-IsValid env _ _ (Step.set_state k state) v = keep k.current _ v (ground arith)
Step-IsValid env _ _ (Step.pass k k' can fits e) v =
    let (k'', e', v') = schedule_pass-IsValid env k v can fits in
    let same : k'' ≡ k' = cc in subst IsValid same v'
Step-IsValid env _ _ (Step.yield k a on) v = yield_on-IsValid k.current a k v on env
Step-IsValid env _ _ (Step.wake k p ne) v = (try_to_wake_up-IsValid env p k v ne).0
Step-IsValid env _ _ (Step.wake_all k ws mode n others) v =
    wake_up_common-IsValid env ws mode n k v others
Step-IsValid env _ _ (Step.set_policy k pid policy param ne) v =
    setscheduler-IsValid env pid policy param k v ne
Step-IsValid env _ _ (Step.set_nice k p nice ne) v = set_user_nice-IsValid p nice k v ne

-- Every state that can be reached is valid: from the state that sched_init and init_idle leave of
-- a memory in which nothing is queued, by any sequence of ticks, changes of the clock and of the
-- state of the running task, passes of schedule while the running task is in state TASK_RUNNING or
-- on an array and no array holds 2 ^ 32 tasks, yields of a task on an array, and wake-ups, changes
-- of policy and changes of niceness of tasks other than the idle task. A tick comes while the idle
-- task runs or the running task is on an array.
pub Reach-IsValid : (env : Env) (k : Kernel) → Reach env k → IsValid k
Reach-IsValid env _ (Reach.start k b) = init_idle-sched_init-IsValid env k b
Reach-IsValid env _ (Reach.then_step k k' r s) = Step-IsValid env k k' s (Reach-IsValid env k r)
