-- ===== src/Yield.antt =====
-- sys_sched_yield of sharedFolderHW2/sched.c.
pub mod Reordered
pub mod Invariant
pub mod Ending
use os_hw.Base.{ℕ, ◌||◌, Option, none, some, List, [], ◌∷◌, leb, ◌==◌, if◌then◌else◌, upd}
use os_hw.Model.{Env, Kernel, max_prio, set_task, set_array}
use os_hw.Prio.{rt_task}
use os_hw.Queue.{list_del, list_add_tail, list_empty, set_bit, clear_bit}
use os_hw.Schedule.{schedule}

-- list_add(&p->run_list, queue->next): behind the first task, or alone on an empty list.
unfoldable pub behind_first : ℕ → List ℕ → List ℕ
behind_first p [] = p ∷ []
behind_first p (q ∷ qs) = q ∷ p ∷ qs

unfoldable pub add_behind_first : ℕ → ℕ → ℕ → Kernel → Kernel
unfolding behind_first
add_behind_first p a prio k =
    let v = k.arrays a in
    set_array k a (record v { queue = upd v.queue prio (behind_first p (v.queue prio)) })

module _ (env : Env) where
  -- The task was alone on its list: it goes behind the first task of the next list.
  unfoldable pub yield_alone : ℕ → ℕ → Kernel → Kernel
  unfolding clear_bit set_bit add_behind_first
  yield_alone p a k =
      let t = k.tasks p in
      let k' = clear_bit t.prio a k in
      let next = env.sched_find_first_bit (k'.arrays a).bitmap in
      let stays = (next == max_prio) || leb next t.prio in
      let i = if stays then t.prio else next in
      let k'' = if stays then k' else set_task k' p (record t { prio = next }) in
      set_bit i a (add_behind_first p a i k'')

  -- What sys_sched_yield does to the array of the running task.
  unfoldable pub yield_on : ℕ → ℕ → Kernel → Kernel
  unfolding rt_task list_del list_add_tail list_empty add_behind_first yield_alone
  yield_on p a k =
      let t = k.tasks p in
      let k' = list_del p k in
      if rt_task t
      then list_add_tail p a t.prio k'
      else if list_empty a t.prio k'
      then yield_alone p a k'
      else add_behind_first p a t.prio k'

  -- sys_sched_yield with a bound on the passes of schedule; `none` is as for schedule, or a running
  -- task that is on no array.
  unfoldable pub sys_sched_yield : ℕ → Kernel → Option Kernel
  unfolding yield_on schedule
  sys_sched_yield passes k = elim (k.tasks k.current).array [
    | none ↦ none
    | some a ↦ schedule env passes (yield_on k.current a k)
  ]
