-- ===== src/Migration/Activation.antt =====
-- What deactivate_task and activate_task of sharedFolderHW2/sched.c do to a task and to the lists.
use mathlib.Core.Path.{subst}
use os_hw.Base.{
  ℕ, zero, suc, ◌≡◌, refl, sym, ap, ◌∙◌, ◌&&◌, false, [], ◌∷◌, ◌++◌, remove, Option, none, some,
  upd, ◌==◌, if◌then◌else◌, arith, if_split,
}
use os_hw.Base.Words.{inc, dec}
use os_hw.Model.{Env, Task, Runqueue, Kernel, task_uninterruptible}
use os_hw.Prio.{pointer_to_my_active_prio_array}
use os_hw.Queue.{
  dequeue_task, enqueue_depth, enqueue_task, enqueue_tail, link_array, list_add, clear_forked,
}
use os_hw.Queue.Effects.{
  rq-dequeue, rq-enqueue_tail, tasks-enqueue_tail, tasks-dequeue, current-dequeue, queue-dequeue,
  queue-enqueue_tail,
}
use os_hw.Queue.Frame.{fork_pending_not, enqueue_task_plain}
use os_hw.Runqueue.{dequeue_own, deactivate_task, reward_sleep, activate_task, rewarded}

rq-enqueue_depth : (depth p a : ℕ) (k : Kernel) → (enqueue_depth depth p a k).rq ≡ k.rq
unfolding enqueue_depth
rq-enqueue_depth zero p a k = rq-enqueue_tail p a k
rq-enqueue_depth (suc depth) p a k =
    let parent = (k.tasks p).p_opptr in
    let k1 = dequeue_task parent a (clear_forked parent k) in
    if_split (λ (z : Kernel). z.rq ≡ k.rq) _ _ _
      (λ b.
        unfold link_array list_add in
        rq-enqueue_depth depth parent a k1
        ∙ rq-dequeue parent a (clear_forked parent k)
        ∙ unfold clear_forked in refl)
      (λ b. rq-enqueue_tail p a k)

reward_sleep-rq : (env : Env) (p : ℕ) (k : Kernel) → (reward_sleep env p k).rq ≡ k.rq
unfolding reward_sleep
reward_sleep-rq env p k = if_split (λ (z : Kernel). z.rq ≡ k.rq) _ _ _ (λ b. refl) (λ b. refl)

dequeue_own-rq : (p : ℕ) (a : Option ℕ) (k : Kernel) → (dequeue_own p a k).rq ≡ k.rq
dequeue_own-rq p none k = refl
dequeue_own-rq p (some a) k = rq-dequeue p a k

dequeue_own-tasks : (p : ℕ) (a : Option ℕ) (k : Kernel) → (dequeue_own p a k).tasks ≡ k.tasks
dequeue_own-tasks p none k = refl
dequeue_own-tasks p (some a) k = tasks-dequeue p a k

dequeue_own-current : (p : ℕ) (a : Option ℕ) (k : Kernel) → (dequeue_own p a k).current ≡ k.current
dequeue_own-current p none k = refl
dequeue_own-current p (some a) k = current-dequeue p a k

pub tasks-deactivate_task :
    (p : ℕ) (k : Kernel)
    → (deactivate_task p k).tasks ≡ upd k.tasks p (record (k.tasks p) { array = none })
unfolding deactivate_task
tasks-deactivate_task p k =
    ap (λ (f : ℕ → Task). upd f p (record (f p) { array = none }))
      (dequeue_own-tasks p (k.tasks p).array _)

pub current-deactivate_task : (p : ℕ) (k : Kernel) → (deactivate_task p k).current ≡ k.current
unfolding deactivate_task
current-deactivate_task p k = dequeue_own-current p (k.tasks p).array _

-- A task on an array leaves its list.
pub queue-deactivate_task :
    (p a : ℕ) (k : Kernel)
    → (k.tasks p).array ≡ some a
    → (b i : ℕ) → ((deactivate_task p k).arrays b).queue i ≡ remove p ((k.arrays b).queue i)
unfolding deactivate_task
queue-deactivate_task p a k on b i =
    let t = k.tasks p in
    let waiting = k.rq.nr_uninterruptible in
    let left : Kernel = record k {
      rq = record k.rq {
        nr_running = dec k.rq.nr_running;
        nr_uninterruptible = if t.state == task_uninterruptible then inc waiting else waiting;
      };
    } in
    ap (λ o. ((dequeue_own p o left).arrays b).queue i) on ∙ queue-dequeue p a left b i

-- The runqueue has a task less.
pub nr_running-deactivate_task :
    (p : ℕ) (k : Kernel) → (deactivate_task p k).rq.nr_running ≡ dec k.rq.nr_running
unfolding deactivate_task
nr_running-deactivate_task p k =
    ap (λ (rq : Runqueue). rq.nr_running) (dequeue_own-rq p (k.tasks p).array _)

module _ (env : Env) where
  -- The runqueue has a task more, and the task is on one of its arrays.
  pub nr_running-activate_task :
      (p : ℕ) (k : Kernel) → (activate_task env p k).rq.nr_running ≡ inc k.rq.nr_running
  unfolding activate_task enqueue_task
  nr_running-activate_task p k =
      ap (λ (rq : Runqueue). inc rq.nr_running)
        (rq-enqueue_depth _ p _ (reward_sleep env p k) ∙ reward_sleep-rq env p k)

  reward_sleep-arrays : (p : ℕ) (k : Kernel) → (reward_sleep env p k).arrays ≡ k.arrays
  unfolding reward_sleep
  reward_sleep-arrays p k =
      if_split (λ (z : Kernel). z.arrays ≡ k.arrays) _ _ _ (λ b. refl) (λ b. refl)

  reward_sleep-current : (p : ℕ) (k : Kernel) → (reward_sleep env p k).current ≡ k.current
  unfolding reward_sleep
  reward_sleep-current p k =
      if_split (λ (z : Kernel). z.current ≡ k.current) _ _ _ (λ b. refl) (λ b. refl)

  reward_sleep-flag :
      (p q : ℕ) (k : Kernel)
      → ((reward_sleep env p k).tasks q).just_got_forked ≡ (k.tasks q).just_got_forked
  unfolding reward_sleep rewarded
  reward_sleep-flag p q k = ground arith

  -- Without a fork, activate_task puts the task at the end of a list.
  activate_task_plain :
      (p : ℕ) (k : Kernel)
      → (k.tasks k.current).just_got_forked ≡ false
      → let a = pointer_to_my_active_prio_array (k.tasks p) k.rq in
        let tail = enqueue_tail p a (reward_sleep env p k) in
        activate_task env p k
        ≡ record tail { rq = record tail.rq { nr_running = inc tail.rq.nr_running } }
  unfolding activate_task
  activate_task_plain p k calm =
      let z = reward_sleep env p k in
      let a = pointer_to_my_active_prio_array (k.tasks p) k.rq in
      let calm' : (z.tasks z.current).just_got_forked ≡ false =
        ap (λ q. (z.tasks q).just_got_forked) (reward_sleep-current p k)
        ∙ reward_sleep-flag p k.current k
        ∙ calm in
      ap (λ (x : Kernel). record x { rq = record x.rq { nr_running = inc x.rq.nr_running } })
        (enqueue_task_plain p a z (fork_pending_not p z calm'))

  -- Where activate_task puts the task.
  abbrev pub IsActivated : ℕ → Kernel → Kernel → Type 0
  IsActivated p k k' =
      let a = pointer_to_my_active_prio_array (k.tasks p) k.rq in
      ((k'.tasks p).array ≡ some a)
      × ((b i : ℕ)
          → (k'.arrays b).queue i ≡ (
              if a == b && (k'.tasks p).prio == i
              then (k.arrays b).queue i ++ p ∷ []
              else (k.arrays b).queue i))

  pub activate_task-IsActivated :
      (p : ℕ) (k : Kernel)
      → (k.tasks k.current).just_got_forked ≡ false
      → IsActivated p k (activate_task env p k)
  activate_task-IsActivated p k calm =
      let z = reward_sleep env p k in
      let a = pointer_to_my_active_prio_array (k.tasks p) k.rq in
      let mine = tasks-enqueue_tail p a z p in
      let arrays = reward_sleep-arrays p k in
      subst (IsActivated p k) (sym (activate_task_plain p k calm))
        (ground (arith, mine), λ b i. ground (arith, mine, arrays, queue-enqueue_tail p a z b i))
