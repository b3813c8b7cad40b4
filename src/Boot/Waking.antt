-- ===== src/Boot/Waking.antt =====
-- Waking a task and taking it off its array do not depend on which task is the idle one.
use os_hw.Base.{
  ℕ, ◌≡◌, refl, sym, ap, false, not, ◌&&◌, none, some, arith, ltb, ◌==◌, if◌then◌else◌, Bool-cases,
  inl, inr, ◌∙◌,
}
use os_hw.Base.Words.{sub, dec}
use os_hw.Model.{Env, Kernel, task_uninterruptible, set_rq}
use os_hw.Prio.{rt_task, pointer_to_my_active_prio_array}
use os_hw.Queue.{fork_pending, enqueue_task, enqueue_tail}
use os_hw.Queue.Effects.{current-enqueue_tail}
use os_hw.Queue.Frame.{enqueue_task_plain, fork_pending_not}
use os_hw.Runqueue.{
  reward_sleep, rewarded, activate_task, wake_sleeper, try_to_wake_up, resched_task,
  deactivate_task,
}
use os_hw.Runqueue.Invariant.{deactivate_on, dequeue-set_rq}

abbrev pub with_idle : ℕ → Kernel → Kernel
with_idle i k = let rq = k.rq in set_rq k (record rq { idle = i })

enqueue_task-with_idle :
    (p a i : ℕ) (k : Kernel)
    → fork_pending p k ≡ false
    → enqueue_task p a (with_idle i k) ≡ with_idle i (enqueue_task p a k)
unfolding enqueue_tail fork_pending
enqueue_task-with_idle p a i k e =
    enqueue_task_plain p a (with_idle i k) e ∙ ap (with_idle i) (sym (enqueue_task_plain p a k e))

module _ (env : Env) where
  reward_sleep-with_idle :
      (p i : ℕ) (k : Kernel)
      → reward_sleep env p (with_idle i k) ≡ with_idle i (reward_sleep env p k)
  unfolding reward_sleep
  reward_sleep-with_idle p i k =
      elim (Bool-cases
        (not (rt_task (k.tasks p)) && not (sub k.jiffies (k.tasks p).sleep_timestamp == 0))) [
          | inl e ↦ rw e refl
          | inr e ↦ rw e refl
        ]

  reward_sleep_still :
      (p q : ℕ) (k : Kernel)
      → ((reward_sleep env p k).tasks q).just_got_forked ≡ (k.tasks q).just_got_forked
  unfolding reward_sleep rewarded
  reward_sleep_still p q k = ground arith

  reward_sleep_current : (p : ℕ) (k : Kernel) → (reward_sleep env p k).current ≡ k.current
  unfolding reward_sleep
  reward_sleep_current p k = ground arith

  reward_sleep_calm :
      (p : ℕ) (k : Kernel)
      → (k.tasks k.current).just_got_forked ≡ false
      → fork_pending p (reward_sleep env p k) ≡ false
  reward_sleep_calm p k e =
      fork_pending_not p (reward_sleep env p k)
        (rw (reward_sleep_current p k) (reward_sleep_still p k.current k ∙ e))

  activate_task-with_idle :
      (p i : ℕ) (k : Kernel)
      → (k.tasks k.current).just_got_forked ≡ false
      → activate_task env p (with_idle i k) ≡ with_idle i (activate_task env p k)
  unfolding activate_task pointer_to_my_active_prio_array
  activate_task-with_idle p i k e =
      let a = pointer_to_my_active_prio_array (k.tasks p) k.rq in
      let k1 = reward_sleep env p k in
      rw (reward_sleep-with_idle p i k, enqueue_task-with_idle p a i k1 (reward_sleep_calm p k e))
        refl

  wake_sleeper-with_idle :
      (p i : ℕ) (k : Kernel)
      → (k.tasks k.current).just_got_forked ≡ false
      → wake_sleeper env p (with_idle i k) ≡ with_idle i (wake_sleeper env p k)
  unfolding wake_sleeper resched_task
  wake_sleeper-with_idle p i k e = elim (Bool-cases ((k.tasks p).state == task_uninterruptible)) [
    | inl sleeping ↦
        let rq = k.rq in
        let k1 = set_rq k (record rq { nr_uninterruptible = dec rq.nr_uninterruptible }) in
        rw (sleeping, activate_task-with_idle p i k1 e) (flagged (activate_task env p k1))
    | inr other ↦ rw (other, activate_task-with_idle p i k e) (flagged (activate_task env p k))
  ]
    where
      flag : Kernel → Kernel
      flag k' =
          if ltb (k'.tasks p).prio (k'.tasks k'.rq.curr).prio
          then resched_task k'.rq.curr k'
          else k'

      flagged : (k' : Kernel) → flag (with_idle i k') ≡ with_idle i (flag k')
      flagged k' = elim (Bool-cases (ltb (k'.tasks p).prio (k'.tasks k'.rq.curr).prio)) [
        | inl t ↦ rw t refl
        | inr f ↦ rw f refl
      ]

  pub try_to_wake_up-with_idle :
      (p i : ℕ) (k : Kernel)
      → (k.tasks k.current).just_got_forked ≡ false
      → (k.tasks p).array ≡ none
      → (try_to_wake_up env p (with_idle i k)).0 ≡ with_idle i (try_to_wake_up env p k).0
  unfolding try_to_wake_up
  try_to_wake_up-with_idle p i k e off =
      rw (off, try_to_wake_up, wake_sleeper-with_idle p i k e) refl

module _ (env : Env) where
  current-activate_task :
      (p : ℕ) (k : Kernel)
      → (k.tasks k.current).just_got_forked ≡ false
      → (activate_task env p k).current ≡ k.current
  unfolding activate_task
  current-activate_task p k e =
      let a = pointer_to_my_active_prio_array (k.tasks p) k.rq in
      let k1 = reward_sleep env p k in
      rw
        (
          enqueue_task_plain p a k1 (reward_sleep_calm env p k e),
          current-enqueue_tail p a k1,
          reward_sleep_current env p k,
        )
        refl

  pub current-try_to_wake_up :
      (p : ℕ) (k : Kernel)
      → (k.tasks k.current).just_got_forked ≡ false
      → (try_to_wake_up env p k).0.current ≡ k.current
  unfolding try_to_wake_up wake_sleeper resched_task
  current-try_to_wake_up p k e =
      let rq = k.rq in
      let k1 = set_rq k (record rq { nr_uninterruptible = dec rq.nr_uninterruptible }) in
      ground (arith, current-activate_task p k e, current-activate_task p k1 e)

pub deactivate_task-with_idle :
    (p a i : ℕ) (k : Kernel)
    → (k.tasks p).array ≡ some a
    → deactivate_task p (with_idle i k) ≡ with_idle i (deactivate_task p k)
deactivate_task-with_idle p a i k here =
    let rq = k.rq in
    rw
      (
        deactivate_on p a (with_idle i k) here,
        deactivate_on p a k here,
        dequeue-set_rq p a k (record rq { idle = i }),
      )
      refl
