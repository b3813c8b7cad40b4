-- ===== src/Wait/Sleep.antt =====
-- Tasks that sleep on a wait queue: wait_for_completion to sleep_on_timeout of sharedFolderHW2/sched.c,
-- and add_wait_queue to remove_wait_queue of sharedFolderHW2/fork.c. The functions of wait.h are
-- parameters, and so is what happens from a call of schedule to its return, others' work included.
use os_hw.Base.{
  ℕ, zero, suc, ◌<◌, ◌≡◌, ◌≢◌, ap, true, false, Option, none, some, ◌==◌, if◌then◌else◌, arith,
  if_split,
}
use os_hw.Base.Int.{ℤ}
use os_hw.Base.Words.{dec}
use os_hw.Model.{Kernel, set_task, task_interruptible, task_uninterruptible}
use os_hw.Wait.{Waiter}

-- The machine with a wait queue, and with the field done of the completion that it is part of.
pub record Waiting (Q : Type 0) : Type 0 where
  pub kernel : Kernel
  pub queue : Q
  pub done : ℕ

pub record WaitEnv (Q : Type 0) : Type 0 where
  -- __add_wait_queue, __add_wait_queue_tail and __remove_wait_queue
  pub add : Waiter → Q → Q
  pub add_tail : Waiter → Q → Q
  pub remove : Waiter → Q → Q
  pub schedule : Waiting Q → Waiting Q
  pub schedule_timeout : ℤ → Waiting Q → Waiting Q × ℤ

-- current->state = state
abbrev pub set_state : {Q : Type 0} → ℕ → Waiting Q → Waiting Q
set_state state w =
    let k = w.kernel in
    let t = k.tasks k.current in
    record w { kernel = set_task k k.current (record t { state = state }) }

module _ {Q : Type 0} (env : WaitEnv Q) where
  unfoldable pub add_wait_queue : Waiter → Q → Q
  add_wait_queue wait q = env.add (record wait { exclusive = false }) q

  unfoldable pub add_wait_queue_exclusive : Waiter → Q → Q
  add_wait_queue_exclusive wait q = env.add_tail (record wait { exclusive = true }) q

  unfoldable pub remove_wait_queue : Waiter → Q → Q
  remove_wait_queue wait q = env.remove wait q

  -- A run of the loop of wait_for_completion.
  unfoldable pub sleep_once : Waiting Q → Waiting Q
  sleep_once w = env.schedule (set_state task_uninterruptible w)

  -- The loop, with a bound on its runs.
  unfoldable pub sleep_until_done : ℕ → Waiting Q → Option (Waiting Q)
  unfolding sleep_once
  sleep_until_done zero w = none
  sleep_until_done (suc runs) w =
      let w' = sleep_once w in
      let rest = sleep_until_done runs w' in if w'.done == 0 then rest else some w'

  unfoldable pub wait_for_completion : ℕ → Waiting Q → Option (Waiting Q)
  unfolding sleep_until_done
  wait_for_completion runs w =
      let wait : Waiter = record { task = w.kernel.current; exclusive = true } in
      let slept : Option (Waiting Q) =
        elim (sleep_until_done runs (record w { queue = env.add_tail wait w.queue }))
          as (λ o. Option (Waiting Q)) [
            | none ↦ none
            | some w' ↦ some (record w' { queue = env.remove wait w'.queue; done = dec w'.done })
          ] in
      if w.done == 0 then slept else some (record w { done = dec w.done })

  -- SLEEP_ON_VAR; the waiter is not exclusive.
  unfoldable pub sleeper : Waiting Q → Waiter
  sleeper w = record { task = w.kernel.current; exclusive = false }

  -- SLEEP_ON_HEAD and SLEEP_ON_TAIL
  unfoldable pub sleep_on_head : Waiter → Waiting Q → Waiting Q
  sleep_on_head wait w = record w { queue = env.add wait w.queue }

  unfoldable pub sleep_on_tail : Waiter → Waiting Q → Waiting Q
  sleep_on_tail wait w = record w { queue = env.remove wait w.queue }

  unfoldable pub interruptible_sleep_on : Waiting Q → Waiting Q
  unfolding sleeper sleep_on_head sleep_on_tail
  interruptible_sleep_on w =
      let wait = sleeper w in
      sleep_on_tail wait (env.schedule (sleep_on_head wait (set_state task_interruptible w)))

  unfoldable pub interruptible_sleep_on_timeout : ℤ → Waiting Q → Waiting Q × ℤ
  unfolding sleeper sleep_on_head sleep_on_tail
  interruptible_sleep_on_timeout timeout w =
      let wait = sleeper w in
      let (w', left) =
        env.schedule_timeout timeout (sleep_on_head wait (set_state task_interruptible w)) in
      (sleep_on_tail wait w', left)

  unfoldable pub sleep_on : Waiting Q → Waiting Q
  unfolding sleeper sleep_on_head sleep_on_tail
  sleep_on w =
      let wait = sleeper w in
      sleep_on_tail wait (env.schedule (sleep_on_head wait (set_state task_uninterruptible w)))

  unfoldable pub sleep_on_timeout : ℤ → Waiting Q → Waiting Q × ℤ
  unfolding sleeper sleep_on_head sleep_on_tail
  sleep_on_timeout timeout w =
      let wait = sleeper w in
      let (w', left) =
        env.schedule_timeout timeout (sleep_on_head wait (set_state task_uninterruptible w)) in
      (sleep_on_tail wait w', left)

  -- The state after so many runs of the loop.
  unfoldable pub slept : ℕ → Waiting Q → Waiting Q
  slept zero w = w
  slept (suc n) w = slept n (sleep_once w)

  sleep_until_done_lem :
      (n runs : ℕ) (w : Waiting Q)
      → n < runs
      → ((i : ℕ) → i < n → (slept (suc i) w).done ≡ 0)
      → (slept (suc n) w).done ≢ 0
      → sleep_until_done runs w ≡ some (slept (suc n) w)
  unfolding sleep_until_done slept
  sleep_until_done_lem n zero w h before last = ground (arith, h)
  sleep_until_done_lem zero (suc runs) w h before last = ground (arith, last)
  sleep_until_done_lem (suc n) (suc runs) w h before last =
      let first : (sleep_once w).done ≡ 0 = before 0 (ground arith) in
      if_split (λ (o : Option (Waiting Q)). o ≡ some (slept n (sleep_once (sleep_once w))))
        ((sleep_once w).done == 0) _ _
        (λ b.
          sleep_until_done_lem n runs (sleep_once w) (ground (arith, h))
            (λ i l. before (suc i) (ground (arith, l))) last)
        (λ b. ground (arith, b, first))

  -- The exclusive waiter of wait_for_completion, and the state with it on the queue.
  abbrev pub awaiter : Waiting Q → Waiter
  awaiter w = record { task = w.kernel.current; exclusive = true }

  abbrev pub queued : Waiting Q → Waiting Q
  queued w = record w { queue = env.add_tail (awaiter w) w.queue }

  -- wait_for_completion of a completion that is not done ends with the first sleep after which it
  -- is, if the bound on the sleeps is as large, in the state after that sleep with the waiter
  -- taken off the queue and done one less.
  pub wait_for_completion_lem :
      (n runs : ℕ) (w : Waiting Q)
      → w.done ≡ 0
      → n < runs
      → ((i : ℕ) → i < n → (slept (suc i) (queued w)).done ≡ 0)
      → (slept (suc n) (queued w)).done ≢ 0
      → let last = slept (suc n) (queued w) in
        wait_for_completion runs w
        ≡ some (record last { queue = env.remove (awaiter w) last.queue; done = dec last.done })
  unfolding wait_for_completion
  wait_for_completion_lem n runs w idle h before last =
      let end = slept (suc n) (queued w) in
      let P : Option (Waiting Q) → Type 0 = λ o.
        o ≡ some (record end { queue = env.remove (awaiter w) end.queue; done = dec end.done }) in
      if_split P (w.done == 0) _ _
        (λ b.
          ap
            (λ (o : Option (Waiting Q)). elim o as (λ o. Option (Waiting Q)) [
              | none ↦ none
              | some w' ↦
                  some (record w' { queue = env.remove (awaiter w) w'.queue; done = dec w'.done })
            ])
            (sleep_until_done_lem n runs (queued w) h before last))
        (λ b. ground (arith, b, idle))
