-- ===== src/Wait/Invariant.antt =====
-- Waking a wait queue keeps the invariant of the scheduler.
use Prim.Native.Nat.{bit_and}
use os_hw.Base.{
  ℕ, ◌≡◌, ◌≢◌, refl, ◌&&◌, ◌==◌, if◌then◌else◌, List, [], ◌∷◌, arith, if_split, not, none,
  Option-cases, inl, inr, ◌∙◌, Bool,
}
use os_hw.Base.Words.{dec}
use os_hw.Model.{Env, Kernel, set_rq}
use os_hw.Prio.{pointer_to_my_active_prio_array}
use os_hw.Queue.Effects.{rq-enqueue_tail}
use os_hw.Runqueue.{activate_task, reward_sleep, wake_sleeper, resched_task, try_to_wake_up}
use os_hw.Runqueue.Invariant.{reward_sleep-IsRewarded, try_to_wake_up-IsValid}
use os_hw.Valid.{IsValid}
use os_hw.Valid.Moves.{enqueue_task_tail, restamp}
use os_hw.Valid.Parts.{IsSound-off}
use os_hw.Wait.{Waiter, wake_waiter, wake_up_common}

-- The idle task waits for nothing.
unfoldable pub Awaited : ℕ → List Waiter → Type 0
Awaited idle [] = idle ≡ idle
Awaited idle (w ∷ ws) = (w.task ≢ idle) × Awaited idle ws

module _ (env : Env) where
  idle-activate_task :
      (p : ℕ) (k : Kernel)
      → IsValid k
      → (k.tasks p).array ≡ none
      → p ≢ k.rq.idle
      → (activate_task env p k).rq.idle ≡ k.rq.idle
  unfolding activate_task
  idle-activate_task p k v off ne =
      let a = pointer_to_my_active_prio_array (k.tasks p) k.rq in
      let k1 = reward_sleep env p k in
      let r = reward_sleep-IsRewarded env p k (IsSound-off p v.sound off) ne in
      rw (enqueue_task_tail p a k1 r.sound, rq-enqueue_tail p a k1, r.rq) refl

  idle-wake_sleeper :
      (p : ℕ) (k : Kernel)
      → IsValid k
      → (k.tasks p).array ≡ none
      → p ≢ k.rq.idle
      → (wake_sleeper env p k).rq.idle ≡ k.rq.idle
  unfolding wake_sleeper resched_task
  idle-wake_sleeper p k v off ne =
      let rq = record (k.rq) { nr_uninterruptible = dec k.rq.nr_uninterruptible } in
      ground (
        arith,
        idle-activate_task p k v off ne,
        idle-activate_task p (set_rq k rq) (restamp rq v (ground arith) refl) off ne,
      )

  idle-try_to_wake_up :
      (p : ℕ) (k : Kernel)
      → IsValid k
      → p ≢ k.rq.idle
      → (try_to_wake_up env p k).0.rq.idle ≡ k.rq.idle
  unfolding try_to_wake_up
  idle-try_to_wake_up p k v ne = elim (Option-cases (k.tasks p).array) [
    | inl off ↦ rw (off, try_to_wake_up) (idle-wake_sleeper p k v off ne)
    | inr (a, on) ↦ rw (on, try_to_wake_up) refl
  ]

  -- The state is valid, and its idle task is this one.
  abbrev Keeps : ℕ → Kernel → Type 0
  Keeps idle k = IsValid k × (k.rq.idle ≡ idle)

  wake_waiter-Keeps :
      (mode idle : ℕ) (w : Waiter) (k : Kernel)
      → Keeps idle k
      → w.task ≢ idle
      → Keeps idle (wake_waiter env mode w k).0
  unfolding wake_waiter
  wake_waiter-Keeps mode idle w k (v, same) ne =
      let ne' : w.task ≢ k.rq.idle = rw same ne in
      if_split {A = Kernel × Bool} (λ r. Keeps idle r.0)
        (not (bit_and (k.tasks w.task).state mode == 0)) _ _
        (λ _. (
          (try_to_wake_up-IsValid env w.task k v ne').0,
          idle-try_to_wake_up w.task k v ne' ∙ same,
        ))
        (λ _. (v, same))

  wake_up_common-Keeps :
      (ws : List Waiter) (mode nr_exclusive idle : ℕ) (k : Kernel)
      → Keeps idle k
      → Awaited idle ws
      → Keeps idle (wake_up_common env ws mode nr_exclusive k)
  unfolding wake_up_common Awaited
  wake_up_common-Keeps [] mode n idle k h others = h
  wake_up_common-Keeps (w ∷ ws) mode n idle k h (ne, others) =
      let r = wake_waiter env mode w k in
      let counted = r.1 && w.exclusive in
      let left = if counted then dec n else n in
      let h1 = wake_waiter-Keeps mode idle w k h ne in
      if_split (Keeps idle) (counted && (left == 0)) _ _ (λ _. h1)
        λ _. wake_up_common-Keeps ws mode left idle r.0 h1 others

  -- __wake_up_common leads from a valid state to a valid state, whatever the mode and the number
  -- of exclusive waiters, if the idle task is none of those that wait.
  pub wake_up_common-IsValid :
      (ws : List Waiter) (mode nr_exclusive : ℕ) (k : Kernel)
      → IsValid k
      → Awaited k.rq.idle ws
      → IsValid (wake_up_common env ws mode nr_exclusive k)
  wake_up_common-IsValid ws mode n k v others =
      (wake_up_common-Keeps ws mode n k.rq.idle k (v, refl) others).0
