-- ===== src/SetScheduler/Short.antt =====
-- How a task becomes SHORT, and how a SHORT task asks for more time.
use os_hw.Base.{
  ℕ, ◌*◌, ◌/◌, ◌≤◌, ◌<◌, ◌≡◌, ◌≢◌, refl, ap, Bool, true, false, not, ◌&&◌, ◌||◌, leb, Option, none,
  some, arith, ◌==◌, if◌then◌else◌, ==_refl, Option-cases, inl, inr, ◌⊎◌,
}
use os_hw.Base.Int.{ℤ, pos}
use os_hw.Base.Words.{word_size}
use os_hw.Model.{
  Env, Task, Kernel, SchedParam, good, value, fail, einval, eperm, sched_short, sched_other,
  set_task,
}
use os_hw.Prio.{short_task, pointer_to_my_active_prio_array}
use os_hw.Prio.Bounds.{change_ms_to_jiffis_exact}
use os_hw.Pid.{find_process_by_pid}
use os_hw.Queue.Effects.{tasks_upd-enqueue_tail}
use os_hw.Runqueue.{deactivate_task, activate_task, resched_task, reward_sleep, rewarded}
use os_hw.Runqueue.Invariant.{reward_sleep-IsRewarded, deactivate_task-IsValid}
use os_hw.SetScheduler.{
  off_and_on, make_short, change_to_short, change_policy, checked_policy, valid_request,
  setscheduler,
}
use os_hw.SetScheduler.Invariant.{make_short-IsFit, IsTask-array, IsFit}
use os_hw.Valid.{IsTask, IsSound, IsValid}
use os_hw.Valid.Parts.{IsSound-off, IsSound-set}
use os_hw.Valid.Moves.{enqueue_task_tail}

-- struct sched_param
abbrev pub request : ℤ → ℤ → SchedParam
request priority time = record { sched_priority = priority; requested_time = time }

-- The fields by which a task is SHORT.
abbrev pub SameRequest : Task → Task → Type 0
SameRequest t t' =
    (t'.policy ≡ t.policy)
    × (t'.i_am_overdue ≡ t.i_am_overdue)
    × (t'.requested_time ≡ t.requested_time)
    × (t'.time_slice ≡ t.time_slice)
    × (t'.i_was_short ≡ t.i_was_short)

-- A task on an array goes to another one, a task on none stays so.
unfoldable pub moved_to : ℕ → Option ℕ → Option ℕ
moved_to a none = none
moved_to a (some b) = some a

module _ (env : Env) where
  reward_sleep-SameRequest :
      (p : ℕ) (k : Kernel) → SameRequest (k.tasks p) ((reward_sleep env p k).tasks p)
  unfolding reward_sleep rewarded
  reward_sleep-SameRequest p k = ground arith

  -- Where a task lands that is put on the runqueue again, and what it keeps.
  pub activate_task_lands :
      (p : ℕ) (k : Kernel)
      → IsSound (some p) k
      → p ≢ k.rq.idle
      → SameRequest (k.tasks p) ((activate_task env p k).tasks p)
        × (((activate_task env p k).tasks p).array
            ≡ some (pointer_to_my_active_prio_array (k.tasks p) k.rq))
  unfolding activate_task
  activate_task_lands p k s ne =
      let a = pointer_to_my_active_prio_array (k.tasks p) k.rq in
      let k1 = reward_sleep env p k in
      let r = reward_sleep-IsRewarded env p k s ne in
      rw (enqueue_task_tail p a k1 r.sound, tasks_upd-enqueue_tail p a k1, ==_refl p)
        (reward_sleep-SameRequest p k, refl)

  -- A task that setscheduler has made SHORT.
  pub record IsMadeShort (k : Kernel) (p j : ℕ) (k' : Kernel) : Type 0 where
    pub policy : short_task (k'.tasks p) ≡ true
    pub requested : (k'.tasks p).requested_time ≡ pos j
    pub slice : (k'.tasks p).time_slice ≡ j
    pub was_short : (k'.tasks p).i_was_short ≡ 1
    pub array : (k'.tasks p).array ≡ moved_to k.rq.rt_short (k.tasks p).array

  IsMadeShort-asleep :
      (p j : ℕ) (k : Kernel)
      → IsTask (k.tasks p)
      → (k.tasks p).array ≡ none
      → ((k.tasks p).policy == sched_short) ≡ false
      → j < word_size
      → IsMadeShort k p j (set_task k p (make_short (pos j) (k.tasks p)))
  unfolding make_short short_task moved_to
  IsMadeShort-asleep p j k fine off e l =
      let stays : ((set_task k p (make_short (pos j) (k.tasks p))).tasks p).array
          ≡ moved_to k.rq.rt_short (k.tasks p).array =
        rw (==_refl p, off) refl in
      ground (arith, ==_refl p, fine.settled e, stays)

  -- The task that is queued, after it has left its array.
  IsMadeShort-queued :
      (p a j : ℕ) (k : Kernel)
      → IsValid k
      → (k.tasks p).array ≡ some a
      → p ≢ k.rq.idle
      → ((k.tasks p).policy == sched_short) ≡ false
      → j < word_size
      → let k1 = deactivate_task p k in
        IsMadeShort k p j (activate_task env p (set_task k1 p (make_short (pos j) (k1.tasks p))))
  unfolding make_short short_task pointer_to_my_active_prio_array moved_to
  IsMadeShort-queued p a j k v on ne e l =
      let k1 = deactivate_task p k in
      let (v1, gone, rq) = deactivate_task-IsValid p a k v on in
      let ne1 : p ≢ k1.rq.idle = rw rq ne in
      let fine = v.sound.each p in
      let fit : IsFit (k1.tasks p) (make_short (pos j) (k1.tasks p)) = rw gone (
        make_short-IsFit (pos j) _ (IsTask-array (k.tasks p) none fine) (v.sound.queueable p ne)
          e) in
      let t = make_short (pos j) (k1.tasks p) in
      let k2 = set_task k1 p t in
      let none1 : (k1.tasks p).array ≡ none = ap (λ (t : Task). t.array) gone in
      let s2 = IsSound-set p t (IsSound-off p v1.sound none1) fit.fine fit.queueable ne1 in
      let (same, home) = activate_task_lands p k2 s2 ne1 in
      let short : k2.tasks p ≡ t = rw (==_refl p) refl in
      let idle : t.i_am_overdue ≡ 0 = rw gone (fine.settled e) in
      let rt : k1.rq.rt_short ≡ k.rq.rt_short = rw rq refl in
      let moved : moved_to k.rq.rt_short (k.tasks p).array ≡ some k.rq.rt_short = rw on refl in
      ground (arith, same, home, short, idle, rt, moved)

  made_short :
      (p j : ℕ) (k : Kernel)
      → IsValid k
      → p ≢ k.rq.idle
      → ((k.tasks p).policy == sched_short) ≡ false
      → j < word_size
      → IsMadeShort k p j (off_and_on env p (make_short (pos j)) k)
  unfolding off_and_on
  made_short p j k v ne e l = elim (Option-cases (k.tasks p).array) [
    | inl off ↦ rw (off, off_and_on) (IsMadeShort-asleep p j k (v.sound.each p) off e l)
    | inr (a, on) ↦ rw (on, off_and_on) (IsMadeShort-queued p a j k v on ne e l)
  ]

  resched-IsMadeShort :
      (p j q : ℕ) (k k' : Kernel) → IsMadeShort k p j k' → IsMadeShort k p j (resched_task q k')
  unfolding resched_task short_task
  resched-IsMadeShort p j q k k' h = ground (arith, h)

  -- The caller owns the task, or is root.
  abbrev pub IsPermitted : ℕ → Kernel → Type 0
  IsPermitted p k = ((k.tasks k.current).euid ≡ (k.tasks p).euid) ⊎ ((k.tasks k.current).euid ≡ 0)

  change_to_short_made :
      (p ms : ℕ) (priority : ℤ) (k : Kernel)
      → IsValid k
      → p ≢ k.rq.idle
      → (k.tasks p).policy ≡ sched_other
      → ms ≤ 3000
      → env.hz ≤ 500000
      → IsPermitted p k
      → let r = change_to_short env p (request priority (pos ms)) k in
        (r.1 ≡ value (pos 0)) × IsMadeShort k p (ms * env.hz / 1000) r.0
  unfolding change_to_short
  change_to_short_made p ms priority k v ne other l h permitted =
      let (exact, small) = change_ms_to_jiffis_exact env ms l h in
      let j = ms * env.hz / 1000 in
      let not_short : ((k.tasks p).policy == sched_short) ≡ false = ground arith in
      let allowed : (not ((k.tasks k.current).euid == (k.tasks p).euid)
            && not ((k.tasks k.current).euid == 0))
          ≡ false =
        ground arith in
      let k' = off_and_on env p (make_short (pos j)) k in
      rw (exact, allowed, not_short)
        (
          refl,
          resched-IsMadeShort p j k'.current k k' (made_short p j k v ne not_short (omega arith)),
        )

  -- An ordinary task's request goes through the test of the time.
  change_policy_other :
      (p : ℕ) (lp : SchedParam) (k : Kernel)
      → (k.tasks p).policy ≡ sched_other
      → change_policy env p (pos sched_short) lp k
        ≡ (if valid_request env lp then change_to_short env p lp k else (k, fail einval))
  unfolding change_policy checked_policy
  change_policy_other p lp k other = rw other

  valid_request_iff :
      (priority : ℤ) (ms : ℕ)
      → env.hz ≤ 500000
      → (ms ≤ 3000 → 1 ≤ ms * env.hz / 1000 → valid_request env (request priority (pos ms)) ≡ true)
        × (3000 < ms → valid_request env (request priority (pos ms)) ≡ false)
        × (ms ≤ 3000
            → ms * env.hz / 1000 ≡ 0
            → valid_request env (request priority (pos ms)) ≡ false)
  unfolding valid_request
  valid_request_iff priority ms h = (
    λ l e. rw (change_ms_to_jiffis_exact env ms l h).0 (ground arith),
    λ l. ground arith,
    λ l e. rw (change_ms_to_jiffis_exact env ms l h).0 (ground arith),
  )

  -- The test of the caller, as one Boolean.
  abbrev pub is_permitted : ℕ → Kernel → Bool
  is_permitted p k =
      ((k.tasks k.current).euid == (k.tasks p).euid) || ((k.tasks k.current).euid == 0)

  pub change_to_short_answer :
      (p : ℕ) (lp : SchedParam) (k : Kernel)
      → (change_to_short env p lp k).1 ≡ (if is_permitted p k then value (pos 0) else fail eperm)
  unfolding change_to_short
  change_to_short_answer p lp k = ground arith

  -- In a valid state, with HZ at most 500000, setscheduler makes an ordinary task other than the
  -- idle task SHORT, at the request of its owner or of root, for a time of at least a jiffy and at
  -- most 3000 ms: the call answers 0, and the task, on the array rt_short if it was on an array
  -- and on none otherwise, has the requested time and the slice asked for, rounded down to
  -- jiffies, and the mark that it was SHORT.
  pub setscheduler_to_short :
      (pid p ms : ℕ) (priority : ℤ) (k : Kernel)
      → IsValid k
      → find_process_by_pid pid k ≡ some p
      → p ≢ k.rq.idle
      → (k.tasks p).policy ≡ sched_other
      → env.hz ≤ 500000
      → ms ≤ 3000
      → 1 ≤ ms * env.hz / 1000
      → IsPermitted p k
      → let r = setscheduler env (pos pid) (pos sched_short) (good (request priority (pos ms))) k in
        (r.1 ≡ value (pos 0)) × IsMadeShort k p (ms * env.hz / 1000) r.0
  unfolding setscheduler
  setscheduler_to_short pid p ms priority k v found ne other h l e permitted =
      rw
        (
          found,
          setscheduler,
          change_policy_other p (request priority (pos ms)) k other,
          (valid_request_iff priority ms h).0 l e,
        )
        (change_to_short_made p ms priority k v ne other l h permitted)

  -- The answer to a request, with a time that is not negative, that makes an ordinary task SHORT,
  -- with HZ at most 500000: EINVAL for a time below a jiffy or above 3000 ms, whoever asks, else 0
  -- for the owner of the task and for root, and EPERM for anyone else.
  pub setscheduler_to_short_answer :
      (pid p ms : ℕ) (priority : ℤ) (k : Kernel)
      → find_process_by_pid pid k ≡ some p
      → (k.tasks p).policy ≡ sched_other
      → env.hz ≤ 500000
      → (setscheduler env (pos pid) (pos sched_short) (good (request priority (pos ms))) k).1 ≡ (
          if leb ms 3000 && leb 1 (ms * env.hz / 1000)
          then if is_permitted p k then value (pos 0) else fail eperm
          else fail einval)
  unfolding setscheduler
  setscheduler_to_short_answer pid p ms priority k found other h =
      rw (found, setscheduler, change_policy_other p (request priority (pos ms)) k other)
        (ground (
          arith,
          valid_request_iff priority ms h,
          change_to_short_answer p (request priority (pos ms)) k,
        ))
