-- ===== src/SetScheduler/Prolong.antt =====
-- setscheduler on a task that is SHORT already, overdue or not.
use os_hw.Base.{
  ℕ, ◌+◌, ◌*◌, ◌/◌, ◌≤◌, ◌<◌, ◌≡◌, refl, ◌⊎◌, ◌^◌, Bool-cases, inl, inr, true, false, not, ◌&&◌,
  leb, ltb, some, arith, ◌==◌, if◌then◌else◌, ==_refl,
}
use os_hw.Base.Int.{ℤ, pos, negsuc}
use os_hw.Base.Words.{word_size, sub, to_word}
use os_hw.Model.{Env, Task, Kernel, SchedParam, good, value, fail, einval, eperm, sched_short}
use os_hw.Prio.{change_ms_to_jiffis}
use os_hw.Prio.Bounds.{change_ms_to_jiffis_exact}
use os_hw.Pid.{find_process_by_pid}
use os_hw.Runqueue.{resched_task}
use os_hw.SetScheduler.{
  prolong, change_to_short, change_policy, checked_policy, may_prolong, setscheduler,
}
use os_hw.SetScheduler.Short.{request, IsPermitted, is_permitted, change_to_short_answer}

-- requested_time - time_slice, in 32 bits, as the test of the code has it: what a SHORT task that is
-- not overdue has used of its time. An overdue task gets a slice of twice its time, and this wraps.
abbrev pub spent_word : Task → ℕ
spent_word t = sub (to_word t.requested_time) t.time_slice

-- sched_setparam, or sched_setscheduler with the same policy
abbrev pub StaysShort : ℤ → Type 0
StaysShort policy = ((n : ℕ) × (policy ≡ negsuc n)) ⊎ (policy ≡ pos sched_short)

spent_word-overdue :
    (r more : ℕ) (t : Task)
    → t.requested_time ≡ pos r
    → t.time_slice ≡ r + more
    → r < 2 ^ 31
    → 0 < more
    → more ≤ 2 ^ 31
    → 2 ^ 31 ≤ spent_word t
spent_word-overdue r more t req split lr some_more lm = rw req (omega (arith, split))

prolong-requested : (j : ℤ) (t : Task) → (prolong j t).requested_time ≡ j
unfolding prolong
prolong-requested j t = refl

module _ (env : Env) where
  change_policy_short :
      (p : ℕ) (policy : ℤ) (lp : SchedParam) (k : Kernel)
      → (k.tasks p).policy ≡ sched_short
      → StaysShort policy
      → change_policy env p policy lp k
        ≡ (if may_prolong env lp (k.tasks p) then change_to_short env p lp k else (k, fail einval))
  unfolding change_policy checked_policy
  change_policy_short p policy lp k short stays = ground arith

  -- The request that is granted.
  prolonged :
      (p : ℕ) (j : ℤ) (lp : SchedParam) (k : Kernel)
      → (k.tasks p).policy ≡ sched_short
      → IsPermitted env p k
      → change_ms_to_jiffis env lp.requested_time ≡ j
      → let r = change_to_short env p lp k in
        (r.1 ≡ value (pos 0))
        × ((r.0.tasks p).requested_time ≡ j)
        × ((r.0.tasks p).time_slice ≡ (prolong j (k.tasks p)).time_slice)
  unfolding change_to_short resched_task
  prolonged p j lp k short permitted e =
      let t = k.tasks p in
      let allowed : (not ((k.tasks k.current).euid == t.euid)
            && not ((k.tasks k.current).euid == 0))
          ≡ false =
        ground arith in
      let is_short : (t.policy == sched_short) ≡ true = ground arith in
      rw (e, allowed, is_short) (ground (arith, ==_refl p, prolong-requested j t))

  may_prolong_iff :
      (priority : ℤ) (ms : ℕ) (t : Task)
      → env.hz ≤ 500000
      → (ms ≤ 3000
          → spent_word t < ms * env.hz / 1000
          → may_prolong env (request priority (pos ms)) t ≡ true)
        × (ms ≤ 3000
            → ms * env.hz / 1000 ≤ spent_word t
            → may_prolong env (request priority (pos ms)) t ≡ false)
        × (3000 < ms → may_prolong env (request priority (pos ms)) t ≡ false)
  unfolding may_prolong
  may_prolong_iff priority ms t h = (within, spent, λ l. ground arith)
    where
      within :
          ms ≤ 3000
          → spent_word t < ms * env.hz / 1000
          → may_prolong env (request priority (pos ms)) t ≡ true
      within l e =
          let (exact, small) = change_ms_to_jiffis_exact env ms l h in
          let word : to_word (pos (ms * env.hz / 1000)) ≡ ms * env.hz / 1000 = omega arith in
          rw (exact, word) (ground arith)

      spent :
          ms ≤ 3000
          → ms * env.hz / 1000 ≤ spent_word t
          → may_prolong env (request priority (pos ms)) t ≡ false
      spent l e =
          let (exact, small) = change_ms_to_jiffis_exact env ms l h in
          let word : to_word (pos (ms * env.hz / 1000)) ≡ ms * env.hz / 1000 = omega arith in
          rw (exact, word) (ground arith)

  -- With HZ at most 500000, a SHORT task whose slice is longer, by at most 2 ^ 31, than its time,
  -- which is below 2 ^ 31 (as the slice of an overdue task is at first, twice its time), gets no
  -- new time, whatever time that is not negative is asked for and by whomever, if the policy of
  -- the call is SHORT or is that of sched_setparam: the answer is EINVAL and nothing changes.
  pub setscheduler_prolong_overdue :
      (pid p ms r more : ℕ) (policy priority : ℤ) (k : Kernel)
      → find_process_by_pid pid k ≡ some p
      → (k.tasks p).policy ≡ sched_short
      → (k.tasks p).requested_time ≡ pos r
      → (k.tasks p).time_slice ≡ r + more
      → r < 2 ^ 31
      → 0 < more
      → more ≤ 2 ^ 31
      → StaysShort policy
      → env.hz ≤ 500000
      → setscheduler env (pos pid) policy (good (request priority (pos ms))) k ≡ (k, fail einval)
  unfolding setscheduler
  setscheduler_prolong_overdue pid p ms r more policy priority k found short req split lr l lm stays
        h =
      let lp = request priority (pos ms) in
      let high = spent_word-overdue r more (k.tasks p) req split lr l lm in
      let refused : may_prolong env lp (k.tasks p) ≡ false = elim (Bool-cases (leb ms 3000)) [
        | inl e ↦
            let few : ms ≤ 3000 = ground (arith, e) in
            let (exact, small) = change_ms_to_jiffis_exact env ms few h in
            (may_prolong_iff priority ms (k.tasks p) h).1 few (omega (arith, high, small))
        | inr e ↦ (may_prolong_iff priority ms (k.tasks p) h).2 (ground (arith, e))
      ] in
      rw (found, setscheduler, change_policy_short p policy lp k short stays, refused) refl

  -- The answer to a request for a new time, not negative, of a SHORT task, with HZ at most 500000:
  -- EINVAL for a time above 3000 ms or one in jiffies not above requested_time - time_slice in 32 bits, whoever asks, else 0 for the
  -- owner of the task and for root, and EPERM for anyone else.
  setscheduler_prolong_answer :
      (pid p ms : ℕ) (policy priority : ℤ) (k : Kernel)
      → find_process_by_pid pid k ≡ some p
      → (k.tasks p).policy ≡ sched_short
      → StaysShort policy
      → env.hz ≤ 500000
      → (setscheduler env (pos pid) policy (good (request priority (pos ms))) k).1 ≡ (
          if leb ms 3000 && ltb (spent_word (k.tasks p)) (ms * env.hz / 1000)
          then if is_permitted env p k then value (pos 0) else fail eperm
          else fail einval)
  unfolding setscheduler
  setscheduler_prolong_answer pid p ms policy priority k found short stays h =
      let lp = request priority (pos ms) in
      rw (found, setscheduler, change_policy_short p policy lp k short stays)
        (ground
          (arith, may_prolong_iff priority ms (k.tasks p) h, change_to_short_answer env p lp k))

  -- The owner of a SHORT task, or root, that asks for a negative time which amounts to -(n + 1)
  -- jiffies is granted it, if requested_time - time_slice of the task, as an unsigned number of 32
  -- bits, is less than 2 ^ 32 - (n + 1), since the comparison is one of unsigned numbers: the call
  -- answers 0 and the requested time of the task is -(n + 1) jiffies. The policy of the call is
  -- SHORT or is that of sched_setparam.
  pub setscheduler_prolong_negative :
      (pid p m n : ℕ) (policy priority : ℤ) (k : Kernel)
      → find_process_by_pid pid k ≡ some p
      → (k.tasks p).policy ≡ sched_short
      → StaysShort policy
      → IsPermitted env p k
      → change_ms_to_jiffis env (negsuc m) ≡ negsuc n
      → spent_word (k.tasks p) + n + 1 < word_size
      → let r = setscheduler env (pos pid) policy (good (request priority (negsuc m))) k in
        (r.1 ≡ value (pos 0)) × ((r.0.tasks p).requested_time ≡ negsuc n)
  unfolding setscheduler may_prolong
  setscheduler_prolong_negative pid p m n policy priority k found short stays permitted e l =
      let lp = request priority (negsuc m) in
      let granted : may_prolong env lp (k.tasks p) ≡ true = rw e (ground arith) in
      let (answer, requested, same) = prolonged p (negsuc n) lp k short permitted e in
      rw (found, setscheduler, change_policy_short p policy lp k short stays, granted)
        (answer, requested)
