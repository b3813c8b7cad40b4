-- ===== src/Wrappers/Answers.antt =====
-- What a program sees of the system calls of sharedFolderHW2/hw2_syscalls.c.
use mathlib.Core.Path.{subst}
use os_hw.Base.{
  ℕ, ◌≤◌, ◌<◌, ◌≡◌, refl, sym, Option, none, some, arith, Option-cases, inl, inr, ◌==◌, if_split,
}
use os_hw.Base.Int.{ℤ, pos, negsuc}
use os_hw.Model.{Env, Task, Kernel, Errno, Retval, value, fail, esrch, sched_short}
use os_hw.Pid.{find_task_by_pid}
use os_hw.Prio.{change_jiffis_to_ms}
use os_hw.Syscalls.{
  with_process, is_short_of, remaining_time_of, was_short_of, sys_is_short,
  sys_short_remaining_time, sys_was_short,
}
use os_hw.Wrappers.{Seen, finish_call, register, is_short, short_remaining_time, was_short}

-- -1 and the error's number, or the value and errno as it was.
unfoldable pub seen : (Errno → ℕ) → Retval → ℤ → Seen
seen number (value v) errno = record { answer = v; errno = errno }
seen number (fail e) errno = record { answer = negsuc 0; errno = pos (number e) }

-- A value that is not negative.
abbrev IsPlain : Retval → Type 0
IsPlain r = (v : ℤ) → r ≡ value v → (n : ℕ) × ((v ≡ pos n) × (n < 2147483648))

module _ (number : Errno → ℕ) (numbers : (e : Errno) → (1 ≤ number e) × (number e ≤ 125)) where
  finish_call_lem :
      (r : Retval) (errno : ℤ)
      → IsPlain r
      → finish_call (register number r) errno ≡ seen number r errno
  unfolding finish_call register seen
  finish_call_lem (value v) errno plain = let (n, (e, l)) = plain v refl in rw e (ground (arith, l))
  finish_call_lem (fail e) errno plain = ground (arith, numbers e)

  with_process-IsPlain :
      (pid : ℤ) (k : Kernel) (call : Task → Retval)
      → ((p : ℕ) → IsPlain (call (k.tasks p)))
      → IsPlain (with_process pid k call)
  unfolding with_process
  with_process-IsPlain (negsuc n) k call plain = λ v e. ground (arith, e)
  with_process-IsPlain (pos pid) k call plain =
      let answer : Option ℕ → Retval =
        λ o. elim o as (λ o. Retval) [ none ↦ fail esrch | some p ↦ call (k.tasks p) ] in
      elim (Option-cases (find_task_by_pid pid k)) [
        | inl e ↦ subst (λ o. IsPlain (answer o)) (sym e) (λ v h. ground (arith, h))
        | inr (p, e) ↦ subst (λ o. IsPlain (answer o)) (sym e) (plain p)
      ]

  is_short_of-IsPlain : (t : Task) → IsPlain (is_short_of t)
  unfolding is_short_of
  is_short_of-IsPlain t =
      if_split IsPlain (t.policy == sched_short) _ _
        (λ b.
          if_split IsPlain (t.i_am_overdue == 0) _ _
            (λ c v e. (1, (ground (arith, e), omega arith)))
            (λ c v e. (0, (ground (arith, e), omega arith))))
        (λ b v e. ground (arith, e))

  was_short_of-IsPlain : (t : Task) → t.i_was_short < 2147483648 → IsPlain (was_short_of t)
  unfolding was_short_of
  was_short_of-IsPlain t h =
      if_split IsPlain (t.policy == sched_short) _ _ (λ b v e. ground (arith, e))
        (λ b v e. (t.i_was_short, (ground (arith, e), h)))

  remaining_time_of-IsPlain :
      (env : Env) (t : Task)
      → change_jiffis_to_ms env t.time_slice < 2147483648
      → IsPlain (remaining_time_of env t)
  unfolding remaining_time_of
  remaining_time_of-IsPlain env t h =
      if_split IsPlain (t.policy == sched_short) _ _
        (λ b v e. (change_jiffis_to_ms env t.time_slice, (ground (arith, e, h), h)))
        (λ b v e. ground (arith, e))

  -- A program that calls is_short, was_short or short_remaining_time sees -1 and the number of the
  -- error in errno exactly where the kernel answers with an error, and else the value that the
  -- kernel answers, with errno as it was. The numbers of errors are to lie from 1 to 125, and the
  -- mark of having been SHORT and the time in milliseconds of every task below 2 ^ 31.
  pub wrappers_lem :
      (env : Env) (k : Kernel) (pid errno : ℤ)
      → ((p : ℕ)
          → ((k.tasks p).i_was_short < 2147483648)
            × (change_jiffis_to_ms env (k.tasks p).time_slice < 2147483648))
      → (is_short number pid k errno ≡ seen number (sys_is_short pid k) errno)
        × ((was_short number pid k errno ≡ seen number (sys_was_short pid k) errno)
            × (short_remaining_time number env pid k errno
                ≡ seen number (sys_short_remaining_time env pid k) errno))
  unfolding is_short was_short short_remaining_time sys_is_short sys_was_short
      sys_short_remaining_time
  wrappers_lem env k pid errno small = (
    finish_call_lem (sys_is_short pid k) errno
        (with_process-IsPlain pid k is_short_of (λ p. is_short_of-IsPlain (k.tasks p))),
    (
      finish_call_lem (sys_was_short pid k) errno (
          with_process-IsPlain pid k was_short_of
            (λ p. was_short_of-IsPlain (k.tasks p) (small p).0)),
      finish_call_lem (sys_short_remaining_time env pid k) errno (
          with_process-IsPlain pid k (remaining_time_of env)
            (λ p. remaining_time_of-IsPlain env (k.tasks p) (small p).1)),
    ),
  )
