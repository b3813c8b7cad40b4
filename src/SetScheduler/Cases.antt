-- ===== src/SetScheduler/Cases.antt =====
-- The branches of setscheduler, as a rule for what holds of every answer.
use os_hw.Base.{ℕ, ◌≡◌, false, some, ◌==◌, if_split, Option-cases, inl, inr}
use os_hw.Base.Int.{ℤ, pos, negsuc, pos_part}
use os_hw.Model.{
  Env, Kernel, SchedParam, UserPointer, null, bad, good, Retval, fail, Errno, sched_short,
}
use os_hw.Pid.{find_process_by_pid}
use os_hw.SetScheduler.{
  change_to_short, change_classic, change_policy, checked_policy, is_real_time, may_prolong,
  valid_request, setscheduler,
}

module _ {ℓ} (env : Env) (P : Kernel × Retval → Type ℓ) where
  pub change_policy_cases :
      (p : ℕ) (policy : ℤ) (lp : SchedParam) (k : Kernel)
      → ((e : Errno) → P (k, fail e))
      → P (change_to_short env p lp k)
      → ((n : ℕ)
          → ((k.tasks p).policy == sched_short) ≡ false
          → (n == sched_short) ≡ false
          → P (change_classic env p n lp k))
      → P (change_policy env p policy lp k)
  unfolding change_policy
  change_policy_cases p policy lp k failed short classic =
      elim (Option-cases (checked_policy policy (k.tasks p))) [
        | inl e ↦ rw (e, change_policy) (failed _)
        | inr (n, e) ↦
            rw (e, change_policy)
              (if_split P ((k.tasks p).policy == sched_short) _ _
                (λ _.
                  if_split P (n == sched_short) _ _
                    (λ _.
                      if_split P (may_prolong env lp (k.tasks p)) _ _ (λ _. short) (λ _. failed _))
                    (λ _. failed _))
                λ e1.
                  if_split P (n == sched_short) _ _
                    (λ _.
                      if_split P (is_real_time (k.tasks p).policy) _ _ (λ _. failed _)
                        λ _. if_split P (valid_request env lp) _ _ (λ _. short) (λ _. failed _))
                    (λ e2. classic n e1 e2))
      ]

  pub setscheduler_cases :
      (pid policy : ℤ) (param : UserPointer SchedParam) (k : Kernel)
      → ((e : Errno) → P (k, fail e))
      → ((p : ℕ) (lp : SchedParam)
          → find_process_by_pid (pos_part pid) k ≡ some p
          → P (change_policy env p policy lp k))
      → P (setscheduler env pid policy param k)
  unfolding setscheduler
  setscheduler_cases (negsuc n) policy param k failed found = failed _
  setscheduler_cases (pos pid) policy null k failed found = failed _
  setscheduler_cases (pos pid) policy bad k failed found = failed _
  setscheduler_cases (pos pid) policy (good lp) k failed found =
      elim (Option-cases (find_process_by_pid pid k)) [
        | inl e ↦ rw (e, setscheduler) (failed _)
        | inr (p, e) ↦ rw (e, setscheduler) (found p lp e)
      ]
