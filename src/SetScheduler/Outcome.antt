-- ===== src/SetScheduler/Outcome.antt =====
-- What setscheduler answers, and what it changes.
use os_hw.Base.{ℕ, ◌≡◌, refl, Bool, true, false, not, ◌&&◌, arith, ◌==◌, ==_refl, if_split}
use os_hw.Base.Int.{ℤ}
use os_hw.Model.{Env, Kernel, SchedParam, UserPointer, Retval, fail, Errno}
use os_hw.Capable.{capable}
use os_hw.SetScheduler.Cases.{change_policy_cases, setscheduler_cases}
use os_hw.SetScheduler.{
  change_to_short, change_classic, refused_unless_capable, is_real_time, setscheduler,
  priority_out_of_range, priority_mismatch,
}

-- A call that fails changes nothing.
abbrev IsAtomic : Kernel → Kernel × Retval → Type 0
IsAtomic k r = (e : Errno) → r.1 ≡ fail e → r.0 ≡ k

module _ (env : Env) where
  change_to_short-IsAtomic :
      (p : ℕ) (lp : SchedParam) (k : Kernel) → IsAtomic k (change_to_short env p lp k)
  unfolding change_to_short
  change_to_short-IsAtomic p lp k e h = ground arith

  -- A capability that is missing leaves no trace.
  refused_fail :
      (b : Bool) (k : Kernel)
      → (refused_unless_capable env b k).1 ≡ true
      → (refused_unless_capable env b k).0 ≡ k
  unfolding refused_unless_capable capable
  refused_fail b k h = ground arith

  -- A task with the capability passes both tests.
  refused_twice :
      (b c : Bool) (k : Kernel)
      → let r1 = refused_unless_capable env b k in
        let r2 = refused_unless_capable env c r1.0 in r1.1 ≡ false → r2.1 ≡ true → r2.0 ≡ k
  unfolding refused_unless_capable capable
  refused_twice b c k h h' = ground (arith, ==_refl k.current)

  change_classic-IsAtomic :
      (p policy : ℕ) (lp : SchedParam) (k : Kernel) → IsAtomic k (change_classic env p policy lp k)
  unfolding change_classic
  change_classic-IsAtomic p policy lp k =
      let caller = k.tasks k.current in
      let t = k.tasks p in
      let real_time = is_real_time policy in
      let r1 = refused_unless_capable env real_time k in
      let foreign = not (caller.euid == t.euid) && not (caller.euid == t.uid) in
      let r2 = refused_unless_capable env foreign r1.0 in
      if_split (IsAtomic k) (priority_out_of_range lp) _ _ (λ _ e h. refl)
        λ _.
          if_split (IsAtomic k) (priority_mismatch policy lp) _ _ (λ _ e h. refl)
            λ _.
              if_split (IsAtomic k) r1.1 _ _ (λ denied e h. refused_fail real_time k denied)
                λ allowed.
                  if_split (IsAtomic k) r2.1 _ _
                    (λ denied e h. refused_twice real_time foreign k allowed denied) (λ _ e h. cc)

  -- A call of setscheduler that answers an error leaves the whole state as it was.
  pub setscheduler_fail :
      (pid policy : ℤ) (param : UserPointer SchedParam) (k : Kernel) (e : Errno)
      → (setscheduler env pid policy param k).1 ≡ fail e
      → (setscheduler env pid policy param k).0 ≡ k
  setscheduler_fail pid policy param k =
      setscheduler_cases env (IsAtomic k) pid policy param k (λ _ e h. refl)
        λ p lp found.
          change_policy_cases env (IsAtomic k) p policy lp k (λ _ e h. refl)
            (change_to_short-IsAtomic p lp k) λ n e1 e2. change_classic-IsAtomic p n lp k
