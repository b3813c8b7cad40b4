-- ===== src/Affinity/Outcome.antt =====
-- What a call of sched_setaffinity leaves of the state.
use mathlib.Core.Path.{subst}
use os_hw.Base.{
  upd_cases, sym, ℕ, Bool, ◌≡◌, refl, true, false, arith, ltb, ◌==◌, Bool-cases, Option-cases, inl,
  inr, if_split,
}
use os_hw.Base.Int.{ℤ, pos}
use os_hw.Affinity.{size_of_mask, process_of, change_affinity, sys_sched_setaffinity}
use os_hw.Capable.{capable, pf_superpriv}
use os_hw.Model.{
  Env, Kernel, UserPointer, null, bad, good, Retval, value, fail, Errno, cap_sys_nice, set_task,
  Task,
}
use Prim.Native.Nat.{bit_and, bit_or}

-- The caller has CAP_SYS_NICE.
abbrev pub is_nice : Env → Kernel → Bool
is_nice env k = env.cap_raised (k.tasks k.current).cap_effective cap_sys_nice

capable_plain :
    (env : Env) (k : Kernel) → is_nice env k ≡ false → capable env cap_sys_nice k ≡ (k, false)
unfolding capable
capable_plain env k plain = rw plain refl

-- Without the capability nothing is changed.
change_affinity_plain :
    (env : Env) (p mask : ℕ) (k : Kernel)
    → is_nice env k ≡ false
    → (change_affinity env p mask k).0 ≡ k
unfolding change_affinity
change_affinity_plain env p mask k plain =
    rw (capable_plain env k plain, capable_plain env k plain, capable_plain env k plain)
      (ground arith)

-- A task whose capabilities stay leaves the caller its own.
kept_nice :
    (env : Env) (p : ℕ) (t : Task) (k : Kernel)
    → t.cap_effective ≡ (k.tasks p).cap_effective
    → is_nice env k ≡ true
    → is_nice env (set_task k p t) ≡ true
kept_nice env p t k same nice =
    upd_cases (λ u. env.cap_raised u.cap_effective cap_sys_nice ≡ true) k.tasks p t k.current
      (λ here.
        subst (λ c. env.cap_raised c cap_sys_nice ≡ true) (sym same)
          (subst (λ q. env.cap_raised (k.tasks q).cap_effective cap_sys_nice ≡ true) (sym here)
            nice))
      (λ other. nice)

-- With the capability, it is still there after it was used.
abbrev marked : Kernel → Kernel
marked k =
    let t = k.tasks k.current in
    set_task k k.current (record t { flags = bit_or t.flags pf_superpriv })

capable_raised :
    (env : Env) (k : Kernel) → is_nice env k ≡ true → capable env cap_sys_nice k ≡ (marked k, true)
unfolding capable
capable_raised env k nice = rw nice refl

capable_nice :
    (env : Env) (k : Kernel)
    → is_nice env k ≡ true
    → ((capable env cap_sys_nice k).1 ≡ true) × (is_nice env (capable env cap_sys_nice k).0 ≡ true)
capable_nice env k nice =
    let t = k.tasks k.current in
    subst (λ r. (r.1 ≡ true) × (is_nice env r.0 ≡ true)) (sym (capable_raised env k nice))
      (refl, kept_nice env k.current (record t { flags = bit_or t.flags pf_superpriv }) k refl nice)

-- With it, the call does not fail.
change_affinity_nice :
    (env : Env) (p mask : ℕ) (k : Kernel)
    → is_nice env k ≡ true
    → (mask == 0) ≡ false
    → (change_affinity env p mask k).1 ≡ value (pos 0)
unfolding change_affinity
change_affinity_nice env p mask k nice some_cpu =
    let (first, nice1) = capable_nice env k nice in
    let k1 = (capable env cap_sys_nice k).0 in
    let (second, nice2) = capable_nice env k1 nice1 in
    let k2 = (capable env cap_sys_nice k1).0 in
    let wider = bit_or (k2.tasks p).cpus_allowed_mask mask in
    let k3 = set_task k2 p (record (k2.tasks p) { cpus_allowed_mask = wider }) in
    let (third, nice4) =
      capable_nice env k3
        (kept_nice env p (record (k2.tasks p) { cpus_allowed_mask = wider }) k2 refl nice2) in
    rw (first, second, some_cpu, third)
      (if_split {A = Kernel × Retval} (λ r. r.1 ≡ value (pos 0)) _ _ _ (λ _. refl) (λ _. refl))

-- The state is as it was after an error, and for a caller without the capability.
abbrev pub IsUnchanged : Env → Kernel → Kernel × Retval → Type 0
IsUnchanged env k r = ((e : Errno) → r.1 ≡ fail e → r.0 ≡ k) × (is_nice env k ≡ false → r.0 ≡ k)

change_affinity-IsUnchanged :
    (env : Env) (p mask : ℕ) (k : Kernel)
    → (mask == 0) ≡ false
    → IsUnchanged env k (change_affinity env p mask k)
change_affinity-IsUnchanged env p mask k some_cpu = elim (Bool-cases (is_nice env k)) [
  | inl nice ↦ (
    λ e h. absurd (cc (h, change_affinity_nice env p mask k nice some_cpu)),
    λ plain. absurd (cc (nice, plain)),
  )
  | inr plain ↦
      (λ e h. change_affinity_plain env p mask k plain, change_affinity_plain env p mask k)
]

same : (env : Env) (k : Kernel) (e : Retval) → IsUnchanged env k (k, e)
same env k e = (λ x h. refl, λ h. refl)

-- A call of sched_setaffinity that answers an error leaves the whole state as it was, and so does
-- every call by a task without CAP_SYS_NICE, whatever it answers.
pub sys_sched_setaffinity-IsUnchanged :
    (env : Env) (online : ℕ) (pid : ℤ) (len : ℕ) (user : UserPointer ℕ) (k : Kernel)
    → IsUnchanged env k (sys_sched_setaffinity env online pid len user k)
unfolding sys_sched_setaffinity
sys_sched_setaffinity-IsUnchanged env online pid len null k =
    if_split (IsUnchanged env k) (ltb len size_of_mask) _ _ (λ _. same env k _) (λ _. same env k _)
sys_sched_setaffinity-IsUnchanged env online pid len bad k =
    if_split (IsUnchanged env k) (ltb len size_of_mask) _ _ (λ _. same env k _) (λ _. same env k _)
sys_sched_setaffinity-IsUnchanged env online pid len (good user_mask) k =
    if_split (IsUnchanged env k) (ltb len size_of_mask) _ _ (λ _. same env k _)
      λ _.
        if_split (IsUnchanged env k) (bit_and user_mask online == 0) _ _ (λ _. same env k _)
          λ some_cpu. elim (Option-cases (process_of pid k)) [
            | inl e ↦ rw e (same env k _)
            | inr (p, e) ↦
                rw e (change_affinity-IsUnchanged env p (bit_and user_mask online) k some_cpu)
          ]
