-- ===== src/Migration/Locks.antt =====
-- The locks of sharedFolderHW2/sched.c for several processors.
use mathlib.Core.Path.{subst}
use os_hw.Base.{
  ℕ, zero, suc, ◌<◌, ◌≡◌, ◌≢◌, sym, Bool, Option, none, some, List, [], ◌∷◌, ltb, ◌==◌,
  if◌then◌else◌, arith, count, Option-cases, inl, inr, if_split,
}
use os_hw.Balance.Moves.{some_injective}
use os_hw.Balance.State.{Smp, SmpEnv}
use os_hw.Migration.{double_rq_lock, double_rq_unlock, task_rq_lock, wait_task_inactive}
use os_hw.Model.{Env}

-- The locks of a list are in the order of their addresses.
abbrev pub IsAscending : List ℕ → Type 0
IsAscending [] = Unit
IsAscending (a ∷ []) = Unit
IsAscending (a ∷ b ∷ cs) = (a < b) × IsAscending (b ∷ cs)

-- What double_rq_lock takes, and what double_rq_unlock gives back.
double_rq_lock-double_rq_unlock :
    (a b : ℕ)
    → (double_rq_lock a b ≡ double_rq_lock b a)
      × (IsAscending (double_rq_lock a b)
          × ((q : ℕ) → count q (double_rq_lock a b) ≡ count q (double_rq_unlock a b)))
unfolding double_rq_lock double_rq_unlock count
double_rq_lock-double_rq_unlock a b = (
  ground arith,
  (
    if_split IsAscending (a == b) _ _ (λ e. tt)
        (λ e.
          if_split IsAscending (ltb a b) _ _ (λ l. (ground (arith, l), tt))
            (λ l. (ground (arith, e, l), tt))),
    λ q. ground arith,
  ),
)

-- The processors after `n` calls of cpu_relax.
unfoldable pub after_relax : SmpEnv → ℕ → Smp → Smp
after_relax smp zero m = m
after_relax smp (suc n) m = after_relax smp n (smp.cpu_relax m)

-- The task runs on the processor that it belongs to.
abbrev runs : ℕ → Smp → Bool
runs p m = (m.rqs (m.cpu p)).curr == p

module _ (env : Env) (smp : SmpEnv) where
  -- The lock that task_rq_lock answers with is that of the task's runqueue.
  task_rq_lock_lem :
      (tries p : ℕ) (m m' : Smp) (rq : ℕ)
      → task_rq_lock env smp tries p m ≡ some (rq, m')
      → m'.cpu p ≡ rq
  unfolding task_rq_lock
  task_rq_lock_lem zero p m m' rq = λ e. ground (arith, e)
  task_rq_lock_lem (suc tries) p m m' rq =
      let locked = smp.spin_lock (m.cpu p) m in
      if_split (λ (o : Option (ℕ × Smp)). o ≡ some (rq, m') → m'.cpu p ≡ rq)
        (locked.cpu p == m.cpu p) _ _ (λ b e. ground (arith, b, e))
        (λ b. task_rq_lock_lem tries p locked m' rq)

  -- When wait_task_inactive comes back within its bound on the tries, the task is not the one that
  -- runs on the processor that it belongs to.
  wait_task_inactive-IsSafe :
      (tries p : ℕ) (m m' : Smp)
      → wait_task_inactive env smp tries p m ≡ some m'
      → (m'.rqs (m'.cpu p)).curr ≢ p
  unfolding wait_task_inactive
  wait_task_inactive-IsSafe zero p m m' = λ e. ground (arith, e)
  wait_task_inactive-IsSafe (suc tries) p m m' =
      let P : Option Smp → Type 0 = λ o. o ≡ some m' → (m'.rqs (m'.cpu p)).curr ≢ p in
      let after : Option (ℕ × Smp) → Option Smp = λ o. elim o as (λ o. Option Smp) [
        | none ↦ none
        | some (rq, l) ↦
            if (l.rqs rq).curr == p then wait_task_inactive env smp tries p l else some l
      ] in
      if_split P ((m.rqs (m.cpu p)).curr == p) _ _
        (λ b. wait_task_inactive-IsSafe tries p (smp.cpu_relax m) m')
        (λ b. elim (Option-cases (task_rq_lock env smp (suc tries) p m)) [
          | inl e ↦ subst (λ o. P (after o)) (sym e) (λ h. ground (arith, h))
          | inr ((rq, l), e) ↦
              subst (λ o. P (after o)) (sym e)
                (if_split P ((l.rqs rq).curr == p) _ _ (λ c. wait_task_inactive-IsSafe tries p l m')
                  (λ c h.
                    let own : l.cpu p ≡ rq = task_rq_lock_lem (suc tries) p m l rq e in
                    let idle : (l.rqs (l.cpu p)).curr ≢ p =
                      subst (λ r. (l.rqs r).curr ≢ p) (sym own) (ground (arith, c)) in
                    subst (λ (x : Smp). (x.rqs (x.cpu p)).curr ≢ p) (some_injective h) idle))
        ])
