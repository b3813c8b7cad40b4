-- ===== src/SetScheduler/Invariant.antt =====
-- setscheduler keeps the invariant.
use Prim.Native.Nat.{bit_or}
use os_hw.Capable.{capable, pf_superpriv}
use os_hw.Base.{
  upd_cases, ℕ, ◌<◌, ◌≡◌, ◌≢◌, refl, ◌∙◌, ap, inl, inr, Bool, true, false, not, ◌&&◌, Option, none,
  some, arith, ◌==◌, if_split, ==_refl, Option-cases,
}
use os_hw.Base.Int.{ℤ, pos_part}
use os_hw.Model.{
  Env, Task, Kernel, SchedParam, UserPointer, Retval, cap_sys_nice, sched_short, max_prio, set_task,
}
use os_hw.Prio.{overdue_task, change_ms_to_jiffis}
use os_hw.Pid.{find_process_by_pid}
use os_hw.Runqueue.{deactivate_task, resched_task}
use os_hw.Runqueue.Invariant.{deactivate_task-IsValid, activate_task-IsValid}
use os_hw.SetScheduler.{
  priority_out_of_range, priority_mismatch, off_and_on, prolong, make_short, make_classic,
  change_to_short, change_classic, refused_unless_capable, is_real_time, setscheduler,
}
use os_hw.SetScheduler.Cases.{change_policy_cases, setscheduler_cases}
use os_hw.Valid.{IsTask, IsValid}
use os_hw.Valid.Parts.{SamePlace, same_place, IsSound-set, IsSound-off, IsSound-on}
use os_hw.Valid.Moves.{keep}

-- A change of the fields that a task on no array may undergo.
pub record IsFit (t t' : Task) : Type 0 where
  pub fine : IsTask t'
  pub queueable : t'.prio < max_prio
  pub still : t'.array ≡ t.array

pub set_off-IsValid :
    (p : ℕ) (t : Task) (k : Kernel)
    → IsValid k
    → (k.tasks p).array ≡ none
    → IsFit (k.tasks p) t
    → p ≢ k.rq.idle
    → IsValid (set_task k p t)
set_off-IsValid p t k v off fit ne =
    let s = IsSound-set p t (IsSound-off p v.sound off) fit.fine fit.queueable ne in
    record { sound = IsSound-on p s (rw (==_refl p) (fit.still ∙ off)); running = v.running }

module _ (env : Env) where
  off_and_on-IsValid :
      (p : ℕ) (change : Task → Task) (k : Kernel)
      → IsValid k
      → p ≢ k.rq.idle
      → IsFit (k.tasks p) (change (k.tasks p))
      → IsFit (record (k.tasks p) { array = none }) (change (record (k.tasks p) { array = none }))
      → IsValid (off_and_on env p change k)
  unfolding off_and_on
  off_and_on-IsValid p change k v ne fit fit' = elim (Option-cases (k.tasks p).array) [
    | inl off ↦ rw (off, off_and_on) (set_off-IsValid p (change (k.tasks p)) k v off fit ne)
    | inr (a, on) ↦
        let k1 = deactivate_task p k in
        let (v1, gone, rq) = deactivate_task-IsValid p a k v on in
        let ne1 : p ≢ k1.rq.idle = rw rq ne in
        let fit1 : IsFit (k1.tasks p) (change (k1.tasks p)) = rw gone fit' in
        let t = change (k1.tasks p) in
        let k2 = set_task k1 p t in
        let none1 : (k1.tasks p).array ≡ none = ap (λ (t : Task). t.array) gone in
        let v2 = set_off-IsValid p t k1 v1 none1 fit1 ne1 in
        rw (on, off_and_on)
          (activate_task-IsValid env p k2 v2 (rw (==_refl p) (fit1.still ∙ none1)) ne1)
  ]

pub make_short-IsFit :
    (j : ℤ) (t : Task)
    → IsTask t
    → t.prio < max_prio
    → (t.policy == sched_short) ≡ false
    → IsFit t (make_short j t)
unfolding make_short overdue_task
make_short-IsFit j t h l e = ground arith

make_classic-IsFit :
    (policy n : ℕ) (t : Task)
    → IsTask t
    → (t.policy == sched_short) ≡ false
    → (policy == sched_short) ≡ false
    → IsFit t (make_classic policy n t)
unfolding make_classic overdue_task
make_classic-IsFit policy n t h e e' = ground arith

pub IsTask-array : (t : Task) (o : Option ℕ) → IsTask t → IsTask (record t { array = o })
unfolding overdue_task
IsTask-array t o h = ground arith

prolong-SamePlace : (j : ℤ) (t : Task) → SamePlace t (prolong j t)
unfolding prolong
prolong-SamePlace j t = ground arith

module _ (env : Env) where
  -- The answers of setscheduler are judged together with the state that they come with.
  abbrev Keeps : Kernel × Retval → Type 0
  Keeps r = IsValid r.0

  flagged-IsValid : (k : Kernel) → IsValid k → IsValid (resched_task k.current k)
  unfolding resched_task
  flagged-IsValid k v =
      keep k.current (record (k.tasks k.current) { need_resched = true }) v (ground arith)

  change_to_short-IsValid :
      (p : ℕ) (lp : SchedParam) (k : Kernel)
      → IsValid k
      → p ≢ k.rq.idle
      → Keeps (change_to_short env p lp k)
  unfolding change_to_short
  change_to_short-IsValid p lp k v ne =
      let t = k.tasks p in
      let j = change_ms_to_jiffis env lp.requested_time in
      let caller = k.tasks k.current in
      let off : Task = record t { array = none } in
      if_split Keeps (not (caller.euid == t.euid) && not (caller.euid == 0)) _ _ (λ _. v)
        λ _.
          if_split (λ k'. IsValid (resched_task k'.current k')) (t.policy == sched_short) _ _
            (λ _.
              flagged-IsValid (set_task k p (prolong j t))
                (keep p (prolong j t) v (prolong-SamePlace j t)))
            (λ e.
              let l = v.sound.queueable p ne in
              let fine = v.sound.each p in
              flagged-IsValid (off_and_on env p (make_short j) k) (
                off_and_on-IsValid env p (make_short j) k v ne (make_short-IsFit j t fine l e)
                  (make_short-IsFit j off (IsTask-array t none fine) l e)))

  -- The trace of a capability in the flags of `current` changes nothing else.
  record IsHarmless (k k' : Kernel) : Type 0 where
    valid : IsValid k'
    same : (q : ℕ) → SamePlace (k.tasks q) (k'.tasks q)
    rq : k'.rq ≡ k.rq

  refused-IsHarmless :
      (b : Bool) (k : Kernel) → IsValid k → IsHarmless k (refused_unless_capable env b k).0
  unfolding refused_unless_capable capable
  refused-IsHarmless b k v =
      let t = k.tasks k.current in
      let flagged : Task = record t { flags = bit_or t.flags pf_superpriv } in
      let plain : IsHarmless k k = record {
        valid = v;
        same = λ q. same_place (k.tasks q);
        rq = refl;
      } in
      if_split {A = Kernel × Bool} (λ r. IsHarmless k r.0) b _ _
        (λ _.
          if_split {A = Kernel × Bool} (λ r. IsHarmless k r.0)
            (env.cap_raised t.cap_effective cap_sys_nice) _ _
            (λ _. record {
              valid = keep k.current flagged v (ground arith);
              same = λ q.
                  upd_cases (SamePlace (k.tasks q)) k.tasks k.current flagged q (λ e. ground arith)
                    (λ _. same_place (k.tasks q));
              rq = refl;
            })
            (λ _. plain))
        (λ _. plain)

  change_classic-IsValid :
      (p policy : ℕ) (lp : SchedParam) (k : Kernel)
      → IsValid k
      → p ≢ k.rq.idle
      → ((k.tasks p).policy == sched_short) ≡ false
      → (policy == sched_short) ≡ false
      → Keeps (change_classic env p policy lp k)
  unfolding change_classic
  change_classic-IsValid p policy lp k v ne e e' =
      let caller = k.tasks k.current in
      let t = k.tasks p in
      let r1 = refused_unless_capable env (is_real_time policy) k in
      let h1 = refused-IsHarmless (is_real_time policy) k v in
      let foreign = not (caller.euid == t.euid) && not (caller.euid == t.uid) in
      let r2 = refused_unless_capable env foreign r1.0 in
      let h2 = refused-IsHarmless foreign r1.0 h1.valid in
      let k2 = r2.0 in
      let n = pos_part lp.sched_priority in
      let t2 = k2.tasks p in
      let s2 : (t2.policy == sched_short) ≡ false = ground (arith, h1.same p, h2.same p) in
      let off : Task = record t2 { array = none } in
      let fine = h2.valid.sound.each p in
      let ne2 : p ≢ k2.rq.idle = rw (h2.rq, h1.rq) ne in
      if_split Keeps (priority_out_of_range lp) _ _ (λ _. v)
        λ _.
          if_split Keeps (priority_mismatch policy lp) _ _ (λ _. v)
            λ _.
              if_split Keeps r1.1 _ _ (λ _. h1.valid)
                λ _.
                  if_split Keeps r2.1 _ _ (λ _. h2.valid)
                    λ _.
                      off_and_on-IsValid env p (make_classic policy n) k2 h2.valid ne2
                        (make_classic-IsFit policy n t2 fine s2 e')
                        (make_classic-IsFit policy n off (IsTask-array t2 none fine) s2 e')

  -- setscheduler leads from a valid state to a valid state, whatever it is asked and whatever it
  -- answers, if the task that it finds is not the idle task.
  pub setscheduler-IsValid :
      (pid policy : ℤ) (param : UserPointer SchedParam) (k : Kernel)
      → IsValid k
      → ((p : ℕ) → find_process_by_pid (pos_part pid) k ≡ some p → p ≢ k.rq.idle)
      → IsValid (setscheduler env pid policy param k).0
  setscheduler-IsValid pid policy param k v ne =
      setscheduler_cases env Keeps pid policy param k (λ _. v)
        λ p lp found.
          change_policy_cases env Keeps p policy lp k (λ _. v)
            (change_to_short-IsValid p lp k v (ne p found))
            λ n e1 e2. change_classic-IsValid p n lp k v (ne p found) e1 e2
