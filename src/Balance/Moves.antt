-- ===== src/Balance/Moves.antt =====
-- The tasks that load_balance of sharedFolderHW2/sched.c moves between two runqueues.
use mathlib.Core.Path.{subst}
use os_hw.Base.{
  ℕ, zero, suc, ◌+◌, ◌≡◌, ◌≢◌, ◌⊎◌, refl, sym, ap, ◌∙◌, Bool, true, not, Option, none, some, List,
  [], ◌∷◌, upd, leb, ◌==◌, if◌then◌else◌, arith, ==-cases, inl, inr, if_split,
}
use os_hw.Base.Int.{ℤ, pos, ◌-ℤ◌, pos_part, neg_part}
use os_hw.Base.Words.{wrap, inc, dec}
use os_hw.Balance.{
  can_migrate_task, pull_task, Walked, walk_queue, walk_array, double_lock_balance, pull_tasks,
}
use os_hw.Balance.State.{Smp, SmpEnv, set_smp_rq}
use os_hw.Links.Loops.{reverse}
use os_hw.Model.{Kernel, max_prio}
use os_hw.Queue.{dequeue_task, enqueue_task}
use os_hw.Runqueue.{resched_task}
use os_hw.Balance.Fixed.{
  IsFixed, IsFixed-trans, dequeue_task-IsFixed, enqueue_task-IsFixed, resched_task-IsFixed,
}

-- What pulling tasks from `busiest` to `this` does: only tasks that may be moved are, and the
-- runqueues have as many tasks as before.
pub record IsPulled (env : SmpEnv) (busiest this : ℕ) (m m' : Smp) : Type 0 where
  pub fixed : IsFixed m.kernel m'.kernel
  pub running : (c : ℕ) → (m'.rqs c).curr ≡ (m.rqs c).curr
  pub arrays :
      (c : ℕ) → ((m'.rqs c).active ≡ (m.rqs c).active) × ((m'.rqs c).expired ≡ (m.rqs c).expired)
  pub others : (c : ℕ) → c ≢ busiest → c ≢ this → m'.rqs c ≡ m.rqs c
  pub total :
      wrap ((m'.rqs this).nr_running + (m'.rqs busiest).nr_running)
      ≡ wrap ((m.rqs this).nr_running + (m.rqs busiest).nr_running)
  pub moved :
      (q : ℕ)
      → (m'.cpu q ≡ m.cpu q) ⊎ ((m'.cpu q ≡ this) × (can_migrate_task env q busiest this m ≡ true))

pub some_injective : {a b : Smp} → some a ≡ some b → a ≡ b
some_injective {a = a} e = ap (λ (o : Option Smp). elim o as (λ x. Smp) [ none ↦ a | some c ↦ c ]) e

module _ (env : SmpEnv) (busiest this : ℕ) where
  can_migrate_task-same :
      (q : ℕ) (m m' : Smp)
      → IsPulled env busiest this m m'
      → can_migrate_task env q busiest this m' ≡ can_migrate_task env q busiest this m
  unfolding can_migrate_task
  can_migrate_task-same q m m' h =
      rw (h.fixed.allowed q, h.fixed.slept q, h.fixed.clock, h.running busiest) refl

  IsPulled-refl : (m : Smp) → IsPulled env busiest this m m
  IsPulled-refl m = record {
    fixed = record { allowed = λ q. refl; slept = λ q. refl; clock = refl };
    running = λ c. refl;
    arrays = λ c. (refl, refl);
    others = λ c b t. refl;
    total = refl;
    moved = λ q. inl refl;
  }

  IsPulled-trans :
      (a b c : Smp)
      → IsPulled env busiest this a b
      → IsPulled env busiest this b c
      → IsPulled env busiest this a c
  IsPulled-trans a b c h k = record {
    fixed = IsFixed-trans a.kernel b.kernel c.kernel h.fixed k.fixed;
    running = λ i. k.running i ∙ h.running i;
    arrays = λ i. ((k.arrays i).0 ∙ (h.arrays i).0, (k.arrays i).1 ∙ (h.arrays i).1);
    others = λ i x y. k.others i x y ∙ h.others i x y;
    total = k.total ∙ h.total;
    moved = λ q. elim (k.moved q) [
      | inr (here, can) ↦ inr (here, sym (can_migrate_task-same q a b h) ∙ can)
      | inl same ↦ elim (h.moved q) [
        | inl old ↦ inl (same ∙ old)
        | inr (here, can) ↦ inr (same ∙ here, can)
      ]
    ];
  }

  pull_task-IsPulled :
      (p array : ℕ) (m : Smp)
      → this ≢ busiest
      → can_migrate_task env p busiest this m ≡ true
      → IsPulled env busiest this m (pull_task env p array busiest this m)
  unfolding pull_task
  pull_task-IsPulled p array m ne can =
      let out = dequeue_task p array m.kernel in
      let there = m.rqs busiest in
      let m1 = set_smp_rq m busiest (record there { nr_running = dec there.nr_running }) in
      let here = m1.rqs this in
      let m2 = set_smp_rq m1 this (record here { nr_running = inc here.nr_running }) in
      let k = enqueue_task p here.active out in
      let in_place : IsFixed m.kernel k =
        IsFixed-trans m.kernel out k (dequeue_task-IsFixed p array m.kernel)
          (enqueue_task-IsFixed p here.active out) in
      let after : (k' : Kernel)
          → IsFixed m.kernel k'
          → IsPulled env busiest this m (record m2 { kernel = k'; cpu = upd m2.cpu p this }) =
        λ k' f. record {
          fixed = f;
          running = λ c. ground arith;
          arrays = λ c. (ground arith, ground arith);
          others = λ c b t. ground (arith, b, t);
          total = ground (arith, ne);
          moved = λ q. elim (==-cases p q) [
            | inl same ↦ inr (
              ground (arith, same),
              subst (λ r. can_migrate_task env r busiest this m ≡ true) same can,
            )
            | inr other ↦ inl (ground (arith, other))
          ];
        } in
      if_split (IsPulled env busiest this m) _ _ _
        (λ b. after (resched_task k.current k) (
          IsFixed-trans m.kernel k (resched_task k.current k) in_place
            (resched_task-IsFixed k.current k)))
        (λ b. after k in_place)

  -- Every task of a queue, in turn.
  pub walk_queue-IsPulled :
      (tasks : List ℕ) (idle : Bool) (array : ℕ) (imbalance : ℤ) (m : Smp)
      → this ≢ busiest
      → IsPulled env busiest this m (walk_queue env tasks idle array busiest this imbalance m).state
  unfolding walk_queue
  walk_queue-IsPulled [] idle array imbalance m ne = IsPulled-refl m
  walk_queue-IsPulled (p ∷ tasks) idle array imbalance m ne =
      let m' = pull_task env p array busiest this m in
      let less = imbalance -ℤ pos 1 in
      let P : Walked → Type 0 = λ (w : Walked). IsPulled env busiest this m w.state in
      if_split P (not (can_migrate_task env p busiest this m)) _ _
        (λ b. walk_queue-IsPulled tasks idle array imbalance m ne)
        (λ b.
          let pulled = pull_task-IsPulled p array m ne (ground (arith, b)) in
          if_split P idle _ _ (λ i. pulled)
            (λ i.
              if_split P (pos_part less + neg_part less == 0) _ _ (λ z. pulled)
                (λ z.
                  IsPulled-trans m m' (walk_queue env tasks idle array busiest this less m').state
                    pulled (walk_queue-IsPulled tasks idle array less m' ne))))

  -- Every queue of the arrays, in turn.
  walk_array-IsPulled :
      (runs idx : ℕ) (idle : Bool) (array : ℕ) (imbalance : ℤ) (m m' : Smp)
      → this ≢ busiest
      → walk_array env runs idx idle array busiest this imbalance m ≡ some m'
      → IsPulled env busiest this m m'
  unfolding walk_array
  walk_array-IsPulled zero idx idle array imbalance m m' ne = λ e. ground (arith, e)
  walk_array-IsPulled (suc runs) idx idle array imbalance m m' ne =
      let v = m.kernel.arrays array in
      let at =
        if idx == 0
        then env.sched_find_first_bit v.bitmap
        else env.find_next_bit v.bitmap max_prio idx in
      let w = walk_queue env (reverse (v.queue at)) idle array busiest this imbalance m in
      let pulled : IsPulled env busiest this m w.state =
        walk_queue-IsPulled (reverse (v.queue at)) idle array imbalance m ne in
      let P : Option Smp → Type 0 = λ o. o ≡ some m' → IsPulled env busiest this m m' in
      if_split P (at == max_prio) _ _
        (λ b.
          if_split P (array == (m.rqs busiest).expired) _ _
            (λ x. walk_array-IsPulled runs 0 idle (m.rqs busiest).active imbalance m m' ne)
            (λ x e. subst (IsPulled env busiest this m) (some_injective e) (IsPulled-refl m)))
        (λ b.
          if_split P w.enough _ _
            (λ x e. subst (IsPulled env busiest this m) (some_injective e) pulled)
            (λ x e.
              IsPulled-trans m w.state m' pulled
                (walk_array-IsPulled runs (suc at) idle array w.imbalance w.state m' ne e)))

  -- What load_balance does once the two runqueues, of different processors, are locked, when the
  -- bound on its runs is enough: a task changes its processor only to this one, and only if
  -- CAN_MIGRATE_TASK held of it, the numbers of running tasks of the two runqueues have the same
  -- sum modulo 2 ^ 32, and the runqueues of other processors, what runs on each, and the times and
  -- permissions of the tasks are as before.
  pub pull_tasks-IsPulled :
      (runs : ℕ) (idle : Bool) (nr_running : ℕ) (imbalance : ℤ) (m m' : Smp)
      → this ≢ busiest
      → pull_tasks env runs idle this busiest nr_running imbalance m ≡ some m'
      → IsPulled env busiest this (double_lock_balance env this busiest idle nr_running m).1 m'
  unfolding pull_tasks
  pull_tasks-IsPulled runs idle nr_running imbalance m m' ne =
      let (nr, locked) = double_lock_balance env this busiest idle nr_running m in
      let rq = locked.rqs busiest in
      let array =
        if not ((locked.kernel.arrays rq.expired).nr_active == 0) then rq.expired else rq.active in
      if_split (λ (o : Option Smp). o ≡ some m' → IsPulled env busiest this locked m')
        (leb rq.nr_running (wrap (nr + 1))) _ _
        (λ b e. subst (IsPulled env busiest this locked) (some_injective e) (IsPulled-refl locked))
        (λ b. walk_array-IsPulled runs 0 idle array imbalance locked m' ne)
