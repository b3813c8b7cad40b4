-- ===== src/Migration/Requests.antt =====
-- What the migration thread of sharedFolderHW2/sched.c does to the task that a request names.
use mathlib.Core.Path.{subst}
use os_hw.Base.{
  ℕ, ◌≡◌, ◌≢◌, refl, sym, ap, ◌∙◌, ◌||◌, ◌&&◌, false, [], ◌∷◌, ◌++◌, remove, Option, none, some,
  upd, ◌==◌, if◌then◌else◌, arith, if_split,
}
use os_hw.Base.Words.{inc, dec}
use os_hw.Balance.State.{SmpRq, Smp, SmpEnv}
use os_hw.Migration.{one_runqueue, on_cpu, migrate}
use os_hw.Model.{Env, Task, Kernel}
use os_hw.Prio.{rt_task, short_task, overdue_task, pointer_to_my_active_prio_array}
use os_hw.Runqueue.{deactivate_task, activate_task}
use os_hw.Migration.Activation.{
  tasks-deactivate_task, current-deactivate_task, queue-deactivate_task, nr_running-deactivate_task,
  nr_running-activate_task, activate_task-IsActivated,
}

module _ (env : Env) where
  -- The two runqueues of a task that moves from one to another.
  abbrev moved : ℕ → ℕ → ℕ → Smp → Smp
  moved this p cpu_dest m =
      on_cpu cpu_dest (activate_task env p)
        (on_cpu this (deactivate_task p) (record m { cpu = upd m.cpu p cpu_dest }))

  migrate_moves :
      (smp : SmpEnv) (this p cpu_dest a : ℕ) (m : Smp)
      → (m.kernel.tasks p).array ≡ some a
      → migrate env smp this p this cpu_dest m ≡ moved this p cpu_dest m
  unfolding migrate
  migrate_moves smp this p cpu_dest a m on =
      let m1 : Smp = record m { cpu = upd m.cpu p cpu_dest } in
      if_split (λ (z : Smp). z ≡ moved this p cpu_dest m) (this == this) _ _
        (λ b.
          ap
            (λ (o : Option ℕ). elim o as (λ o. Smp) [
              | none ↦ m1
              | some a ↦ moved this p cpu_dest m
            ])
            on)
        (λ b. ground (arith, b))

  -- The array of a runqueue on which an active task of the class of `t` stands.
  abbrev pub array_of_class : Task → SmpRq → ℕ
  array_of_class t rq =
      if short_task t || rt_task t
      then rq.rt_short
      else if overdue_task t
      then rq.overdue
      else rq.active

  abbrev IsMoved : ℕ → ℕ → ℕ → Smp → Smp → Type 0
  IsMoved this p cpu_dest m m' =
      let k = m.kernel in
      let k' = m'.kernel in
      let a = array_of_class (k.tasks p) (m.rqs cpu_dest) in
      ((k'.tasks p).array ≡ some a)
      × (((b i : ℕ)
            → let others = remove p ((k.arrays b).queue i) in
              (k'.arrays b).queue i
              ≡ (if a == b && (k'.tasks p).prio == i then others ++ p ∷ [] else others))
          × (((m'.rqs this).nr_running ≡ dec (m.rqs this).nr_running)
              × (((m'.rqs cpu_dest).nr_running ≡ inc (m.rqs cpu_dest).nr_running)
                  × (((q : ℕ) → m'.cpu q ≡ (if p == q then cpu_dest else m.cpu q))
                      × ((q : ℕ) → q ≢ this → q ≢ cpu_dest → m'.rqs q ≡ m.rqs q)))))

  same_class :
      (t : Task) (rq : SmpRq)
      → pointer_to_my_active_prio_array (record t { array = none }) (one_runqueue rq)
        ≡ array_of_class t rq
  unfolding pointer_to_my_active_prio_array short_task rt_task overdue_task
  same_class t rq = refl

  moved-IsMoved :
      (this p cpu_dest a : ℕ) (m : Smp)
      → (m.kernel.tasks p).array ≡ some a
      → (m.kernel.tasks m.kernel.current).just_got_forked ≡ false
      → this ≢ cpu_dest
      → IsMoved this p cpu_dest m (moved this p cpu_dest m)
  unfolding on_cpu
  moved-IsMoved this p cpu_dest a m on calm ne =
      let m1 : Smp = record m { cpu = upd m.cpu p cpu_dest } in
      let here : Kernel = record m.kernel { rq = one_runqueue (m.rqs this) } in
      let gone = deactivate_task p here in
      let out = on_cpu this (deactivate_task p) m1 in
      let k : Kernel = record out.kernel { rq = one_runqueue (out.rqs cpu_dest) } in
      let tasks = tasks-deactivate_task p here in
      let current = current-deactivate_task p here in
      let calm' : (k.tasks k.current).just_got_forked ≡ false =
        ap (λ q. (gone.tasks q).just_got_forked) current ∙ ground (arith, tasks, calm) in
      let less = nr_running-deactivate_task p here in
      let more = nr_running-activate_task env p k in
      let same : out.rqs cpu_dest ≡ m.rqs cpu_dest = ground (arith, ne) in
      let class : pointer_to_my_active_prio_array (k.tasks p) k.rq
          ≡ array_of_class (m.kernel.tasks p) (m.rqs cpu_dest) =
        ap (λ (f : ℕ → Task). pointer_to_my_active_prio_array (f p) k.rq) tasks
        ∙ ap
            (λ (rq : SmpRq).
              pointer_to_my_active_prio_array
                (upd m.kernel.tasks p (record (m.kernel.tasks p) { array = none }) p)
                (one_runqueue rq))
            same
        ∙ ground (arith, same_class (m.kernel.tasks p) (m.rqs cpu_dest)) in
      let (home, lists) = activate_task-IsActivated env p k calm' in
      (
        home ∙ ap some class,
        (
          λ b i. ground (arith, lists b i, class, queue-deactivate_task p a here on b i),
          (
            ground (arith, less, ne),
            (ground (arith, more, same), (λ q. refl, λ q x y. ground (arith, x, y))),
          ),
        ),
      )

  -- The migration thread of a processor that moves a task from its runqueue, where the task stands
  -- on an array, to that of another processor, while the running task does not have the flag
  -- justGotForked, takes the task off the lists and puts it at the end of one list alone, that of
  -- its priority on the array of its class at the other processor (rt_short for a SHORT or real-
  -- time task, overdue for an overdue one, else active); it counts the task out of the one
  -- runqueue and into the other, makes the other its processor, and leaves the processor of every
  -- other task and the runqueues of the other processors as they were.
  pub migrate_lem :
      (smp : SmpEnv) (this p cpu_dest a : ℕ) (m : Smp)
      → (m.kernel.tasks p).array ≡ some a
      → (m.kernel.tasks m.kernel.current).just_got_forked ≡ false
      → this ≢ cpu_dest
      → let m' = migrate env smp this p this cpu_dest m in
        let k = m.kernel in
        let k' = m'.kernel in
        let home = array_of_class (k.tasks p) (m.rqs cpu_dest) in
        ((k'.tasks p).array ≡ some home)
        × (((b i : ℕ)
              → let others = remove p ((k.arrays b).queue i) in
                (k'.arrays b).queue i
                ≡ (if home == b && (k'.tasks p).prio == i then others ++ p ∷ [] else others))
            × (((m'.rqs this).nr_running ≡ dec (m.rqs this).nr_running)
                × (((m'.rqs cpu_dest).nr_running ≡ inc (m.rqs cpu_dest).nr_running)
                    × (((q : ℕ) → m'.cpu q ≡ (if p == q then cpu_dest else m.cpu q))
                        × ((q : ℕ) → q ≢ this → q ≢ cpu_dest → m'.rqs q ≡ m.rqs q)))))
  migrate_lem smp this p cpu_dest a m on calm ne =
      subst (IsMoved this p cpu_dest m) (sym (migrate_moves smp this p cpu_dest a m on))
        (moved-IsMoved this p cpu_dest a m on calm ne)
