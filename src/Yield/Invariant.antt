-- ===== src/Yield/Invariant.antt =====
-- sys_sched_yield, up to its call of schedule, keeps the invariant: the running task goes to another
-- place of its list, or to another list of its array.
use mathlib.Core.Path.{subst}
use os_hw.Base.{
  ℕ, ◌≤◌, ◌<◌, ◌≡◌, ◌≢◌, refl, sym, ◌∙◌, inl, inr, true, false, ◌&&◌, ◌||◌, some, [], ◌∷◌, ◌++◌,
  arith, leb, ◌==◌, if_split, Bool-cases, if◌then◌else◌, ==-cases, ==_refl, upd, remove, is_empty,
  count_empty,
}
use os_hw.Model.{Env, Task, Kernel, max_prio, set_task}
use os_hw.Prio.{rt_task, overdue_task, pointer_to_my_active_prio_array}
use os_hw.Queue.{
  dequeue_task, enqueue_tail, list_del, list_add_tail, list_empty, set_bit, clear_bit,
}
use os_hw.Queue.Effects.{
  queue-dequeue, bitmap-dequeue, nr_active-dequeue, tasks-dequeue, rq-dequeue, current-dequeue,
  queue-enqueue_tail, bitmap-enqueue_tail, nr_active-enqueue_tail, tasks-enqueue_tail,
  rq-enqueue_tail, current-enqueue_tail,
}
use os_hw.Queue.Sync.{
  total, total-dequeue_self, total-dequeue_ne, total-enqueue_self, total-enqueue_ne,
}
use os_hw.Valid.{IsHome, IsTask, IsValid}
use os_hw.Valid.Moves.{IsMoving, take, change, put, enqueue_task_tail}
use os_hw.Yield.{add_behind_first, yield_alone, yield_on}
use os_hw.Yield.Reordered.{
  IsReordered, IsValid-reordered, total-reordered, count-behind_first, length-behind_first,
}

-- The task, off its array and put last on a list of the same array, with the priority of that list.
module _ (p a : ℕ) (k : Kernel) where
  abbrev renamed : ℕ → Kernel
  renamed i = let k' = dequeue_task p a k in set_task k' p (record (k'.tasks p) { prio = i })

  abbrev moved : ℕ → Kernel
  moved i = enqueue_tail p a (renamed i)

  module _ (v : IsValid k) (here : (k.tasks p).array ≡ some a) where
    other_than_idle : p ≢ k.rq.idle
    other_than_idle = ground (arith, v.sound.idle)

    IsTask-prio : (t : Task) (i : ℕ) → IsTask t → IsTask (record t { prio = i })
    unfolding overdue_task
    IsTask-prio t i h = ground arith

    renamed-IsMoving : (i : ℕ) → i < max_prio → IsMoving p (renamed i)
    renamed-IsMoving i l =
        let k' = dequeue_task p a k in
        let m = take p a v here in
        let ne : p ≢ k'.rq.idle = rw (rq-dequeue p a k) other_than_idle in
        let t = record (k'.tasks p) { prio = i } in
        change p t m (IsTask-prio (k'.tasks p) i (m.sound.each p)) l ne

    moved-IsValid :
        (i : ℕ) → i < max_prio → IsHome k.rq (record (k.tasks p) { prio = i }) a → IsValid (moved i)
    moved-IsValid i l home =
        let m' = renamed-IsMoving i l in
        let ne : p ≢ (renamed i).rq.idle = rw (rq-dequeue p a k) other_than_idle in
        let home' : IsHome (renamed i).rq ((renamed i).tasks p) a =
          rw (rq-dequeue p a k, tasks-dequeue p a k, ==_refl p) home in
        subst IsValid (enqueue_task_tail p a (renamed i) m'.sound) (put p a m' home' ne)

    tasks-moved :
        (i q : ℕ)
        → (moved i).tasks q ≡ (if p == q then record (k.tasks p) { prio = i } else k.tasks q)
    tasks-moved i q = rw (tasks-enqueue_tail p a (renamed i) q, tasks-dequeue p a k) (ground arith)

    prio-renamed : (i : ℕ) → ((renamed i).tasks p).prio ≡ i
    prio-renamed i = rw (==_refl p) refl

    queue-moved :
        (i b j : ℕ)
        → ((moved i).arrays b).queue j ≡ (
            if a == b && i == j
            then remove p ((k.arrays b).queue j) ++ p ∷ []
            else remove p ((k.arrays b).queue j))
    queue-moved i b j =
        queue-enqueue_tail p a (renamed i) b j ∙ rw (prio-renamed i, queue-dequeue p a k b j) refl

    bitmap-moved :
        (i b j : ℕ)
        → ((moved i).arrays b).bitmap j ≡ (
            if a == b && i == j
            then true
            else if a == b && ((k.tasks p).prio == j && is_empty (remove p ((k.arrays b).queue j)))
            then false
            else (k.arrays b).bitmap j)
    bitmap-moved i b j =
        bitmap-enqueue_tail p a (renamed i) b j ∙ rw (prio-renamed i, bitmap-dequeue p a k b j) refl

    nr_active-moved : (i b : ℕ) → ((moved i).arrays b).nr_active ≡ (k.arrays b).nr_active
    nr_active-moved i b =
        rw (nr_active-enqueue_tail p a (renamed i) b, nr_active-dequeue p a k b)
          (ground (arith, v.sound.sync.counted b))

    rq-moved : (i : ℕ) → (moved i).rq ≡ k.rq
    rq-moved i = rq-enqueue_tail p a (renamed i) ∙ rq-dequeue p a k

    current-moved : (i : ℕ) → (moved i).current ≡ k.current
    current-moved i = current-enqueue_tail p a (renamed i) ∙ current-dequeue p a k

    in_range : (k.tasks p).prio < max_prio
    in_range = v.sound.queueable p other_than_idle

    -- The bit of the task's list is set.
    own_bit : (k.arrays a).bitmap (k.tasks p).prio ≡ true
    own_bit =
        let i = (k.tasks p).prio in
        ground (
          arith,
          v.sound.sync.placed a i p,
          v.sound.sync.marked a i in_range,
          count_empty p ((k.arrays a).queue i),
        )

    rt-IsReordered :
        IsReordered (moved (k.tasks p).prio) (list_add_tail p a (k.tasks p).prio (list_del p k))
    unfolding list_add_tail list_del
    rt-IsReordered =
        let i = (k.tasks p).prio in
        record {
          tasks = λ q. ground (arith, tasks-moved i q);
          rq = sym (rq-moved i);
          current = sym (current-moved i);
          counts = λ b j q. ground (arith, queue-moved i b j);
          lengths = λ b j. ground (arith, queue-moved i b j);
          bitmap = λ b j l. ground (arith, bitmap-moved i b j, own_bit);
          nr_active = λ b. ground (arith, nr_active-moved i b);
        }

    behind-IsReordered :
        IsReordered (moved (k.tasks p).prio) (add_behind_first p a (k.tasks p).prio (list_del p k))
    unfolding add_behind_first list_del
    behind-IsReordered =
        let i = (k.tasks p).prio in
        let rest = remove p ((k.arrays a).queue i) in
        record {
          tasks = λ q. ground (arith, tasks-moved i q);
          rq = sym (rq-moved i);
          current = sym (current-moved i);
          counts = λ b j q. ground (arith, queue-moved i b j, count-behind_first q p rest);
          lengths = λ b j. ground (arith, queue-moved i b j, length-behind_first p rest);
          bitmap = λ b j l. ground (arith, bitmap-moved i b j, own_bit);
          nr_active = λ b. ground (arith, nr_active-moved i b);
        }

    total-moved : (i b : ℕ) → i < max_prio → total ((moved i).arrays b) ≡ total (k.arrays b)
    total-moved i b l =
        let sync = v.sound.sync in
        let s' = (renamed-IsMoving i l).sound.sync in
        let l' : ((renamed i).tasks p).prio < max_prio = rw (prio-renamed i) l in
        elim (==-cases a b) [
          | inl same ↦
              ground (arith, total-dequeue_self p a sync here, total-enqueue_self p a s' l')
          | inr other ↦
              ground
                (arith, total-dequeue_ne p a sync here b other, total-enqueue_ne p a s' l' b other)
        ]

    -- The list that the task goes to, but for its place there.
    record IsYielded (k' : Kernel) : Type 0 where
      list : ℕ
      below : list < max_prio
      valid : IsValid (moved list)
      reordered : IsReordered (moved list) k'

    -- The task goes from its list, on which it was alone, to the list `i`.
    module _ (i : ℕ) (tasks : ℕ → Task) where
      abbrev relisted : Kernel
      relisted =
          let k' = clear_bit (k.tasks p).prio a (list_del p k) in
          set_bit i a (add_behind_first p a i (record k' { tasks = tasks }))

      relisted-IsReordered :
          ((q : ℕ) → tasks q ≡ (if p == q then record (k.tasks p) { prio = i } else k.tasks q))
          → is_empty (remove p ((k.arrays a).queue (k.tasks p).prio)) ≡ true
          → IsReordered (moved i) relisted
      unfolding add_behind_first list_del set_bit clear_bit
      relisted-IsReordered same alone =
          let rest = remove p ((k.arrays a).queue i) in
          record {
            tasks = λ q. ground (arith, tasks-moved i q, same q);
            rq = sym (rq-moved i);
            current = sym (current-moved i);
            counts = λ b j q. ground (arith, queue-moved i b j, count-behind_first q p rest);
            lengths = λ b j. ground (arith, queue-moved i b j, length-behind_first p rest);
            bitmap = λ b j l. ground (arith, bitmap-moved i b j, alone);
            nr_active = λ b. ground (arith, nr_active-moved i b);
          }

    home : IsHome k.rq (k.tasks p) a
    home = v.sound.homed p a refl here

    -- The array of an ordinary task does not depend on its priority above the real-time ones.
    IsHome-lowered :
        (i : ℕ)
        → rt_task (k.tasks p) ≡ false
        → (k.tasks p).prio ≤ i
        → IsHome k.rq (record (k.tasks p) { prio = i }) a
    unfolding pointer_to_my_active_prio_array rt_task
    IsHome-lowered i ordinary lower = ground (arith, home)

    module _ (env : Env) where
      next_bit : ℕ
      next_bit =
          env.sched_find_first_bit ((clear_bit (k.tasks p).prio a (list_del p k)).arrays a).bitmap

      next_bit_bound : next_bit ≤ max_prio
      unfolding clear_bit list_del next_bit
      next_bit_bound =
          (env.find_set ((clear_bit (k.tasks p).prio a (list_del p k)).arrays a).bitmap max_prio
            (omega arith) (ground (arith, v.sound.sync.delimiter a, in_range))).1

      yield_alone-IsYielded :
          rt_task (k.tasks p) ≡ false
          → is_empty (remove p ((k.arrays a).queue (k.tasks p).prio)) ≡ true
          → IsYielded (yield_alone env p a (list_del p k))
      unfolding yield_alone next_bit list_del
      yield_alone-IsYielded ordinary alone =
          let t = k.tasks p in
          let stays = (next_bit == max_prio) || leb next_bit t.prio in
          elim (Bool-cases stays) [
            | inl e ↦
                rw (e, yield_alone)
                  (record {
                    list = t.prio;
                    below = in_range;
                    valid = moved-IsValid t.prio in_range home;
                    reordered = relisted-IsReordered t.prio k.tasks (λ q. ground arith) alone;
                  })
            | inr e ↦
                let tasks = upd k.tasks p (record t { prio = next_bit }) in
                rw (e, yield_alone)
                  (record {
                    list = next_bit;
                    below = ground (arith, next_bit_bound);
                    valid =
                        moved-IsValid next_bit (ground (arith, next_bit_bound))
                          (IsHome-lowered next_bit ordinary (ground arith));
                    reordered = relisted-IsReordered next_bit tasks (λ q. ground arith) alone;
                  })
          ]

      yield_on-IsYielded : IsYielded (yield_on env p a k)
      unfolding yield_on list_empty
      yield_on-IsYielded =
          let t = k.tasks p in
          let stayed = moved-IsValid t.prio in_range home in
          if_split IsYielded (rt_task t) _ _
            (λ _. record {
              list = t.prio;
              below = in_range;
              valid = stayed;
              reordered = rt-IsReordered;
            })
            λ ordinary.
              if_split IsYielded (list_empty a t.prio (list_del p k)) _ _
                (λ alone. yield_alone-IsYielded ordinary (unfold list_del in alone))
                (λ _. record {
                  list = t.prio;
                  below = in_range;
                  valid = stayed;
                  reordered = behind-IsReordered;
                })

      pub yield_on-IsValid : IsValid (yield_on env p a k)
      yield_on-IsValid =
          let y = yield_on-IsYielded in
          IsValid-reordered (moved y.list) (yield_on env p a k) y.reordered y.valid

      -- The fields of the tasks but for the priority, and the lengths of the arrays, are as before.
      pub yield_on_kept :
          ((q : ℕ)
            → (yield_on env p a k).tasks q
              ≡ record (k.tasks q) { prio = ((yield_on env p a k).tasks q).prio })
          × ((b : ℕ) → total ((yield_on env p a k).arrays b) ≡ total (k.arrays b))
          × ((yield_on env p a k).rq ≡ k.rq)
          × ((yield_on env p a k).current ≡ k.current)
      yield_on_kept =
          let y = yield_on-IsYielded in
          let r = y.reordered in
          (
            λ q. ground (arith, r.tasks q, tasks-moved y.list q),
            λ b.
                total-reordered (moved y.list) (yield_on env p a k) r b
                ∙ total-moved y.list b y.below,
            r.rq ∙ rq-moved y.list,
            r.current ∙ current-moved y.list,
          )
