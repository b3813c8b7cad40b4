-- ===== src/Queue/Forked.antt =====
-- enqueue_task for the child of a SHORT task that has just forked: the parent is moved to the end of its
-- list first, and the child goes to the front of its own.
use os_hw.Base.{
  ℕ, suc, ◌≤◌, inl, inr, ==-cases, count, ◌-◌, ◌≡◌, ◌≢◌, refl, ap, ◌∙◌, true, false, some, List, [],
  ◌∷◌, ◌++◌, arith, ◌==◌, if◌then◌else◌, ==_refl, remove,
}
use os_hw.Model.{Task, Kernel}
use os_hw.Queue.{
  dequeue_task, enqueue_task, enqueue_tail, enqueue_depth, forked_among, fork_pending, clear_forked,
  link_array, list_add,
}
use os_hw.Queue.Effects.{
  queue-dequeue, tasks-dequeue, current-dequeue, queue-enqueue_tail, tasks-enqueue_tail,
}
use os_hw.Queue.Frame.{fork_pending_not, enqueue_depth_plain}

-- A flagged task of the list of all tasks is counted, so that the calls of enqueue_task go deep enough.
forked_among-flagged :
    (tasks : ℕ → Task) (q : ℕ) (l : List ℕ)
    → (tasks q).just_got_forked ≡ true
    → 1 ≤ count q l
    → 1 ≤ forked_among tasks l
unfolding forked_among count
forked_among-flagged tasks q [] flag h = absurd (omega arith)
forked_among-flagged tasks q (x ∷ xs) flag h = elim (==-cases q x) [
  | inl here ↦ ground arith
  | inr there ↦ ground (arith, forked_among-flagged tasks q xs flag)
]

-- The parent at the end of its list, without the flag.
abbrev parent_moved : ℕ → ℕ → Kernel → Kernel
parent_moved q a k = enqueue_tail q a (dequeue_task q a (clear_forked q k))

cleared : (q : ℕ) (k : Kernel) → ((clear_forked q k).tasks q).just_got_forked ≡ false
unfolding clear_forked
cleared q k = rw (==_refl q) refl

calm :
    (q a : ℕ) (k : Kernel)
    → k.current ≡ q
    → (let d = dequeue_task q a (clear_forked q k) in (d.tasks d.current).just_got_forked ≡ false)
unfolding clear_forked
calm q a k runs =
    rw (tasks-dequeue q a (clear_forked q k), current-dequeue q a (clear_forked q k), runs)
      (cleared q k)

enqueue_depth_forked :
    (n q p a : ℕ) (k : Kernel)
    → fork_pending p k ≡ true
    → (k.tasks p).p_opptr ≡ q
    → k.current ≡ q
    → enqueue_depth (suc n) p a k
      ≡ link_array p a (list_add p a ((parent_moved q a k).tasks p).prio (parent_moved q a k))
unfolding enqueue_depth
enqueue_depth_forked n q p a k pending own runs =
    let d = dequeue_task q a (clear_forked q k) in
    let plain = enqueue_depth_plain n q a d (fork_pending_not q d (calm q a k runs)) in
    rw (pending, own, plain) refl

-- A list once the parent has been moved, and the tasks.
parent_moved-queue :
    (q a i : ℕ) (k : Kernel)
    → ((parent_moved q a k).arrays a).queue i ≡ (
        if (k.tasks q).prio == i
        then remove q ((k.arrays a).queue i) ++ q ∷ []
        else remove q ((k.arrays a).queue i))
unfolding clear_forked
parent_moved-queue q a i k =
    let c = clear_forked q k in
    let same : ((dequeue_task q a c).tasks q).prio ≡ (k.tasks q).prio =
      ap (λ (f : ℕ → Task). (f q).prio) (tasks-dequeue q a c) ∙ rw (==_refl q) refl in
    queue-enqueue_tail q a (dequeue_task q a c) a i
    ∙ rw (same, queue-dequeue q a c a i, ==_refl a) refl

parent_moved-tasks :
    (q a r : ℕ) (k : Kernel)
    → (parent_moved q a k).tasks r ≡ (
        if q == r
        then record (k.tasks q) { just_got_forked = false; array = some a }
        else k.tasks r)
unfolding clear_forked
parent_moved-tasks q a r k =
    let c = clear_forked q k in
    tasks-enqueue_tail q a (dequeue_task q a c) r ∙ rw (tasks-dequeue q a c) (ground arith)

-- The child at the front of a list.
front_queue :
    (p a i : ℕ) (m : Kernel)
    → ((link_array p a (list_add p a i m)).arrays a).queue i ≡ p ∷ (m.arrays a).queue i
unfolding link_array list_add
front_queue p a i m = rw (==_refl a, ==_refl i) refl

front_tasks :
    (p a i r : ℕ) (m : Kernel)
    → (link_array p a (list_add p a i m)).tasks r
      ≡ (if p == r then record (m.tasks p) { array = some a } else m.tasks r)
unfolding link_array list_add
front_tasks p a i r m = refl

pending_flag :
    (p : ℕ) (k : Kernel) → fork_pending p k ≡ true → (k.tasks k.current).just_got_forked ≡ true
unfolding fork_pending
pending_flag p k pending = ground arith

-- enqueue_task of the child of a SHORT running task that has just forked puts the child first on
-- the list of its priority, with the parent, if it has the same priority, moved to the end of that
-- list, clears the flag justGotForked of the parent and makes the child point to the array. The
-- parent is the running task, is another task than the child and is on the list of all tasks.
pub enqueue_task_forked :
    (p a : ℕ) (k : Kernel)
    → fork_pending p k ≡ true
    → (k.tasks p).p_opptr ≡ k.current
    → p ≢ k.current
    → 1 ≤ count k.current k.task_list
    → (let q = k.current in
        let i = (k.tasks p).prio in
        let others = remove q ((k.arrays a).queue i) in
        let k' = enqueue_task p a k in
        ((k'.arrays a).queue i ≡ p ∷ (if (k.tasks q).prio == i then others ++ q ∷ [] else others))
        × ((k'.tasks q).just_got_forked ≡ false)
        × ((k'.tasks p).array ≡ some a))
unfolding enqueue_task
enqueue_task_forked p a k pending own ne listed =
    let q = k.current in
    let i = (k.tasks p).prio in
    let m = parent_moved q a k in
    let depth = forked_among k.tasks k.task_list in
    let deep : depth ≡ suc (depth - 1) =
      omega (arith, forked_among-flagged k.tasks q k.task_list (pending_flag p k pending) listed) in
    let child : m.tasks p ≡ k.tasks p = parent_moved-tasks q a p k ∙ ground arith in
    let steps : enqueue_task p a k ≡ link_array p a (list_add p a i m) =
      ap (λ d. enqueue_depth d p a k) deep
      ∙ enqueue_depth_forked (depth - 1) q p a k pending own refl
      ∙ ap (λ (t : Task). link_array p a (list_add p a t.prio m)) child in
    let parent : (m.tasks q).just_got_forked ≡ false =
      ap Task.just_got_forked (parent_moved-tasks q a q k) ∙ rw (==_refl q) refl in
    (
      ap (λ (k' : Kernel). (k'.arrays a).queue i) steps
          ∙ front_queue p a i m
          ∙ ap (λ l. p ∷ l) (parent_moved-queue q a i k),
      ap (λ (k' : Kernel). (k'.tasks q).just_got_forked) steps
          ∙ ap Task.just_got_forked (front_tasks p a i q m)
          ∙ ground (arith, parent),
      ap (λ (k' : Kernel). (k'.tasks p).array) steps
          ∙ ap Task.array (front_tasks p a i p m)
          ∙ rw (==_refl p) refl,
    )
