-- ===== src/Queue/Effects.antt =====
-- What dequeue_task and the plain branch of enqueue_task do to each part of the memory.
use os_hw.Base.{
  ℕ, ◌≡◌, refl, upd, true, false, ◌&&◌, some, [], ◌∷◌, ◌++◌, arith, ◌==◌, if◌then◌else◌, is_empty,
  remove,
}
use os_hw.Base.Words.{inc, dec}
use os_hw.Model.{Kernel}
use os_hw.Queue.{dequeue_task, enqueue_tail}

module _ (p a : ℕ) (k : Kernel) where
  pub queue-dequeue :
      (b i : ℕ) → ((dequeue_task p a k).arrays b).queue i ≡ remove p ((k.arrays b).queue i)
  unfolding dequeue_task
  queue-dequeue b i = ground arith

  pub bitmap-dequeue :
      (b i : ℕ)
      → ((dequeue_task p a k).arrays b).bitmap i ≡ (
          if a == b && ((k.tasks p).prio == i && is_empty (remove p ((k.arrays b).queue i)))
          then false
          else (k.arrays b).bitmap i)
  unfolding dequeue_task
  bitmap-dequeue b i = ground arith

  pub nr_active-dequeue :
      (b : ℕ)
      → ((dequeue_task p a k).arrays b).nr_active
        ≡ (if a == b then dec (k.arrays b).nr_active else (k.arrays b).nr_active)
  unfolding dequeue_task
  nr_active-dequeue b = ground arith

  pub tasks-dequeue : (dequeue_task p a k).tasks ≡ k.tasks
  unfolding dequeue_task
  tasks-dequeue = ground arith

  pub rq-dequeue : (dequeue_task p a k).rq ≡ k.rq
  unfolding dequeue_task
  rq-dequeue = ground arith

  pub current-dequeue : (dequeue_task p a k).current ≡ k.current
  unfolding dequeue_task
  current-dequeue = ground arith

  pub jiffies-dequeue : (dequeue_task p a k).jiffies ≡ k.jiffies
  unfolding dequeue_task
  jiffies-dequeue = ground arith

  pub queue-enqueue_tail :
      (b i : ℕ)
      → ((enqueue_tail p a k).arrays b).queue i ≡ (
          if a == b && (k.tasks p).prio == i
          then (k.arrays b).queue i ++ p ∷ []
          else (k.arrays b).queue i)
  unfolding enqueue_tail
  queue-enqueue_tail b i = ground arith

  pub bitmap-enqueue_tail :
      (b i : ℕ)
      → ((enqueue_tail p a k).arrays b).bitmap i
        ≡ (if a == b && (k.tasks p).prio == i then true else (k.arrays b).bitmap i)
  unfolding enqueue_tail
  bitmap-enqueue_tail b i = ground arith

  pub nr_active-enqueue_tail :
      (b : ℕ)
      → ((enqueue_tail p a k).arrays b).nr_active
        ≡ (if a == b then inc (k.arrays b).nr_active else (k.arrays b).nr_active)
  unfolding enqueue_tail
  nr_active-enqueue_tail b = ground arith

  pub tasks-enqueue_tail :
      (q : ℕ)
      → (enqueue_tail p a k).tasks q
        ≡ (if p == q then record (k.tasks q) { array = some a } else k.tasks q)
  unfolding enqueue_tail
  tasks-enqueue_tail q = ground arith

  pub rq-enqueue_tail : (enqueue_tail p a k).rq ≡ k.rq
  unfolding enqueue_tail
  rq-enqueue_tail = ground arith

  pub current-enqueue_tail : (enqueue_tail p a k).current ≡ k.current
  unfolding enqueue_tail
  current-enqueue_tail = ground arith

  pub tasks_upd-enqueue_tail :
      (enqueue_tail p a k).tasks ≡ upd k.tasks p (record (k.tasks p) { array = some a })
  unfolding enqueue_tail
  tasks_upd-enqueue_tail = refl
