-- ===== src/Queue/Sync.antt =====
-- The invariant of the four priority arrays: what a task's fields say of its place agrees with the
-- lists, and the bitmap and the counter of an array agree with its lists.
use os_hw.Base.{
  ℕ, ◌+◌, ◌<◌, ◌≡◌, ◌≢◌, refl, true, false, not, ◌&&◌, Option, none, some, [], ◌∷◌, arith, ◌==◌,
  if◌then◌else◌, is_empty, length, count, points_to, sum_below, sum_below-ext, sum_below_bump,
  count-remove, count-append, length-remove, length-append, is_empty-snoc, remove_absent,
  count_empty,
}
use os_hw.Base.Words.{wrap}
use os_hw.Model.{Task, PrioArray, Kernel, max_prio}
use os_hw.Queue.{dequeue_task, enqueue_tail}
use os_hw.Queue.Effects.{
  queue-dequeue, bitmap-dequeue, nr_active-dequeue, tasks-dequeue, queue-enqueue_tail,
  bitmap-enqueue_tail, nr_active-enqueue_tail, tasks-enqueue_tail,
}

-- 1 where the task's own fields place it on list `i` of array `a`.
abbrev pub slot : Task → ℕ → ℕ → ℕ
slot t a i = if points_to t.array a && t.prio == i then 1 else 0

-- The number of tasks on all lists of an array.
abbrev pub total : PrioArray → ℕ
total v = sum_below max_prio (λ i. length (v.queue i))

-- `off` is a task that has been taken off its list while its `array` still points there.
pub record InSync (off : Option ℕ) (k : Kernel) : Type 0 where
  pub placed :
      (a i q : ℕ)
      → count q ((k.arrays a).queue i) ≡ (if points_to off q then 0 else slot (k.tasks q) a i)
  pub marked :
      (a i : ℕ) → i < max_prio → (k.arrays a).bitmap i ≡ not (is_empty ((k.arrays a).queue i))
  pub delimiter : (a : ℕ) → (k.arrays a).bitmap max_prio ≡ true
  pub counted : (a : ℕ) → (k.arrays a).nr_active ≡ wrap (total (k.arrays a))
  pub ranged :
      (q a : ℕ) → points_to off q ≡ false → (k.tasks q).array ≡ some a → (k.tasks q).prio < max_prio

module _ (p a : ℕ) {k : Kernel} (s : InSync none k) (here : (k.tasks p).array ≡ some a) where
  prio-lt : (k.tasks p).prio < max_prio
  prio-lt = s.ranged p a refl here

  -- On the lists of its own array the task stands once, and nowhere else.
  count_self :
      (b i : ℕ)
      → count p ((k.arrays b).queue i) ≡ (if a == b && (k.tasks p).prio == i then 1 else 0)
  count_self b i = ground (arith, s.placed b i p)

  nonempty : is_empty ((k.arrays a).queue (k.tasks p).prio) ≡ false
  nonempty =
      ground
        (arith, count_self a (k.tasks p).prio, count_empty p ((k.arrays a).queue (k.tasks p).prio))

  marked-dequeue :
      (b i : ℕ)
      → i < max_prio
      → ((dequeue_task p a k).arrays b).bitmap i
        ≡ not (is_empty (((dequeue_task p a k).arrays b).queue i))
  marked-dequeue b i l =
      rw (bitmap-dequeue p a k b i, queue-dequeue p a k b i)
        (ground
          (arith, count_self b i, remove_absent p ((k.arrays b).queue i), s.marked b i l, nonempty))

  pub total-dequeue_self : total (k.arrays a) ≡ total ((dequeue_task p a k).arrays a) + 1
  total-dequeue_self =
      sum_below_bump max_prio (k.tasks p).prio
        (λ i. length (((dequeue_task p a k).arrays a).queue i)) (λ i. length ((k.arrays a).queue i))
        prio-lt
        λ i l.
          rw (queue-dequeue p a k a i)
            (ground (arith, count_self a i, length-remove p ((k.arrays a).queue i)))

  pub total-dequeue_ne :
      (b : ℕ) → a ≢ b → total ((dequeue_task p a k).arrays b) ≡ total (k.arrays b)
  total-dequeue_ne b ne =
      sum_below-ext max_prio (λ i. length (((dequeue_task p a k).arrays b).queue i))
        (λ i. length ((k.arrays b).queue i))
        λ i l.
          rw (queue-dequeue p a k b i)
            (ground (arith, count_self b i, remove_absent p ((k.arrays b).queue i)))

  counted-dequeue :
      (b : ℕ)
      → ((dequeue_task p a k).arrays b).nr_active ≡ wrap (total ((dequeue_task p a k).arrays b))
  counted-dequeue b =
      rw (nr_active-dequeue p a k b)
        (ground (arith, total-dequeue_self, total-dequeue_ne b, s.counted b))

  -- dequeue_task takes a task off its own array.
  pub dequeue_task-InSync : InSync (some p) (dequeue_task p a k)
  dequeue_task-InSync = record {
    placed = λ b i q.
        rw (queue-dequeue p a k b i, tasks-dequeue p a k, count-remove q p ((k.arrays b).queue i))
          (ground (arith, s.placed b i q));
    marked = marked-dequeue;
    delimiter = λ b. rw (bitmap-dequeue p a k b max_prio) (ground (arith, s.delimiter b, prio-lt));
    counted = counted-dequeue;
    ranged = λ q b e h. ground (arith, tasks-dequeue p a k, s.ranged q b);
  }

module _ (p a : ℕ) {k : Kernel} (s : InSync (some p) k) (l : (k.tasks p).prio < max_prio) where
  absent : (b i : ℕ) → count p ((k.arrays b).queue i) ≡ 0
  absent b i = ground (arith, s.placed b i p)

  pub total-enqueue_self : total ((enqueue_tail p a k).arrays a) ≡ total (k.arrays a) + 1
  total-enqueue_self =
      sum_below_bump max_prio (k.tasks p).prio (λ i. length ((k.arrays a).queue i))
        (λ i. length (((enqueue_tail p a k).arrays a).queue i)) l
        λ i h.
          rw (queue-enqueue_tail p a k a i)
            (ground (arith, length-append ((k.arrays a).queue i) (p ∷ [])))

  pub total-enqueue_ne :
      (b : ℕ) → a ≢ b → total ((enqueue_tail p a k).arrays b) ≡ total (k.arrays b)
  total-enqueue_ne b ne =
      sum_below-ext max_prio (λ i. length (((enqueue_tail p a k).arrays b).queue i))
        (λ i. length ((k.arrays b).queue i)) λ i h. rw (queue-enqueue_tail p a k b i) (ground arith)

  -- The plain branch of enqueue_task puts it on the given array.
  pub enqueue_tail-InSync : InSync none (enqueue_tail p a k)
  unfolding count
  enqueue_tail-InSync = record {
    placed = λ b i q.
        rw (queue-enqueue_tail p a k b i, tasks-enqueue_tail p a k q)
          (ground
            (arith, s.placed b i q, absent b i, count-append q ((k.arrays b).queue i) (p ∷ [])));
    marked = λ b i h.
        rw (bitmap-enqueue_tail p a k b i, queue-enqueue_tail p a k b i)
          (ground (arith, s.marked b i h, is_empty-snoc ((k.arrays b).queue i) p));
    delimiter = λ b. rw (bitmap-enqueue_tail p a k b max_prio) (ground (arith, s.delimiter b));
    counted = λ b.
        rw (nr_active-enqueue_tail p a k b)
          (ground (arith, total-enqueue_self, total-enqueue_ne b, s.counted b));
    ranged = λ q b e h. ground (arith, tasks-enqueue_tail p a k q, s.ranged q b);
  }
