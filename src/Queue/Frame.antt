-- ===== src/Queue/Frame.antt =====
-- Changes of the memory that the invariant of the arrays survives, and the load of the runqueue.
use os_hw.Base.{
  ℕ, zero, suc, ◌+◌, ◌<◌, ◌≡◌, refl, false, Option, none, some, arith, points_to, sum_below,
  sum_below_bump,
}
use os_hw.Model.{Kernel, max_prio}
use os_hw.Queue.{dequeue_task, enqueue_tail, enqueue_depth, enqueue_task, fork_pending}
use os_hw.Queue.Sync.{
  InSync, total, total-dequeue_self, total-dequeue_ne, total-enqueue_self, total-enqueue_ne,
}

-- The arrays stay, and no task but the one that is off its list changes its place.
pub InSync-frame :
    {off : Option ℕ} (k k' : Kernel)
    → InSync off k
    → k'.arrays ≡ k.arrays
    → ((q : ℕ)
        → points_to off q ≡ false
        → ((k'.tasks q).array ≡ (k.tasks q).array) × ((k'.tasks q).prio ≡ (k.tasks q).prio))
    → InSync off k'
InSync-frame {off} k k' s arrays same = record {
  placed = λ a i q. ground (arith, arrays, s.placed a i q, same q);
  marked = λ a i l. ground (arith, arrays, s.marked a i l);
  delimiter = λ a. ground (arith, arrays, s.delimiter a);
  counted = λ a. ground (arith, arrays, s.counted a);
  ranged = λ q a e h. ground (arith, same q, s.ranged q a e);
}

-- A task on no array is off its list.
pub InSync-off : (p : ℕ) {k : Kernel} → InSync none k → (k.tasks p).array ≡ none → InSync (some p) k
InSync-off p {k} s e = record {
  placed = λ a i q. ground (arith, s.placed a i q);
  marked = s.marked;
  delimiter = s.delimiter;
  counted = s.counted;
  ranged = λ q a h. s.ranged q a refl;
}

-- A task that is off its list may forget its array.
pub InSync-on : (p : ℕ) {k : Kernel} → InSync (some p) k → (k.tasks p).array ≡ none → InSync none k
InSync-on p {k} s e = record {
  placed = λ a i q. ground (arith, s.placed a i q);
  marked = s.marked;
  delimiter = s.delimiter;
  counted = s.counted;
  ranged = λ q a h f. ground (arith, s.ranged q a);
}

-- The tasks on all four arrays.
abbrev pub load : Kernel → ℕ
load k = sum_below 4 (λ a. total (k.arrays a))

pub load-dequeue :
    (p a : ℕ) {k : Kernel}
    → InSync none k
    → (k.tasks p).array ≡ some a
    → a < 4
    → load k ≡ load (dequeue_task p a k) + 1
load-dequeue p a {k} s here l =
    sum_below_bump 4 a (λ b. total ((dequeue_task p a k).arrays b)) (λ b. total (k.arrays b)) l
      λ b h. ground (arith, total-dequeue_self p a s here, total-dequeue_ne p a s here b)

pub load-enqueue :
    (p a : ℕ) {k : Kernel}
    → InSync (some p) k
    → (k.tasks p).prio < max_prio
    → a < 4
    → load (enqueue_tail p a k) ≡ load k + 1
load-enqueue p a {k} s h l =
    sum_below_bump 4 a (λ b. total (k.arrays b)) (λ b. total ((enqueue_tail p a k).arrays b)) l
      λ b h'. ground (arith, total-enqueue_self p a s h, total-enqueue_ne p a s h b)

-- While `current` has not just forked, enqueue_task takes its plain branch.
pub fork_pending_not :
    (p : ℕ) (k : Kernel) → (k.tasks k.current).just_got_forked ≡ false → fork_pending p k ≡ false
unfolding fork_pending
fork_pending_not p k e = ground arith

pub enqueue_depth_plain :
    (depth p a : ℕ) (k : Kernel)
    → fork_pending p k ≡ false
    → enqueue_depth depth p a k ≡ enqueue_tail p a k
unfolding enqueue_depth
enqueue_depth_plain zero p a k e = refl
enqueue_depth_plain (suc depth) p a k e = rw e

pub enqueue_task_plain :
    (p a : ℕ) (k : Kernel) → fork_pending p k ≡ false → enqueue_task p a k ≡ enqueue_tail p a k
unfolding enqueue_task
enqueue_task_plain p a k e = enqueue_depth_plain _ p a k e
