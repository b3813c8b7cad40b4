-- ===== src/Balance/Fixed.antt =====
-- What dequeue_task, enqueue_task and resched_task of sharedFolderHW2/sched.c leave of every task: its
-- processors, and the time at which it went to sleep; and the clock.
use os_hw.Base.{ℕ, zero, suc, ◌≡◌, refl, ap, ◌∙◌, arith, if_split}
use os_hw.Model.{Kernel, Task}
use os_hw.Queue.{
  dequeue_task, enqueue_depth, enqueue_task, enqueue_tail, link_array, list_add, clear_forked,
}
use os_hw.Queue.Effects.{tasks-dequeue, jiffies-dequeue}
use os_hw.Runqueue.{resched_task}

-- What the queues of tasks leave of the tasks.
pub record IsFixed (k k' : Kernel) : Type 0 where
  pub allowed : (q : ℕ) → (k'.tasks q).cpus_allowed ≡ (k.tasks q).cpus_allowed
  pub slept : (q : ℕ) → (k'.tasks q).sleep_timestamp ≡ (k.tasks q).sleep_timestamp
  pub clock : k'.jiffies ≡ k.jiffies

pub IsFixed-trans : (a b c : Kernel) → IsFixed a b → IsFixed b c → IsFixed a c
IsFixed-trans a b c h k = record {
  allowed = λ q. k.allowed q ∙ h.allowed q;
  slept = λ q. k.slept q ∙ h.slept q;
  clock = k.clock ∙ h.clock;
}

pub dequeue_task-IsFixed : (p a : ℕ) (k : Kernel) → IsFixed k (dequeue_task p a k)
dequeue_task-IsFixed p a k = record {
  allowed = λ q. ap (λ (f : ℕ → Task). (f q).cpus_allowed) (tasks-dequeue p a k);
  slept = λ q. ap (λ (f : ℕ → Task). (f q).sleep_timestamp) (tasks-dequeue p a k);
  clock = jiffies-dequeue p a k;
}

link_array-IsFixed : (p a : ℕ) (k : Kernel) → IsFixed k (link_array p a k)
unfolding link_array
link_array-IsFixed p a k = record {
  allowed = λ q. ground arith;
  slept = λ q. ground arith;
  clock = ground arith;
}

enqueue_tail-IsFixed : (p a : ℕ) (k : Kernel) → IsFixed k (enqueue_tail p a k)
unfolding enqueue_tail
enqueue_tail-IsFixed p a k = record {
  allowed = λ q. ground arith;
  slept = λ q. ground arith;
  clock = ground arith;
}

list_add-IsFixed : (p a i : ℕ) (k : Kernel) → IsFixed k (list_add p a i k)
unfolding list_add
list_add-IsFixed p a i k = record { allowed = λ q. refl; slept = λ q. refl; clock = refl }

clear_forked-IsFixed : (p : ℕ) (k : Kernel) → IsFixed k (clear_forked p k)
unfolding clear_forked
clear_forked-IsFixed p k = record {
  allowed = λ q. ground arith;
  slept = λ q. ground arith;
  clock = refl;
}

enqueue_depth-IsFixed : (depth p a : ℕ) (k : Kernel) → IsFixed k (enqueue_depth depth p a k)
unfolding enqueue_depth
enqueue_depth-IsFixed zero p a k = enqueue_tail-IsFixed p a k
enqueue_depth-IsFixed (suc depth) p a k =
    let parent = (k.tasks p).p_opptr in
    let k1 = clear_forked parent k in
    let k2 = dequeue_task parent a k1 in
    let moved = enqueue_depth depth parent a k2 in
    let k3 = list_add p a (moved.tasks p).prio moved in
    if_split (IsFixed k) _ _ _
      (λ b. IsFixed-trans k k1 (link_array p a k3) (clear_forked-IsFixed parent k) (
        IsFixed-trans k1 k2 (link_array p a k3) (dequeue_task-IsFixed parent a k1) (
          IsFixed-trans k2 moved (link_array p a k3) (enqueue_depth-IsFixed depth parent a k2) (
            IsFixed-trans moved k3 (link_array p a k3)
              (list_add-IsFixed p a (moved.tasks p).prio moved) (link_array-IsFixed p a k3)))))
      (λ b. enqueue_tail-IsFixed p a k)

pub enqueue_task-IsFixed : (p a : ℕ) (k : Kernel) → IsFixed k (enqueue_task p a k)
unfolding enqueue_task
enqueue_task-IsFixed p a k = enqueue_depth-IsFixed _ p a k

pub resched_task-IsFixed : (p : ℕ) (k : Kernel) → IsFixed k (resched_task p k)
unfolding resched_task
resched_task-IsFixed p k = record {
  allowed = λ q. ground arith;
  slept = λ q. ground arith;
  clock = refl;
}
