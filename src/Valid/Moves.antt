-- ===== src/Valid/Moves.antt =====
-- A task on its way from one list to another: the invariant with the count of the running tasks.
use os_hw.Base.{ℕ, ◌+◌, ◌<◌, ◌≡◌, ◌≢◌, refl, ◌∙◌, Option, some, arith}
use os_hw.Base.Words.{wrap}
use os_hw.Model.{Task, Runqueue, Kernel, max_prio, set_task, set_rq}
use os_hw.Prio.{pointer_to_my_active_prio_array}
use os_hw.Queue.{dequeue_task, enqueue_task, enqueue_tail}
use os_hw.Queue.Effects.{rq-dequeue, rq-enqueue_tail}
use os_hw.Queue.Frame.{load, load-dequeue, load-enqueue, fork_pending_not, enqueue_task_plain}
use os_hw.Valid.{IsHome, IsTask, HasArrays, IsSound, IsValid}
use os_hw.Valid.Parts.{
  SamePlace, SameQueue, IsSound-alter, SamePointers, IsSound-take, IsSound-put, IsSound-set,
  IsSound-keep, IsSound-rq, IsSound-cong,
}

-- `p` is off its list, and still counted.
pub record IsMoving (p : ℕ) (k : Kernel) : Type 0 where
  pub sound : IsSound (some p) k
  pub running : k.rq.nr_running ≡ wrap (load k + 1)

pub home-lt : (rq : Runqueue) (t : Task) (a : ℕ) → IsHome rq t a → HasArrays rq → a < 4
unfolding pointer_to_my_active_prio_array
home-lt rq t a home h = ground arith

-- Without a fork, enqueue_task is its plain branch.
pub enqueue_task_tail :
    (p a : ℕ) {off : Option ℕ} (k : Kernel)
    → IsSound off k
    → enqueue_task p a k ≡ enqueue_tail p a k
enqueue_task_tail p a k s = enqueue_task_plain p a k (fork_pending_not p k (s.each k.current).calm)

module _ {k : Kernel} (p : ℕ) where
  pub take : (a : ℕ) → IsValid k → (k.tasks p).array ≡ some a → IsMoving p (dequeue_task p a k)
  take a v here = record {
    sound = IsSound-take p a v.sound here;
    running =
        let l = home-lt k.rq (k.tasks p) a (v.sound.homed p a refl here) v.sound.arrays in
        rw (rq-dequeue p a k) (omega (arith, v.running, load-dequeue p a v.sound.sync here l));
  }

  pub put :
      (a : ℕ)
      → IsMoving p k
      → IsHome k.rq (k.tasks p) a
      → p ≢ k.rq.idle
      → IsValid (enqueue_task p a k)
  put a m home ne =
      let l = home-lt k.rq (k.tasks p) a home m.sound.arrays in
      rw (enqueue_task_tail p a k m.sound) (record {
        sound = IsSound-put p a m.sound home ne;
        running =
            rw (rq-enqueue_tail p a k)
              (omega (arith, m.running, load-enqueue p a m.sound.sync (m.sound.queueable p ne) l));
      })

  pub change :
      (t : Task)
      → IsMoving p k
      → IsTask t
      → t.prio < max_prio
      → p ≢ k.rq.idle
      → IsMoving p (set_task k p t)
  change t m fine l ne = record { sound = IsSound-set p t m.sound fine l ne; running = m.running }

  pub keep : (t : Task) → IsValid k → SamePlace (k.tasks p) t → IsValid (set_task k p t)
  keep t v e = record { sound = IsSound-keep p t v.sound e; running = v.running }

  pub alter : (t : Task) → IsValid k → SameQueue (k.tasks p) t → IsTask t → IsValid (set_task k p t)
  alter t v e fine = record { sound = IsSound-alter p t v.sound e fine; running = v.running }

  pub keep_moving :
      (q : ℕ) (t : Task) → IsMoving p k → SamePlace (k.tasks q) t → IsMoving p (set_task k q t)
  keep_moving q t m e = record { sound = IsSound-keep q t m.sound e; running = m.running }

  pub stamp :
      (rq : Runqueue)
      → IsMoving p k
      → SamePointers k.rq rq
      → rq.nr_running ≡ k.rq.nr_running
      → IsMoving p (set_rq k rq)
  stamp rq m e r = record { sound = IsSound-rq rq m.sound e; running = r ∙ m.running }

pub restamp :
    {k : Kernel} (rq : Runqueue)
    → IsValid k
    → SamePointers k.rq rq
    → rq.nr_running ≡ k.rq.nr_running
    → IsValid (set_rq k rq)
restamp rq v e r = record { sound = IsSound-rq rq v.sound e; running = r ∙ v.running }

pub cong :
    (k k' : Kernel)
    → IsValid k
    → k'.tasks ≡ k.tasks
    → k'.arrays ≡ k.arrays
    → k'.rq ≡ k.rq
    → k'.current ≡ k.current
    → IsValid k'
cong k k' v tasks arrays rq current = record {
  sound = IsSound-cong k k' v.sound tasks arrays rq current;
  running = rw (rq, arrays) v.running;
}
