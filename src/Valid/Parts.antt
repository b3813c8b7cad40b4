-- ===== src/Valid/Parts.antt =====
-- The moves of which the scheduler's operations are made, and the invariant.
use os_hw.Base.{ℕ, ◌<◌, ◌≡◌, ◌≢◌, refl, Option, none, some, arith, upd_cases}
use os_hw.Model.{Task, Runqueue, Kernel, max_prio, set_task, set_rq}
use os_hw.Prio.{overdue_task, pointer_to_my_active_prio_array}
use os_hw.Queue.{dequeue_task, enqueue_tail}
use os_hw.Queue.Effects.{
  tasks_upd-enqueue_tail, tasks-dequeue, rq-dequeue, current-dequeue, tasks-enqueue_tail,
  rq-enqueue_tail, current-enqueue_tail,
}
use os_hw.Queue.Sync.{dequeue_task-InSync, enqueue_tail-InSync}
use os_hw.Queue.Frame.{InSync-frame, InSync-off, InSync-on}
use os_hw.Valid.{IsHome, IsTask, IsSound}

-- The fields of a task that the invariant reads.
pub record SamePlace (t t' : Task) : Type 0 where
  pub array : t'.array ≡ t.array
  pub prio : t'.prio ≡ t.prio
  pub static_prio : t'.static_prio ≡ t.static_prio
  pub policy : t'.policy ≡ t.policy
  pub i_am_overdue : t'.i_am_overdue ≡ t.i_am_overdue
  pub overdue_static_prio : t'.overdue_static_prio ≡ t.overdue_static_prio
  pub just_got_forked : t'.just_got_forked ≡ t.just_got_forked

-- ... those of them by which it is queued,
pub record SameQueue (t t' : Task) : Type 0 where
  pub array : t'.array ≡ t.array
  pub prio : t'.prio ≡ t.prio
  pub policy : t'.policy ≡ t.policy
  pub i_am_overdue : t'.i_am_overdue ≡ t.i_am_overdue

-- ... and those of the runqueue.
pub record SamePointers (rq rq' : Runqueue) : Type 0 where
  pub idle : rq'.idle ≡ rq.idle
  pub curr : rq'.curr ≡ rq.curr
  pub active : rq'.active ≡ rq.active
  pub expired : rq'.expired ≡ rq.expired
  pub rt_short : rq'.rt_short ≡ rq.rt_short
  pub overdue : rq'.overdue ≡ rq.overdue

SamePlace-IsTask : {t t' : Task} → SamePlace t t' → IsTask t → IsTask t'
unfolding overdue_task
SamePlace-IsTask e h = ground arith

IsHome-cong :
    {t t' : Task} {rq rq' : Runqueue} (a : ℕ)
    → SameQueue t t'
    → SamePointers rq rq'
    → IsHome rq t a
    → IsHome rq' t' a
unfolding pointer_to_my_active_prio_array
IsHome-cong a e e' h = ground arith

IsHome-moved :
    (t : Task) (rq : Runqueue) {a : ℕ} (b : ℕ)
    → some a ≡ some b
    → IsHome rq t a
    → IsHome rq (record t { array = some a }) b
unfolding pointer_to_my_active_prio_array
IsHome-moved t rq b e h = ground arith

moved_IsTask : {t : Task} (a : ℕ) → IsTask t → IsTask (record t { array = some a })
unfolding overdue_task
moved_IsTask a h = ground arith

same_pointers : (rq : Runqueue) → SamePointers rq rq
same_pointers rq = ground arith

pub same_place : (t : Task) → SamePlace t t
same_place t = ground arith

same_queue : (t : Task) → SameQueue t t
same_queue t = ground arith

module _ (p : ℕ) {k : Kernel} where
  -- dequeue_task of a task from its own array
  pub IsSound-take :
      (a : ℕ) → IsSound none k → (k.tasks p).array ≡ some a → IsSound (some p) (dequeue_task p a k)
  IsSound-take a s here = record {
    sync = dequeue_task-InSync p a s.sync here;
    homed = λ q b o e.
        rw (tasks-dequeue p a k, rq-dequeue p a k)
          (s.homed q b refl (ground (arith, tasks-dequeue p a k)));
    each = λ q. rw (tasks-dequeue p a k) (s.each q);
    queueable = rw (tasks-dequeue p a k, rq-dequeue p a k) s.queueable;
    arrays = rw (rq-dequeue p a k) s.arrays;
    curr = rw (rq-dequeue p a k, current-dequeue p a k) s.curr;
    idle = rw (tasks-dequeue p a k, rq-dequeue p a k) s.idle;
  }

  -- the plain branch of enqueue_task, onto an array where the task belongs
  pub IsSound-put :
      (a : ℕ)
      → IsSound (some p) k
      → IsHome k.rq (k.tasks p) a
      → p ≢ k.rq.idle
      → IsSound none (enqueue_tail p a k)
  IsSound-put a s home ne =
      let t = record (k.tasks p) { array = some a } in
      record {
        sync = enqueue_tail-InSync p a s.sync (s.queueable p ne);
        homed = λ q b o.
            rw (tasks_upd-enqueue_tail p a k, rq-enqueue_tail p a k)
              (upd_cases (λ v. v.array ≡ some b → IsHome k.rq v b) k.tasks p t q
                (λ h e. IsHome-moved (k.tasks p) k.rq b e home) (λ h. s.homed q b (ground arith)));
        each = λ q.
            rw (tasks_upd-enqueue_tail p a k)
              (upd_cases IsTask k.tasks p t q (λ h. moved_IsTask a (s.each p)) (λ h. s.each q));
        queueable = λ q.
            rw (rq-enqueue_tail p a k) (ground (arith, tasks-enqueue_tail p a k q, s.queueable q));
        arrays = rw (rq-enqueue_tail p a k) s.arrays;
        curr = rw (rq-enqueue_tail p a k, current-enqueue_tail p a k) s.curr;
        idle =
            rw (rq-enqueue_tail p a k) (ground (arith, tasks-enqueue_tail p a k k.rq.idle, s.idle));
      }

  -- a change of the fields of a task that is off its list
  pub IsSound-set :
      (t : Task)
      → IsSound (some p) k
      → IsTask t
      → t.prio < max_prio
      → p ≢ k.rq.idle
      → IsSound (some p) (set_task k p t)
  IsSound-set t s fine l ne = record {
    sync = InSync-frame k (set_task k p t) s.sync refl λ q o. ground arith;
    homed = λ q b o.
        upd_cases (λ v. v.array ≡ some b → IsHome k.rq v b) k.tasks p t q (λ h. ground arith)
          (λ h. s.homed q b o);
    each = λ q. upd_cases IsTask k.tasks p t q (λ h. fine) (λ h. s.each q);
    queueable = λ q h. ground (arith, s.queueable q);
    arrays = s.arrays;
    curr = s.curr;
    idle = ground (arith, s.idle);
  }

  -- a change of a task in fields by which it is not queued
  pub IsSound-alter :
      {off : Option ℕ} (t : Task)
      → IsSound off k
      → SameQueue (k.tasks p) t
      → IsTask t
      → IsSound off (set_task k p t)
  IsSound-alter {off} t s e fine = record {
    sync = InSync-frame k (set_task k p t) s.sync refl λ q o. ground arith;
    homed = λ q b o.
        upd_cases (λ v. v.array ≡ some b → IsHome k.rq v b) k.tasks p t q
          (λ h f. IsHome-cong b e (same_pointers k.rq) (s.homed p b (ground arith) (ground arith)))
          (λ h. s.homed q b o);
    each = λ q. upd_cases IsTask k.tasks p t q (λ h. fine) (λ h. s.each q);
    queueable = λ q h. ground (arith, s.queueable q);
    arrays = s.arrays;
    curr = s.curr;
    idle = ground (arith, s.idle);
  }

  -- a change of a task in fields that the invariant does not read
  pub IsSound-keep :
      {off : Option ℕ} (t : Task)
      → IsSound off k
      → SamePlace (k.tasks p) t
      → IsSound off (set_task k p t)
  IsSound-keep t s e = IsSound-alter t s (ground arith) (SamePlace-IsTask e (s.each p))

  -- a task on no array may be treated as one that is off its list, and the other way round
  pub IsSound-off : IsSound none k → (k.tasks p).array ≡ none → IsSound (some p) k
  IsSound-off s e = record {
    sync = InSync-off p s.sync e;
    homed = λ q b o h. s.homed q b refl h;
    each = s.each;
    queueable = s.queueable;
    arrays = s.arrays;
    curr = s.curr;
    idle = s.idle;
  }

  pub IsSound-on : IsSound (some p) k → (k.tasks p).array ≡ none → IsSound none k
  IsSound-on s e = record {
    sync = InSync-on p s.sync e;
    homed = λ q b o h. s.homed q b (ground arith) h;
    each = s.each;
    queueable = s.queueable;
    arrays = s.arrays;
    curr = s.curr;
    idle = s.idle;
  }

-- a change of the runqueue in fields that the invariant does not read
pub IsSound-rq :
    {k : Kernel} {off : Option ℕ} (rq : Runqueue)
    → IsSound off k
    → SamePointers k.rq rq
    → IsSound off (set_rq k rq)
IsSound-rq {k} {off} rq s e = record {
  sync = InSync-frame k (set_rq k rq) s.sync refl λ q o. (refl, refl);
  homed = λ q b o h. IsHome-cong b (same_queue (k.tasks q)) e (s.homed q b o h);
  each = s.each;
  queueable = λ q h. s.queueable q (ground arith);
  arrays = ground (arith, s.arrays);
  curr = ground (arith, s.curr);
  idle = ground (arith, s.idle);
}

-- a change of the memory outside of the tasks, the arrays, the runqueue and `current`
pub IsSound-cong :
    {off : Option ℕ} (k k' : Kernel)
    → IsSound off k
    → k'.tasks ≡ k.tasks
    → k'.arrays ≡ k.arrays
    → k'.rq ≡ k.rq
    → k'.current ≡ k.current
    → IsSound off k'
IsSound-cong k k' s tasks arrays rq current = record {
  sync = InSync-frame k k' s.sync arrays λ q o. rw tasks (refl, refl);
  homed = rw (tasks, rq) s.homed;
  each = rw tasks s.each;
  queueable = rw (tasks, rq) s.queueable;
  arrays = rw rq s.arrays;
  curr = rw (rq, current) s.curr;
  idle = rw (tasks, rq) s.idle;
}
