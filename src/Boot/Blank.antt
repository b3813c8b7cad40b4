-- ===== src/Boot/Blank.antt =====
-- The memory before sched_init, the arrays after init_runqueue, and the fields of the idle task.
use os_hw.Base.{
  ℕ, ◌<◌, ◌≤◌, ◌≡◌, ◌≢◌, refl, none, some, arith, upd, upd_cases, count, sum_below, ==_refl,
}
use os_hw.Model.{Task, Runqueue, Kernel, max_prio, set_task}
use os_hw.Boot.{init_prio_array, init_runqueue}
use os_hw.Boot.Lists.{IsBlank, IsUnused, init_prio_array-IsBlank, total-IsBlank}
use os_hw.Boot.Waking.{with_idle}
use os_hw.Prio.{pointer_to_my_active_prio_array}
use os_hw.Queue.Frame.{load, InSync-frame, InSync-off, InSync-on}
use os_hw.Valid.{IsHome, IsTask, HasArrays, IsValid}

-- The memory before sched_init: no task is queued, and the counts are zero. The lists and the bits of
-- the four arrays may be anything.
pub record IsBooting (k : Kernel) : Type 0 where
  pub alone : (q : ℕ) → (k.tasks q).array ≡ none
  pub each : (q : ℕ) → IsTask (k.tasks q)
  pub queueable : (q : ℕ) → (k.tasks q).prio < max_prio
  pub unused : (a : ℕ) → IsUnused (k.arrays a)
  -- there are but four arrays
  pub others : (a : ℕ) → 4 ≤ a → IsBlank (k.arrays a)
  pub nothing_runs : k.rq.nr_running ≡ 0

pub init_runqueue-IsBlank :
    (k : Kernel) → IsBooting k → (a : ℕ) → IsBlank ((init_runqueue k).arrays a)
unfolding init_runqueue
init_runqueue-IsBlank k b a =
    let v = λ (a : ℕ). init_prio_array (k.arrays a) in
    let h = λ (a : ℕ). init_prio_array-IsBlank (k.arrays a) (b.unused a) in
    let f1 = upd k.arrays 0 (v 0) in
    let f2 = upd f1 1 (v 1) in
    let f3 = upd f2 2 (v 2) in
    upd_cases IsBlank f3 3 (v 3) a (λ _. h 3)
      λ n3.
        upd_cases IsBlank f2 2 (v 2) a (λ _. h 2)
          λ n2.
            upd_cases IsBlank f1 1 (v 1) a (λ _. h 1)
              λ n1. upd_cases IsBlank k.arrays 0 (v 0) a (λ _. h 0) λ n0. b.others a (omega arith)

blank_load : (k : Kernel) → ((a : ℕ) → IsBlank (k.arrays a)) → load k ≡ 0
unfolding sum_below
blank_load k blank =
    rw
      (
        total-IsBlank (k.arrays 0) (blank 0),
        total-IsBlank (k.arrays 1) (blank 1),
        total-IsBlank (k.arrays 2) (blank 2),
        total-IsBlank (k.arrays 3) (blank 3),
      )
      refl

-- A machine whose arrays are blank.
pub blank-IsValid :
    (k : Kernel)
    → ((a : ℕ) → IsBlank (k.arrays a))
    → ((q : ℕ) → (k.tasks q).array ≡ none)
    → ((q : ℕ) → IsTask (k.tasks q))
    → ((q : ℕ) → (k.tasks q).prio < max_prio)
    → HasArrays k.rq
    → k.rq.curr ≡ k.current
    → k.rq.nr_running ≡ 0
    → IsValid k
unfolding count
blank-IsValid k blank alone each queueable arrays curr running = record {
  sound = record {
    sync = record {
      placed = λ a i q. ground (arith, (blank a).empty i, alone q);
      marked = λ a i l. ground (arith, (blank a).empty i, (blank a).clear i l);
      delimiter = λ a. (blank a).delimiter;
      counted = λ a. ground (arith, total-IsBlank (k.arrays a) (blank a), (blank a).none_active);
      ranged = λ q a o e. ground (arith, alone q);
    };
    homed = λ q a o e. cc (alone q, e);
    each = each;
    queueable = λ q h. queueable q;
    arrays = arrays;
    curr = curr;
    idle = alone k.rq.idle;
  };
  running = rw (running, blank_load k blank) refl;
}

IsHome-idle :
    (rq : Runqueue) (i a : ℕ) (t : Task) → IsHome rq t a → IsHome (record rq { idle = i }) t a
unfolding pointer_to_my_active_prio_array
IsHome-idle rq i a t h = h

-- The fields of the idle task, and the pointer to it.
pub idle_fields-IsValid :
    (p : ℕ) (t : Task) (k : Kernel)
    → IsValid k
    → (k.tasks p).array ≡ none
    → t.array ≡ none
    → IsTask t
    → ((q : ℕ) → q ≢ p → (k.tasks q).prio < max_prio)
    → IsValid (set_task (with_idle p k) p t)
idle_fields-IsValid p t k v off off' fine queueable =
    let s = v.sound in
    record {
      sound = record {
        sync =
            InSync-on p
              (InSync-frame k (set_task (with_idle p k) p t) (InSync-off p s.sync off) refl
                λ q o. ground arith)
              (rw (==_refl p) off');
        homed = λ q a o.
            upd_cases (λ u. u.array ≡ some a → IsHome (record (k.rq) { idle = p }) u a) k.tasks p t
              q (λ _ e. cc (off', e)) (λ _ e. IsHome-idle k.rq p a (k.tasks q) (s.homed q a o e));
        each = λ q. upd_cases IsTask k.tasks p t q (λ _. fine) (λ _. s.each q);
        queueable = λ q ne. ground (arith, queueable q);
        arrays = ground (arith, s.arrays);
        curr = s.curr;
        idle = rw (==_refl p) off';
      };
      running = v.running;
    }
