-- ===== src/DoFork/Labels.antt =====
-- What the error labels of do_fork (fork.c) give back of what the fork has taken so far.
use mathlib.Core.Path.{subst}
use os_hw.Base.{
  ℕ, Bool, if_split, sym, ◌+◌, ◌≡◌, ◌<◌, refl, ◌∙◌, arith, Bool-cases, Option-cases, inl, inr,
}
use os_hw.Base.Words.{word_size, inc, dec}
use os_hw.Capable.{capable}
use os_hw.Model.{Env, Kernel, Capability}
use os_hw.DoFork.State.{Copies, ForkEnv, World, Progress, ◌>>=◌}
use os_hw.DoFork.Unwinding.{
  bad_fork_free, bad_fork_cleanup_count, bad_fork_cleanup, bad_fork_cleanup_files,
  bad_fork_cleanup_fs, bad_fork_cleanup_sighand, bad_fork_cleanup_mm, bad_fork_cleanup_namespace,
}
use os_hw.DoFork.{share_or, thread_or, fork_copies, fork_files, fork_fs, fork_sighand, fork_mm}

-- The parts of the kernel that the rest of the system sees.
pub record IsKept (k k' : Kernel) : Type 0 where
  pub rq : k'.rq ≡ k.rq
  pub arrays : k'.arrays ≡ k.arrays
  pub task_list : k'.task_list ≡ k.task_list
  pub pidhash : k'.pidhash ≡ k.pidhash
  pub current : k'.current ≡ k.current
  pub jiffies : k'.jiffies ≡ k.jiffies

-- What a failed fork took of task structs, users, modules and domains is given back, and the counters and
-- the kernel are as before. Nothing is said of the files and the memory.
pub record IsRestored {Held R : Type 0} (w0 w : World Held R) : Type 0 where
  pub held : w.held ≡ w0.held
  pub processes : w.processes ≡ w0.processes
  pub nr_threads : w.nr_threads ≡ w0.nr_threads
  pub total_forks : w.total_forks ≡ w0.total_forks
  pub kernel : IsKept w0.kernel w.kernel

-- `undo` and a step down of the count of processes would give all back.
pub record IsOwing {Held R : Type 0} (undo : Held → Held) (w0 w : World Held R) : Type 0 where
  pub held : undo w.held ≡ w0.held
  pub processes : dec w.processes ≡ w0.processes
  pub nr_threads : w.nr_threads ≡ w0.nr_threads
  pub total_forks : w.total_forks ≡ w0.total_forks
  pub kernel : IsKept w0.kernel w.kernel

-- The end of a part: an error has given all back, and a value is as told.
abbrev pub Ends :
    {Held R : Type 0} → World Held R → (ℕ → World Held R → Type 0) → Progress Held R ℕ → Type 0
Ends w0 Good Progress.halted = Unit
Ends w0 Good (Progress.failed w e) = IsRestored w0 w
Ends w0 Good (Progress.went p w) = Good p w

pub IsKept-refl : (k : Kernel) → IsKept k k
IsKept-refl k = record {
  rq = refl;
  arrays = refl;
  task_list = refl;
  pidhash = refl;
  current = refl;
  jiffies = refl;
}

pub IsKept-trans : (k k' k'' : Kernel) → IsKept k k' → IsKept k' k'' → IsKept k k''
IsKept-trans k k' k'' a b = record {
  rq = b.rq ∙ a.rq;
  arrays = b.arrays ∙ a.arrays;
  task_list = b.task_list ∙ a.task_list;
  pidhash = b.pidhash ∙ a.pidhash;
  current = b.current ∙ a.current;
  jiffies = b.jiffies ∙ a.jiffies;
}

pub dec-inc_count : (n : ℕ) → n + 1 < word_size → dec (inc n) ≡ n
dec-inc_count n h = omega arith

pub IsKept-capable : (env : Env) (c : Capability) (k : Kernel) → IsKept k ((capable env c k).0)
unfolding capable
IsKept-capable env c k = elim (Bool-cases (env.cap_raised (k.tasks k.current).cap_effective c)) [
  | inl e ↦ rw e (record {
    rq = refl;
    arrays = refl;
    task_list = refl;
    pidhash = refl;
    current = refl;
    jiffies = refl;
  })
  | inr e ↦ rw e (IsKept-refl k)
]

pub bind-Ends :
    {Held R : Type 0} (w0 : World Held R) (P Q : ℕ → World Held R → Type 0) (r : Progress Held R ℕ)
    (f : ℕ → World Held R → Progress Held R ℕ)
    → Ends w0 P r
    → ((p : ℕ) (w : World Held R) → P p w → Ends w0 Q (f p w))
    → Ends w0 Q (r >>= f)
bind-Ends w0 P Q Progress.halted f h g = tt
bind-Ends w0 P Q (Progress.failed w e) f h g = h
bind-Ends w0 P Q (Progress.went p w) f h g = g p w h

module _ {Held R : Type 0} (env : ForkEnv Held R) where
  -- What the labels do to what is held, from the last label up.
  abbrev pub undo_count : ℕ → Held → Held
  undo_count p h = env.free_task_struct p (env.free_uid p h)

  abbrev pub undo_modules : ℕ → Held → Held
  undo_modules p h = undo_count p (env.dec_module p (env.put_exec_domain p h))

  -- A label gives back what `undo` gives back, and the count of the user; of the files and the memory
  -- it makes what it makes.
  pub record Performs (label : ℕ → World Held R → World Held R) (undo : ℕ → Held → Held)
      : Type 0 where
    pub held : (p : ℕ) (w : World Held R) → (label p w).held ≡ undo p w.held
    pub processes : (p : ℕ) (w : World Held R) → (label p w).processes ≡ dec w.processes
    pub nr_threads : (p : ℕ) (w : World Held R) → (label p w).nr_threads ≡ w.nr_threads
    pub total_forks : (p : ℕ) (w : World Held R) → (label p w).total_forks ≡ w.total_forks
    pub kernel : (p : ℕ) (w : World Held R) → (label p w).kernel ≡ w.kernel

  pub Performs-count : Performs (bad_fork_cleanup_count env) undo_count
  unfolding bad_fork_cleanup_count bad_fork_free
  Performs-count = record {
    held = λ p w. refl;
    processes = λ p w. refl;
    nr_threads = λ p w. refl;
    total_forks = λ p w. refl;
    kernel = λ p w. refl;
  }

  pub Performs-modules : Performs (bad_fork_cleanup env) undo_modules
  unfolding bad_fork_cleanup bad_fork_cleanup_count bad_fork_free
  Performs-modules = record {
    held = λ p w. refl;
    processes = λ p w. refl;
    nr_threads = λ p w. refl;
    total_forks = λ p w. refl;
    kernel = λ p w. refl;
  }

  Performs-files : Performs (bad_fork_cleanup_files env) undo_modules
  unfolding bad_fork_cleanup_files bad_fork_cleanup bad_fork_cleanup_count bad_fork_free
  Performs-files = record {
    held = λ p w. refl;
    processes = λ p w. refl;
    nr_threads = λ p w. refl;
    total_forks = λ p w. refl;
    kernel = λ p w. refl;
  }

  Performs-fs : Performs (bad_fork_cleanup_fs env) undo_modules
  unfolding bad_fork_cleanup_fs bad_fork_cleanup_files bad_fork_cleanup bad_fork_cleanup_count
      bad_fork_free
  Performs-fs = record {
    held = λ p w. refl;
    processes = λ p w. refl;
    nr_threads = λ p w. refl;
    total_forks = λ p w. refl;
    kernel = λ p w. refl;
  }

  Performs-sighand : Performs (bad_fork_cleanup_sighand env) undo_modules
  unfolding bad_fork_cleanup_sighand bad_fork_cleanup_fs bad_fork_cleanup_files bad_fork_cleanup
      bad_fork_cleanup_count bad_fork_free
  Performs-sighand = record {
    held = λ p w. refl;
    processes = λ p w. refl;
    nr_threads = λ p w. refl;
    total_forks = λ p w. refl;
    kernel = λ p w. refl;
  }

  Performs-mm : Performs (bad_fork_cleanup_mm env) undo_modules
  unfolding bad_fork_cleanup_mm bad_fork_cleanup_sighand bad_fork_cleanup_fs bad_fork_cleanup_files
      bad_fork_cleanup bad_fork_cleanup_count bad_fork_free
  Performs-mm = record {
    held = λ p w. refl;
    processes = λ p w. refl;
    nr_threads = λ p w. refl;
    total_forks = λ p w. refl;
    kernel = λ p w. refl;
  }

  Performs-namespace : Performs (bad_fork_cleanup_namespace env) undo_modules
  unfolding bad_fork_cleanup_namespace bad_fork_cleanup_mm bad_fork_cleanup_sighand
      bad_fork_cleanup_fs bad_fork_cleanup_files bad_fork_cleanup bad_fork_cleanup_count
      bad_fork_free
  Performs-namespace = record {
    held = λ p w. refl;
    processes = λ p w. refl;
    nr_threads = λ p w. refl;
    total_forks = λ p w. refl;
    kernel = λ p w. refl;
  }

  pub label-IsRestored :
      (label : ℕ → World Held R → World Held R) (undo : ℕ → Held → Held) (p : ℕ)
      (w0 w : World Held R)
      → Performs label undo
      → IsOwing (undo p) w0 w
      → IsRestored w0 (label p w)
  label-IsRestored label undo p w0 w done owing = record {
    held = done.held p w ∙ owing.held;
    processes = done.processes p w ∙ owing.processes;
    nr_threads = done.nr_threads p w ∙ owing.nr_threads;
    total_forks = done.total_forks p w ∙ owing.total_forks;
    kernel = subst (IsKept w0.kernel) (sym (done.kernel p w)) owing.kernel;
  }

  -- What is still to be given back after the domain and the module have been taken.
  abbrev pub Owes : World Held R → ℕ → World Held R → Type 0
  Owes w0 p w = IsOwing (undo_modules p) w0 w

  share_or-Ends :
      (copy : ℕ → ℕ → World Held R → Copies R × Bool) (label : ℕ → World Held R → World Held R)
      (flags p : ℕ) (w0 w : World Held R)
      → Performs label undo_modules
      → Owes w0 p w
      → Ends w0 (Owes w0) (share_or env copy label flags p w)
  unfolding share_or
  share_or-Ends copy label flags p w0 w done owing =
      let w' : World Held R = record w { copies = (copy flags p w).0 } in
      let owing' : Owes w0 p w' = record {
        held = owing.held;
        processes = owing.processes;
        nr_threads = owing.nr_threads;
        total_forks = owing.total_forks;
        kernel = owing.kernel;
      } in
      if_split (Ends w0 (Owes w0)) (copy flags p w).1 _ _ (λ e. owing')
        (λ e. label-IsRestored label undo_modules p w0 w' done owing')

  thread_or-Ends :
      (flags p : ℕ) (w0 w : World Held R)
      → Owes w0 p w
      → Ends w0 (λ q v. Unit) (thread_or env flags p w)
  unfolding thread_or
  thread_or-Ends flags p w0 w owing = elim (Option-cases (env.copy_thread flags p w.copies)) [
    | inl e ↦ rw (e, Ends) tt
    | inr (x, e) ↦
        rw (e, Ends)
          (label-IsRestored (bad_fork_cleanup_namespace env) undo_modules p w0 w Performs-namespace
            owing)
  ]

  -- A copy after what came before.
  then_share :
      (copy : ℕ → ℕ → World Held R → Copies R × Bool) (label : ℕ → World Held R → World Held R)
      (flags : ℕ) (w0 : World Held R) (r : Progress Held R ℕ)
      → Performs label undo_modules
      → Ends w0 (Owes w0) r
      → Ends w0 (Owes w0) (r >>= share_or env copy label flags)
  then_share copy label flags w0 r done h =
      bind-Ends w0 (Owes w0) (Owes w0) r (share_or env copy label flags) h
        (λ q v owing. share_or-Ends copy label flags q w0 v done owing)

  pub fork_copies-Ends :
      (flags p : ℕ) (w0 w : World Held R)
      → Owes w0 p w
      → Ends w0 (λ q v. Unit) (fork_copies env flags p w)
  unfolding fork_copies
  fork_copies-Ends flags p w0 w owing =
      bind-Ends w0 (Owes w0) (λ q v. Unit) _ (thread_or env flags)
        (then_share (λ f q v. env.copy_namespace f q v.copies) (bad_fork_cleanup_mm env) flags w0 _
          Performs-mm
          (then_share (fork_mm env) (bad_fork_cleanup_sighand env) flags w0 _ Performs-sighand (
            then_share (fork_sighand env) (bad_fork_cleanup_fs env) flags w0 _ Performs-fs (
              then_share (fork_fs env) (bad_fork_cleanup_files env) flags w0 _ Performs-files (
                share_or-Ends (fork_files env) (bad_fork_cleanup env) flags p w0 w Performs-modules
                  owing)))))
        (λ q v h. thread_or-Ends flags q w0 v h)
