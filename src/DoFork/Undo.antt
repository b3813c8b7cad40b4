-- ===== src/DoFork/Undo.antt =====
-- A fork that fails, stage by stage: fork_begin, fork_identity, fork_copies and fork_slice of do_fork.
use mathlib.Core.Path.{subst}
use Prim.Native.Nat.{bit_and}
use os_hw.Fork.{share_timeslice}
use os_hw.Base.{
  ℕ, ◌+◌, ◌≡◌, ◌<◌, refl, ◌∙◌, Bool, true, Option, none, some, if_split, not, leb, ◌==◌, ◌&&◌,
  Option-cases, ap, inl, inr,
}
use os_hw.Base.Words.{word_size, inc, dec}
use os_hw.Capable.{capable}
use os_hw.Model.{Kernel, Errno, cap_sys_admin, cap_sys_resource, set_task}
use os_hw.DoFork.State.{ForkEnv, World, Progress, has, csignal, clone_newns, clone_fs, clone_pid}
use os_hw.DoFork.Unwinding.{bad_fork_free, bad_fork_cleanup_count, bad_fork_cleanup}
use os_hw.DoFork.{
  over_limit, copy_pointers, fork_copy, fork_count, fork_begin, fork_pid, fork_fields,
  fork_identity, fork_copies, fork_slice, do_fork,
}
use os_hw.DoFork.Labels.{
  IsKept, IsRestored, IsOwing, Ends, undo_count, undo_modules, IsKept-refl, IsKept-trans,
  dec-inc_count, IsKept-capable, bind-Ends, Performs-count, Performs-modules, label-IsRestored,
  fork_copies-Ends,
}

module _ {Held R : Type 0} (env : ForkEnv Held R) where
  -- over_limit changes nothing but the kernel, of which it keeps the shared parts.
  abbrev IsSpared : World Held R → World Held R × Bool → Type 0
  IsSpared w r = (r.0 ≡ record w { kernel = r.0.kernel }) × IsKept w.kernel r.0.kernel

  over_limit-IsSpared : (w : World Held R) → IsSpared w (over_limit env w)
  unfolding over_limit
  over_limit-IsSpared w =
      let first = capable env.machine cap_sys_admin w.kernel in
      let a : IsKept w.kernel first.0 = IsKept-capable env.machine cap_sys_admin w.kernel in
      let b : IsKept w.kernel (capable env.machine cap_sys_resource first.0).0 =
        IsKept-trans w.kernel _ _ a (IsKept-capable env.machine cap_sys_resource first.0) in
      if_split (IsSpared w) (not (leb env.nproc_limit w.processes)) _ _
        (λ e. (refl, IsKept-refl w.kernel))
        (λ e. if_split (IsSpared w) first.1 _ _ (λ e'. (refl, a)) (λ e'. (refl, b)))

  fork_count-Ends :
      (p : ℕ) (w0 w : World Held R)
      → w0.processes + 1 < word_size
      → env.free_task_struct p w.held ≡ w0.held
      → w.processes ≡ w0.processes
      → w.nr_threads ≡ w0.nr_threads
      → w.total_forks ≡ w0.total_forks
      → IsKept w0.kernel w.kernel
      → Ends w0 (λ q v. IsOwing (undo_count env q) w0 v) (fork_count env p w)
  unfolding fork_count bad_fork_free bad_fork_cleanup_count
  fork_count-Ends p w0 w small freed pr nt tf kept =
      let w1 = (over_limit env w).0 in
      let (same, spared) = over_limit-IsSpared w in
      let kept' : IsKept w0.kernel w1.kernel =
        IsKept-trans w0.kernel w.kernel w1.kernel kept spared in
      let pr' : w1.processes ≡ w0.processes = ap (λ (v : World Held R). v.processes) same ∙ pr in
      let nt' : w1.nr_threads ≡ w0.nr_threads = ap (λ (v : World Held R). v.nr_threads) same ∙ nt in
      let tf' : w1.total_forks ≡ w0.total_forks =
        ap (λ (v : World Held R). v.total_forks) same ∙ tf in
      let same_held : w1.held ≡ w.held = ap (λ (v : World Held R). v.held) same in
      let w2 : World Held R = record w1 {
        held = env.hold_user p w1.held;
        processes = inc w1.processes;
      } in
      let one_less : dec w2.processes ≡ w0.processes =
        ap (λ n. dec (inc n)) pr' ∙ dec-inc_count w0.processes small in
      let given : undo_count env p w2.held ≡ w0.held =
        ap (env.free_task_struct p) (env.free-hold p w1.held ∙ same_held) ∙ freed in
      let owing : IsOwing (undo_count env p) w0 w2 = record {
        held = given;
        processes = one_less;
        nr_threads = nt';
        total_forks = tf';
        kernel = kept';
      } in
      let Good : ℕ → World Held R → Type 0 = λ q v. IsOwing (undo_count env q) w0 v in
      if_split (Ends w0 Good) (over_limit env w).1 _ _
        (λ e. record {
          held = ap (env.free_task_struct p) same_held ∙ freed;
          processes = pr';
          nr_threads = nt';
          total_forks = tf';
          kernel = kept';
        })
        (λ e.
          if_split (Ends w0 Good) (leb w2.max_threads w2.nr_threads) _ _
            (λ e'.
              label-IsRestored env (bad_fork_cleanup_count env) (undo_count env) p w0 w2
                (Performs-count env) owing)
            (λ e'. owing))

  fork_begin-Ends :
      (flags : ℕ) (w : World Held R)
      → w.processes + 1 < word_size
      → Ends w (λ q v. IsOwing (undo_count env q) w v) (fork_begin env flags w)
  unfolding fork_begin fork_copy copy_pointers
  fork_begin-Ends flags w small =
      let Good : ℕ → World Held R → Type 0 = λ q v. IsOwing (undo_count env q) w v in
      let k = w.kernel in
      let unchanged : IsRestored w w = record {
        held = refl;
        processes = refl;
        nr_threads = refl;
        total_forks = refl;
        kernel = IsKept-refl k;
      } in
      if_split (Ends w Good) (has flags clone_newns && has flags clone_fs) _ _ (λ e. unchanged)
        (λ e.
          if_split (Ends w Good) (has flags clone_pid && not ((k.tasks k.current).pid == 0)) _ _
            (λ e'. unchanged)
            (λ e'. elim (Option-cases (env.alloc_task_struct w.held)) [
              | inl none_left ↦ rw (none_left, Ends) unchanged
              | inr ((p, h), got) ↦
                  rw (got, Ends)
                    (fork_count-Ends p w
                      (record w {
                        kernel = fork_copy env p k;
                        held = h;
                        copies = copy_pointers env k.current p w.copies;
                      })
                      small (env.free-alloc w.held h p got) refl refl refl
                      (record {
                        rq = refl;
                        arrays = refl;
                        task_list = refl;
                        pidhash = refl;
                        current = refl;
                        jiffies = refl;
                      }))
            ]))

  fork_identity-Ends :
      (runs flags p : ℕ) (w0 w : World Held R)
      → IsOwing (undo_count env p) w0 w
      → Ends w0 (λ q v. IsOwing (undo_modules env q) w0 v) (fork_identity env runs flags p w)
  unfolding fork_identity fork_fields bad_fork_cleanup
  fork_identity-Ends runs flags p w0 w owing =
      let Good : ℕ → World Held R → Type 0 = λ q v. IsOwing (undo_modules env q) w0 v in
      let k = w.kernel in
      let w1 : World Held R = record w { held = env.inc_module p (env.get_exec_domain p w.held) } in
      let window = (fork_pid env runs flags w1).0 in
      let w2 : World Held R = record w1 { window = window } in
      let balanced : env.dec_module p (env.put_exec_domain p w2.held) ≡ w.held =
        ap (env.dec_module p) (env.put-inc p (env.get_exec_domain p w.held))
        ∙ env.dec-inc p (env.put_exec_domain p (env.get_exec_domain p w.held))
        ∙ env.put-get p w.held in
      let given : undo_modules env p w2.held ≡ w0.held =
        ap (undo_count env p) balanced ∙ owing.held in
      let owing2 : IsOwing (undo_modules env p) w0 w2 = record {
        held = given;
        processes = owing.processes;
        nr_threads = owing.nr_threads;
        total_forks = owing.total_forks;
        kernel = owing.kernel;
      } in
      elim (Option-cases (fork_pid env runs flags w1).1) [
        | inl e ↦ rw (e, Ends) tt
        | inr (pid, e) ↦
            rw (e, Ends)
              (if_split (Ends w0 Good) (pid == 0 && not ((k.tasks k.current).pid == 0)) _ _
                (λ e'.
                  label-IsRestored env (bad_fork_cleanup env) (undo_modules env) p w0 w2
                    (Performs-modules env) owing2)
                (λ e'. record {
                  held = given;
                  processes = owing.processes;
                  nr_threads = owing.nr_threads;
                  total_forks = owing.total_forks;
                  kernel = record {
                    rq = owing.kernel.rq;
                    arrays = owing.kernel.arrays;
                    task_list = owing.kernel.task_list;
                    pidhash = owing.kernel.pidhash;
                    current = owing.kernel.current;
                    jiffies = owing.kernel.jiffies;
                  };
                }))
      ]

  slice_end :
      (w0 w : World Held R) (p : ℕ) (o : Option Kernel)
      → Ends w0
          (λ q v. Unit)
          (elim o [ none ↦ Progress.halted | some k ↦ Progress.went p (record w { kernel = k }) ])
  slice_end w0 w p none = tt
  slice_end w0 w p (some k) = tt

  fork_slice-Ends :
      (busy : Bool) (flags p : ℕ) (w0 w : World Held R)
      → Ends w0 (λ q v. Unit) (fork_slice env busy flags p w)
  unfolding fork_slice
  fork_slice-Ends busy flags p w0 w =
      let k = w.kernel in
      let t = k.tasks p in
      let k' =
        set_task k p
          (record t { swappable = true; exit_signal = bit_and flags csignal; pdeath_signal = 0 }) in
      slice_end w0 w p (share_timeslice env.machine busy p k')

  do_fork-Ends :
      (runs : ℕ) (busy : Bool) (flags : ℕ) (w : World Held R)
      → w.processes + 1 < word_size
      → Ends w (λ q v. Unit) (do_fork env runs busy flags w)
  unfolding do_fork
  do_fork-Ends runs busy flags w small =
      bind-Ends w (λ q v. Unit) (λ q v. Unit) _ _
        (bind-Ends w (λ q v. Unit) (λ q v. Unit) _ (fork_slice env busy flags)
          (bind-Ends w (λ q v. IsOwing (undo_modules env q) w v) (λ q v. Unit) _
            (fork_copies env flags)
            (bind-Ends w (λ q v. IsOwing (undo_count env q) w v)
              (λ q v. IsOwing (undo_modules env q) w v) _ (fork_identity env runs flags)
              (fork_begin-Ends flags w small) (λ q v h. fork_identity-Ends runs flags q w v h))
            (λ q v h. fork_copies-Ends env flags q w v h))
          (λ q v h. fork_slice-Ends busy flags q w v))
        (λ q v h. tt)

  -- When do_fork fails, with whatever error, what it took of task structs, users, modules and
  -- execution domains has been given back: what is held of these is what was held; and the counts
  -- of the user's processes, of the threads and of the forks, the runqueue, its arrays, the list
  -- of tasks, the PID hash, current and the clock are as before. The count of the user's processes
  -- and one more is below 2 ^ 32. Nothing is said of the files and the memory of processes, in
  -- which a copy that fails can leave traces.
  pub do_fork_fail :
      (runs : ℕ) (busy : Bool) (flags : ℕ) (w w' : World Held R) (e : Errno)
      → w.processes + 1 < word_size
      → do_fork env runs busy flags w ≡ Progress.failed w' e
      → IsRestored w w'
  do_fork_fail runs busy flags w w' e small failed =
      subst (λ r. Ends w (λ q v. Unit) r) failed (do_fork-Ends runs busy flags w small)
