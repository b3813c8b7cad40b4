-- ===== src/DoFork.antt =====
-- do_fork of sharedFolderHW2/fork.c, with the copies of files, signal handlers and memory that Files and
-- Memory model. The task structs, users, modules and execution domains are a value of a type of its own.
pub mod State
pub mod Unwinding
pub mod Labels
pub mod Undo
use Prim.Native.Nat.{bit_and, bit_or}
use os_hw.Base.{
  ℕ, ◌+◌, upd, ◌-◌, Bool, true, false, not, ◌&&◌, ◌||◌, Option, none, some, List, [], ◌∷◌, ◌++◌,
  leb, ◌≡◌, ◌==◌, if◌then◌else◌,
}
use os_hw.Base.Words.{word_size, inc, dec}
use os_hw.Capable.{capable, pf_superpriv}
use os_hw.Files.{copy_files, copy_fs, copy_sighand}
use os_hw.Files.State.{Files}
use os_hw.Fork.{share_timeslice}
use os_hw.Memory.{copy_mm}
use os_hw.Base.Int.{ℤ, pos_part, neg_part}
use os_hw.Model.{
  Env, Task, Kernel, Errno, eperm, einval, eagain, enomem, cap_sys_admin, cap_sys_resource,
  task_uninterruptible, set_task,
}
use os_hw.NewPid.{Window, get_pid}
use os_hw.Pid.{hash_pid}
use os_hw.Prio.{short_task, overdue_task}
use os_hw.Runqueue.{resched_task, wake_up_forked_process}
use os_hw.DoFork.State.{
  Copies, ForkEnv, Progress, World, with_common, clone_fs, clone_newns, clone_parent, clone_pid,
  clone_ptrace, clone_thread, clone_vfork, csignal, failed, halted, has, pf_forknoexec, pf_usedfpu,
  pt_ptraced, went, ◌>>=◌,
}
use os_hw.DoFork.Unwinding.{
  bad_fork_cleanup, bad_fork_cleanup_count, bad_fork_cleanup_files, bad_fork_cleanup_fs,
  bad_fork_cleanup_mm, bad_fork_cleanup_namespace, bad_fork_cleanup_sighand, bad_fork_free,
}

unfoldable pub copy_flags : ℕ → Task → Task
copy_flags clone_flags t = record t {
  ptrace = if has clone_flags clone_ptrace then t.ptrace else 0;
  flags = bit_or (bit_and t.flags (word_size - 1 - bit_or pf_superpriv pf_usedfpu)) pf_forknoexec;
}

module _ {Held R : Type 0} (env : ForkEnv Held R) where
  -- The limit on the processes of a user, which two capabilities lift.
  unfoldable pub over_limit : World Held R → World Held R × Bool
  unfolding capable
  over_limit w =
      let (k1, admin) = capable env.machine cap_sys_admin w.kernel in
      let (k2, resource) = capable env.machine cap_sys_resource k1 in
      if not (leb env.nproc_limit w.processes)
      then (w, false)
      else if admin
      then (record w { kernel = k1 }, false)
      else (record w { kernel = k2 }, not resource)

  -- The copy of `current` into the new task struct.
  unfoldable pub fork_copy : ℕ → Kernel → Kernel
  fork_copy p k =
      let t = k.tasks k.current in
      set_task k p (record t { cpus_allowed_mask = bit_and t.cpus_allowed_mask t.cpus_allowed })

  -- The pointers to the files and the memory that come with it.
  unfoldable pub copy_pointers : ℕ → ℕ → Copies R → Copies R
  copy_pointers current p c =
      let f = c.files in
      let m = c.memory in
      record {
        files = record f {
          fs_of = upd f.fs_of p (f.fs_of current);
          files_of = upd f.files_of p (f.files_of current);
          sig_of = upd f.sig_of p (f.sig_of current);
        };
        memory = record m {
          mm_of = upd m.mm_of p (m.mm_of current);
          active_mm = upd m.active_mm p (m.active_mm current);
        };
      }

  -- From the struct to the counts of the user and of the threads.
  unfoldable pub fork_count : ℕ → World Held R → Progress Held R ℕ
  unfolding over_limit bad_fork_free bad_fork_cleanup_count
  fork_count p w =
      let (w1, over) = over_limit w in
      let w2 = record w1 { held = env.hold_user p w1.held; processes = inc w1.processes } in
      if over
      then failed (bad_fork_free env p w1) eagain
      else if leb w2.max_threads w2.nr_threads
      then failed (bad_fork_cleanup_count env p w2) eagain
      else went p w2

  unfoldable pub fork_begin : ℕ → World Held R → Progress Held R ℕ
  unfolding fork_copy copy_pointers fork_count
  fork_begin clone_flags w =
      if has clone_flags clone_newns && has clone_flags clone_fs
      then failed w einval
      else if has clone_flags clone_pid && not ((w.kernel.tasks w.kernel.current).pid == 0)
      then failed w eperm
      else elim (env.alloc_task_struct w.held) [
        | none ↦ failed w enomem
        | some (p, held) ↦ fork_count p (record w {
          kernel = fork_copy p w.kernel;
          held = held;
          copies = copy_pointers w.kernel.current p w.copies;
        })
      ]

  -- get_pid, with the flag CLONE_PID and with a bound on the runs of the search.
  unfoldable pub fork_pid : ℕ → ℕ → World Held R → Window × Option ℕ
  unfolding get_pid
  fork_pid runs clone_flags w =
      let k = w.kernel in
      if has clone_flags clone_pid
      then (w.window, some (k.tasks k.current).pid)
      else get_pid env.pid_max runs k.tasks k.task_list w.window

  -- The fields of the child up to the copies; the timers and the accounts are left out.
  unfoldable pub fork_fields : ℕ → ℕ → Task → Task
  unfolding copy_flags
  fork_fields clone_flags pid t = record (copy_flags clone_flags t) {
    did_exec = false;
    swappable = false;
    state = task_uninterruptible;
    pid = pid;
    sigpending = false;
    leader = false;
    array = none;
  }

  unfoldable pub fork_identity : ℕ → ℕ → ℕ → World Held R → Progress Held R ℕ
  unfolding fork_pid fork_fields bad_fork_cleanup
  fork_identity runs clone_flags p w =
      let w1 = record w { held = env.inc_module p (env.get_exec_domain p w.held) } in
      let (window, found) = fork_pid runs clone_flags w1 in
      let w2 = record w1 { window = window } in
      let k = w.kernel in
      elim found [
        | none ↦ halted
        | some pid ↦
            if pid == 0 && not ((k.tasks k.current).pid == 0)
            then failed (bad_fork_cleanup env p w2) eagain
            else went p
                (record w2 { kernel = set_task k p (fork_fields clone_flags pid (k.tasks p)) })
      ]

  -- One of the five copies, with the label to jump to if it fails; it may leave traces then.
  unfoldable pub share_or :
      (ℕ → ℕ → World Held R → Copies R × Bool)
      → (ℕ → World Held R → World Held R)
      → ℕ
      → ℕ
      → World Held R
      → Progress Held R ℕ
  share_or copy label clone_flags p w =
      let (copies, fine) = copy clone_flags p w in
      let w' = record w { copies = copies } in
      if fine then went p w' else failed (label p w') enomem

  -- An address that is not tested: null is 0.
  abbrev pub address : Option ℕ → ℕ
  address none = 0
  address (some a) = a

  -- The files after a part that works on them, and whether its answer is 0.
  abbrev pub after_files : Copies R → Files R × ℤ → Copies R × Bool
  after_files c (f, answer) = (
    with_common f.rest f.f_count (record c { files = f }),
    pos_part answer + neg_part answer == 0,
  )

  unfoldable pub fork_files : ℕ → ℕ → World Held R → Copies R × Bool
  unfolding copy_files
  fork_files clone_flags p w =
      after_files w.copies (copy_files env.files clone_flags w.kernel.current p w.copies.files)

  unfoldable pub fork_fs : ℕ → ℕ → World Held R → Copies R × Bool
  unfolding copy_fs
  fork_fs clone_flags p w =
      let f = w.copies.files in
      after_files w.copies (copy_fs env.files clone_flags (address (f.fs_of w.kernel.current)) p f)

  unfoldable pub fork_sighand : ℕ → ℕ → World Held R → Copies R × Bool
  unfolding copy_sighand
  fork_sighand clone_flags p w =
      let f = w.copies.files in
      after_files w.copies
        (copy_sighand env.files clone_flags (address (f.sig_of w.kernel.current)) p f)

  unfoldable pub fork_mm : ℕ → ℕ → World Held R → Copies R × Bool
  unfolding copy_mm
  fork_mm clone_flags p w =
      let (m, fine) = copy_mm env.memory clone_flags w.kernel.current p w.copies.memory in
      (with_common m.rest m.f_count (record w.copies { memory = m }), fine)

  unfoldable pub thread_or : ℕ → ℕ → World Held R → Progress Held R ℕ
  unfolding bad_fork_cleanup_namespace
  thread_or clone_flags p w = elim (env.copy_thread clone_flags p w.copies) [
    | some e ↦ failed (bad_fork_cleanup_namespace env p w) e
    | none ↦ went p w
  ]

  unfoldable pub fork_copies : ℕ → ℕ → World Held R → Progress Held R ℕ
  unfolding share_or thread_or fork_files fork_fs fork_sighand fork_mm
  fork_copies clone_flags p w =
      share_or fork_files (bad_fork_cleanup env) clone_flags p w
      >>= share_or fork_fs (bad_fork_cleanup_files env) clone_flags
      >>= share_or fork_sighand (bad_fork_cleanup_fs env) clone_flags
      >>= share_or fork_mm (bad_fork_cleanup_sighand env) clone_flags
      >>= share_or (λ flags q v. env.copy_namespace flags q v.copies) (bad_fork_cleanup_mm env)
          clone_flags
      >>= thread_or clone_flags

  -- The signals of the child, and the split of the time slice.
  unfoldable pub fork_slice : Bool → ℕ → ℕ → World Held R → Progress Held R ℕ
  unfolding share_timeslice
  fork_slice busy clone_flags p w =
      let k = w.kernel in
      let t = k.tasks p in
      let k' = set_task k p (record t {
        swappable = true;
        exit_signal = bit_and clone_flags csignal;
        pdeath_signal = 0;
      }) in
      elim (share_timeslice env.machine busy p k') [
        | none ↦ halted
        | some k'' ↦ went p (record w { kernel = k'' })
      ]

  -- The relatives of the child.
  unfoldable pub fork_parents : ℕ → ℕ → Kernel → Kernel
  fork_parents clone_flags p k =
      let parent = k.tasks k.current in
      let t = k.tasks p in
      let same_parent = has clone_flags clone_parent in
      set_task k p (record t {
        p_opptr = if same_parent then parent.p_opptr else k.current;
        p_pptr = if same_parent || has t.ptrace pt_ptraced then parent.p_pptr else k.current;
        tgid = if has clone_flags clone_thread then parent.tgid else t.pid;
      })

  -- SET_LINKS as far as the list of all tasks goes, and hash_pid.
  unfoldable pub fork_link : ℕ → Kernel → Kernel
  unfolding hash_pid
  fork_link p k = hash_pid p (record k { task_list = k.task_list ++ (p ∷ []) })

  unfoldable pub fork_publish : ℕ → ℕ → World Held R → World Held R
  unfolding fork_parents fork_link wake_up_forked_process
  fork_publish clone_flags p w =
      let k1 = fork_link p (fork_parents clone_flags p w.kernel) in
      let k2 = if has (k1.tasks p).ptrace pt_ptraced then env.send_stop p k1 else k1 in
      record w {
        kernel = wake_up_forked_process env.machine p k2;
        nr_threads = inc w.nr_threads;
        total_forks = inc w.total_forks;
      }

  -- After the fork or, with CLONE_VFORK, after the wait for the child.
  unfoldable pub fork_return : ℕ → Kernel → Kernel
  unfolding resched_task short_task overdue_task
  fork_return clone_flags k =
      let t = k.tasks k.current in
      let flagged = resched_task k.current k in
      if has clone_flags clone_vfork
      then if short_task t then flagged else k
      else if overdue_task t
      then k
      else flagged

  -- do_fork up to its return or, with CLONE_VFORK, to wait_for_completion; `runs` bounds the search
  -- for a PID, and `busy` is as for scheduler_tick.
  unfoldable pub do_fork : ℕ → Bool → ℕ → World Held R → Progress Held R ℕ
  unfolding fork_begin fork_identity fork_copies fork_slice fork_publish fork_return
  do_fork runs busy clone_flags w =
      fork_begin clone_flags w
      >>= fork_identity runs clone_flags
      >>= fork_copies clone_flags
      >>= fork_slice busy clone_flags
      >>= λ p w.
          let w' = fork_publish clone_flags p w in
          let k = fork_return clone_flags w'.kernel in
          let published = if has clone_flags clone_vfork then w' else record w' { kernel = k } in
          went p published
