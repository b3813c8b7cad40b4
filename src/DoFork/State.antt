-- ===== src/DoFork/State.antt =====
-- What do_fork of sharedFolderHW2/fork.c works on: the flags of clone, what is held for the child, and how a
-- part of do_fork ends.
use Prim.Native.Nat.{bit_and}
use os_hw.Base.{ℕ, Bool, not, Option, some, ◌≡◌, ◌==◌}
use os_hw.Files.State.{FilesEnv, Files}
use os_hw.Memory.State.{MemoryEnv, Memory}
use os_hw.Model.{Env, Kernel, Errno}
use os_hw.NewPid.{Window}

abbrev pub csignal : ℕ
csignal = 0xff

abbrev pub clone_fs : ℕ
clone_fs = 0x200

abbrev pub clone_pid : ℕ
clone_pid = 0x1000

abbrev pub clone_ptrace : ℕ
clone_ptrace = 0x2000

abbrev pub clone_vfork : ℕ
clone_vfork = 0x4000

abbrev pub clone_parent : ℕ
clone_parent = 0x8000

abbrev pub clone_thread : ℕ
clone_thread = 0x10000

abbrev pub clone_newns : ℕ
clone_newns = 0x20000

abbrev pub pf_forknoexec : ℕ
pf_forknoexec = 0x40

abbrev pub pf_usedfpu : ℕ
pf_usedfpu = 0x100000

abbrev pub pt_ptraced : ℕ
pt_ptraced = 0x1

-- flags & bit, as a condition
abbrev pub has : ℕ → ℕ → Bool
has flags bit = not (bit_and flags bit == 0)

-- The files and the memory of processes. The two have the rest of the kernel and the use counts of the
-- open files in common: their fields `rest` and `f_count` are the same.
pub record Copies (R : Type 0) : Type 0 where
  pub files : Files R
  pub memory : Memory R

abbrev pub with_common : {R : Type 0} → R → (ℕ → ℕ) → Copies R → Copies R
with_common r counts c = record {
  files = record c.files { rest = r; f_count = counts };
  memory = record c.memory { rest = r; f_count = counts };
}

-- The rest of the kernel, as do_fork calls it.
pub record ForkEnv (Held R : Type 0) : Type 0 where
  pub machine : Env
  pub pid_max : ℕ
  -- p->rlim[RLIMIT_NPROC].rlim_cur
  pub nproc_limit : ℕ
  pub alloc_task_struct : Held → Option (ℕ × Held)
  pub free_task_struct : ℕ → Held → Held
  pub free-alloc :
      (h h' : Held) (p : ℕ) → alloc_task_struct h ≡ some (p, h') → free_task_struct p h' ≡ h
  -- atomic_inc(&p->user->__count), and free_uid
  pub hold_user : ℕ → Held → Held
  pub free_uid : ℕ → Held → Held
  pub free-hold : (p : ℕ) (h : Held) → free_uid p (hold_user p h) ≡ h
  pub get_exec_domain : ℕ → Held → Held
  pub put_exec_domain : ℕ → Held → Held
  pub put-get : (p : ℕ) (h : Held) → put_exec_domain p (get_exec_domain p h) ≡ h
  -- __MOD_INC_USE_COUNT and __MOD_DEC_USE_COUNT of the binary format's module, if it has one
  pub inc_module : ℕ → Held → Held
  pub dec_module : ℕ → Held → Held
  pub dec-inc : (p : ℕ) (h : Held) → dec_module p (inc_module p h) ≡ h
  -- the use counts of the domain and of the module are apart
  pub put-inc :
      (p : ℕ) (h : Held) → put_exec_domain p (inc_module p h) ≡ inc_module p (put_exec_domain p h)
  -- what copy_files, copy_fs and copy_sighand call, and what copy_mm calls
  pub files : FilesEnv R
  pub memory : MemoryEnv R
  -- from other files of the kernel
  pub exit_files : ℕ → Copies R → Copies R
  pub exit_fs : ℕ → Copies R → Copies R
  pub exit_sighand : ℕ → Copies R → Copies R
  pub exit_mm : ℕ → Copies R → Copies R
  pub copy_namespace : ℕ → ℕ → Copies R → Copies R × Bool
  pub exit_namespace : ℕ → Copies R → Copies R
  pub copy_thread : ℕ → ℕ → Copies R → Option Errno
  -- send_sig(SIGSTOP, p, 1)
  pub send_stop : ℕ → Kernel → Kernel

-- The kernel, what is held (task structs, users, modules and execution domains), the files and memory of
-- all processes, and the counters of fork.c.
pub record World (Held R : Type 0) : Type 0 where
  pub kernel : Kernel
  pub held : Held
  pub copies : Copies R
  -- the processes of the user of `current`
  pub processes : ℕ
  pub nr_threads : ℕ
  pub max_threads : ℕ
  pub total_forks : ℕ
  pub window : Window

-- How a part of do_fork ends: with a value, with an error, or not at all (BUG(), or a search for a PID
-- that is not over).
pub data Progress (Held R A : Type 0) : Type 0 where
  halted : Progress Held R A
  failed : World Held R → Errno → Progress Held R A
  went : A → World Held R → Progress Held R A

infixl 5 ◌>>=◌
abbrev pub ◌>>=◌ :
    {Held R A B : Type 0}
    → Progress Held R A
    → (A → World Held R → Progress Held R B)
    → Progress Held R B
halted >>= f = halted
failed w e >>= f = failed w e
went a w >>= f = f a w
