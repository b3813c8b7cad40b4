-- ===== src/Files/State.antt =====
-- What copy_fs, copy_files and copy_sighand of sharedFolderHW2/fork.c work on, and what they call of
-- the rest of the kernel.
use os_hw.Base.{ℕ, Bool, Option}
use os_hw.Base.Int.{ℤ}

abbrev pub clone_files : ℕ
clone_files = 0x400

abbrev pub clone_sighand : ℕ
clone_sighand = 0x800

-- NR_OPEN_DEFAULT of sched.h, the bits of a long
abbrev pub nr_open_default : ℕ
nr_open_default = 32

-- struct fs_struct
pub record FsStruct : Type 0 where
  pub count : ℕ
  pub umask : ℕ
  pub root : Option ℕ
  pub rootmnt : Option ℕ
  pub pwd : Option ℕ
  pub pwdmnt : Option ℕ
  pub altroot : Option ℕ
  pub altrootmnt : Option ℕ

-- struct files_struct; an fd_set is a function of the bit, and `fd` one of the descriptor.
pub record FilesStruct : Type 0 where
  pub count : ℕ
  pub next_fd : ℕ
  pub max_fds : ℕ
  pub max_fdset : ℕ
  pub open_fds : ℕ → Bool
  pub close_on_exec : ℕ → Bool
  pub fd : ℕ → Option ℕ

-- struct signal_struct
pub record SignalStruct : Type 0 where
  pub count : ℕ
  pub action : ℕ → ℕ

-- The rest of the kernel, with the state R.
pub record FilesEnv (R : Type 0) : Type 0 where
  -- __FD_SETSIZE
  pub fd_setsize : ℕ
  pub alloc_fs : R → Option (ℕ × R)
  pub alloc_files : R → Option (ℕ × R)
  pub alloc_sig : R → Option (ℕ × R)
  pub free_files : ℕ → R → R
  -- both return what they are given
  pub mntget : Option ℕ → R → R
  pub dget : Option ℕ → R → R
  -- get_file, on the field f_count of every file
  pub get_file : ℕ → (ℕ → ℕ) → ℕ → ℕ
  -- the files_struct that they leave, and their answer
  pub expand_fdset : FilesStruct → ℕ → R → R × (FilesStruct × ℤ)
  pub expand_fd_array : FilesStruct → ℕ → R → R × (FilesStruct × ℤ)
  pub free_fdset : (ℕ → Bool) → ℕ → R → R

pub record Files (R : Type 0) : Type 0 where
  pub rest : R
  pub fss : ℕ → FsStruct
  pub files : ℕ → FilesStruct
  pub sigs : ℕ → SignalStruct
  -- the fields fs, files and sig of every task
  pub fs_of : ℕ → Option ℕ
  pub files_of : ℕ → Option ℕ
  pub sig_of : ℕ → Option ℕ
  pub f_count : ℕ → ℕ
