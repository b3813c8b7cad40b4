-- ===== src/Memory/State.antt =====
-- What the memory of processes in sharedFolderHW2/fork.c consists of, and what the code calls of the rest
-- of the kernel.
use os_hw.Base.{ℕ, Bool, Option, List}
use os_hw.Links.{Links}

abbrev pub clone_vm : ℕ
clone_vm = 0x100

-- struct vm_area_struct; its flags VM_DONTCOPY, VM_ACCOUNT, VM_LOCKED and VM_DENYWRITE are fields
pub record Area : Type 0 where
  pub vm_start : ℕ
  pub vm_end : ℕ
  pub vm_mm : ℕ
  pub vm_file : Option ℕ
  pub dont_copy : Bool
  pub accounted : Bool
  pub locked : Bool
  pub deny_write : Bool

-- struct mm_struct
pub record Mm : Type 0 where
  pub mm_users : ℕ
  pub mm_count : ℕ
  pub has_pgd : Bool
  pub def_flags : ℕ
  pub locked_vm : ℕ
  pub rss : ℕ
  pub map_count : ℕ
  pub mmap : List Area

-- The rest of the kernel, with the state R; a Boolean answer tells whether it went well.
pub record MemoryEnv (R : Type 0) : Type 0 where
  pub page_shift : ℕ
  pub zero_mm : Mm
  pub allocate_mm : R → Option (ℕ × R)
  pub free_mm : ℕ → R → R
  pub alloc_area : R → Option R
  pub pgd_alloc : ℕ → R → R × Bool
  pub pgd_free : ℕ → R → R
  pub init_new_context : ℕ → ℕ → R → R × Bool
  pub destroy_context : ℕ → R → R
  pub copy_segments : ℕ → ℕ → R → R
  pub copy_page_range : ℕ → Area → R → R × Bool
  -- vm_ops->open, if the area has one
  pub open_area : Area → R → R
  -- the inode of a file: file->f_dentry->d_inode
  pub inode_of : ℕ → ℕ
  -- get_file, on the field f_count of every file
  pub get_file : ℕ → (ℕ → ℕ) → ℕ → ℕ
  pub vm_enough_memory : ℕ → R → R × Bool
  pub vm_unacct_memory : ℕ → R → R
  pub build_mmap_rb : ℕ → R → R
  pub exit_mmap : ℕ → R → R

pub record Memory (R : Type 0) : Type 0 where
  pub rest : R
  pub mms : ℕ → Mm
  -- the field mmlist of every mm_struct
  pub mmlist : Links
  pub mmlist_nr : ℕ
  -- the fields mm and active_mm of every task
  pub mm_of : ℕ → Option ℕ
  pub active_mm : ℕ → Option ℕ
  pub f_count : ℕ → ℕ
  -- the field of every inode, as a word
  pub i_writecount : ℕ → ℕ

-- How the loop of dup_mmap ends, with what it has charged.
pub data Copied (R : Type 0) : Type 0 where
  all_copied no_memory : ℕ → Memory R → Copied R
