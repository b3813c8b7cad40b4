-- ===== src/Examples/Filings.antt =====
-- The copies of files at concrete states.
use os_hw.Base.{
  ℕ, ◌+◌, ◌≡◌, ◌≢◌, refl, Bool, true, false, none, some, arith, ◌==◌, ltb, if◌then◌else◌,
}
use os_hw.Base.Int.{pos, negsuc}
use os_hw.Base.Words.{wrap, inc}
use os_hw.Files.{any_bit, count_open_files, copy_files, is_zero}
use os_hw.Files.State.{FilesStruct, FilesEnv, Files}
use os_hw.Files.Counting.{references}
use os_hw.Files.Copies.{IsCopy, IsExpanding, copy_files-IsCopy}
use os_hw.Files.Failures.{IsFailed, copy_files-IsFailed}

-- The descriptors 0, 1 and 40, of the files 7, 7 and 8.
abbrev sample_files : FilesStruct
sample_files = record {
  count = 1;
  next_fd = 2;
  max_fds = 64;
  max_fdset = 1024;
  open_fds = λ i. if i == 0 then true else if i == 1 then true else i == 40;
  close_on_exec = λ i. i == 40;
  fd = λ i. if ltb i 2 then some 7 else if i == 40 then some 8 else none;
}

-- Arrays grow by the number of files that is asked for; `works` tells whether they do.
abbrev pub kernel_of_files : Bool → FilesEnv ℕ
kernel_of_files works = record {
  fd_setsize = 1024;
  alloc_fs = λ r. some (r, r + 1);
  alloc_files = λ r. some (r, r + 1);
  alloc_sig = λ r. some (r, r + 1);
  free_files = λ p r. r;
  mntget = λ p r. r;
  dget = λ p r. r;
  get_file = λ f counts g. if f == g then inc (counts g) else counts g;
  expand_fdset = λ v n r. (r, (v, negsuc 11));
  expand_fd_array = λ v n r. (
    r,
    (
      record v { max_fds = if ltb n 256 then 256 else 0 },
      if works then if ltb n 256 then pos 0 else negsuc 11 else negsuc 11,
    ),
  );
  free_fdset = λ s n r. r;
}

sample-IsExpanding : IsExpanding (kernel_of_files true)
unfolding is_zero
sample-IsExpanding = record {
  by_words = refl;
  fdset = λ v n r z. ground (arith, z);
  fd_array = λ v n r z. ground (arith, z);
}

-- The task 20 has the files_struct 3.
abbrev pub sample_tasks : Files ℕ
sample_tasks = record {
  rest = 4;
  fss = λ p. record {
    count = 1;
    umask = 18;
    root = some 1;
    rootmnt = some 1;
    pwd = some 2;
    pwdmnt = some 1;
    altroot = none;
    altrootmnt = none;
  };
  files = λ p. sample_files;
  sigs = λ p. record { count = 1; action = λ sig. 0 };
  fs_of = λ t. some 3;
  files_of = λ t. some 3;
  sig_of = λ t. some 3;
  f_count = λ f. if f == 7 then 2 else 1;
}

copied_fine : (copy_files (kernel_of_files true) 0 20 21 sample_tasks).1 ≡ pos 0
unfolding copy_files any_bit
copied_fine = refl

copy_files-IsCopy_example :
    let m' = (copy_files (kernel_of_files true) 0 20 21 sample_tasks).0 in
    (p : ℕ) × ((m'.files_of 21 ≡ some p)
      × (IsCopy sample_files (m'.files p)
          × ((g : ℕ)
              → wrap (m'.f_count g)
                ≡ wrap (
                    sample_tasks.f_count g
                    + references (count_open_files sample_files 1024) 0 sample_files.fd g))))
copy_files-IsCopy_example =
    copy_files-IsCopy (kernel_of_files true) sample-IsExpanding (λ f counts g. refl) 0 20 21 3
      sample_tasks refl refl copied_fine

copied_badly : (copy_files (kernel_of_files false) 0 20 21 sample_tasks).1 ≢ pos 0
unfolding copy_files any_bit
copied_badly h = ground (arith, h)

copy_files-IsFailed_example :
    IsFailed
      (kernel_of_files false)
      21
      sample_tasks
      (copy_files (kernel_of_files false) 0 20 21 sample_tasks).0
copy_files-IsFailed_example =
    copy_files-IsFailed (kernel_of_files false) 0 20 21 sample_tasks copied_badly
