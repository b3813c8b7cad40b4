-- ===== src/Files.antt =====
-- copy_fs, copy_files and copy_sighand of sharedFolderHW2/fork.c.
pub mod State
pub mod Counting
pub mod Copies
pub mod Failures
use os_hw.Base.{
  ℕ, zero, suc, ◌+◌, ◌*◌, ◌/◌, ◌-◌, ◌^◌, Bool, true, false, ◌&&◌, ◌||◌, Option, none, some, upd,
  ltb, leb, ◌==◌, if◌then◌else◌,
}
use os_hw.Base.Int.{ℤ, pos, negsuc, pos_part, neg_part}
use os_hw.Base.Words.{wrap, sub, inc}
use os_hw.DoFork.State.{clone_fs, has}
use os_hw.Files.State.{
  FsStruct, FilesStruct, SignalStruct, FilesEnv, Files, clone_files, clone_sighand, nr_open_default,
}

-- Whether one of the first `n` bits is set.
unfoldable pub any_bit : ℕ → (ℕ → Bool) → Bool
any_bit zero f = false
any_bit (suc n) f = f n || any_bit n f

-- The loop of count_open_files: the number of the last word below `i` with a bit set, or 0.
unfoldable pub last_word : (ℕ → Bool) → ℕ → ℕ
unfolding any_bit
last_word s zero = 0
last_word s (suc i) =
    let lower = last_word s i in if any_bit 32 (λ k. s (32 * i + k)) then i else lower

unfoldable pub count_open_files : FilesStruct → ℕ → ℕ
unfolding last_word
count_open_files files size = (last_word files.open_fds (size / 32) + 1) * 32

-- memcpy of an fd_set
unfoldable pub copy_bytes : ℕ → (ℕ → Bool) → (ℕ → Bool) → ℕ → Bool
copy_bytes bytes source target i = if ltb i (8 * bytes) then source i else target i

-- memset with 0 of an fd_set from a word on
unfoldable pub clear_bytes : ℕ → ℕ → (ℕ → Bool) → ℕ → Bool
clear_bytes word bytes target i =
    if leb (32 * word) i && ltb i (32 * word + 8 * bytes) then false else target i

module _ {R : Type 0} (env : FilesEnv R) where
  -- __copy_fs_struct, and copy_fs_struct
  unfoldable pub copy_fs_struct : ℕ → Files R → Files R × Option ℕ
  copy_fs_struct old m = elim (env.alloc_fs m.rest) [
    | none ↦ (m, none)
    | some (fs, r0) ↦
        let v = m.fss old in
        let r1 = env.dget v.root (env.mntget v.rootmnt r0) in
        let r2 = env.dget v.pwd (env.mntget v.pwdmnt r1) in
        let (r3, altrootmnt) = elim v.altroot as (λ o. R × Option ℕ) [
          | none ↦ (r2, none)
          | some d ↦ (env.dget v.altroot (env.mntget v.altrootmnt r2), v.altrootmnt)
        ] in
        let new = record v { count = 1; altrootmnt = altrootmnt } in
        (record m { rest = r3; fss = upd m.fss fs new }, some fs)
  ]

  -- copy_fs, when `old` is the fs_struct of `current`, and of the new task so far
  unfoldable pub copy_fs : ℕ → ℕ → ℕ → Files R → Files R × ℤ
  unfolding copy_fs_struct
  copy_fs clone_flags old tsk m =
      let v = m.fss old in
      let (m', fs) = copy_fs_struct old m in
      let copied = record m' { fs_of = upd m'.fs_of tsk fs } in
      if has clone_flags clone_fs
      then (record m { fss = upd m.fss old (record v { count = inc v.count }) }, pos 0)
      else elim fs [ none ↦ (copied, negsuc 0) | some p ↦ (copied, pos 0) ]

  -- The files_struct of the child before it is filled.
  unfoldable pub init_files : FilesStruct → FilesStruct
  init_files v = record v {
    count = 1;
    next_fd = 0;
    max_fds = nr_open_default;
    max_fdset = env.fd_setsize;
  }

  -- The larger sets of descriptors, if they are wanted.
  unfoldable pub grow_fdset : FilesStruct → ℕ → R → R × (FilesStruct × ℤ)
  grow_fdset newf size r =
      if ltb env.fd_setsize size
      then env.expand_fdset (record newf { max_fdset = 0 }) (size - 1) r
      else (r, (newf, pos 0))

  -- The larger array of files.
  unfoldable pub grow_fds : FilesStruct → ℕ → R → R × (FilesStruct × ℤ)
  grow_fds newf open_files r =
      if ltb nr_open_default open_files
      then env.expand_fd_array (record newf { max_fds = 0 }) (open_files - 1) r
      else (r, (newf, pos 0))

  -- The loop of copy_files, from the descriptor `k` on, with the new array and the counts of the files.
  unfoldable pub copy_fds :
      ℕ → ℕ → (ℕ → Option ℕ) → (ℕ → Option ℕ) → (ℕ → ℕ) → (ℕ → Option ℕ) × (ℕ → ℕ)
  copy_fds zero k old_fds new_fds counts = (new_fds, counts)
  copy_fds (suc i) k old_fds new_fds counts =
      let counts' : ℕ → ℕ = elim (old_fds k) [ none ↦ counts | some f ↦ env.get_file f counts ] in
      copy_fds i (suc k) old_fds (upd new_fds k (old_fds k)) counts'

  -- The files_struct of the child from that of the parent.
  unfoldable pub fill_files : FilesStruct → FilesStruct → ℕ → (ℕ → ℕ) → FilesStruct × (ℕ → ℕ)
  unfolding copy_fds copy_bytes clear_bytes
  fill_files oldf newf open_files counts =
      let open_fds = copy_bytes (open_files / 8) oldf.open_fds newf.open_fds in
      let close_on_exec = copy_bytes (open_files / 8) oldf.close_on_exec newf.close_on_exec in
      let (new_fds, counts') = copy_fds open_files 0 oldf.fd newf.fd counts in
      let cleared = wrap (sub newf.max_fds open_files * 4) / 4 in
      let fd : ℕ → Option ℕ =
        λ k. if leb open_files k && ltb k (open_files + cleared) then none else new_fds k in
      let left = (newf.max_fdset - open_files) / 8 in
      let more = ltb open_files newf.max_fdset in
      let filled = record newf {
        fd = fd;
        open_fds = if more then clear_bytes (open_files / 32) left open_fds else open_fds;
        close_on_exec =
            if more then clear_bytes (open_files / 32) left close_on_exec else close_on_exec;
      } in
      (filled, counts')

  -- The label out_release.
  unfoldable pub release_files : ℕ → FilesStruct → R → R
  release_files p newf r =
      let r1 = env.free_fdset newf.close_on_exec newf.max_fdset r in
      env.free_files p (env.free_fdset newf.open_fds newf.max_fdset r1)

  abbrev pub set_files : ℕ → FilesStruct → R → Files R → Files R
  set_files p v r m = record m { rest = r; files = upd m.files p v }

  unfoldable pub is_zero : ℤ → Bool
  is_zero e = pos_part e + neg_part e == 0

  -- copy_files from its first allocation on: the files_struct `p` from that at `oldf`.
  unfoldable pub make_files : ℕ → ℕ → ℕ → Files R → Files R × ℤ
  unfolding init_files grow_fdset grow_fds fill_files release_files is_zero count_open_files
  make_files tsk oldf p m =
      let old = m.files oldf in
      let size = old.max_fdset in
      let (r1, (v1, e1)) = grow_fdset (init_files (m.files p)) size m.rest in
      let open_files = count_open_files old size in
      let (r2, (v2, e2)) = grow_fds v1 open_files r1 in
      let (v3, counts) = fill_files old v2 open_files m.f_count in
      let m3 = set_files p v3 r2 m in
      if is_zero e1
      then if is_zero e2
        then (record m3 { f_count = counts; files_of = upd m.files_of tsk (some p) }, pos 0)
        else (set_files p v2 (release_files p v2 r2) m, e2)
      else (set_files p v1 (release_files p v1 r1) m, e1)

  -- copy_files, when `current` has the files_struct `oldf`; -12 is -ENOMEM.
  unfoldable pub copy_files_of : ℕ → ℕ → ℕ → Files R → Files R × ℤ
  unfolding make_files
  copy_files_of clone_flags tsk oldf m =
      let v = m.files oldf in
      let m0 = record m { files_of = upd m.files_of tsk none } in
      if has clone_flags clone_files
      then (record m { files = upd m.files oldf (record v { count = inc v.count }) }, pos 0)
      else elim (env.alloc_files m.rest) [
        | none ↦ (m0, negsuc 11)
        | some (p, r) ↦ make_files tsk oldf p (record m0 { rest = r })
      ]

  unfoldable pub copy_files : ℕ → ℕ → ℕ → Files R → Files R × ℤ
  unfolding copy_files_of
  copy_files clone_flags current tsk m = elim (m.files_of current) [
    | none ↦ (m, pos 0)
    | some oldf ↦ copy_files_of clone_flags tsk oldf m
  ]

  -- copy_sighand, when `old` is the signal_struct of `current`
  unfoldable pub copy_sighand : ℕ → ℕ → ℕ → Files R → Files R × ℤ
  copy_sighand clone_flags old tsk m =
      let v = m.sigs old in
      if has clone_flags clone_sighand
      then (record m { sigs = upd m.sigs old (record v { count = inc v.count }) }, pos 0)
      else elim (env.alloc_sig m.rest) [
        | none ↦ (record m { sig_of = upd m.sig_of tsk none }, negsuc 0)
        | some (p, r) ↦ (
          record m {
            rest = r;
            sig_of = upd m.sig_of tsk (some p);
            sigs = upd m.sigs p (record { count = 1; action = v.action });
          },
          pos 0,
        )
      ]
