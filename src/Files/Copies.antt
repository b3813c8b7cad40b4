-- ===== src/Files/Copies.antt =====
-- What copy_files of sharedFolderHW2/fork.c makes of the files of `current`.
use mathlib.Core.Path.{subst}
use os_hw.Base.{
  ℕ, ◌+◌, ◌*◌, ◌/◌, ◌-◌, ◌%◌, ◌^◌, ◌≤◌, ◌<◌, ◌≡◌, refl, sym, ap, ◌∙◌, true, false, Option, none,
  some, upd, ltb, ◌==◌, if◌then◌else◌, arith, Option-cases, inl, inr, if_split,
}
use os_hw.Base.Int.{ℤ, pos}
use os_hw.Base.Words.{wrap, inc}
use os_hw.DoFork.State.{has}
use os_hw.Files.{
  count_open_files, copy_bytes, clear_bytes, init_files, grow_fdset, grow_fds, fill_files, is_zero,
  release_files, set_files, make_files, copy_files_of, copy_files,
}
use os_hw.Files.Counting.{count_open_files_lem, references, copy_fds-array, copy_fds-counts}
use os_hw.Files.State.{FilesStruct, FilesEnv, Files, clone_files, nr_open_default}

-- The files_struct of a child with the files of `old`, and with room for them.
pub record IsCopy (old new : FilesStruct) : Type 0 where
  pub single : new.count ≡ 1
  pub room : count_open_files old old.max_fdset ≤ new.max_fds
  pub open_kept :
      (i : ℕ)
      → i < 32 * (old.max_fdset / 32)
      → old.open_fds i ≡ true
      → (new.fd i ≡ old.fd i)
        × ((new.open_fds i ≡ true) × (new.close_on_exec i ≡ old.close_on_exec i))
  pub none_opened : (i : ℕ) → i < new.max_fdset → old.open_fds i ≡ false → new.open_fds i ≡ false
  pub cleared : (i : ℕ) → count_open_files old old.max_fdset ≤ i → i < new.max_fds → new.fd i ≡ none

-- What expand_fdset and expand_fd_array do: an answer of 0 comes with room for the number they are
-- given, in sets of whole words and in an array of at most NR_OPEN = 2 ^ 20 descriptors; the other
-- size and the number of users stay. FD_SETSIZE is a number of whole words, too.
pub record IsExpanding {R : Type 0} (env : FilesEnv R) : Type 0 where
  pub by_words : env.fd_setsize % 32 ≡ 0
  pub fdset :
      (v : FilesStruct) (n : ℕ) (r : R)
      → let (v', e) = (env.expand_fdset v n r).1 in
        is_zero env e ≡ true
        → (n < v'.max_fdset)
          × ((v'.max_fdset % 32 ≡ 0) × ((v'.max_fds ≡ v.max_fds) × (v'.count ≡ v.count)))
  pub fd_array :
      (v : FilesStruct) (n : ℕ) (r : R)
      → let (v', e) = (env.expand_fd_array v n r).1 in
        is_zero env e ≡ true
        → (n < v'.max_fds)
          × ((v'.max_fds ≤ 2 ^ 20) × ((v'.max_fdset ≡ v.max_fdset) × (v'.count ≡ v.count)))

module _ {R : Type 0} (env : FilesEnv R) where
  -- What fill_files makes of a files_struct with room.
  fill_files-IsCopy :
      (old newf : FilesStruct) (counts : ℕ → ℕ)
      → newf.count ≡ 1
      → count_open_files old old.max_fdset ≤ newf.max_fds
      → newf.max_fds ≤ 2 ^ 20
      → newf.max_fdset % 32 ≡ 0
      → IsCopy old (fill_files env old newf (count_open_files old old.max_fdset) counts).0
  unfolding fill_files copy_bytes clear_bytes
  fill_files-IsCopy old newf counts one room small words =
      let n = count_open_files old old.max_fdset in
      let (all, (multiple, bounds)) = count_open_files_lem old old.max_fdset in
      record {
        single = one;
        room = room;
        open_kept = λ i h e. (
          ground (arith, copy_fds-array env n 0 old.fd newf.fd counts i, all i h e),
          (ground (arith, all i h e, multiple, e), ground (arith, all i h e, multiple)),
        );
        none_opened = λ i h e. ground (arith, multiple, e, h, words);
        cleared = λ i h l. ground (arith, h, l, room, small);
      }

  grow_fdset_lem :
      IsExpanding env
      → (v : FilesStruct) (size : ℕ) (r : R) → v.max_fdset ≡ env.fd_setsize
      → let (v', e) = (grow_fdset env v size r).1 in
        is_zero env e ≡ true
        → (v'.max_fdset % 32 ≡ 0) × ((v'.max_fds ≡ v.max_fds) × (v'.count ≡ v.count))
  unfolding grow_fdset
  grow_fdset_lem ex v size r start =
      if_split
        (λ (x : R × (FilesStruct × ℤ)).
          is_zero env x.1.1 ≡ true
          → (x.1.0.max_fdset % 32 ≡ 0) × ((x.1.0.max_fds ≡ v.max_fds) × (x.1.0.count ≡ v.count)))
        (ltb env.fd_setsize size) _ _
        (λ b z. (ex.fdset (record v { max_fdset = 0 }) (size - 1) r z).1)
        (λ b z. (ground (arith, start, ex.by_words), (refl, refl)))

  grow_fds_lem :
      IsExpanding env
      → (v : FilesStruct) (open_files : ℕ) (r : R) → v.max_fds ≡ nr_open_default
      → let (v', e) = (grow_fds env v open_files r).1 in
        is_zero env e ≡ true
        → (open_files ≤ v'.max_fds)
          × ((v'.max_fds ≤ 2 ^ 20) × ((v'.max_fdset ≡ v.max_fdset) × (v'.count ≡ v.count)))
  unfolding grow_fds
  grow_fds_lem ex v open_files r start =
      if_split
        (λ (x : R × (FilesStruct × ℤ)).
          is_zero env x.1.1 ≡ true
          → (open_files ≤ x.1.0.max_fds)
            × ((x.1.0.max_fds ≤ 2 ^ 20)
                × ((x.1.0.max_fdset ≡ v.max_fdset) × (x.1.0.count ≡ v.count))))
        (ltb nr_open_default open_files) _ _
        (λ b z.
          let (room, more) = ex.fd_array (record v { max_fds = 0 }) (open_files - 1) r z in
          (omega (arith, room), more))
        (λ b z. (ground (arith, start, b), (ground (arith, start), (refl, refl))))

  -- Nothing is left but the branch of success when the answer is 0.
  abbrev pub outcome : ℤ → ℤ → Files R → Files R → Files R → Files R × ℤ
  outcome e1 e2 good bad1 bad2 =
      if is_zero env e1 then if is_zero env e2 then (good, pos 0) else (bad2, e2) else (bad1, e1)

  only_success :
      (e1 e2 : ℤ) (good bad1 bad2 : Files R)
      → (outcome e1 e2 good bad1 bad2).1 ≡ pos 0
      → (is_zero env e1 ≡ true)
        × ((is_zero env e2 ≡ true) × ((outcome e1 e2 good bad1 bad2).0 ≡ good))
  unfolding is_zero
  only_success e1 e2 good bad1 bad2 fine = ground (arith, fine)

  -- The child's files_struct when copy_files answers 0 without sharing.
  make_files-IsCopy :
      IsExpanding env
      → ((f : ℕ) (counts : ℕ → ℕ) (g : ℕ)
          → env.get_file f counts g ≡ (if f == g then inc (counts g) else counts g))
      → (tsk oldf p : ℕ) (m : Files R)
      → let (m', answer) = make_files env tsk oldf p m in
        answer ≡ pos 0
        → (m'.files_of tsk ≡ some p)
          × (IsCopy (m.files oldf) (m'.files p)
              × ((g : ℕ)
                  → let old = m.files oldf in
                    wrap (m'.f_count g)
                    ≡ wrap
                        (m.f_count g + references (count_open_files old old.max_fdset) 0 old.fd g)))
  unfolding make_files
  make_files-IsCopy ex get tsk oldf p m fine =
      let old = m.files oldf in
      let n = count_open_files old old.max_fdset in
      let v0 = init_files env (m.files p) in
      let (r1, (v1, e1)) = grow_fdset env v0 old.max_fdset m.rest in
      let (r2, (v2, e2)) = grow_fds env v1 n r1 in
      let filled = fill_files env old v2 n m.f_count in
      let good : Files R = record (set_files env p filled.0 r2 m) {
        f_count = filled.1;
        files_of = upd m.files_of tsk (some p);
      } in
      let (z1, (z2, same)) =
        only_success e1 e2 good (set_files env p v1 (release_files env p v1 r1) m)
          (set_files env p v2 (release_files env p v2 r2) m) fine in
      let (words, (fds, count1)) =
        grow_fdset_lem ex v0 old.max_fdset m.rest (unfold init_files in refl) z1 in
      let (room, (small, (kept, count2))) =
        grow_fds_lem ex v1 n r1 (fds ∙ unfold init_files in refl) z2 in
      let one : v2.count ≡ 1 = count2 ∙ count1 ∙ unfold init_files in refl in
      let copy : IsCopy old filled.0 =
        fill_files-IsCopy old v2 m.f_count one room small (ap (λ k. k % 32) kept ∙ words) in
      subst
        (λ (m' : Files R).
          (m'.files_of tsk ≡ some p)
          × (IsCopy old (m'.files p)
              × ((g : ℕ) → wrap (m'.f_count g) ≡ wrap (m.f_count g + references n 0 old.fd g))))
        (sym same)
        (
          ground arith,
          (
            subst (IsCopy old) (ground arith) copy,
            λ g. unfold fill_files in copy_fds-counts env get n 0 old.fd v2.fd m.f_count g,
          ),
        )

  -- The states of a success.
  abbrev IsCopied : ℕ → ℕ → Files R → Files R → Type 0
  IsCopied tsk oldf m m' =
      let old = m.files oldf in
      (p : ℕ) × ((m'.files_of tsk ≡ some p)
        × (IsCopy old (m'.files p)
            × ((g : ℕ)
                → wrap (m'.f_count g)
                  ≡ wrap
                      (m.f_count g + references (count_open_files old old.max_fdset) 0 old.fd g))))

  copy_files_of-IsCopied :
      IsExpanding env
      → ((f : ℕ) (counts : ℕ → ℕ) (g : ℕ)
          → env.get_file f counts g ≡ (if f == g then inc (counts g) else counts g))
      → (clone_flags tsk oldf : ℕ) (m : Files R) → has clone_flags clone_files ≡ false
      → (copy_files_of env clone_flags tsk oldf m).1 ≡ pos 0
      → IsCopied tsk oldf m (copy_files_of env clone_flags tsk oldf m).0
  unfolding copy_files_of
  copy_files_of-IsCopied ex get clone_flags tsk oldf m =
      if_split
        (λ (x : Files R × ℤ).
          has clone_flags clone_files ≡ false → x.1 ≡ pos 0 → IsCopied tsk oldf m x.0)
        (has clone_flags clone_files) _ _ (λ s apart. ground (arith, s, apart))
        (λ s apart. elim (Option-cases (env.alloc_files m.rest)) [
          | inl a ↦ rw a (λ fine. ground (arith, fine))
          | inr ((p, r), a) ↦ rw a (λ fine. (
            p,
            make_files-IsCopy ex get tsk oldf p
                (record m { rest = r; files_of = upd m.files_of tsk none }) fine,
          ))
        ])

  pub copy_files_lem :
      (clone_flags current tsk oldf : ℕ) (m : Files R)
      → m.files_of current ≡ some oldf
      → copy_files env clone_flags current tsk m ≡ copy_files_of env clone_flags tsk oldf m
  unfolding copy_files
  copy_files_lem clone_flags current tsk oldf m own =
      ap
        (λ (o : Option ℕ). elim o as (λ o. Files R × ℤ) [
          | none ↦ (m, pos 0)
          | some q ↦ copy_files_of env clone_flags tsk q m
        ])
        own

  -- When copy_files answers 0 without CLONE_FILES to a task with files, the new task has a
  -- files_struct of one user in which every open descriptor of the old one, below the whole words
  -- of its set, is open with the same file and the same close-on-exec bit, no other descriptor of
  -- the set is open, and every place of the array past count_open_files is null; and the count of
  -- each file has grown, modulo 2 ^ 32, by the number of its descriptors below count_open_files.
  -- The conditions are those of IsExpanding and one on get_file: FD_SETSIZE is a multiple of 32;
  -- an expand_fdset that answers 0 leaves a set of more descriptors than the number it is given, a
  -- multiple of 32, and keeps the size of the array and the number of users; an expand_fd_array
  -- that answers 0 leaves an array of more descriptors than the number it is given and of at most
  -- NR_OPEN = 2 ^ 20, and keeps the size of the set and the number of users; and get_file adds one
  -- to the count of its file alone.
  pub copy_files-IsCopy :
      IsExpanding env
      → ((f : ℕ) (counts : ℕ → ℕ) (g : ℕ)
          → env.get_file f counts g ≡ (if f == g then inc (counts g) else counts g))
      → (clone_flags current tsk oldf : ℕ) (m : Files R) → m.files_of current ≡ some oldf
      → has clone_flags clone_files ≡ false
      → let (m', answer) = copy_files env clone_flags current tsk m in
        answer ≡ pos 0
        → (p : ℕ) × ((m'.files_of tsk ≡ some p)
            × (IsCopy (m.files oldf) (m'.files p)
                × ((g : ℕ)
                    → let old = m.files oldf in
                      wrap (m'.f_count g)
                      ≡ wrap (
                          m.f_count g
                          + references (count_open_files old old.max_fdset) 0 old.fd g))))
  copy_files-IsCopy ex get clone_flags current tsk oldf m own apart =
      subst (λ (x : Files R × ℤ). x.1 ≡ pos 0 → IsCopied tsk oldf m x.0)
        (sym (copy_files_lem clone_flags current tsk oldf m own))
        (copy_files_of-IsCopied ex get clone_flags tsk oldf m apart)

  -- CLONE_FILES: the parent's files_struct has a user more, and nothing else changes.
  copy_files_shared :
      (clone_flags current tsk oldf : ℕ) (m : Files R)
      → m.files_of current ≡ some oldf
      → has clone_flags clone_files ≡ true
      → let old = m.files oldf in
        copy_files env clone_flags current tsk m
        ≡ (record m { files = upd m.files oldf (record old { count = inc old.count }) }, pos 0)
  copy_files_shared clone_flags current tsk oldf m own shared =
      copy_files_lem clone_flags current tsk oldf m own ∙ unfold copy_files_of in rw shared refl
