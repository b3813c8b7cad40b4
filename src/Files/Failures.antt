-- ===== src/Files/Failures.antt =====
-- What copy_files of sharedFolderHW2/fork.c leaves when it fails.
use mathlib.Core.Path.{subst}
use os_hw.Base.{
  ℕ, ◌≡◌, ◌≢◌, ◌⊎◌, refl, sym, ap, ◌∙◌, Option, none, some, upd, arith, Option-cases, inl, inr,
  if_split,
}
use os_hw.Base.Int.{ℤ, pos}
use os_hw.DoFork.State.{has}
use os_hw.Files.{
  count_open_files, init_files, grow_fdset, grow_fds, fill_files, is_zero, release_files, set_files,
  make_files, copy_files_of, copy_files,
}
use os_hw.Files.State.{FilesStruct, FilesEnv, Files, clone_files}
use os_hw.Files.Copies.{outcome, copy_files_lem}

-- A failed copy: the task has no files, and the others keep theirs.
pub record IsFailed {R : Type 0} (env : FilesEnv R) (tsk : ℕ) (m m' : Files R) : Type 0 where
  pub without : m'.files_of ≡ upd m.files_of tsk none
  pub counts : m'.f_count ≡ m.f_count
  pub others : (q : ℕ) → ((r : R) → env.alloc_files m.rest ≢ some (q, r)) → m'.files q ≡ m.files q

module _ {R : Type 0} (env : FilesEnv R) where
  only_failure :
      (e1 e2 : ℤ) (good bad1 bad2 : Files R)
      → (outcome env e1 e2 good bad1 bad2).1 ≢ pos 0
      → ((outcome env e1 e2 good bad1 bad2).0 ≡ bad1)
        ⊎ ((outcome env e1 e2 good bad1 bad2).0 ≡ bad2)
  unfolding is_zero
  only_failure e1 e2 good bad1 bad2 bad = ground (arith, bad)

  make_files-IsFailed :
      (tsk oldf p : ℕ) (m : Files R)
      → (make_files env tsk oldf p m).1 ≢ pos 0
      → let m' = (make_files env tsk oldf p m).0 in
        (m'.files_of ≡ m.files_of)
        × ((m'.f_count ≡ m.f_count) × ((q : ℕ) → p ≢ q → m'.files q ≡ m.files q))
  unfolding make_files
  make_files-IsFailed tsk oldf p m bad =
      let old = m.files oldf in
      let n = count_open_files old old.max_fdset in
      let v0 = init_files env (m.files p) in
      let (r1, (v1, e1)) = grow_fdset env v0 old.max_fdset m.rest in
      let (r2, (v2, e2)) = grow_fds env v1 n r1 in
      let filled = fill_files env old v2 n m.f_count in
      let good : Files R = record (set_files env p filled.0 r2 m) {
        f_count = filled.1;
        files_of = upd m.files_of tsk (some p);
      } in
      let left : FilesStruct → R → Files R = λ v r. set_files env p v (release_files env p v r) m in
      let P : Files R → Type 0 = λ m'.
        (m'.files_of ≡ m.files_of)
        × ((m'.f_count ≡ m.f_count) × ((q : ℕ) → p ≢ q → m'.files q ≡ m.files q)) in
      elim (only_failure e1 e2 good (left v1 r1) (left v2 r2) bad) [
        | inl same ↦ subst P (sym same) (refl, (refl, λ q ne. ground (arith, ne)))
        | inr same ↦ subst P (sym same) (refl, (refl, λ q ne. ground (arith, ne)))
      ]

  copy_files_of-IsFailed :
      (clone_flags tsk oldf : ℕ) (m : Files R)
      → (copy_files_of env clone_flags tsk oldf m).1 ≢ pos 0
      → IsFailed env tsk m (copy_files_of env clone_flags tsk oldf m).0
  unfolding copy_files_of
  copy_files_of-IsFailed clone_flags tsk oldf m =
      if_split (λ (x : Files R × ℤ). x.1 ≢ pos 0 → IsFailed env tsk m x.0)
        (has clone_flags clone_files) _ _ (λ s bad. elim (bad refl) [ ])
        (λ s. elim (Option-cases (env.alloc_files m.rest)) [
          | inl a ↦ rw a (λ bad. record { without = refl; counts = refl; others = λ q no. refl })
          | inr ((p, r), a) ↦ rw a (λ bad.
              let m0 : Files R = record m { rest = r; files_of = upd m.files_of tsk none } in
              let (same, (counted, kept)) = make_files-IsFailed tsk oldf p m0 bad in
              record {
                without = same;
                counts = counted;
                others = λ q no. kept q (λ e. no r (a ∙ ap (λ k. some (k, r)) e));
              })
        ])

  -- When copy_files answers an error, the new task has no files, and the files of the other tasks,
  -- the count of every file and every files_struct but the one that was allocated are as before.
  pub copy_files-IsFailed :
      (clone_flags current tsk : ℕ) (m : Files R)
      → let (m', answer) = copy_files env clone_flags current tsk m in
        answer ≢ pos 0 → IsFailed env tsk m m'
  unfolding copy_files
  copy_files-IsFailed clone_flags current tsk m = elim (Option-cases (m.files_of current)) [
    | inl a ↦
        subst
          (λ (o : Option ℕ).
            let x : Files R × ℤ = elim o as (λ o. Files R × ℤ) [
              | none ↦ (m, pos 0)
              | some oldf ↦ copy_files_of env clone_flags tsk oldf m
            ] in
            x.1 ≢ pos 0 → IsFailed env tsk m x.0)
          (sym a) (λ bad. elim (bad refl) [ ])
    | inr (oldf, a) ↦
        subst (λ (x : Files R × ℤ). x.1 ≢ pos 0 → IsFailed env tsk m x.0)
          (sym (copy_files_lem env clone_flags current tsk oldf m a))
          (copy_files_of-IsFailed clone_flags tsk oldf m)
  ]
