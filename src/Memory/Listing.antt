-- ===== src/Memory/Listing.antt =====
-- What copy_mm of sharedFolderHW2/fork.c makes of the list of all mm_structs, and of their users.
use mathlib.Core.Path.{subst}
use os_hw.Base.{
  ℕ, ◌^◌, ◌≤◌, ◌<◌, ◌≡◌, ◌≢◌, refl, sym, ap, ◌∙◌, Bool, true, false, Option, none, some, List, ◌∷◌,
  upd, if◌then◌else◌, arith, count, remove, remove_absent, Bool-cases, Option-cases, inl, inr,
  if_split,
}
use os_hw.Base.Words.{inc, dec}
use os_hw.DoFork.State.{has}
use os_hw.Links.{list_add, list_del, set_next}
use os_hw.Links.Ring.{IsRing}
use os_hw.Links.Refinement.{list_add-IsRing, list_del-IsRing, IsRing-set_next, IsRing-set_prev}
use os_hw.Memory.{
  dup_head, dup_mmap, mm_init, mmput, mmdrop, mm_drop_last, copy_struct, good_mm, fill_mm,
  copy_mm_of, copy_mm,
}
use os_hw.Memory.Duplicate.{IsKept, dup_mmap-IsKept}
use os_hw.Memory.State.{MemoryEnv, Memory, clone_vm}

module _ {R : Type 0} (env : MemoryEnv R) where
  -- A last mmput takes the mm_struct off the list.
  mmput_last :
      (mm : ℕ) (m : Memory R)
      → (m.mms mm).mm_users ≡ 1
      → ((mmput env mm m).mmlist ≡ list_del mm m.mmlist)
        × ((mmput env mm m).mmlist_nr ≡ dec m.mmlist_nr)
  unfolding mmput mmdrop mm_drop_last
  mmput_last mm m h = ground (arith, h)

  mm_init_lem :
      (mm : ℕ) (m : Memory R)
      → ((mm_init env mm m).0.mmlist ≡ m.mmlist)
        × (((mm_init env mm m).0.mmlist_nr ≡ m.mmlist_nr)
            × (((mm_init env mm m).0.mms mm).mm_users ≡ 1))
  unfolding mm_init
  mm_init_lem mm m = ground arith

  -- memcpy writes the links of an mm_struct that is not on the list.
  copy_struct-IsRing :
      (old mm head : ℕ) (xs : List ℕ) (m : Memory R)
      → count mm (head ∷ xs) ≡ 0
      → IsRing m.mmlist head xs
      → IsRing (copy_struct env old mm m).mmlist head xs
  unfolding copy_struct
  copy_struct-IsRing old mm head xs m h r =
      IsRing-set_prev mm (m.mmlist.prev old) head xs (set_next mm (m.mmlist.next old) m.mmlist) h
        (IsRing-set_next mm (m.mmlist.next old) head xs m.mmlist h r)

  -- The links of the copy are those of the original.
  copy_struct-list_del :
      (old mm : ℕ) (m : Memory R)
      → list_del mm (copy_struct env old mm m).mmlist
        ≡ list_del old (copy_struct env old mm m).mmlist
  unfolding copy_struct list_del
  copy_struct-list_del old mm m = ground arith

  -- What has happened before mmput or the end of copy_mm, when dup_mmap has been called.
  dup_mmap-IsRing :
      (old mm : ℕ) (xs : List ℕ) (m : Memory R)
      → count mm (old ∷ xs) ≡ 0
      → IsRing m.mmlist old xs
      → IsRing (dup_mmap env old mm m).0.mmlist old (mm ∷ xs)
        × (((dup_mmap env old mm m).0.mmlist_nr ≡ inc m.mmlist_nr)
            × (((dup_mmap env old mm m).0.mms mm).mm_users ≡ (m.mms mm).mm_users))
  dup_mmap-IsRing old mm xs m h r =
      let k : IsKept mm (dup_head env old mm m) (dup_mmap env old mm m).0 =
        dup_mmap-IsKept env mm old m in
      let listed : (dup_mmap env old mm m).0.mmlist ≡ list_add mm old m.mmlist =
        k.list ∙ unfold dup_head in refl in
      (
        subst (λ l. IsRing l old (mm ∷ xs)) (sym listed) (list_add-IsRing m.mmlist old mm xs r h),
        (k.listed ∙ unfold dup_head in refl, k.users ∙ unfold dup_head in ground arith),
      )

  -- mmput of the new mm_struct after dup_mmap restores the list.
  mmput_new :
      (old mm : ℕ) (xs : List ℕ) (m : Memory R)
      → count mm (old ∷ xs) ≡ 0
      → m.mmlist_nr < 2 ^ 32
      → (m.mms mm).mm_users ≡ 1
      → IsRing m.mmlist old xs
      → IsRing (mmput env mm (dup_mmap env old mm m).0).mmlist old xs
        × ((mmput env mm (dup_mmap env old mm m).0).mmlist_nr ≡ m.mmlist_nr)
  mmput_new old mm xs m h small one r =
      let (ring, (number, users)) = dup_mmap-IsRing old mm xs m h r in
      let m' = (dup_mmap env old mm m).0 in
      let (gone, fewer) = mmput_last mm m' (users ∙ one) in
      let same : remove mm (mm ∷ xs) ≡ xs =
        unfold remove count in ground (arith, remove_absent mm xs) in
      (
        subst (λ l. IsRing l old xs) (sym gone)
            (subst (λ ys. IsRing (list_del mm m'.mmlist) old ys) same
              (list_del-IsRing m'.mmlist old mm (mm ∷ xs) ring (unfold count in ground arith))),
        ground (arith, fewer, number),
      )

  -- The state before init_new_context: the list is as before, but for the links of the copy.
  prepared :
      (old mm head : ℕ) (xs : List ℕ) (m : Memory R)
      → count mm (head ∷ xs) ≡ 0
      → IsRing m.mmlist head xs
      → let m1 = (mm_init env mm (copy_struct env old mm m)).0 in
        IsRing m1.mmlist head xs
        × ((m1.mmlist_nr ≡ m.mmlist_nr)
            × (((m1.mms mm).mm_users ≡ 1) × (list_del mm m1.mmlist ≡ list_del old m1.mmlist)))
  prepared old mm head xs m h r =
      let (list, (number, users)) = mm_init_lem mm (copy_struct env old mm m) in
      (
        subst (λ l. IsRing l head xs) (sym list) (copy_struct-IsRing old mm head xs m h r),
        (
          number ∙ unfold copy_struct in refl,
          (
            users,
            ap (list_del mm) list ∙ copy_struct-list_del old mm m ∙ ap (list_del old) (sym list),
          ),
        ),
      )

  -- When init_new_context fails after the page directory has been allocated, copy_mm, from the
  -- copy of the struct on, answers an error and leaves the list of all mm_structs without the
  -- mm_struct that was copied, which is in use, and mmlist_nr one less, if that mm_struct was on
  -- the list and the new one was not.
  pub fill_mm_lost :
      (tsk old mm head : ℕ) (xs : List ℕ) (m : Memory R)
      → ((r : R) → (env.pgd_alloc mm r).1 ≡ true)
      → ((r : R) → (env.init_new_context tsk mm r).1 ≡ false)
      → count mm (head ∷ xs) ≡ 0
      → 1 ≤ count old xs
      → IsRing m.mmlist head xs
      → let (m', fine) = fill_mm env tsk old mm m in
        (fine ≡ false) × ((m'.mmlist_nr ≡ dec m.mmlist_nr) × IsRing m'.mmlist head (remove old xs))
  unfolding fill_mm
  fill_mm_lost tsk old mm head xs m pgd bad new listed r =
      let (ring, (number, (users, off))) = prepared old mm head xs m new r in
      let m1 = (mm_init env mm (copy_struct env old mm m)).0 in
      let started : (mm_init env mm (copy_struct env old mm m)).1 ≡ true =
        unfold mm_init in ground (arith, pgd (copy_struct env old mm m).rest) in
      let m2 : Memory R = record m1 { rest = (env.init_new_context tsk mm m1.rest).0 } in
      let (gone, fewer) = mmput_last mm m2 users in
      rw (started, bad m1.rest)
        (
          refl,
          (
            fewer ∙ ap dec number,
            subst (λ l. IsRing l head (remove old xs)) (sym (gone ∙ off))
                (list_del-IsRing m1.mmlist head old xs ring listed),
          ),
        )

  -- What becomes of the list when init_new_context goes well.
  fill_mm-IsRing :
      (tsk old mm : ℕ) (xs : List ℕ) (m : Memory R)
      → ((r : R) → (env.init_new_context tsk mm r).1 ≡ true)
      → count mm (old ∷ xs) ≡ 0
      → m.mmlist_nr < 2 ^ 32
      → IsRing m.mmlist old xs
      → let (m', fine) = fill_mm env tsk old mm m in
        IsRing m'.mmlist old (if fine then mm ∷ xs else xs)
        × (m'.mmlist_nr ≡ (if fine then inc m.mmlist_nr else m.mmlist_nr))
  unfolding fill_mm good_mm
  fill_mm-IsRing tsk old mm xs m good new small r =
      let (ring, (number, (users, off))) = prepared old mm old xs m new r in
      let m1 = (mm_init env mm (copy_struct env old mm m)).0 in
      let m2 : Memory R = record m1 { rest = (env.init_new_context tsk mm m1.rest).0 } in
      let kept = dup_mmap-IsRing old mm xs m2 new ring in
      let undone = mmput_new old mm xs m2 new (ground (arith, number)) users ring in
      elim (Bool-cases (mm_init env mm (copy_struct env old mm m)).1) [
        | inr s ↦ rw s (ring, number)
        | inl s ↦ elim (Bool-cases (dup_mmap env old mm m2).1) [
          | inl d ↦ rw (s, good m1.rest, d) (kept.0, kept.1.0 ∙ ap inc number)
          | inr d ↦ rw (s, good m1.rest, d) (undone.0, undone.1 ∙ number)
        ]
      ]

  -- CLONE_VM: the child has the mm_struct of `current`, which has a user more, and nothing else.
  copy_mm_shared :
      (clone_flags current tsk old : ℕ) (m : Memory R)
      → current ≢ tsk
      → has clone_flags clone_vm ≡ true
      → m.mm_of current ≡ some old
      → let (m', fine) = copy_mm env clone_flags current tsk m in
        (fine ≡ true)
        × ((m'.mm_of tsk ≡ m'.mm_of current)
            × (((m'.mms old).mm_users ≡ inc (m.mms old).mm_users)
                × ((m'.mmlist ≡ m.mmlist) × (m'.rest ≡ m.rest))))
  unfolding copy_mm copy_mm_of good_mm
  copy_mm_shared clone_flags current tsk old m ne shared own = ground (arith, shared, own, ne)

  -- What becomes of the list when copy_mm fails.
  abbrev IsUndone : ℕ → List ℕ → Memory R → Memory R × Bool → Type 0
  IsUndone old xs m (m', fine) =
      fine ≡ false → IsRing m'.mmlist old xs × (m'.mmlist_nr ≡ m.mmlist_nr)

  fill_mm-IsUndone :
      (tsk old mm : ℕ) (xs : List ℕ) (m m0 : Memory R)
      → ((r : R) → (env.init_new_context tsk mm r).1 ≡ true)
      → count mm (old ∷ xs) ≡ 0
      → m.mmlist_nr < 2 ^ 32
      → (m0.mmlist ≡ m.mmlist) × (m0.mmlist_nr ≡ m.mmlist_nr)
      → IsRing m.mmlist old xs
      → IsUndone old xs m (fill_mm env tsk old mm m0)
  fill_mm-IsUndone tsk old mm xs m m0 good new small (list, number) r bad =
      let ring : IsRing m0.mmlist old xs = subst (λ l. IsRing l old xs) (sym list) r in
      let (kept, listed) = fill_mm-IsRing tsk old mm xs m0 good new (ground (arith, number)) ring in
      let ring' : IsRing (fill_mm env tsk old mm m0).0.mmlist old xs =
        subst (λ b. IsRing (fill_mm env tsk old mm m0).0.mmlist old (if b then mm ∷ xs else xs)) bad
          kept in
      (ring', ground (arith, listed, bad, number))

  copy_mm_of-IsUndone :
      (clone_flags tsk old : ℕ) (xs : List ℕ) (m m0 : Memory R)
      → ((mm : ℕ) (r : R) → (env.init_new_context tsk mm r).1 ≡ true)
      → ((mm : ℕ) (r r' : R) → env.allocate_mm r ≡ some (mm, r') → count mm (old ∷ xs) ≡ 0)
      → m.mmlist_nr < 2 ^ 32
      → (m0.mmlist ≡ m.mmlist) × (m0.mmlist_nr ≡ m.mmlist_nr)
      → IsRing m.mmlist old xs
      → IsUndone old xs m (copy_mm_of env clone_flags tsk old m0)
  unfolding copy_mm_of
  copy_mm_of-IsUndone clone_flags tsk old xs m m0 good new small same r =
      if_split (IsUndone old xs m) (has clone_flags clone_vm) _ _ (λ s bad. ground (arith, bad))
        (λ s. elim (Option-cases (env.allocate_mm m0.rest)) [
          | inl a ↦ rw a (λ bad. (subst (λ l. IsRing l old xs) (sym same.0) r, same.1))
          | inr ((mm, rest), a) ↦ rw a (
              fill_mm-IsUndone tsk old mm xs m (record m0 { rest = rest }) (good mm)
                (new mm m0.rest rest a) small same r)
        ])

  -- When copy_mm fails, the ring of all mm_structs, seen from the one of the running task, has the
  -- places that it had and mmlist_nr is as before, if init_new_context always goes well, a new
  -- mm_struct is none of the ring, the new task is not the running one and mmlist_nr is below 2 ^
  -- 32.
  pub copy_mm-IsRing :
      (clone_flags current tsk old : ℕ) (xs : List ℕ) (m : Memory R)
      → ((mm : ℕ) (r : R) → (env.init_new_context tsk mm r).1 ≡ true)
      → ((mm : ℕ) (r r' : R) → env.allocate_mm r ≡ some (mm, r') → count mm (old ∷ xs) ≡ 0)
      → current ≢ tsk
      → m.mm_of current ≡ some old
      → m.mmlist_nr < 2 ^ 32
      → IsRing m.mmlist old xs
      → let (m', fine) = copy_mm env clone_flags current tsk m in
        fine ≡ false → IsRing m'.mmlist old xs × (m'.mmlist_nr ≡ m.mmlist_nr)
  unfolding copy_mm
  copy_mm-IsRing clone_flags current tsk old xs m good new ne own small r =
      let m0 : Memory R = record m {
        mm_of = upd m.mm_of tsk none;
        active_mm = upd m.active_mm tsk none;
      } in
      let found : m0.mm_of current ≡ some old = ground (arith, own, ne) in
      let after : Option ℕ → Memory R × Bool =
        λ o. elim o [ none ↦ (m0, true) | some p ↦ copy_mm_of env clone_flags tsk p m0 ] in
      subst (λ o. IsUndone old xs m (after o)) (sym found)
        (copy_mm_of-IsUndone clone_flags tsk old xs m m0 good new small (refl, refl) r)
