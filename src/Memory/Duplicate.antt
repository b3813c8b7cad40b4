-- ===== src/Memory/Duplicate.antt =====
-- What dup_mmap of sharedFolderHW2/fork.c leaves alone.
use os_hw.Base.{
  ℕ, ◌+◌, ◌≡◌, ◌≢◌, refl, ◌∙◌, true, List, [], ◌∷◌, if◌then◌else◌, arith, Bool-cases, Option-cases,
  inl, inr, if_split,
}
use os_hw.Base.Words.{wrap}
use os_hw.Memory.{charged, share_file, link_area, dup_areas, dup_head, dup_end, dup_mmap}
use os_hw.Memory.State.{Area, MemoryEnv, Memory, Copied}

-- The memory that the loop of dup_mmap leaves, however it ends.
abbrev pub left_by : {R : Type 0} → Copied R → Memory R
left_by (Copied.all_copied charge m) = m
left_by (Copied.no_memory charge m) = m

-- What a part of dup_mmap leaves alone: the list of all mm_structs and the other mm_structs.
pub record IsKept {R : Type 0} (mm : ℕ) (m m' : Memory R) : Type 0 where
  pub list : m'.mmlist ≡ m.mmlist
  pub listed : m'.mmlist_nr ≡ m.mmlist_nr
  pub others : (q : ℕ) → mm ≢ q → m'.mms q ≡ m.mms q
  pub users : (m'.mms mm).mm_users ≡ (m.mms mm).mm_users
  pub tasks : (m'.mm_of ≡ m.mm_of) × (m'.active_mm ≡ m.active_mm)

module _ {R : Type 0} (env : MemoryEnv R) (mm : ℕ) where
  pub share_file-mms :
      (v : Area) (m : Memory R)
      → ((share_file env v m).mms ≡ m.mms)
        × (((share_file env v m).mmlist ≡ m.mmlist)
            × (((share_file env v m).mmlist_nr ≡ m.mmlist_nr)
                × (((share_file env v m).mm_of ≡ m.mm_of)
                    × ((share_file env v m).active_mm ≡ m.active_mm))))
  unfolding share_file
  share_file-mms v m = ground arith

  link_area-IsKept : (v : Area) (m : Memory R) → IsKept mm m (link_area env mm v m).0
  unfolding link_area
  link_area-IsKept v m =
      let same = share_file-mms v m in
      record {
        list = ground (arith, same);
        listed = ground (arith, same);
        others = λ q ne. ground (arith, same);
        users = ground (arith, same);
        tasks = ground (arith, same);
      }

  IsKept-refl : (m : Memory R) → IsKept mm m m
  IsKept-refl m = record {
    list = refl;
    listed = refl;
    others = λ q ne. refl;
    users = refl;
    tasks = (refl, refl);
  }

  IsKept-trans : (a b c : Memory R) → IsKept mm a b → IsKept mm b c → IsKept mm a c
  IsKept-trans a b c h k = record {
    list = k.list ∙ h.list;
    listed = k.listed ∙ h.listed;
    others = λ q ne. k.others q ne ∙ h.others q ne;
    users = k.users ∙ h.users;
    tasks = (k.tasks.0 ∙ h.tasks.0, k.tasks.1 ∙ h.tasks.1);
  }

  -- The rest of the kernel is no part of what is kept.
  IsKept-rest : (m : Memory R) (r : R) → IsKept mm m (record m { rest = r })
  IsKept-rest m r = record {
    list = refl;
    listed = refl;
    others = λ q ne. refl;
    users = refl;
    tasks = (refl, refl);
  }

  dup_areas-IsKept :
      (vs : List Area) (charge : ℕ) (m : Memory R)
      → IsKept mm m (left_by (dup_areas env mm vs charge m))
  unfolding dup_areas
  dup_areas-IsKept [] charge m = IsKept-refl m
  dup_areas-IsKept (v ∷ vs) charge m =
      let enough =
        if v.accounted then env.vm_enough_memory (charged env v) m.rest else (m.rest, true) in
      let charge' = wrap (charge + charged env v) in
      if_split (λ c. IsKept mm m (left_by c)) v.dont_copy _ _ (λ d. dup_areas-IsKept vs charge m)
        (λ d. elim (Bool-cases enough.1) [
          | inr g ↦ rw g (IsKept-rest m enough.0)
          | inl g ↦ elim (Option-cases (env.alloc_area enough.0)) [
            | inl a ↦ rw (g, a) (IsKept-rest m enough.0)
            | inr (r2, a) ↦
                let m2 : Memory R = record m { rest = r2 } in
                let linked = link_area env mm v m2 in
                let so_far : IsKept mm m linked.0 =
                  IsKept-trans m m2 linked.0 (IsKept-rest m r2) (link_area-IsKept v m2) in
                elim (Bool-cases linked.1) [
                  | inr f ↦ rw (g, a, f) so_far
                  | inl f ↦
                      rw (g, a, f)
                        (IsKept-trans m linked.0 (left_by (dup_areas env mm vs charge' linked.0))
                          so_far (dup_areas-IsKept vs charge' linked.0))
                ]
          ]
        ])

  -- What dup_mmap leaves alone after its head.
  dup_end-IsKept :
      (c : Copied R) (m0 : Memory R) → IsKept mm m0 (left_by c) → IsKept mm m0 (dup_end env mm c).0
  unfolding dup_end
  dup_end-IsKept (Copied.all_copied charge m) m0 h =
      IsKept-trans m0 m (record m { rest = env.build_mmap_rb mm m.rest }) h
        (IsKept-rest m (env.build_mmap_rb mm m.rest))
  dup_end-IsKept (Copied.no_memory charge m) m0 h =
      IsKept-trans m0 m (record m { rest = env.vm_unacct_memory charge m.rest }) h
        (IsKept-rest m (env.vm_unacct_memory charge m.rest))

  -- What dup_mmap leaves of the mm_structs and of their list after its head.
  pub dup_mmap-IsKept :
      (old : ℕ) (m : Memory R) → IsKept mm (dup_head env old mm m) (dup_mmap env old mm m).0
  unfolding dup_mmap
  dup_mmap-IsKept old m =
      let m0 = dup_head env old mm m in
      let vs = (m0.mms old).mmap in
      dup_end-IsKept (dup_areas env mm vs 0 m0) m0 (dup_areas-IsKept vs 0 m0)
