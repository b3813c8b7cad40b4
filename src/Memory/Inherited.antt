-- ===== src/Memory/Inherited.antt =====
-- What dup_mmap of sharedFolderHW2/fork.c makes of the areas of the mm_struct of `current`.
use mathlib.Core.Path.{subst}
use mathlib.Core.List.{append-nil, append_assoc}
use os_hw.Base.{
  ℕ, ◌+◌, ◌≡◌, ◌≢◌, refl, sym, ap, ◌∙◌, true, false, List, [], ◌∷◌, ◌++◌, ◌==◌, if◌then◌else◌,
  points_to, length, arith, Bool-cases, Option-cases, inl, inr, if_split,
}
use os_hw.Base.Words.{wrap, inc}
use os_hw.Memory.{
  charged, copied_area, share_file, link_area, dup_areas, dup_head, dup_end, dup_mmap,
}
use os_hw.Memory.State.{Area, MemoryEnv, Memory, Copied}
use os_hw.Memory.Duplicate.{share_file-mms}

-- The areas that a child gets: all but those that are not to be copied.
unfoldable pub inherited : ℕ → List Area → List Area
inherited mm [] = []
inherited mm (v ∷ vs) =
    let rest = inherited mm vs in
    let new : Area = record {
      vm_start = v.vm_start;
      vm_end = v.vm_end;
      vm_mm = mm;
      vm_file = v.vm_file;
      dont_copy = v.dont_copy;
      accounted = v.accounted;
      locked = false;
      deny_write = v.deny_write;
    } in
    if v.dont_copy then rest else new ∷ rest

-- How many of the areas map the file `f`.
unfoldable pub mapped : ℕ → List Area → ℕ
mapped f [] = 0
mapped f (v ∷ vs) = let rest = mapped f vs in if points_to v.vm_file f then rest + 1 else rest

-- What the areas `vs` add to the mm_struct `mm` and to the counts of the files.
pub record IsExtended {R : Type 0} (mm : ℕ) (vs : List Area) (m m' : Memory R) : Type 0 where
  pub areas : (m'.mms mm).mmap ≡ (m.mms mm).mmap ++ vs
  pub number : wrap (m'.mms mm).map_count ≡ wrap ((m.mms mm).map_count + length vs)
  pub counts : (f : ℕ) → wrap (m'.f_count f) ≡ wrap (m.f_count f + mapped f vs)

-- What holds of the memory when all has been copied.
abbrev pub IsDone : {R : Type 0} → (Memory R → Type 0) → Copied R → Type 0
IsDone P (Copied.all_copied charge m) = P m
IsDone P (Copied.no_memory charge m) = Unit

module _ {R : Type 0} (env : MemoryEnv R) (mm : ℕ) where
  IsDone-map :
      {P Q : Memory R → Type 0} (c : Copied R)
      → ((m : Memory R) → P m → Q m)
      → IsDone P c
      → IsDone Q c
  IsDone-map (Copied.all_copied charge m) f h = f m h
  IsDone-map (Copied.no_memory charge m) f h = tt

  IsExtended-refl : (m : Memory R) → IsExtended mm [] m m
  unfolding mapped
  IsExtended-refl m = record {
    areas = sym (append-nil (m.mms mm).mmap);
    number = ground arith;
    counts = λ f. ground arith;
  }

  IsExtended-cons :
      (a : Area) (vs : List Area) (x y z : Memory R)
      → IsExtended mm (a ∷ []) x y
      → IsExtended mm vs y z
      → IsExtended mm (a ∷ vs) x z
  unfolding mapped
  IsExtended-cons a vs x y z h k = record {
    areas = k.areas ∙ ap (λ xs. xs ++ vs) h.areas ∙ append_assoc (x.mms mm).mmap (a ∷ []) vs;
    number = ground (arith, h.number, k.number);
    counts = λ f. ground (arith, h.counts f, k.counts f);
  }

  inherited_skip :
      (v : Area) (vs : List Area) → v.dont_copy ≡ true → inherited mm vs ≡ inherited mm (v ∷ vs)
  unfolding inherited
  inherited_skip v vs d = rw d refl

  inherited_copy :
      (v : Area) (vs : List Area)
      → v.dont_copy ≡ false
      → copied_area env mm v ∷ inherited mm vs ≡ inherited mm (v ∷ vs)
  unfolding inherited copied_area
  inherited_copy v vs d =
      if_split (λ r. copied_area env mm v ∷ inherited mm vs ≡ r) v.dont_copy _ _ (λ e. cc (d, e))
        (λ e. refl)

  IsExtended-rest :
      (vs : List Area) (m z : Memory R) (r : R)
      → IsExtended mm vs (record m { rest = r }) z
      → IsExtended mm vs m z
  IsExtended-rest vs m z r h = record { areas = h.areas; number = h.number; counts = h.counts }

  dup_end-IsExtended :
      (c : Copied R) (vs : List Area) (m0 : Memory R)
      → IsDone (IsExtended mm vs m0) c
      → (dup_end env mm c).1 ≡ true
      → IsExtended mm vs m0 (dup_end env mm c).0
  unfolding dup_end
  dup_end-IsExtended (Copied.all_copied charge m) vs m0 h fine = record {
    areas = h.areas;
    number = h.number;
    counts = h.counts;
  }
  dup_end-IsExtended (Copied.no_memory charge m) vs m0 h fine = ground arith

  other_areas :
      (old : ℕ) (m : Memory R)
      → mm ≢ old
      → ((dup_head env old mm m).mms old).mmap ≡ (m.mms old).mmap
  unfolding dup_head
  other_areas old m ne = ground arith

-- With get_file as it is documented, the counts of the files too.
module _ {R : Type 0} (env : MemoryEnv R) (mm : ℕ)
    (get_file_lem : (f : ℕ) (counts : ℕ → ℕ) (g : ℕ)
      → env.get_file f counts g ≡ (if f == g then inc (counts g) else counts g)) where
  share_file-counts :
      (v : Area) (m : Memory R) (f : ℕ)
      → wrap ((share_file env v m).f_count f)
        ≡ wrap (m.f_count f + (if points_to v.vm_file f then 1 else 0))
  unfolding share_file
  share_file-counts v m f = elim (Option-cases v.vm_file) [
    | inl e ↦ ground (arith, e)
    | inr (g, e) ↦ ground (arith, e, get_file_lem g m.f_count f)
  ]

  link_area-IsExtended :
      (v : Area) (m : Memory R)
      → IsExtended mm (copied_area env mm v ∷ []) m (link_area env mm v m).0
  unfolding link_area copied_area mapped
  link_area-IsExtended v m =
      let same = share_file-mms env mm v m in
      record {
        areas = ground (arith, same);
        number = ground (arith, same);
        counts = λ f. ground (arith, share_file-counts v m f);
      }

  -- The loop adds the areas that the child inherits, when it gets to its end.
  dup_areas-IsExtended :
      (vs : List Area) (charge : ℕ) (m : Memory R)
      → IsDone (IsExtended mm (inherited mm vs) m) (dup_areas env mm vs charge m)
  unfolding dup_areas
  dup_areas-IsExtended [] charge m = unfold inherited in IsExtended-refl env mm m
  dup_areas-IsExtended (v ∷ vs) charge m =
      let enough =
        if v.accounted then env.vm_enough_memory (charged env v) m.rest else (m.rest, true) in
      let charge' = wrap (charge + charged env v) in
      let ws = inherited mm (v ∷ vs) in
      if_split (λ c. IsDone (IsExtended mm ws m) c) v.dont_copy _ _
        (λ d.
          subst (λ xs. IsDone (IsExtended mm xs m) (dup_areas env mm vs charge m))
            (inherited_skip env mm v vs d) (dup_areas-IsExtended vs charge m))
        (λ d. elim (Bool-cases enough.1) [
          | inr g ↦ rw g tt
          | inl g ↦ elim (Option-cases (env.alloc_area enough.0)) [
            | inl a ↦ rw (g, a) tt
            | inr (r2, a) ↦
                let m2 : Memory R = record m { rest = r2 } in
                let linked = link_area env mm v m2 in
                elim (Bool-cases linked.1) [
                  | inr f ↦ rw (g, a, f) tt
                  | inl f ↦
                      rw (g, a, f)
                        (subst
                          (λ xs. IsDone (IsExtended mm xs m) (dup_areas env mm vs charge' linked.0))
                          (inherited_copy env mm v vs d)
                          (IsDone-map env mm (dup_areas env mm vs charge' linked.0)
                            (λ z h.
                              IsExtended-rest env mm (copied_area env mm v ∷ inherited mm vs) m z r2
                                (IsExtended-cons env mm (copied_area env mm v) (inherited mm vs) m2
                                  linked.0 z (link_area-IsExtended v m2) h))
                            (dup_areas-IsExtended vs charge' linked.0)))
                ]
          ]
        ])

  -- When dup_mmap succeeds, the areas of the new mm_struct, which is another than that of the
  -- running task, are those of the running task that may be copied, in order, each with the same
  -- bounds, file and other flags, but not locked and with the new mm_struct as its own; map_count
  -- is their number modulo 2 ^ 32, and the count of each file has grown, modulo 2 ^ 32, by the
  -- number of these areas that map it, if get_file adds one to the count of its file alone.
  pub dup_mmap-inherited :
      (old : ℕ) (m : Memory R)
      → mm ≢ old
      → (dup_mmap env old mm m).1 ≡ true
      → let m' = (dup_mmap env old mm m).0 in
        let areas = inherited mm (m.mms old).mmap in
        ((m'.mms mm).mmap ≡ areas)
        × ((wrap (m'.mms mm).map_count ≡ wrap (length areas))
            × ((f : ℕ) → wrap (m'.f_count f) ≡ wrap (m.f_count f + mapped f areas)))
  unfolding dup_mmap
  dup_mmap-inherited old m ne fine =
      let m0 = dup_head env old mm m in
      let vs = (m0.mms old).mmap in
      let c = dup_areas env mm vs 0 m0 in
      let h =
        dup_end-IsExtended env mm c (inherited mm vs) m0 (dup_areas-IsExtended vs 0 m0) fine in
      subst
        (λ us.
          let m' = (dup_mmap env old mm m).0 in
          let areas = inherited mm us in
          ((m'.mms mm).mmap ≡ areas)
          × ((wrap (m'.mms mm).map_count ≡ wrap (length areas))
              × ((f : ℕ) → wrap (m'.f_count f) ≡ wrap (m.f_count f + mapped f areas))))
        (other_areas env mm old m ne)
        (unfold dup_head in (ground (arith, h.areas), (ground (arith, h.number), h.counts)))
