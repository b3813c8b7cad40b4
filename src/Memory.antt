-- ===== src/Memory.antt =====
-- The memory of processes in sharedFolderHW2/fork.c: dup_mmap, mm_init to mm_release, and copy_mm. The
-- list of all mm_structs is a ring of list.h; the areas of an mm_struct are a list of values, and the
-- lists on which areas share a file are left out.
pub mod State
pub mod Duplicate
pub mod Inherited
pub mod Listing
use os_hw.Base.{
  ℕ, ◌+◌, ◌/◌, ◌-◌, ◌^◌, Bool, true, false, Option, none, some, List, [], ◌∷◌, ◌++◌, upd, ◌==◌,
  if◌then◌else◌,
}
use os_hw.Base.Words.{wrap, sub, inc, dec}
use os_hw.DoFork.State.{has}
use os_hw.Links.{Links, set_next, set_prev, list_add, list_del}
use os_hw.Memory.State.{Area, Mm, MemoryEnv, Memory, Copied, clone_vm}
use os_hw.Model.{Kernel}
use os_hw.Wait.{Completion, complete}

abbrev pub set_mm : {R : Type 0} → ℕ → Mm → Memory R → Memory R
set_mm p v m = record m { mms = upd m.mms p v }

module _ {R : Type 0} (env : MemoryEnv R) where
  -- The length of an area in pages, as it is accounted; 0 if it is not.
  unfoldable pub charged : Area → ℕ
  charged v = if v.accounted then sub v.vm_end v.vm_start / 2 ^ env.page_shift else 0

  -- The area of the child, in the mm_struct `mm`.
  unfoldable pub copied_area : ℕ → Area → Area
  copied_area mm v = record v { locked = false; vm_mm = mm }

  -- The file of an area has a reference more, and a writer less when it is mapped for execution.
  unfoldable pub share_file : Area → Memory R → Memory R
  share_file v m = elim v.vm_file [
    | none ↦ m
    | some f ↦
        let inode = env.inode_of f in
        record m {
          f_count = env.get_file f m.f_count;
          i_writecount =
              if v.deny_write
              then upd m.i_writecount inode (dec (m.i_writecount inode))
              else m.i_writecount;
        }
  ]

  -- The new area in its place, with its page tables; `false` is a failure of copy_page_range.
  unfoldable pub link_area : ℕ → Area → Memory R → Memory R × Bool
  unfolding share_file copied_area
  link_area mm v m =
      let area = copied_area mm v in
      let m1 = share_file area m in
      let mmstruct = m1.mms mm in
      let m2 =
        set_mm mm
          (record mmstruct {
            mmap = mmstruct.mmap ++ area ∷ [];
            map_count = inc mmstruct.map_count;
          })
          m1 in
      let (rest, fine) = env.copy_page_range mm area m2.rest in
      (record m2 { rest = env.open_area area rest }, fine)

  -- The loop of dup_mmap, with what it has charged so far.
  unfoldable pub dup_areas : ℕ → List Area → ℕ → Memory R → Copied R
  unfolding charged link_area
  dup_areas mm [] charge m = Copied.all_copied charge m
  dup_areas mm (v ∷ vs) charge m =
      let skipped = dup_areas mm vs charge m in
      let enough =
        if v.accounted then env.vm_enough_memory (charged v) m.rest else (m.rest, true) in
      let (r1, granted) = enough in
      let charge' = wrap (charge + charged v) in
      let copied : Copied R = elim granted [
        | false ↦ Copied.no_memory charge (record m { rest = r1 })
        | true ↦ elim (env.alloc_area r1) [
          | none ↦ Copied.no_memory charge' (record m { rest = r1 })
          | some r2 ↦
              let (m3, fine) = link_area mm v (record m { rest = r2 }) in
              elim fine [ false ↦ Copied.no_memory charge' m3 | true ↦ dup_areas mm vs charge' m3 ]
        ]
      ] in
      if v.dont_copy then skipped else copied

  -- The head of dup_mmap: the new mm_struct is empty, and stands on the list behind that of `current`.
  unfoldable pub dup_head : ℕ → ℕ → Memory R → Memory R
  dup_head old mm m =
      let emptied = record (m.mms mm) { locked_vm = 0; mmap = []; map_count = 0; rss = 0 } in
      record m {
        mms = upd m.mms mm emptied;
        mmlist = list_add mm old m.mmlist;
        mmlist_nr = inc m.mmlist_nr;
      }

  -- What dup_mmap does after its loop; `false` is its error.
  unfoldable pub dup_end : ℕ → Copied R → Memory R × Bool
  dup_end mm (Copied.all_copied charge m) = (record m { rest = env.build_mmap_rb mm m.rest }, true)
  dup_end mm (Copied.no_memory charge m) =
      (record m { rest = env.vm_unacct_memory charge m.rest }, false)

  -- dup_mmap, for the mm_struct `old` of `current`
  unfoldable pub dup_mmap : ℕ → ℕ → Memory R → Memory R × Bool
  unfolding dup_areas dup_head dup_end
  dup_mmap old mm m = let m0 = dup_head old mm m in dup_end mm (dup_areas mm (m0.mms old).mmap 0 m0)

  -- mm_init; `false` is a null pointer.
  unfoldable pub mm_init : ℕ → Memory R → Memory R × Bool
  mm_init mm m =
      let (rest, got) = env.pgd_alloc mm m.rest in
      let v = record (m.mms mm) { mm_users = 1; mm_count = 1; has_pgd = got; def_flags = 0 } in
      let m' = set_mm mm v (record m { rest = rest }) in
      if got then (m', true) else (record m' { rest = env.free_mm mm m'.rest }, false)

  unfoldable pub mm_alloc : Memory R → Memory R × Option ℕ
  unfolding mm_init
  mm_alloc m = elim (env.allocate_mm m.rest) [
    | none ↦ (m, none)
    | some (mm, rest) ↦
        let zeroed = set_mm mm env.zero_mm (record m { rest = rest }) in
        let (m', fine) = mm_init mm zeroed in (m', if fine then some mm else none)
  ]

  -- __mmdrop of another mm_struct than init_mm
  unfoldable pub mm_drop_last : ℕ → Memory R → Memory R
  mm_drop_last mm m = record m {
    rest = env.free_mm mm (env.destroy_context mm (env.pgd_free mm m.rest));
  }

  -- mmdrop of sched.h
  unfoldable pub mmdrop : ℕ → Memory R → Memory R
  unfolding mm_drop_last
  mmdrop mm m =
      let v = m.mms mm in
      let m' = set_mm mm (record v { mm_count = dec v.mm_count }) m in
      if dec v.mm_count == 0 then mm_drop_last mm m' else m'

  unfoldable pub mmput : ℕ → Memory R → Memory R
  unfolding mmdrop
  mmput mm m =
      let v = m.mms mm in
      let m1 = set_mm mm (record v { mm_users = dec v.mm_users }) m in
      let off = record m1 { mmlist = list_del mm m1.mmlist; mmlist_nr = dec m1.mmlist_nr } in
      if dec v.mm_users == 0
      then mmdrop mm (record off { rest = env.exit_mmap mm off.rest })
      else m1

  -- memcpy(mm, oldmm, sizeof(*mm)), with the two pointers of the list
  unfoldable pub copy_struct : ℕ → ℕ → Memory R → Memory R
  copy_struct old mm m = set_mm mm (m.mms old) (record m {
    mmlist = set_prev mm (m.mmlist.prev old) (set_next mm (m.mmlist.next old) m.mmlist);
  })

  -- The label good_mm.
  unfoldable pub good_mm : ℕ → ℕ → Memory R → Memory R
  good_mm tsk mm m = record m {
    mm_of = upd m.mm_of tsk (some mm);
    active_mm = upd m.active_mm tsk (some mm);
  }

  -- copy_mm from the copy of the struct on.
  unfoldable pub fill_mm : ℕ → ℕ → ℕ → Memory R → Memory R × Bool
  unfolding copy_struct mm_init dup_mmap mmput good_mm
  fill_mm tsk old mm m =
      let (m1, started) = mm_init mm (copy_struct old mm m) in
      let (r2, context) = env.init_new_context tsk mm m1.rest in
      let m2 = record m1 { rest = r2 } in
      let (m3, copied) = dup_mmap old mm m2 in
      let m4 = record m3 { rest = env.copy_segments tsk mm m3.rest } in
      if started
      then if context
        then if copied then (good_mm tsk mm m4, true) else (mmput mm m3, false)
        else (mmput mm m2, false)
      else (m1, false)

  -- copy_mm for the new task `tsk`, when `current` has the mm_struct `old`.
  unfoldable pub copy_mm_of : ℕ → ℕ → ℕ → Memory R → Memory R × Bool
  unfolding fill_mm good_mm
  copy_mm_of clone_flags tsk old m =
      let v = m.mms old in
      let shared = set_mm old (record v { mm_users = inc v.mm_users }) m in
      if has clone_flags clone_vm
      then (good_mm tsk old shared, true)
      else elim (env.allocate_mm m.rest) [
        | none ↦ (m, false)
        | some (mm, rest) ↦ fill_mm tsk old mm (record m { rest = rest })
      ]

  -- copy_mm; `false` is its error.
  unfoldable pub copy_mm : ℕ → ℕ → ℕ → Memory R → Memory R × Bool
  unfolding copy_mm_of
  copy_mm clone_flags current tsk m =
      let m0 = record m { mm_of = upd m.mm_of tsk none; active_mm = upd m.active_mm tsk none } in
      elim (m0.mm_of current) [ none ↦ (m0, true) | some old ↦ copy_mm_of clone_flags tsk old m0 ]

-- mm_release; `vfork_done` is the completion to which the field of `current` points.
unfoldable pub mm_release :
    (env : os_hw.Model.Env) → Option Completion → Kernel → Option Completion × Kernel
unfolding complete
mm_release env none k = (none, k)
mm_release env (some x) k = let (x', k') = complete env x k in (some x', k')
