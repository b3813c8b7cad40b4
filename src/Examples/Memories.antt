-- ===== src/Examples/Memories.antt =====
-- The copies of a memory at concrete states.
use os_hw.Base.{
  ℕ, ◌+◌, ◌≤◌, ◌≡◌, refl, Bool, true, false, none, some, [], ◌∷◌, arith, ◌==◌, if◌then◌else◌, count,
  remove, length,
}
use os_hw.Base.Words.{wrap, inc, dec}
use os_hw.Links.Ring.{IsRing}
use os_hw.Memory.{dup_mmap, fill_mm, copy_mm}
use os_hw.Memory.State.{Area, Mm, MemoryEnv, Memory}
use os_hw.Memory.Inherited.{inherited, mapped, dup_mmap-inherited}
use os_hw.Memory.Listing.{fill_mm_lost, copy_mm-IsRing}

abbrev code_area : Area
code_area = record {
  vm_start = 0x8048000;
  vm_end = 0x804a000;
  vm_mm = 2;
  vm_file = some 9;
  dont_copy = false;
  accounted = false;
  locked = true;
  deny_write = true;
}

abbrev device_area : Area
device_area = record code_area { vm_file = some 8; dont_copy = true }

abbrev heap_area : Area
heap_area = record code_area { vm_file = none; accounted = true; deny_write = false }

abbrev sample_mm : Mm
sample_mm = record {
  mm_users = 1;
  mm_count = 1;
  has_pgd = true;
  def_flags = 0;
  locked_vm = 2;
  rss = 30;
  map_count = 3;
  mmap = code_area ∷ device_area ∷ heap_area ∷ [];
}

-- Each mm_struct has its own number; `pages` are left, and `works` tells of init_new_context.
abbrev pub rest_of_kernel : ℕ → Bool → MemoryEnv ℕ
rest_of_kernel pages works = record {
  page_shift = 12;
  zero_mm = record sample_mm { mm_users = 0; mm_count = 0; has_pgd = false; mmap = [] };
  allocate_mm = λ r. some (r + 200, r + 1);
  free_mm = λ mm r. r;
  alloc_area = λ r. some r;
  pgd_alloc = λ mm r. (r, true);
  pgd_free = λ mm r. r;
  init_new_context = λ tsk mm r. (r, works);
  destroy_context = λ mm r. r;
  copy_segments = λ tsk mm r. r;
  copy_page_range = λ mm v r. (r, true);
  open_area = λ v r. r;
  inode_of = λ f. f;
  get_file = λ f counts g. if f == g then inc (counts g) else counts g;
  vm_enough_memory = λ n r. (r, if pages == 0 then false else true);
  vm_unacct_memory = λ n r. r;
  build_mmap_rb = λ mm r. r;
  exit_mmap = λ mm r. r;
}

-- The list of init_mm, 1, and the mm_struct 2 of the task 20.
abbrev pub sample_memory : Memory ℕ
sample_memory = record {
  rest = 0;
  mms = λ mm. sample_mm;
  mmlist = record { next = λ p. if p == 1 then 2 else 1; prev = λ p. if p == 1 then 2 else 1 };
  mmlist_nr = 1;
  mm_of = λ t. some 2;
  active_mm = λ t. some 2;
  f_count = λ f. 1;
  i_writecount = λ f. 0;
}

sample-IsRing : IsRing sample_memory.mmlist 2 (1 ∷ [])
unfolding count
sample-IsRing = record { path = ground arith; distinct = λ q. ground arith }

from_init_mm-IsRing : IsRing sample_memory.mmlist 1 (2 ∷ [])
unfolding count
from_init_mm-IsRing = record { path = ground arith; distinct = λ q. ground arith }

new_at_init_mm : count 200 (1 ∷ 2 ∷ []) ≡ 0
unfolding count
new_at_init_mm = refl

old_is_in : 1 ≤ count 2 (2 ∷ [])
unfolding count
old_is_in = omega arith

allocated_is_new :
    (mm r r' : ℕ)
    → (rest_of_kernel 0 true).allocate_mm r ≡ some (mm, r')
    → count mm (2 ∷ 1 ∷ []) ≡ 0
unfolding count
allocated_is_new mm r r' h = ground arith

dup_fine : (dup_mmap (rest_of_kernel 9 true) 2 200 sample_memory).1 ≡ true
unfolding dup_mmap
dup_fine = refl

dup_mmap-inherited_example :
    let m' = (dup_mmap (rest_of_kernel 9 true) 2 200 sample_memory).0 in
    let areas = inherited 200 sample_mm.mmap in
    ((m'.mms 200).mmap ≡ areas)
    × ((wrap (m'.mms 200).map_count ≡ wrap (length areas))
        × ((f : ℕ) → wrap (m'.f_count f) ≡ wrap (1 + mapped f areas)))
dup_mmap-inherited_example =
    dup_mmap-inherited (rest_of_kernel 9 true) 200 (λ f counts g. refl) 2 sample_memory
      (omega arith) dup_fine

fill_mm_lost_example :
    let (m', fine) = fill_mm (rest_of_kernel 9 false) 21 2 200 sample_memory in
    (fine ≡ false) × ((m'.mmlist_nr ≡ dec 1) × IsRing m'.mmlist 1 (remove 2 (2 ∷ [])))
fill_mm_lost_example =
    fill_mm_lost (rest_of_kernel 9 false) 21 2 200 1 (2 ∷ []) sample_memory (λ r. refl) (λ r. refl)
      new_at_init_mm old_is_in from_init_mm-IsRing

copy_fails : (copy_mm (rest_of_kernel 0 true) 0 20 21 sample_memory).1 ≡ false
unfolding copy_mm
copy_fails = refl

copy_mm-IsRing_example :
    let m' = (copy_mm (rest_of_kernel 0 true) 0 20 21 sample_memory).0 in
    IsRing m'.mmlist 2 (1 ∷ []) × (m'.mmlist_nr ≡ 1)
copy_mm-IsRing_example =
    copy_mm-IsRing (rest_of_kernel 0 true) 0 20 21 2 (1 ∷ []) sample_memory (λ mm r. refl)
      allocated_is_new (omega arith) refl (omega arith) sample-IsRing copy_fails
