-- ===== src/Boot/Lists.antt =====
-- What the loop of sched_init leaves of an array.
use os_hw.Base.{
  ℕ, zero, suc, ◌+◌, ◌≤◌, ◌<◌, ◌≡◌, refl, true, false, List, [], arith, leb, ltb, ◌&&◌,
  if◌then◌else◌, ◌∙◌, upd, length, sum_below,
}
use os_hw.Model.{PrioArray, max_prio}
use os_hw.Queue.Sync.{total}
use os_hw.Boot.{init_lists, init_prio_array}

init_lists_queue :
    (n i j : ℕ) (v : PrioArray)
    → (init_lists n i v).queue j ≡ (if leb i j && ltb j (i + n) then [] else v.queue j)
unfolding init_lists
init_lists_queue zero i j v = ground arith
init_lists_queue (suc n) i j v =
    let v' = record v { queue = upd v.queue i []; bitmap = upd v.bitmap i false } in
    ground (arith, init_lists_queue n (i + 1) j v')

init_lists_bitmap :
    (n i j : ℕ) (v : PrioArray)
    → (init_lists n i v).bitmap j ≡ (if leb i j && ltb j (i + n) then false else v.bitmap j)
unfolding init_lists
init_lists_bitmap zero i j v = ground arith
init_lists_bitmap (suc n) i j v =
    let v' = record v { queue = upd v.queue i []; bitmap = upd v.bitmap i false } in
    ground (arith, init_lists_bitmap n (i + 1) j v')

init_lists_nr_active : (n i : ℕ) (v : PrioArray) → (init_lists n i v).nr_active ≡ v.nr_active
unfolding init_lists
init_lists_nr_active zero i v = refl
init_lists_nr_active (suc n) i v =
    init_lists_nr_active n (i + 1)
      (record v { queue = upd v.queue i []; bitmap = upd v.bitmap i false })

-- An array with nothing on it.
pub record IsBlank (v : PrioArray) : Type 0 where
  pub empty : (i : ℕ) → v.queue i ≡ []
  pub clear : (i : ℕ) → i < max_prio → v.bitmap i ≡ false
  pub delimiter : v.bitmap max_prio ≡ true
  pub none_active : v.nr_active ≡ 0

-- The lists that there are need not be lists yet; nr_active is zero from the start.
pub record IsUnused (v : PrioArray) : Type 0 where
  pub beyond : (i : ℕ) → max_prio ≤ i → v.queue i ≡ []
  pub none_active : v.nr_active ≡ 0

pub init_prio_array-IsBlank : (v : PrioArray) → IsUnused v → IsBlank (init_prio_array v)
unfolding init_prio_array
init_prio_array-IsBlank v u = record {
  empty = λ i. ground (arith, init_lists_queue max_prio 0 i v, u.beyond i);
  clear = λ i l. ground (arith, init_lists_bitmap max_prio 0 i v);
  delimiter = ground arith;
  none_active = init_lists_nr_active max_prio 0 v ∙ u.none_active;
}

empty_lists : (n : ℕ) (q : ℕ → List ℕ) → ((i : ℕ) → q i ≡ []) → sum_below n (λ i. length (q i)) ≡ 0
unfolding sum_below
empty_lists zero q e = refl
empty_lists (suc n) q e = ground (arith, e n, empty_lists n q e)

pub total-IsBlank : (v : PrioArray) → IsBlank v → total v ≡ 0
total-IsBlank v b = empty_lists max_prio v.queue b.empty
