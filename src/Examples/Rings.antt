-- ===== src/Examples/Rings.antt =====
-- The lists of list.h at a concrete memory.
use os_hw.Base.{ℕ, ◌+◌, ◌≤◌, [], ◌∷◌, arith, ◌==◌, if◌then◌else◌, count, ◌-◌, remove}
use os_hw.Links.{Links, list_del_init}
use os_hw.Links.Ring.{IsRing}
use os_hw.Links.Refinement.{list_del_init-IsRing}

-- Two rings: the head 0 with the places 1 and 2, and the head 5 with the places 6 and 7.
abbrev around : ℕ → ℕ
around p = if p == 2 then 0 else if p == 7 then 5 else p + 1

abbrev back : ℕ → ℕ
back p = if p == 0 then 2 else if p == 5 then 7 else p - 1

abbrev two_rings : Links
two_rings = record { next = around; prev = back }

first-IsRing : IsRing two_rings 0 (1 ∷ 2 ∷ [])
unfolding count
first-IsRing = record { path = ground arith; distinct = λ q. ground arith }

two_is_in : 1 ≤ count 2 (1 ∷ 2 ∷ [])
unfolding count
two_is_in = omega arith

list_del_init-IsRing_example :
    IsRing (list_del_init 2 two_rings) 0 (remove 2 (1 ∷ 2 ∷ []))
    × IsRing (list_del_init 2 two_rings) 2 []
list_del_init-IsRing_example =
    list_del_init-IsRing two_rings 0 2 (1 ∷ 2 ∷ []) first-IsRing two_is_in
