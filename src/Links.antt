-- ===== src/Links.antt =====
-- list.h of sharedFolderHW2: doubly linked lists, as two pointers at each place of a memory.
pub mod Ring
pub mod Refinement
pub mod Splice
pub mod Loops
use os_hw.Base.{ℕ, zero, suc, Bool, List, [], ◌∷◌, upd, ◌==◌, if◌then◌else◌}

-- struct list_head, at every address
pub record Links : Type 0 where
  pub next : ℕ → ℕ
  pub prev : ℕ → ℕ

-- a->next = b, and a->prev = b
abbrev pub set_next : ℕ → ℕ → Links → Links
set_next a b m = record m { next = upd m.next a b }

abbrev pub set_prev : ℕ → ℕ → Links → Links
set_prev a b m = record m { prev = upd m.prev a b }

unfoldable pub init_list_head : ℕ → Links → Links
init_list_head ptr m = set_prev ptr ptr (set_next ptr ptr m)

-- __list_add
unfoldable pub link_between : ℕ → ℕ → ℕ → Links → Links
link_between new prev next m =
    set_next prev new (set_prev new prev (set_next new next (set_prev next new m)))

unfoldable pub list_add : ℕ → ℕ → Links → Links
unfolding link_between
list_add new head m = link_between new head (m.next head) m

unfoldable pub list_add_tail : ℕ → ℕ → Links → Links
unfolding link_between
list_add_tail new head m = link_between new (m.prev head) head m

-- __list_del
unfoldable pub unlink_between : ℕ → ℕ → Links → Links
unlink_between prev next m = set_next prev next (set_prev next prev m)

unfoldable pub list_del : ℕ → Links → Links
unfolding unlink_between
list_del entry m = unlink_between (m.prev entry) (m.next entry) m

unfoldable pub list_del_init : ℕ → Links → Links
unfolding list_del init_list_head
list_del_init entry m = init_list_head entry (list_del entry m)

unfoldable pub list_empty : ℕ → Links → Bool
list_empty head m = m.next head == head

unfoldable pub list_splice : ℕ → ℕ → Links → Links
list_splice list head m =
    let first = m.next list in
    let last = m.prev list in
    let at = m.next head in
    if first == list
    then m
    else set_prev at last (set_next last at (set_next head first (set_prev first head m)))

-- The places that list_for_each visits, at most `runs` of them: from `pos` on, up to the head.
unfoldable pub visit : ℕ → ℕ → ℕ → Links → List ℕ
visit zero head pos m = []
visit (suc runs) head pos m =
    let rest = visit runs head (m.next pos) m in if pos == head then [] else pos ∷ rest

unfoldable pub list_for_each : ℕ → ℕ → Links → List ℕ
unfolding visit
list_for_each runs head m = visit runs head (m.next head) m

unfoldable pub visit_back : ℕ → ℕ → ℕ → Links → List ℕ
visit_back zero head pos m = []
visit_back (suc runs) head pos m =
    let rest = visit_back runs head (m.prev pos) m in if pos == head then [] else pos ∷ rest

unfoldable pub list_for_each_prev : ℕ → ℕ → Links → List ℕ
unfolding visit_back
list_for_each_prev runs head m = visit_back runs head (m.prev head) m
