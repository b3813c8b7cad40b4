-- ===== src/Links/Refinement.antt =====
-- The operations of list.h do to a ring what the operations on lists do to the list of its places.
use mathlib.Core.Path.{subst}
use mathlib.Core.List.{append-nil}
use os_hw.Base.{
  ℕ, ◌≤◌, ◌≡◌, ◌≢◌, sym, List, [], ◌∷◌, ◌++◌, arith, count, remove, is_empty, count-append,
  count-remove,
}
use os_hw.Links.{
  Links, set_next, set_prev, link_between, unlink_between, init_list_head, list_add, list_add_tail,
  list_del, list_del_init, list_empty,
}
use os_hw.Links.Ring.{
  IsPath, IsDistinct, IsRing, IsPath-set_next, IsPath-set_prev, IsPath-append, last_of, IsPath-last,
  last_of-counted, IsPath-turn, IsPath-same, IsPath-split, IsDistinct-tail, IsCut-at,
}

-- list_add puts a new place first.
pub list_add-IsRing :
    (m : Links) (head new : ℕ) (xs : List ℕ)
    → IsRing m head xs
    → count new (head ∷ xs) ≡ 0
    → IsRing (list_add new head m) head (new ∷ xs)
unfolding list_add link_between count
list_add-IsRing m head new [] r h = record {
  path = ground (arith, r.path);
  distinct = λ q. ground arith;
}
list_add-IsRing m head new (x ∷ xs) r h =
    let m1 = set_prev new head (set_next new x (set_prev x new m)) in
    let after : IsPath (set_next head new m1) x xs head =
      IsPath-set_next head new x head xs m1 (ground (arith, r.distinct head)) (
        IsPath-set_prev new head x head xs (set_next new x (set_prev x new m)) (ground arith) (
          IsPath-set_next new x x head xs (set_prev x new m) (ground arith)
            (IsPath-set_prev x new x head xs m (ground (arith, r.distinct x)) r.path.1))) in
    let start : m.next head ≡ x = r.path.0.0 in
    record {
      path =
          subst (λ n. IsPath (link_between new head n m) head (new ∷ x ∷ xs) head) (sym start)
            (ground arith, (ground (arith, r.distinct head, r.distinct x), after));
      distinct = λ q. ground (arith, r.distinct q);
    }

-- list_add_tail of a place that is not on a ring makes of the ring of a list one of that list with
-- the place put last.
pub list_add_tail-IsRing :
    (m : Links) (head new : ℕ) (xs : List ℕ)
    → IsRing m head xs
    → count new (head ∷ xs) ≡ 0
    → IsRing (list_add_tail new head m) head (xs ++ new ∷ [])
unfolding list_add_tail link_between count
list_add_tail-IsRing m head new xs r h =
    let l = last_of head xs in
    let turned : IsPath (set_next l new (set_prev new l m)) head xs new =
      IsPath-turn m head head new xs r.distinct (ground arith) r.path in
    let m' = set_next l new (set_prev new l (set_next new head (set_prev head new m))) in
    let l_old : l ≢ new = ground (arith, last_of-counted head xs) in
    let left : IsPath m' head xs new =
      IsPath-same (set_prev head new (set_next new head (set_next l new (set_prev new l m)))) m'
        head new xs (λ q. ground arith) (λ q. ground arith)
        (IsPath-set_prev head new head new xs
          (set_next new head (set_next l new (set_prev new l m))) (ground (arith, r.distinct head))
          (IsPath-set_next new head head new xs (set_next l new (set_prev new l m)) (ground arith)
            turned)) in
    record {
      path =
          rw (IsPath-last m head head xs r.path)
            (IsPath-append m' head new head xs [] left (ground arith));
      distinct = λ q. ground (arith, r.distinct q, count-append q xs (new ∷ []));
    }

IsRing-unlink :
    (m : Links) (head x : ℕ) (before after : List ℕ)
    → IsRing m head (before ++ x ∷ after)
    → IsPath (list_del x m) head (before ++ after) head
unfolding list_del unlink_between count
IsRing-unlink m head x before [] r =
    let (left, right) = IsPath-split m head x head before [] r.path in
    let far : count head before ≡ 0 =
      ground (arith, r.distinct head, count-append head before (x ∷ [])) in
    let d : IsDistinct (head ∷ before) =
      λ q. ground (arith, r.distinct q, count-append q before (x ∷ [])) in
    let p = IsPath-turn m head x head before d far left in
    let l = last_of head before in
    let at : (m.prev x ≡ l) × (m.next x ≡ head) = (IsPath-last m head x before left, right.0) in
    subst (λ ys. IsPath (list_del x m) head ys head) (sym (append-nil before)) (rw (at.0, at.1) p)
IsRing-unlink m head x before (z ∷ zs) r =
    let (left, right) = IsPath-split m head x head before (z ∷ zs) r.path in
    let l = last_of head before in
    let far : count z before ≡ 0 =
      ground (arith, r.distinct z, count-append z before (x ∷ z ∷ zs)) in
    let d : IsDistinct (head ∷ before) =
      λ q. ground (arith, r.distinct q, count-append q before (x ∷ z ∷ zs)) in
    let p = IsPath-turn m head x z before d far left in
    let past_l : count l (z ∷ zs) ≡ 0 =
      ground
        (arith, r.distinct l, count-append l before (x ∷ z ∷ zs), last_of-counted head before) in
    let past_z : count z (head ∷ zs) ≡ 0 =
      ground (arith, r.distinct z, count-append z before (x ∷ z ∷ zs)) in
    let q =
      IsPath-set_next l z z head zs (set_prev z l m) past_l
        (IsPath-set_prev z l z head zs m past_z right.1) in
    rw (IsPath-last m head x before left, right.0.0)
      (IsPath-append (set_next l z (set_prev z l m)) head z head before zs p q)

-- list_del takes a place of a ring out of it.
pub list_del-IsRing :
    (m : Links) (head x : ℕ) (xs : List ℕ)
    → IsRing m head xs
    → 1 ≤ count x xs
    → IsRing (list_del x m) head (remove x xs)
list_del-IsRing m head x xs r h =
    let c = IsCut-at x xs (IsDistinct-tail head xs r.distinct) h in
    let r' : IsRing m head (c.before ++ x ∷ c.after) = subst (λ ys. IsRing m head ys) c.whole r in
    record {
      path =
          subst (λ ys. IsPath (list_del x m) head ys head) (sym c.removed)
            (IsRing-unlink m head x c.before c.after r');
      distinct = λ q. fewer q;
    }
  where
    fewer : (q : ℕ) → count q (head ∷ remove x xs) ≤ 1
    fewer q = unfold count in ground (arith, r.distinct q, count-remove q x xs)

-- A ring is left alone by the writes at other places.
pub IsRing-set_next :
    (p v head : ℕ) (xs : List ℕ) (m : Links)
    → count p (head ∷ xs) ≡ 0
    → IsRing m head xs
    → IsRing (set_next p v m) head xs
IsRing-set_next p v head xs m h r = record {
  path = IsPath-set_next p v head head xs m h r.path;
  distinct = r.distinct;
}

pub IsRing-set_prev :
    (p v head : ℕ) (xs : List ℕ) (m : Links)
    → count p (head ∷ xs) ≡ 0
    → IsRing m head xs
    → IsRing (set_prev p v m) head xs
IsRing-set_prev p v head xs m h r = record {
  path = IsPath-set_prev p v head head xs m h r.path;
  distinct = r.distinct;
}

-- list_empty tells whether the ring has no place but the head.
list_empty-is_empty :
    (m : Links) (head : ℕ) (xs : List ℕ) → IsRing m head xs → list_empty head m ≡ is_empty xs
unfolding list_empty count
list_empty-is_empty m head [] r = ground (arith, r.path)
list_empty-is_empty m head (x ∷ xs) r = ground (arith, r.path.0, r.distinct head)

-- init_list_head makes a ring of one place.
init_list_head-IsRing : (m : Links) (p : ℕ) → IsRing (init_list_head p m) p []
unfolding init_list_head count
init_list_head-IsRing m p = record { path = ground arith; distinct = λ q. ground arith }

-- list_del_init of a place on a ring makes of the ring of a list one of that list with the place
-- taken out, and of the place an empty ring of its own.
pub list_del_init-IsRing :
    (m : Links) (head x : ℕ) (xs : List ℕ)
    → IsRing m head xs
    → 1 ≤ count x xs
    → IsRing (list_del_init x m) head (remove x xs) × IsRing (list_del_init x m) x []
unfolding list_del_init init_list_head
list_del_init-IsRing m head x xs r h =
    let gone : count x (head ∷ remove x xs) ≡ 0 =
      unfold count in ground (arith, r.distinct x, count-remove x x xs) in
    (
      IsRing-set_prev x x head (remove x xs) (set_next x x (list_del x m)) gone (
          IsRing-set_next x x head (remove x xs) (list_del x m) gone
            (list_del-IsRing m head x xs r h)),
      init_list_head-IsRing (list_del x m) x,
    )
