-- ===== src/Links/Splice.antt =====
-- list_splice of list.h: the places of one ring are put in front of those of another.
use mathlib.Core.Path.{subst}
use mathlib.Core.List.{append-nil}
use os_hw.Base.{
  ℕ, ◌+◌, ◌≤◌, ◌≡◌, ◌≢◌, refl, sym, false, List, [], ◌∷◌, ◌++◌, arith, ◌==◌, count, count-append,
  ==_refl,
}
use os_hw.Links.{Links, set_next, set_prev, list_splice}
use os_hw.Links.Ring.{
  IsPath, IsDistinct, IsRing, IsPath-set_next, IsPath-set_prev, IsPath-append, last_of, IsPath-last,
  last_of-counted, IsPath-turn, IsDistinct-tail,
}

-- What list_splice leaves, from the head through the places of the list that is put in.
IsPath-splice :
    (m : Links) (list head at y : ℕ) (ys : List ℕ)
    → IsPath m y ys list
    → IsDistinct (list ∷ y ∷ ys)
    → count head (list ∷ y ∷ ys) ≡ 0
    → count at (list ∷ y ∷ ys) ≡ 0
    → (let l = last_of y ys in
        IsPath
          (set_prev at l (set_next l at (set_next head y (set_prev y head m))))
          head
          (y ∷ ys)
          at)
unfolding count
IsPath-splice m list head at y ys path d off_head off_at =
    let m1 = set_next head y (set_prev y head m) in
    let kept : IsPath m1 y ys list =
      IsPath-set_next head y y list ys (set_prev y head m) (ground arith)
        (IsPath-set_prev y head y list ys m (ground (arith, d y)) path) in
    let turned =
      IsPath-turn m1 y list at ys (IsDistinct-tail list (y ∷ ys) d) (ground arith) kept in
    ((ground (arith, last_of-counted y ys), ground arith), turned)

list_splice_writes :
    (m : Links) (list head at y l : ℕ)
    → m.next list ≡ y
    → m.prev list ≡ l
    → m.next head ≡ at
    → y ≢ list
    → list_splice list head m ≡ set_prev at l (set_next l at (set_next head y (set_prev y head m)))
unfolding list_splice
list_splice_writes m list head at y l ey el ea ne =
    let proper : (y == list) ≡ false = ground arith in rw (ey, el, ea, proper) refl

-- list_splice of two rings that have no place in common makes of the ring that it splices into one
-- of the places of the other ring and then its own.
list_splice-IsRing :
    (m : Links) (list head : ℕ) (xs ys : List ℕ)
    → IsRing m list ys
    → IsRing m head xs
    → ((q : ℕ) → count q (list ∷ ys) + count q (head ∷ xs) ≤ 1)
    → IsRing (list_splice list head m) head (ys ++ xs)
unfolding list_splice
list_splice-IsRing m list head xs [] r s apart = rw r.path.0 (rw (==_refl list) s)
list_splice-IsRing m list head [] (y ∷ ys) r s apart =
    let l = last_of y ys in
    let proper : y ≢ list = unfold count in ground (arith, r.distinct list) in
    let off : count head (list ∷ y ∷ ys) ≡ 0 = unfold count in ground (arith, apart head) in
    record {
      path =
          subst (λ m'. IsPath m' head (y ∷ (ys ++ [])) head)
            (sym (
              list_splice_writes m list head head y l r.path.0.0
                (IsPath-last m list list (y ∷ ys) r.path) s.path.0 proper))
            (rw (append-nil ys) (IsPath-splice m list head head y ys r.path.1 r.distinct off off));
      distinct = λ q. unfold count in ground (arith, apart q, count-append q (y ∷ ys) []);
    }
list_splice-IsRing m list head (x ∷ xs) (y ∷ ys) r s apart =
    let l = last_of y ys in
    let proper : y ≢ list = unfold count in ground (arith, r.distinct list) in
    let off : count head (list ∷ y ∷ ys) ≡ 0 = unfold count in ground (arith, apart head) in
    let off' : count x (list ∷ y ∷ ys) ≡ 0 = unfold count in ground (arith, apart x) in
    let past_l : count l (x ∷ xs) ≡ 0 =
      unfold count in ground (arith, apart l, last_of-counted y ys) in
    let past_head : count head (x ∷ xs) ≡ 0 = unfold count in ground (arith, s.distinct head) in
    let past_x : count x (head ∷ xs) ≡ 0 = unfold count in ground (arith, s.distinct x) in
    let past_y : count y (head ∷ xs) ≡ 0 = unfold count in ground (arith, apart y) in
    let m1 = set_prev y head m in
    let m2 = set_next head y m1 in
    let kept : IsPath (set_prev x l (set_next l x m2)) x xs head =
      IsPath-set_prev x l x head xs (set_next l x m2) past_x (
        IsPath-set_next l x x head xs m2 past_l (
          IsPath-set_next head y x head xs m1 past_head
            (IsPath-set_prev y head x head xs m past_y s.path.1))) in
    record {
      path =
          subst (λ m'. IsPath m' head (y ∷ (ys ++ x ∷ xs)) head)
            (sym (
              list_splice_writes m list head x y l r.path.0.0
                (IsPath-last m list list (y ∷ ys) r.path) s.path.0.0 proper))
            (IsPath-append (set_prev x l (set_next l x m2)) head x head (y ∷ ys) xs
              (IsPath-splice m list head x y ys r.path.1 r.distinct off off') kept);
      distinct = λ q. unfold count in ground (arith, apart q, count-append q (y ∷ ys) (x ∷ xs));
    }
