-- ===== src/Links/Loops.antt =====
-- The loops of list.h on a ring: each visits every place once, in order or backwards, and stops.
use os_hw.Base.{
  ℕ, zero, suc, ◌<◌, ◌≡◌, refl, ◌∙◌, List, [], ◌∷◌, ◌++◌, arith, count, length, length-append,
  count-append,
}
use os_hw.Links.{Links, visit, visit_back, list_for_each, list_for_each_prev}
use os_hw.Links.Ring.{IsPath, IsRing, IsPath-append}

-- The loop goes once through a path that does not meet the head, and stops.
visit-IsPath :
    (m : Links) (runs head a : ℕ) (xs : List ℕ)
    → IsPath m a xs head
    → count head xs ≡ 0
    → length xs < runs
    → visit runs head (m.next a) m ≡ xs
unfolding visit count
visit-IsPath m zero head a xs path h l = absurd (omega arith)
visit-IsPath m (suc runs) head a [] path h l = ground arith
visit-IsPath m (suc runs) head a (x ∷ xs) path h l =
    ground (arith, visit-IsPath m runs head x xs path.1)

-- The memory with the two pointers exchanged.
abbrev mirrored : Links → Links
mirrored m = record { next = m.prev; prev = m.next }

visit_back-mirrored :
    (runs head pos : ℕ) (m : Links) → visit_back runs head pos m ≡ visit runs head pos (mirrored m)
unfolding visit visit_back
visit_back-mirrored zero head pos m = refl
visit_back-mirrored (suc runs) head pos m = rw (visit_back-mirrored runs head (m.prev pos) m) refl

abbrev pub reverse : List ℕ → List ℕ
reverse [] = []
reverse (x ∷ xs) = reverse xs ++ x ∷ []

IsPath-mirrored :
    (m : Links) (a b : ℕ) (xs : List ℕ) → IsPath m a xs b → IsPath (mirrored m) b (reverse xs) a
IsPath-mirrored m a b [] path = (path.1, path.0)
IsPath-mirrored m a b (x ∷ xs) path =
    IsPath-append (mirrored m) b x a (reverse xs) [] (IsPath-mirrored m x b xs path.1)
      (path.0.1, path.0.0)

count-reverse : (p : ℕ) (xs : List ℕ) → count p (reverse xs) ≡ count p xs
unfolding count
count-reverse p [] = refl
count-reverse p (x ∷ xs) = ground (arith, count-reverse p xs, count-append p (reverse xs) (x ∷ []))

length-reverse : (xs : List ℕ) → length (reverse xs) ≡ length xs
length-reverse [] = refl
length-reverse (x ∷ xs) =
    omega (arith, length-reverse xs, length-append {A = ℕ} (reverse xs) (x ∷ []))

-- On a ring, with a bound on the runs above the number of places, list_for_each visits each place
-- once in order and list_for_each_prev each once backwards, and the loops stop at the head.
list_for_each_lem :
    (m : Links) (runs head : ℕ) (xs : List ℕ)
    → IsRing m head xs
    → length xs < runs
    → (list_for_each runs head m ≡ xs) × (list_for_each_prev runs head m ≡ reverse xs)
unfolding list_for_each list_for_each_prev
list_for_each_lem m runs head xs r l =
    let once : count head xs ≡ 0 = unfold count in ground (arith, r.distinct head) in
    (
      visit-IsPath m runs head head xs r.path once l,
      visit_back-mirrored runs head (m.prev head) m
          ∙ visit-IsPath (mirrored m) runs head head (reverse xs)
              (IsPath-mirrored m head head xs r.path) (count-reverse head xs ∙ once)
              (omega (arith, length-reverse xs)),
    )
