-- ===== src/Links/Ring.antt =====
-- A list of list.h is a ring: from the head through its places in order, and back. What stands
-- between two places, and what writes leave of it.
use os_hw.Base.{
  ℕ, ◌≤◌, ◌≡◌, List, [], ◌∷◌, ◌++◌, arith, count, remove, remove_absent, ◌∙◌, ap, ==-cases, inl,
  inr,
}
use os_hw.Links.{Links, set_next, set_prev}

-- From the place `a` through the places of a list to the place `b`, by both pointers.
abbrev pub IsPath : Links → ℕ → List ℕ → ℕ → Type 0
IsPath m a [] b = (m.next a ≡ b) × (m.prev b ≡ a)
IsPath m a (x ∷ xs) b = ((m.next a ≡ x) × (m.prev x ≡ a)) × IsPath m x xs b

-- No place stands twice in a list.
abbrev pub IsDistinct : List ℕ → Type 0
IsDistinct xs = (q : ℕ) → count q xs ≤ 1

pub record IsRing (m : Links) (head : ℕ) (xs : List ℕ) : Type 0 where
  pub path : IsPath m head xs head
  pub distinct : IsDistinct (head ∷ xs)

-- A write of `next` at a place that is not left from.
pub IsPath-set_next :
    (p v a b : ℕ) (xs : List ℕ) (m : Links)
    → count p (a ∷ xs) ≡ 0
    → IsPath m a xs b
    → IsPath (set_next p v m) a xs b
unfolding count
IsPath-set_next p v a b [] m h path = ground arith
IsPath-set_next p v a b (x ∷ xs) m h path =
    (ground arith, IsPath-set_next p v x b xs m (ground arith) path.1)

-- A write of `prev` at a place that is not gone to.
pub IsPath-set_prev :
    (p v a b : ℕ) (xs : List ℕ) (m : Links)
    → count p (b ∷ xs) ≡ 0
    → IsPath m a xs b
    → IsPath (set_prev p v m) a xs b
unfolding count
IsPath-set_prev p v a b [] m h path = ground arith
IsPath-set_prev p v a b (x ∷ xs) m h path =
    (ground arith, IsPath-set_prev p v x b xs m (ground arith) path.1)

-- Two paths that meet make one.
pub IsPath-append :
    (m : Links) (a c b : ℕ) (xs ys : List ℕ)
    → IsPath m a xs c
    → IsPath m c ys b
    → IsPath m a (xs ++ c ∷ ys) b
IsPath-append m a c b [] ys p q = (p, q)
IsPath-append m a c b (x ∷ xs) ys p q = (p.0, IsPath-append m x c b xs ys p.1 q)

-- The place before the end.
abbrev pub last_of : ℕ → List ℕ → ℕ
last_of a [] = a
last_of a (x ∷ xs) = last_of x xs

pub IsPath-last : (m : Links) (a b : ℕ) (xs : List ℕ) → IsPath m a xs b → m.prev b ≡ last_of a xs
IsPath-last m a b [] path = path.1
IsPath-last m a b (x ∷ xs) path = IsPath-last m x b xs path.1

pub last_of-counted : (a : ℕ) (xs : List ℕ) → 1 ≤ count (last_of a xs) (a ∷ xs)
unfolding count
last_of-counted a [] = ground arith
last_of-counted a (x ∷ xs) = ground (arith, last_of-counted x xs)

-- The end of a path moves: the last step goes to another place.
pub IsPath-turn :
    (m : Links) (a b c : ℕ) (xs : List ℕ)
    → IsDistinct (a ∷ xs)
    → count c xs ≡ 0
    → IsPath m a xs b
    → IsPath (set_next (last_of a xs) c (set_prev c (last_of a xs) m)) a xs c
unfolding count
IsPath-turn m a b c [] d f path = ground arith
IsPath-turn m a b c (x ∷ xs) d f path = (
  ground (arith, d a, last_of-counted x xs),
  IsPath-turn m x b c xs (λ q. ground (arith, d q)) (ground arith) path.1,
)

pub IsPath-same :
    (m m' : Links) (a b : ℕ) (xs : List ℕ)
    → ((q : ℕ) → m'.next q ≡ m.next q)
    → ((q : ℕ) → m'.prev q ≡ m.prev q)
    → IsPath m a xs b
    → IsPath m' a xs b
IsPath-same m m' a b [] n p path = (n a ∙ path.0, p b ∙ path.1)
IsPath-same m m' a b (x ∷ xs) n p path =
    ((n a ∙ path.0.0, p x ∙ path.0.1), IsPath-same m m' x b xs n p path.1)

pub IsPath-split :
    (m : Links) (a c b : ℕ) (xs ys : List ℕ)
    → IsPath m a (xs ++ c ∷ ys) b
    → IsPath m a xs c × IsPath m c ys b
IsPath-split m a c b [] ys path = path
IsPath-split m a c b (x ∷ xs) ys path =
    let (left, right) = IsPath-split m x c b xs ys path.1 in ((path.0, left), right)

-- A place of a list without repetitions cuts it in two.
pub record IsCut (x : ℕ) (xs : List ℕ) : Type 0 where
  pub before : List ℕ
  pub after : List ℕ
  pub whole : xs ≡ before ++ x ∷ after
  pub removed : remove x xs ≡ before ++ after

pub IsDistinct-tail : (x : ℕ) (xs : List ℕ) → IsDistinct (x ∷ xs) → IsDistinct xs
unfolding count
IsDistinct-tail x xs d q = ground (arith, d q)

pub IsCut-at : (x : ℕ) (xs : List ℕ) → IsDistinct xs → 1 ≤ count x xs → IsCut x xs
unfolding count remove
IsCut-at x [] d h = absurd (omega arith)
IsCut-at x (y ∷ ys) d h = elim (==-cases x y) [
  | inl same ↦ record {
    before = [];
    after = ys;
    whole = ground arith;
    removed = ground (arith, d x, remove_absent x ys);
  }
  | inr other ↦
      let c = IsCut-at x ys (IsDistinct-tail y ys d) (ground arith) in
      record {
        before = y ∷ c.before;
        after = c.after;
        whole = ap (λ t. y ∷ t) c.whole;
        removed = ground (arith, c.removed);
      }
]
