-- ===== src/Yield/Reordered.antt =====
-- The invariant does not depend on the order of the tasks on a list.
use os_hw.Base.{
  ℕ, ◌≤◌, ◌≡◌, refl, sym, ap, ◌∙◌, not, none, List, [], ◌∷◌, ◌++◌, arith, length, count, is_empty,
  sum_below-ext, count-append, length-append,
}
use os_hw.Base.Words.{wrap}
use os_hw.Model.{Kernel, max_prio}
use os_hw.Queue.Frame.{load}
use os_hw.Queue.Sync.{InSync, total}
use os_hw.Valid.{IsValid}
use os_hw.Yield.{behind_first}

-- The same memory, with another order on the lists.
pub record IsReordered (k k' : Kernel) : Type 0 where
  pub tasks : (q : ℕ) → k'.tasks q ≡ k.tasks q
  pub rq : k'.rq ≡ k.rq
  pub current : k'.current ≡ k.current
  pub counts : (a i q : ℕ) → count q ((k'.arrays a).queue i) ≡ count q ((k.arrays a).queue i)
  pub lengths : (a i : ℕ) → length ((k'.arrays a).queue i) ≡ length ((k.arrays a).queue i)
  pub bitmap : (a i : ℕ) → i ≤ max_prio → (k'.arrays a).bitmap i ≡ (k.arrays a).bitmap i
  pub nr_active : (a : ℕ) → (k'.arrays a).nr_active ≡ (k.arrays a).nr_active

empty-length : (xs ys : List ℕ) → length xs ≡ length ys → is_empty xs ≡ is_empty ys
empty-length [] [] h = refl
empty-length [] (y ∷ ys) h = absurd (omega arith)
empty-length (x ∷ xs) [] h = absurd (omega arith)
empty-length (x ∷ xs) (y ∷ ys) h = refl

module _ (k k' : Kernel) (r : IsReordered k k') where
  pub total-reordered : (a : ℕ) → total (k'.arrays a) ≡ total (k.arrays a)
  total-reordered a =
      sum_below-ext max_prio (λ i. length ((k'.arrays a).queue i))
        (λ i. length ((k.arrays a).queue i)) λ i l. r.lengths a i

  load-reordered : load k' ≡ load k
  load-reordered =
      sum_below-ext 4 (λ a. total (k'.arrays a)) (λ a. total (k.arrays a)) λ a l. total-reordered a

  InSync-reordered : InSync none k → InSync none k'
  InSync-reordered s = record {
    placed = λ a i q. ground (arith, r.counts a i q, r.tasks q, s.placed a i q);
    marked = λ a i l.
        r.bitmap a i (omega arith)
        ∙ s.marked a i l
        ∙ ap not (empty-length _ _ (sym (r.lengths a i)));
    delimiter = λ a. r.bitmap a max_prio (omega arith) ∙ s.delimiter a;
    counted = λ a. r.nr_active a ∙ s.counted a ∙ ap wrap (sym (total-reordered a));
    ranged = λ q a o h. ground (arith, r.tasks q, s.ranged q a);
  }

  pub IsValid-reordered : IsValid k → IsValid k'
  IsValid-reordered v =
      let s = v.sound in
      record {
        sound = record {
          sync = InSync-reordered s.sync;
          homed = λ q a o. rw (r.tasks q, r.rq) (s.homed q a o);
          each = λ q. rw (r.tasks q) (s.each q);
          queueable = λ q. rw (r.tasks q, r.rq) (s.queueable q);
          arrays = rw r.rq s.arrays;
          curr = ground (arith, r.rq, r.current, s.curr);
          idle = rw (r.tasks k'.rq.idle, r.rq) s.idle;
        };
        running = rw (r.rq, load-reordered) v.running;
      }

pub count-behind_first :
    (q p : ℕ) (xs : List ℕ) → count q (behind_first p xs) ≡ count q (xs ++ p ∷ [])
unfolding behind_first count
count-behind_first q p [] = refl
count-behind_first q p (x ∷ xs) = ground (arith, count-append q xs (p ∷ []))

pub length-behind_first : (p : ℕ) (xs : List ℕ) → length (behind_first p xs) ≡ length (xs ++ p ∷ [])
unfolding behind_first
length-behind_first p [] = refl
length-behind_first p (x ∷ xs) = omega (arith, length-append {A = ℕ} xs (p ∷ []))
