-- ===== src/Family/Ring.antt =====
-- The ring of all tasks under SET_LINKS and REMOVE_LINKS.
use mathlib.Core.Path.{subst}
use os_hw.Base.{
  ℕ, ◌∙◌, sym, inl, inr, none, some, Option, Option-cases, ◌≡◌, ◌≢◌, ◌≤◌, refl, arith, List, [],
  ◌∷◌, ◌++◌, count, remove,
}
use os_hw.Family.{Relatives, set_younger, detach, append_task, set_links, remove_task, remove_links}
use os_hw.Links.{Links, list_add_tail, list_del}
use os_hw.Links.Ring.{IsRing, IsPath-same}
use os_hw.Links.Refinement.{list_add_tail-IsRing, list_del-IsRing}

-- The writes of SET_LINKS to the ring are those of list_add_tail, in another order.
append_task-list_add_tail :
    (m : Links) (init p : ℕ)
    → p ≢ init
    → (q : ℕ)
    → ((append_task init p m).next q ≡ (list_add_tail p init m).next q)
      × ((append_task init p m).prev q ≡ (list_add_tail p init m).prev q)
unfolding append_task list_add_tail
append_task-list_add_tail m init p ne q = ground arith

set_links-tasks :
    (init p : ℕ) (r : Relatives) → (set_links init p r).tasks ≡ append_task init p r.tasks
unfolding set_links
set_links-tasks init p r = elim (Option-cases (r.p_cptr (r.p_pptr p))) [
  | inl e ↦ rw (e, set_links) refl
  | inr (c, e) ↦ rw (e, set_links) refl
]

-- SET_LINKS puts the process last on the ring of all tasks.
pub set_links-IsRing :
    (init p : ℕ) (xs : List ℕ) (r : Relatives)
    → IsRing r.tasks init xs
    → count p (init ∷ xs) ≡ 0
    → IsRing (set_links init p r).tasks init (xs ++ p ∷ [])
set_links-IsRing init p xs r ring fresh =
    let ne : p ≢ init = unfold count in ground arith in
    let m' = append_task init p r.tasks in
    let added : IsRing (list_add_tail p init r.tasks) init (xs ++ p ∷ []) =
      list_add_tail-IsRing r.tasks init p xs ring fresh in
    let same = append_task-list_add_tail r.tasks init p ne in
    subst (λ m. IsRing m init (xs ++ p ∷ [])) (sym (set_links-tasks init p r))
      (record {
        path =
            IsPath-same (list_add_tail p init r.tasks) m' init init (xs ++ p ∷ []) (λ q. (same q).0)
              (λ q. (same q).1) added.path;
        distinct = added.distinct;
      })

remove_task-list_del :
    (m : Links) (p q : ℕ)
    → ((remove_task p m).next q ≡ (list_del p m).next q)
      × ((remove_task p m).prev q ≡ (list_del p m).prev q)
unfolding remove_task list_del
remove_task-list_del m p q = ground arith

set_younger-tasks : (o v : Option ℕ) (r : Relatives) → (set_younger o v r).tasks ≡ r.tasks
set_younger-tasks none v r = refl
set_younger-tasks (some q) v r = refl

detach-tasks : (o : Option ℕ) (p : ℕ) (r : Relatives) → (detach o p r).tasks ≡ r.tasks
unfolding detach
detach-tasks none p r = refl
detach-tasks (some y) p r = refl

remove_links-tasks : (p : ℕ) (r : Relatives) → (remove_links p r).tasks ≡ remove_task p r.tasks
unfolding remove_links
remove_links-tasks p r =
    let r1 = record r { tasks = remove_task p r.tasks } in
    let r2 = set_younger (r1.p_osptr p) (r1.p_ysptr p) r1 in
    detach-tasks (r2.p_ysptr p) p r2 ∙ set_younger-tasks (r1.p_osptr p) (r1.p_ysptr p) r1

-- REMOVE_LINKS takes the process off the ring of all tasks.
pub remove_links-IsRing :
    (init p : ℕ) (xs : List ℕ) (r : Relatives)
    → IsRing r.tasks init xs
    → 1 ≤ count p xs
    → IsRing (remove_links p r).tasks init (remove p xs)
remove_links-IsRing init p xs r ring h =
    let m' = remove_task p r.tasks in
    let less = list_del-IsRing r.tasks init p xs ring h in
    let same = remove_task-list_del r.tasks p in
    subst (λ m. IsRing m init (remove p xs)) (sym (remove_links-tasks p r))
      (record {
        path =
            IsPath-same (list_del p r.tasks) m' init init (remove p xs) (λ q. (same q).0)
              (λ q. (same q).1) less.path;
        distinct = less.distinct;
      })
