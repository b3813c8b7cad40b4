-- ===== src/Family/RoundTrip.antt =====
-- REMOVE_LINKS takes back what SET_LINKS did.
use mathlib.Core.Path.{subst}
use os_hw.Base.{
  ℕ, false, sym, ap, ◌∙◌, ◌≡◌, ◌≢◌, ◌≤◌, refl, inl, inr, none, some, Option-cases, arith, List, [],
  ◌∷◌, ◌++◌, count, remove, upd, ◌==◌, ==_refl, count-append,
}
use os_hw.Family.{Relatives, detach, append_task, set_links, remove_task, remove_links}
use os_hw.Family.Ring.{set_links-IsRing, remove_links-IsRing}
use os_hw.Links.Ring.{IsRing}

-- The relatives of all but `p`, and all youngest children, are the same.
pub record IsSameBut (p : ℕ) (r r' : Relatives) : Type 0 where
  pub p_cptr : (q : ℕ) → r'.p_cptr q ≡ r.p_cptr q
  pub p_ysptr : (q : ℕ) → q ≢ p → r'.p_ysptr q ≡ r.p_ysptr q
  pub p_osptr : (q : ℕ) → q ≢ p → r'.p_osptr q ≡ r.p_osptr q
  pub p_pptr : (q : ℕ) → r'.p_pptr q ≡ r.p_pptr q

remove_snoc : (p : ℕ) (xs : List ℕ) → count p xs ≡ 0 → remove p (xs ++ p ∷ []) ≡ xs
unfolding remove count
remove_snoc p [] h = ground arith
remove_snoc p (x ∷ xs) h = ground (arith, remove_snoc p xs)

-- A process without siblings is taken from its parent.
remove_links_only :
    (p : ℕ) (r : Relatives)
    → r.p_osptr p ≡ none
    → r.p_ysptr p ≡ none
    → remove_links p r
      ≡ record r { tasks = remove_task p r.tasks; p_cptr = upd r.p_cptr (r.p_pptr p) none }
unfolding remove_links detach
remove_links_only p r older younger = rw (older, younger, older) refl

-- ... and one whose older sibling is `c`, which is then the youngest.
remove_links_youngest :
    (p c : ℕ) (r : Relatives)
    → r.p_osptr p ≡ some c
    → r.p_ysptr p ≡ none
    → c ≢ p
    → remove_links p r ≡ record r {
      tasks = remove_task p r.tasks;
      p_ysptr = upd r.p_ysptr c none;
      p_cptr = upd r.p_cptr (r.p_pptr p) (some c);
    }
unfolding remove_links detach
remove_links_youngest p c r older younger ne =
    let other : (c == p) ≡ false = ground arith in rw (older, other, younger, older) refl

-- The parent has no child.
set_links_first :
    (init p : ℕ) (r : Relatives)
    → r.p_cptr (r.p_pptr p) ≡ none
    → set_links init p r ≡ record r {
      tasks = append_task init p r.tasks;
      p_ysptr = upd r.p_ysptr p none;
      p_osptr = upd r.p_osptr p none;
      p_cptr = upd r.p_cptr (r.p_pptr p) (some p);
    }
unfolding set_links
set_links_first init p r e = rw e refl

-- The parent has children, the youngest of which is `c`.
set_links_next :
    (init p c : ℕ) (r : Relatives)
    → r.p_cptr (r.p_pptr p) ≡ some c
    → set_links init p r ≡ record r {
      tasks = append_task init p r.tasks;
      p_ysptr = upd (upd r.p_ysptr p none) c (some p);
      p_osptr = upd r.p_osptr p (some c);
      p_cptr = upd r.p_cptr (r.p_pptr p) (some p);
    }
unfolding set_links
set_links_next init p c r e = rw e refl

alone-IsSameBut :
    (init p : ℕ) (r : Relatives)
    → r.p_cptr (r.p_pptr p) ≡ none
    → IsSameBut p r (remove_links p (set_links init p r))
alone-IsSameBut init p r e =
    let r1 : Relatives = record r {
      tasks = append_task init p r.tasks;
      p_ysptr = upd r.p_ysptr p none;
      p_osptr = upd r.p_osptr p none;
      p_cptr = upd r.p_cptr (r.p_pptr p) (some p);
    } in
    let removed = remove_links_only p r1 (rw (==_refl p) refl) (rw (==_refl p) refl) in
    subst (λ v. IsSameBut p r v) (sym (ap (remove_links p) (set_links_first init p r e) ∙ removed))
      (record {
        p_cptr = λ q. ground arith;
        p_ysptr = λ q ne. ground arith;
        p_osptr = λ q ne. ground arith;
        p_pptr = λ q. refl;
      })

younger-IsSameBut :
    (init p c : ℕ) (r : Relatives)
    → r.p_cptr (r.p_pptr p) ≡ some c
    → c ≢ p
    → r.p_ysptr c ≡ none
    → IsSameBut p r (remove_links p (set_links init p r))
younger-IsSameBut init p c r e ne youngest =
    let r1 : Relatives = record r {
      tasks = append_task init p r.tasks;
      p_ysptr = upd (upd r.p_ysptr p none) c (some p);
      p_osptr = upd r.p_osptr p (some c);
      p_cptr = upd r.p_cptr (r.p_pptr p) (some p);
    } in
    let removed = remove_links_youngest p c r1 (rw (==_refl p) refl) (ground arith) ne in
    subst (λ v. IsSameBut p r v) (sym (ap (remove_links p) (set_links_next init p c r e) ∙ removed))
      (record {
        p_cptr = λ q. ground arith;
        p_ysptr = λ q ne. ground arith;
        p_osptr = λ q ne. ground arith;
        p_pptr = λ q. refl;
      })

-- SET_LINKS of a process that is not on the ring of all tasks, and then REMOVE_LINKS, leave the
-- ring as it was, and so the youngest child and the parent of every process and the siblings of
-- every other process, if the youngest child of the process's parent is another process and has no
-- younger sibling.
pub remove_links-set_links :
    (init p : ℕ) (xs : List ℕ) (r : Relatives)
    → IsRing r.tasks init xs
    → count p (init ∷ xs) ≡ 0
    → ((c : ℕ) → r.p_cptr (r.p_pptr p) ≡ some c → (c ≢ p) × (r.p_ysptr c ≡ none))
    → IsRing (remove_links p (set_links init p r)).tasks init xs
      × IsSameBut p r (remove_links p (set_links init p r))
remove_links-set_links init p xs r ring fresh youngest =
    let linked = set_links-IsRing init p xs r ring fresh in
    let inside : 1 ≤ count p (xs ++ p ∷ []) =
      unfold count in ground (arith, count-append p xs (p ∷ [])) in
    let back : remove p (xs ++ p ∷ []) ≡ xs = remove_snoc p xs (unfold count in ground arith) in
    (
      subst (λ ys. IsRing (remove_links p (set_links init p r)).tasks init ys) back
          (remove_links-IsRing init p (xs ++ p ∷ []) (set_links init p r) linked inside),
      elim (Option-cases (r.p_cptr (r.p_pptr p))) [
        | inl e ↦ alone-IsSameBut init p r e
        | inr (c, e) ↦
            let (ne, none_younger) = youngest c e in younger-IsSameBut init p c r e ne none_younger
      ],
    )
