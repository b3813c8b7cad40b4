-- ===== src/Base/Tests.antt =====
-- Boolean tests on the native numbers, the conditional, and the writing of one place of a function.
use Prim.Native.Nat.{ℕ, ◌≤◌, ◌<◌, compare, Ordering}
use mathlib.Core.Path.{◌≡◌, refl}
use mathlib.Core.Logic.{◌↔◌, ◌⊎◌, inl, inr}
use mathlib.Core.Bool.{Bool, true, false}
use mathlib.Core.Option.{Option, none, some}
use native.Mathlib.Omega.{arith}

abbrev pub ltb : ℕ → ℕ → Bool
ltb a b = elim (compare a b) [ Ordering.lt ↦ true | _ ↦ false ]

abbrev pub leb : ℕ → ℕ → Bool
leb a b = elim (compare a b) [ Ordering.gt ↦ false | _ ↦ true ]

infix 50 ◌==◌
abbrev pub ◌==◌ : ℕ → ℕ → Bool
a == b = elim (compare a b) [ Ordering.eq ↦ true | _ ↦ false ]

infix 1 if◌then◌else◌
abbrev pub if◌then◌else◌ {ℓ} : {A : Type ℓ} → Bool → A → A → A
if true then x else y = x
if false then x else y = y

pub ltb→lt : (a b : ℕ) → ltb a b ≡ true → a < b
ltb→lt a b h = ground arith

pub lt→ltb : (a b : ℕ) → a < b → ltb a b ≡ true
lt→ltb a b h = ground arith

pub leb→le : (a b : ℕ) → leb a b ≡ true → a ≤ b
leb→le a b h = ground arith

pub ==_iff : (a b : ℕ) → ((a == b) ≡ true) ↔ (a ≡ b)
==_iff a b = ground arith

pub ==_refl : (a : ℕ) → (a == a) ≡ true
==_refl a = ground arith

pub Bool-cases : (b : Bool) → (b ≡ true) ⊎ (b ≡ false)
Bool-cases true = inl refl
Bool-cases false = inr refl

pub Option-cases {ℓ} : {A : Type ℓ} (o : Option A) → (o ≡ none) ⊎ ((a : A) × (o ≡ some a))
Option-cases none = inl refl
Option-cases (some a) = inr (a, refl)

-- `f` with the value `v` at place `p`: a store through a pointer.
abbrev pub upd {ℓ} : {A : Type ℓ} → (ℕ → A) → ℕ → A → ℕ → A
upd f p v q = if p == q then v else f q

-- A pointer that may be null, against one that is not.
abbrev pub points_to : Option ℕ → ℕ → Bool
points_to none a = false
points_to (some b) a = b == a

-- What holds of the new value at its place, and of the old ones elsewhere, holds everywhere.
pub upd_cases {ℓ κ} :
    {A : Type ℓ} (P : A → Type κ) (f : ℕ → A) (p : ℕ) (v : A) (q : ℕ)
    → (p ≡ q → P v)
    → ((p ≡ q → ⊥) → P (f q))
    → P (upd f p v q)
upd_cases P f p v q new old = elim (Bool-cases (p == q)) [
  | inl e ↦ rw e (new ((==_iff p q).0 e))
  | inr e ↦ rw e (old (λ h. cc ((==_iff p q).1 h)))
]

-- What holds of both branches holds of the conditional.
pub if_split {ℓ κ} :
    {A : Type ℓ} (P : A → Type κ) (b : Bool) (x y : A)
    → (b ≡ true → P x)
    → (b ≡ false → P y)
    → P (if b then x else y)
if_split P true x y t f = t refl
if_split P false x y t f = f refl
