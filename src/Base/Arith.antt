-- ===== src/Base/Arith.antt =====
-- Products and quotients by a variable.
use Prim.Native.Nat.{ℕ, suc, ◌+◌, ◌*◌, ◌/◌, ◌≤◌, ◌<◌}
use native.Mathlib.Omega.{arith}

pub mul-le : (d a b : ℕ) → a ≤ b → d * a ≤ d * b
mul-le d a b h = grind arith

pub div-le : (x d b : ℕ) → 0 < d → x ≤ d * b → x / d ≤ b
div-le x d b p h = grind (arith, λ (q : suc b ≤ x / d). mul-le d (suc b) (x / d) q)

pub div_mul-le : (x d : ℕ) → 0 < d → d * (x / d) ≤ x
div_mul-le x d p = grind arith

pub div_mul-lt : (x d : ℕ) → 0 < d → x < d * (x / d) + d
div_mul-lt x d p = grind arith
