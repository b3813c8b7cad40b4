-- ===== src/Base/Words.antt =====
-- 32-bit words: an `unsigned int` or `unsigned long` of the i386 build is a number below 2 ^ 32.
use Prim.Native.Nat.{ℕ, ◌+◌, ◌-◌, ◌*◌, ◌%◌, ◌^◌}
use os_hw.Base.Int.{ℤ, pos, negsuc, pos_part, neg_part}
use os_hw.Base.Tests.{ltb, if◌then◌else◌}

abbrev pub word_size : ℕ
word_size = 2 ^ 32

abbrev pub wrap : ℕ → ℕ
wrap n = n % word_size

-- `++x`
abbrev pub inc : ℕ → ℕ
inc n = wrap (n + 1)

-- `--x`
abbrev pub dec : ℕ → ℕ
dec n = wrap (n + (word_size - 1))

-- `a - b`
abbrev pub sub : ℕ → ℕ → ℕ
sub a b = wrap (a + (word_size - wrap b))

-- An `int` where C converts it to `unsigned int`.
abbrev pub to_word : ℤ → ℕ
to_word z = wrap (pos_part z + (word_size - wrap (neg_part z)))

-- An `unsigned int` where C stores it into an `int`.
abbrev pub to_int : ℕ → ℤ
to_int w = if ltb w (2 ^ 31) then pos w else negsuc (word_size - w - 1)

-- The product of an `int` and a positive `int`, as the machine's multiplication leaves it.
abbrev pub mul_int : ℤ → ℕ → ℤ
mul_int a m = to_int (wrap (to_word a * m))
