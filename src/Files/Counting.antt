-- ===== src/Files/Counting.antt =====
-- count_open_files and the loop of copy_files of sharedFolderHW2/fork.c.
use mathlib.Core.Path.{subst}
use os_hw.Base.{
  ℕ, zero, suc, ◌+◌, ◌*◌, ◌/◌, ◌-◌, ◌%◌, ◌≤◌, ◌<◌, ◌≡◌, ◌∙◌, Bool, true, ◌&&◌, Option, none, some,
  upd, ltb, leb, ◌==◌, if◌then◌else◌, points_to, arith, Bool-cases, Option-cases, inl, inr,
  if_split,
}
use os_hw.Base.Words.{wrap, inc}
use os_hw.Files.{any_bit, last_word, count_open_files, copy_fds}
use os_hw.Files.State.{FilesStruct, FilesEnv}

any_bit_lem : (n k : ℕ) (f : ℕ → Bool) → k < n → f k ≡ true → any_bit n f ≡ true
unfolding any_bit
any_bit_lem zero k f h e = elim h [ ]
any_bit_lem (suc n) k f h e = elim (Bool-cases (k == n)) [
  | inl same ↦ ground (arith, e, same)
  | inr other ↦ ground (arith, any_bit_lem n k f (ground (arith, other)) e)
]

last_word-bound : (s : ℕ → Bool) (n i : ℕ) → i < 32 * n → s i ≡ true → i < (last_word s n + 1) * 32
unfolding last_word
last_word-bound s zero i h e = ground arith
last_word-bound s (suc n) i h e =
    if_split (λ w. i < (w + 1) * 32) (any_bit 32 (λ k. s (32 * n + k))) _ _ (λ a. omega arith)
      (λ a. elim (Bool-cases (ltb i (32 * n))) [
        | inl lower ↦ last_word-bound s n i (ground (arith, lower)) e
        | inr here ↦
            let place : i ≡ 32 * n + (i - 32 * n) = ground (arith, here) in
            let used : any_bit 32 (λ k. s (32 * n + k)) ≡ true =
              any_bit_lem 32 (i - 32 * n) (λ k. s (32 * n + k)) (ground (arith, here))
                (subst (λ j. s j ≡ true) place e) in
            ground (arith, used, a)
      ])

last_word-le : (s : ℕ → Bool) (n : ℕ) → last_word s n ≤ n - 1
unfolding last_word
last_word-le s zero = omega arith
last_word-le s (suc n) =
    if_split (λ w. w ≤ suc n - 1) (any_bit 32 (λ k. s (32 * n + k))) _ _ (λ a. omega arith)
      (λ a. omega (arith, last_word-le s n))

-- The answer of count_open_files: a multiple of 32 with every open descriptor of the whole words
-- below it, which is no more than these words, if there is one.
pub count_open_files_lem :
    (files : FilesStruct) (size : ℕ)
    → ((i : ℕ) → i < 32 * (size / 32) → files.open_fds i ≡ true → i < count_open_files files size)
      × ((count_open_files files size % 32 ≡ 0)
          × ((32 ≤ size → count_open_files files size ≤ size) × (32 ≤ count_open_files files size)))
unfolding count_open_files
count_open_files_lem files size =
    let le = last_word-le files.open_fds (size / 32) in
    (
      last_word-bound files.open_fds (size / 32),
      (omega arith, (λ h. omega (arith, le), omega arith)),
    )

-- How many of the `n` descriptors from `k` on are of the file `g`.
unfoldable pub references : ℕ → ℕ → (ℕ → Option ℕ) → ℕ → ℕ
references zero k fds g = 0
references (suc n) k fds g =
    let rest = references n (suc k) fds g in if points_to (fds k) g then rest + 1 else rest

module _ {R : Type 0} (env : FilesEnv R) where
  pub copy_fds-array :
      (n k : ℕ) (old new : ℕ → Option ℕ) (counts : ℕ → ℕ) (q : ℕ)
      → (copy_fds env n k old new counts).0 q ≡ (if leb k q && ltb q (k + n) then old q else new q)
  unfolding copy_fds
  copy_fds-array zero k old new counts q = ground arith
  copy_fds-array (suc n) k old new counts q =
      let counts' : ℕ → ℕ = elim (old k) [ none ↦ counts | some f ↦ env.get_file f counts ] in
      copy_fds-array n (suc k) old (upd new k (old k)) counts' q ∙ ground arith

  pub copy_fds-counts :
      ((f : ℕ) (counts : ℕ → ℕ) (g : ℕ)
        → env.get_file f counts g ≡ (if f == g then inc (counts g) else counts g))
      → (n k : ℕ) (old new : ℕ → Option ℕ) (counts : ℕ → ℕ) (g : ℕ)
      → wrap ((copy_fds env n k old new counts).1 g) ≡ wrap (counts g + references n k old g)
  unfolding copy_fds references
  copy_fds-counts get zero k old new counts g = ground arith
  copy_fds-counts get (suc n) k old new counts g = elim (Option-cases (old k)) [
    | inl e ↦ rw e (ground (arith, copy_fds-counts get n (suc k) old (upd new k none) counts g))
    | inr (f, e) ↦ rw e (
        ground (
          arith,
          copy_fds-counts get n (suc k) old (upd new k (some f)) (env.get_file f counts) g,
          get f counts g,
        ))
  ]
