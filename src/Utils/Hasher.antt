-- ===== src/Utils/Hasher.antt =====
-- include/utils/Hasher.hpp: constHasher, with size_t of 64 bits and a signed char.
use repo_init.Base.{
  [], ℕ, ◌+◌, ◌-◌, ◌*◌, ◌%◌, ◌<◌, ◌≡◌, ◌∷◌, arith, ltb, ◌==◌, if◌then◌else◌, Bytes, size_mod,
}

-- A char as it is added to a size_t: bytes from 128 on are negative.
abbrev pub char_value : ℕ → ℕ
char_value c = if ltb c 128 then c else size_mod - (256 - c)

-- The string ends at its first null byte.
unfoldable pub const_hasher : Bytes → ℕ
const_hasher [] = 5381
const_hasher (c ∷ s) = if c == 0 then 5381 else (char_value c + 33 * const_hasher s) % size_mod

-- Two strings whose first bytes are c, d + 1 and c + 33, d, all of them ASCII and not null, and
-- that agree from there on have one hash.
pub const_hasher_collision :
    (c d : ℕ) (s : Bytes)
    → 0 < c
    → c + 33 < 128
    → 0 < d
    → d + 1 < 128
    → const_hasher (c ∷ (d + 1) ∷ s) ≡ const_hasher ((c + 33) ∷ d ∷ s)
unfolding const_hasher
const_hasher_collision c d s h₁ h₂ h₃ h₄ = ground arith

pub const_hasher-lt : (s : Bytes) → const_hasher s < size_mod
unfolding const_hasher
const_hasher-lt [] = omega arith
const_hasher-lt (c ∷ s) = ground arith
