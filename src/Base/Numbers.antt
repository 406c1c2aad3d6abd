-- ===== src/Base/Numbers.antt =====
-- Decimal numbers in texts: std::stoul and std::stoull, which are alike where unsigned long has 64 bits.
use native.Mathlib.Nat.{pow-suc}
use repo_init.Base.{
  ℕ, ◌+◌, ◌-◌, ◌*◌, ◌%◌, ◌^◌, ◌≤◌, ◌<◌, ◌≡◌, ap, Bool, true, false, ◌&&◌, ◌||◌, Option, none, some,
  [], ◌∷◌, arith, ltb, leb, ◌==◌, if◌then◌else◌, length, All, Bytes, size_mod,
}

abbrev is_space : ℕ → Bool
is_space c = c == 32 || leb 9 c && leb c 13

abbrev pub is_digit : ℕ → Bool
is_digit c = leb 48 c && leb c 57

abbrev skip_spaces : Bytes → Bytes
skip_spaces [] = []
skip_spaces (c ∷ s) = if is_space c then skip_spaces s else c ∷ s

-- The digits at the start of a text, behind those that have been read.
abbrev read_digits : ℕ → Bytes → ℕ
read_digits n [] = n
read_digits n (c ∷ s) =
    let more = read_digits (10 * n + (c - 48)) s in if is_digit c then more else n

abbrev starts_with_digit : Bytes → Bool
starts_with_digit [] = false
starts_with_digit (c ∷ s) = is_digit c

-- Without a digit, and beyond the largest number, an exception is thrown.
abbrev magnitude : Bytes → Option ℕ
magnitude s =
    let n = read_digits 0 s in
    if starts_with_digit s then (if ltb n size_mod then some n else none) else none

abbrev negate : Option ℕ → Option ℕ
negate none = none
negate (some n) = some ((size_mod - n) % size_mod)

abbrev signed : Bytes → Option ℕ
signed [] = none
signed (c ∷ s) =
    if c == 45 then negate (magnitude s) else if c == 43 then magnitude s else magnitude (c ∷ s)

-- `none` is an exception.
unfoldable pub stoull : Bytes → Option ℕ
stoull s = signed (skip_spaces s)

-- The number that decimal digits stand for, by their places.
abbrev pub place_value : Bytes → ℕ
place_value [] = 0
place_value (c ∷ s) = (c - 48) * 10 ^ length s + place_value s

read_digits-place_value :
    (n : ℕ) (s : Bytes)
    → All (λ c. is_digit c ≡ true) s
    → read_digits n s ≡ n * 10 ^ length s + place_value s
read_digits-place_value n [] h = omega arith
read_digits-place_value n (c ∷ s) h =
    rw (h.0, read_digits-place_value (10 * n + (c - 48)) s h.1)
      (omega (arith, ap (λ (t : ℕ). n * t) (pow-suc 10 (length s))))

pub stoull-place_value :
    (c : ℕ) (s : Bytes)
    → All (λ c. is_digit c ≡ true) (c ∷ s)
    → (place_value (c ∷ s) < size_mod → stoull (c ∷ s) ≡ some (place_value (c ∷ s)))
      × (size_mod ≤ place_value (c ∷ s) → stoull (c ∷ s) ≡ none)
unfolding stoull
stoull-place_value c s h =
    let v = read_digits-place_value 0 (c ∷ s) h in
    let w : read_digits 0 (c ∷ s) ≡ place_value (c ∷ s) = omega (arith, v) in ground (arith, h.0, w)

magnitude-lt : (s : Bytes) (n : ℕ) → magnitude s ≡ some n → n < size_mod
magnitude-lt s n h = ground arith

negate-lt : (o : Option ℕ) (n : ℕ) → negate o ≡ some n → n < size_mod
negate-lt none n h = ground arith
negate-lt (some m) n h = ground arith

signed-lt : (s : Bytes) (n : ℕ) → signed s ≡ some n → n < size_mod
signed-lt [] n h = ground arith
signed-lt (c ∷ s) n h =
    ground (arith, negate-lt (magnitude s) n, magnitude-lt s n, magnitude-lt (c ∷ s) n)

pub stoull-lt : (s : Bytes) (n : ℕ) → stoull s ≡ some n → n < size_mod
unfolding stoull
stoull-lt s n h = signed-lt (skip_spaces s) n h
