-- ===== src/Base/Doubles.antt =====
-- static_cast<double> of a number of 64 bits, whose value is a whole number.
use Prim.Native.Nat.{ℕ, zero, suc, ◌+◌, ◌-◌, ◌*◌, ◌/◌, ◌%◌, ◌≤◌, ◌<◌}
use mathlib.Core.Path.{◌≡◌, refl}
use mathlib.Core.Logic.{inl, inr}
use native.Mathlib.Omega.{arith}
use repo_init.Base.Tests.{ltb, ◌==◌, if◌then◌else◌, Bool-cases}

-- A double has 53 bits: it holds the whole numbers up to here exactly.
abbrev pub exact_max : ℕ
exact_max = 9_007_199_254_740_992

-- The distance of the doubles at `n`, which doubles at each power of two behind `exact_max`.
unfoldable spacing : ℕ → ℕ → ℕ → ℕ
spacing zero gap n = gap
spacing (suc fuel) gap n = if ltb n (exact_max * gap) then gap else spacing fuel (gap + gap) n

-- The nearest multiple of the distance, and of two the even one.
abbrev round_to : ℕ → ℕ → ℕ
round_to gap n =
    let low = n - n % gap in
    if ltb (n % gap + n % gap) gap
    then low
    else if ltb gap (n % gap + n % gap)
    then low + gap
    else if n / gap % 2 == 0
    then low
    else low + gap

unfoldable pub to_double : ℕ → ℕ
unfolding spacing
to_double n = round_to (spacing 11 1 n) n

pub to_double-exact : (n : ℕ) → n ≤ exact_max → to_double n ≡ n
unfolding to_double spacing
to_double-exact n h = elim (Bool-cases (ltb n exact_max)) [
  | inl e ↦ ground (arith, e)
  | inr e ↦ let top : n ≡ exact_max = ground (arith, e, h) in rw top refl
]

-- A property of each distance that there may be.
abbrev OfGaps : (ℕ → Type 0) → ℕ → ℕ → Type 0
OfGaps P zero gap = P gap
OfGaps P (suc fuel) gap = P gap × OfGaps P fuel (gap + gap)

spacing-OfGaps : (P : ℕ → Type 0) (fuel gap n : ℕ) → OfGaps P fuel gap → P (spacing fuel gap n)
unfolding spacing
spacing-OfGaps P zero gap n h = h
spacing-OfGaps P (suc fuel) gap n h = elim (Bool-cases (ltb n (exact_max * gap))) [
  | inl e ↦ rw (spacing, e) h.0
  | inr e ↦ rw (spacing, e) (spacing-OfGaps P fuel (gap + gap) n h.1)
]

to_double-ge : (n : ℕ) → exact_max ≤ n → exact_max ≤ to_double n
unfolding to_double
to_double-ge n h =
    spacing-OfGaps (λ gap. exact_max ≤ round_to gap n) 11 1 n
      (
        ground (arith, h),
        (
          ground (arith, h),
          (
            ground (arith, h),
            (
              ground (arith, h),
              (
                ground (arith, h),
                (
                  ground (arith, h),
                  (
                    ground (arith, h),
                    (
                      ground (arith, h),
                      (
                        ground (arith, h),
                        (ground (arith, h), (ground (arith, h), ground (arith, h))),
                      ),
                    ),
                  ),
                ),
              ),
            ),
          ),
        ),
      )

-- A number that is cast to less than `exact_max` is exact.
pub to_double-lt : (n : ℕ) → to_double n < exact_max → n < exact_max
to_double-lt n h = elim (Bool-cases (ltb n exact_max)) [
  | inl e ↦ ground (arith, e)
  | inr e ↦ let large : exact_max ≤ n = ground (arith, e) in omega (arith, h, to_double-ge n large)
]
