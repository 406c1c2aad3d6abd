-- ===== src/Base/Find.antt =====
-- Where a byte or a string is found, and what an erasure leaves.
use Prim.Native.Nat.{ℕ, zero, suc, ◌+◌, ◌≤◌, ◌<◌}
use mathlib.Core.Path.{◌≡◌, refl, ap}
use mathlib.Core.Logic.{inl, inr}
use mathlib.Core.List.{[], ◌∷◌, ◌++◌}
use mathlib.Core.Bool.{true}
use mathlib.Core.Option.{none, some}
use native.Mathlib.Omega.{arith}
use repo_init.Base.Tests.{Option-cases}
use repo_init.Base.Lists.{length, length-drop, drop-length, take, drop}
use repo_init.Base.Text.{Bytes, starts_with, next, find_byte, find, erase, Lacks}

pub find_byte-lt : (k : ℕ) (s : Bytes) (i : ℕ) → find_byte k s ≡ some i → i < length s
find_byte-lt k [] i h = cc
find_byte-lt k (c ∷ s) i h = elim (Option-cases (find_byte k s)) [
  | inl e ↦ ground arith
  | inr (j, e) ↦ ground (arith, find_byte-lt k s j e)
]

pub find_byte-Lacks : (k : ℕ) (s : Bytes) → find_byte k s ≡ none → Lacks k s
find_byte-Lacks k [] h = tt
find_byte-Lacks k (c ∷ s) h = ground (arith, find_byte-Lacks k s)

pub Lacks-find_byte : (k : ℕ) (s : Bytes) → Lacks k s → find_byte k s ≡ none
Lacks-find_byte k [] h = refl
Lacks-find_byte k (c ∷ s) h = ground (arith, Lacks-find_byte k s h.1)

pub find_byte-append :
    (k : ℕ) (p s : Bytes) → Lacks k p → find_byte k (p ++ k ∷ s) ≡ some (length p)
find_byte-append k [] s h = ground arith
find_byte-append k (c ∷ p) s h = ground (arith, find_byte-append k p s h.1)

pub erase_after : (p d s : Bytes) → erase (p ++ (d ++ s)) (length p) (length d) ≡ p ++ s
erase_after [] d s = drop-length d s
erase_after (c ∷ p) d s = ap (◌∷◌ c) (erase_after p d s)

pub length-erase :
    (s : Bytes) (pos n : ℕ) → pos + n ≤ length s → length (erase s pos n) + n ≡ length s
length-erase s zero n h = omega (arith, length-drop n s)
length-erase [] (suc pos) n h = absurd (omega arith)
length-erase (c ∷ s) (suc pos) n h = omega (arith, length-erase s pos n)

-- A hit of `find` cuts the string in three, and the part before it holds no hit.
pub starts_with-split : (p s : Bytes) → starts_with p s ≡ true → p ++ drop (length p) s ≡ s
starts_with-split [] s h = refl
starts_with-split (c ∷ p) [] h = cc
starts_with-split (c ∷ p) (d ∷ s) h = ground (arith, starts_with-split p s)

pub starts_with-append : (p s : Bytes) → starts_with p (p ++ s) ≡ true
starts_with-append [] s = refl
starts_with-append (c ∷ p) s = ground (arith, starts_with-append p s)

pub find-split :
    (p s : Bytes) (i : ℕ) → find p s ≡ some i → take i s ++ (p ++ drop (length p) (drop i s)) ≡ s
find-split p [] zero h = ground (arith, starts_with-split p [])
find-split p [] (suc i) h = ground arith
find-split p (c ∷ s) zero h = elim (Option-cases (find p s)) [
  | inl e ↦ ground (arith, starts_with-split p (c ∷ s))
  | inr (j, e) ↦ ground (arith, starts_with-split p (c ∷ s))
]
find-split p (c ∷ s) (suc i) h = ap (◌∷◌ c) (find-split p s i (next-inj (ground arith)))
  where
    next-inj : next (find p s) ≡ some (suc i) → find p s ≡ some i
    next-inj e = elim (Option-cases (find p s)) [ inl n ↦ ground arith | inr (j, n) ↦ ground arith ]

starts_with-le : (p s : Bytes) → starts_with p s ≡ true → length p ≤ length s
starts_with-le [] s h = omega arith
starts_with-le (c ∷ p) [] h = cc
starts_with-le (c ∷ p) (d ∷ s) h = ground (arith, starts_with-le p s)

pub find-le : (p s : Bytes) (i : ℕ) → find p s ≡ some i → i + length p ≤ length s
find-le p [] i h = ground (arith, starts_with-le p [])
find-le p (c ∷ s) i h = elim (Option-cases (find p s)) [
  | inl e ↦ ground (arith, starts_with-le p (c ∷ s))
  | inr (j, e) ↦ ground (arith, find-le p s j e, starts_with-le p (c ∷ s))
]

pub find-Lacks : (c : ℕ) (q s : Bytes) → Lacks c s → find (c ∷ q) s ≡ none
find-Lacks c q [] h = refl
find-Lacks c q (d ∷ s) h = ground (arith, find-Lacks c q s h.1)
