-- ===== src/Base/Text.antt =====
-- Byte strings: what the sources use of std::string, on lists of bytes.
-- A position that std::string reports as npos is `none`.
use Prim.Native.Nat.{ℕ, suc}
use Prim.Native.Char.{code}
use Prim.Native.String.{String}
use mathlib.Core.Path.{◌≡◌, refl}
use mathlib.Core.Logic.{◌≢◌}
use mathlib.Core.List.{[], List, ◌∷◌, ◌++◌}
use mathlib.Core.Bool.{Bool, true, false, ◌&&◌}
use mathlib.Core.Option.{Option, none, some}
use native.Mathlib.Omega.{arith}
use repo_init.Base.Tests.{◌==◌, if◌then◌else◌}
use repo_init.Base.Lists.{take, drop, All}

abbrev pub Bytes : Type 0
Bytes = List ℕ

-- The bytes of an ASCII literal.
abbrev pub codes : String → Bytes
codes String.[] = []
codes (String.◌∷◌ c s) = code c ∷ codes s

-- `s == t` on std::string.
abbrev pub str_eq : Bytes → Bytes → Bool
str_eq [] [] = true
str_eq [] (d ∷ t) = false
str_eq (c ∷ s) [] = false
str_eq (c ∷ s) (d ∷ t) = c == d && str_eq s t

abbrev pub starts_with : Bytes → Bytes → Bool
starts_with [] s = true
starts_with (c ∷ p) [] = false
starts_with (c ∷ p) (d ∷ s) = c == d && starts_with p s

abbrev pub next : Option ℕ → Option ℕ
next none = none
next (some i) = some (suc i)

-- find_first_of with one character.
abbrev pub find_byte : ℕ → Bytes → Option ℕ
find_byte k [] = none
find_byte k (c ∷ s) = if c == k then some 0 else next (find_byte k s)

-- find with a string.
abbrev pub find : Bytes → Bytes → Option ℕ
find p [] = if starts_with p [] then some 0 else none
find p (c ∷ s) = if starts_with p (c ∷ s) then some 0 else next (find p s)

-- erase(pos, n), at a position within the string.
abbrev pub erase : Bytes → ℕ → ℕ → Bytes
erase s pos n = take pos s ++ drop n (drop pos s)

abbrev pub Lacks : ℕ → Bytes → Type 0
Lacks k = All (λ c. c ≢ k)

pub str_eq→eq : (s t : Bytes) → str_eq s t ≡ true → s ≡ t
str_eq→eq [] [] h = refl
str_eq→eq [] (d ∷ t) h = cc
str_eq→eq (c ∷ s) [] h = cc
str_eq→eq (c ∷ s) (d ∷ t) h = ground (arith, str_eq→eq s t)

pub str_eq_refl : (s : Bytes) → str_eq s s ≡ true
str_eq_refl [] = refl
str_eq_refl (c ∷ s) = ground (arith, str_eq_refl s)
