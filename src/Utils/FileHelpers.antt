-- ===== src/Utils/FileHelpers.antt =====
-- findFromFile of include/utils/FileHelpers.hpp: the lines of a file that match a pattern.
pub mod Laws
use repo_init.Base.{
  ℕ, suc, Bool, Option, none, some, List, [], ◌∷◌, ◌==◌, if◌then◌else◌, is_just, drop, Bytes, find,
}

-- std::getline until the end of the file: a newline ends a line, and the last line may lack it.
abbrev extend_line : ℕ → List Bytes → List Bytes
extend_line c [] = (c ∷ []) ∷ []
extend_line c (line ∷ lines) = (c ∷ line) ∷ lines

abbrev pub get_lines : Bytes → List Bytes
get_lines [] = []
get_lines (c ∷ s) = if c == 10 then [] ∷ get_lines s else extend_line c (get_lines s)

-- The lines of a file that cannot be opened are none.
abbrev pub file_lines : Option Bytes → List Bytes
file_lines none = []
file_lines (some s) = get_lines s

-- find_last_of with one character.
abbrev pub find_last : ℕ → Bytes → Option ℕ
find_last k [] = none
find_last k (c ∷ s) = elim (find_last k s) [
  | none ↦ if c == k then some 0 else none
  | some i ↦ some (suc i)
]

abbrev pub keep {ℓ} : {A : Type ℓ} → (A → Bool) → List A → List A
keep p [] = []
keep p (x ∷ xs) = if p x then x ∷ keep p xs else keep p xs

-- The last word of the first line, or the text given where there is none.
abbrev pub last_word : List Bytes → Bytes → Bytes
last_word [] word = word
last_word (line ∷ lines) word = elim (find_last 32 line) [
  | none ↦ word
  | some i ↦ drop (suc i) line
]

-- findFromFile, with what std::regex_search says of a line: the lines and `lastWord`.
unfoldable pub find_from_file : (Bytes → Bool) → Option Bytes → Bytes → List Bytes × Bytes
find_from_file matches file word =
    let matched_lines = keep matches (file_lines file) in
    (matched_lines, last_word matched_lines word)

-- The search for a pattern without special characters.
abbrev pub contains : Bytes → Bytes → Bool
contains p line = is_just (find p line)
