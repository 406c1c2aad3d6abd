-- ===== src/Utils/InputParser.antt =====
-- include/utils/InputParser.hpp: the command line.
use repo_init.Base.{
  [], ℕ, suc, ◌≡◌, refl, ap, ◌≢◌, inl, inr, Bool, true, false, not, List, ◌∷◌, ◌++◌, arith, ◌==◌,
  if◌then◌else◌, Bool-cases, length, drop, All, Bytes, str_eq, str_eq→eq, str_eq_refl,
}

-- The constructor leaves out argv[0].
unfoldable pub input_parser : List Bytes → List Bytes
input_parser argv = drop 1 argv

abbrev pub front_or_empty : List Bytes → Bytes
front_or_empty [] = []
front_or_empty (t ∷ ts) = t

unfoldable pub get_cmd_option : Bytes → List Bytes → Bytes
get_cmd_option option [] = []
get_cmd_option option (t ∷ ts) =
    if str_eq t option then front_or_empty ts else get_cmd_option option ts

unfoldable pub cmd_option_exists : Bytes → List Bytes → Bool
cmd_option_exists option [] = false
cmd_option_exists option (t ∷ ts) = if str_eq t option then true else cmd_option_exists option ts

-- `!t.empty() && t.at(0) == '-'`
abbrev pub is_option : Bytes → Bool
is_option [] = false
is_option (c ∷ t) = c == b'-'

-- `nextItr != end && !nextItr->empty() && nextItr->at(0) != '-'`
abbrev pub is_value : Bytes → Bool
is_value [] = false
is_value (c ∷ t) = not (c == b'-')

abbrev pub value_of : List Bytes → Bytes
value_of [] = []
value_of (t ∷ ts) = if is_value t then t else []

unfoldable pub get_cmd_options : List Bytes → List (Bytes × Bytes)
get_cmd_options [] = []
get_cmd_options (t ∷ ts) =
    if is_option t then (t, value_of ts) ∷ get_cmd_options ts else get_cmd_options ts

abbrev pub Differ : Bytes → List Bytes → Type 0
Differ option = All (λ t. t ≢ option)

-- The token behind the first occurrence of an option is its value, whatever it looks like; the value
-- is empty where the option is last or absent, and only an occurrence makes the option exist.
pub get_cmd_option-first :
    (option : Bytes) (before after : List Bytes)
    → Differ option before
    → (get_cmd_option option (before ++ option ∷ after) ≡ front_or_empty after)
      × (cmd_option_exists option (before ++ option ∷ after) ≡ true)
      × (get_cmd_option option before ≡ [])
      × (cmd_option_exists option before ≡ false)
unfolding get_cmd_option cmd_option_exists
get_cmd_option-first option [] after d = ground (arith, str_eq_refl option)
get_cmd_option-first option (t ∷ before) after d =
    let n : str_eq t option ≡ false = elim (Bool-cases (str_eq t option)) [
      | inl y ↦ absurd (d.0 (str_eq→eq t option y))
      | inr n ↦ n
    ] in
    rw n (get_cmd_option-first option before after d.1)

abbrev pub count_options : List Bytes → ℕ
count_options [] = 0
count_options (t ∷ ts) = if is_option t then suc (count_options ts) else count_options ts

-- What is listed of the command line: an option, with a value that is empty or no option.
abbrev pub IsListed : Bytes × Bytes → Type 0
IsListed (option, value) = (is_option option ≡ true) × (is_option value ≡ false)

-- Every token that starts with a dash is listed once, and no other; each with a value that does not
-- start with a dash.
pub get_cmd_options-IsListed :
    (ts : List Bytes)
    → All IsListed (get_cmd_options ts) × (length (get_cmd_options ts) ≡ count_options ts)
unfolding get_cmd_options
get_cmd_options-IsListed [] = (tt, refl)
get_cmd_options-IsListed (t ∷ ts) =
    let (listed, counted) = get_cmd_options-IsListed ts in
    elim (Bool-cases (is_option t)) [
      | inr n ↦ rw n (listed, counted)
      | inl y ↦ rw y (((y, value_plain ts), listed), ap suc counted)
    ]
  where
    value_plain : (ts : List Bytes) → is_option (value_of ts) ≡ false
    value_plain [] = refl
    value_plain ([] ∷ ts) = refl
    value_plain ((c ∷ t) ∷ ts) = ground arith
