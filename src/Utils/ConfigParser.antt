-- ===== src/Utils/ConfigParser.antt =====
-- src/utils/ConfigParser.cpp: the configuration map, its file and its errors.
pub mod Laws
use repo_init.Base.{
  [], ◌+◌, ◌≢◌, Bool, true, false, not, Option, none, some, List, ◌∷◌, ◌++◌, ◌==◌, if◌then◌else◌,
  All, Bytes, codes, str_eq,
}

abbrev pub ConfigMap : Type 0
ConfigMap = List (Bytes × Bytes)

-- A member's value: a string, or another value with the text that the library's writer gives it.
pub data Value : Type 0 where
  text : Bytes → Value
  other : Bytes → Value

-- What reading the file gives: it does not open, the library reports an error at an offset (as text),
-- its value is no object, or its members.
pub data File : Type 0 where
  closed : File
  parse_error : Bytes → File
  no_object : File
  members : List (Bytes × Value) → File

pub record ConfigParser : Type 0 where
  pub config_path : Bytes
  pub config_map : ConfigMap
  pub is_valid : Bool
  pub last_error : Bytes

-- A string read through `const char *`: up to the first zero.
unfoldable pub c_str : Bytes → Bytes
c_str [] = []
c_str (c ∷ s) = if c == 0 then [] else c ∷ c_str s

-- `find` of the map, with what `get` gives at its end.
unfoldable pub lookup : Bytes → ConfigMap → Bytes
lookup key [] = []
lookup key ((k, v) ∷ m) = if str_eq k key then v else lookup key m

-- `m[key] = value`.
unfoldable pub insert_or_assign : Bytes → Bytes → ConfigMap → ConfigMap
insert_or_assign key value [] = (key, value) ∷ []
insert_or_assign key value ((k, v) ∷ m) =
    if str_eq k key then (k, value) ∷ m else (k, v) ∷ insert_or_assign key value m

-- `m.erase(key)`; a map has a key once.
unfoldable pub erase_key : Bytes → ConfigMap → ConfigMap
erase_key key [] = []
erase_key key ((k, v) ∷ m) = if str_eq k key then m else (k, v) ∷ erase_key key m

abbrev value_text : Value → Bytes
value_text (text s) = c_str s
value_text (other s) = s

-- The loop over the members.
unfoldable pub read_members : List (Bytes × Value) → ConfigMap → ConfigMap
read_members [] m = m
read_members ((name, value) ∷ ms) m =
    read_members ms (insert_or_assign (c_str name) (value_text value) m)

-- `load` with `readJson`: the parser and the result.
unfoldable pub load : File → ConfigParser → ConfigParser × Bool
unfolding read_members
load closed p = (
  record p {
    config_map = [];
    is_valid = false;
    last_error = codes "Can't open config file: " ++ p.config_path;
  },
  false,
)
load (parse_error offset) p = (
  record p {
    config_map = [];
    is_valid = false;
    last_error = codes "JSON parse error at offset " ++ offset;
  },
  false,
)
load no_object p = (
  record p {
    config_map = [];
    is_valid = false;
    last_error = codes "Config is empty or not a JSON object";
  },
  false,
)
load (members ms) p = (record p { config_map = read_members ms []; is_valid = true }, true)

-- The constructor.
unfoldable pub config_parser : Bytes → File → ConfigParser
unfolding load
config_parser path file =
    (load file
      (record { config_path = path; config_map = []; is_valid = false; last_error = [] })).0

unfoldable pub get : Bytes → ConfigParser → Bytes
get key p = lookup key p.config_map

unfoldable pub set : Bytes → Bytes → ConfigParser → ConfigParser
set key value p = record p { config_map = insert_or_assign key value p.config_map }

unfoldable pub remove : Bytes → ConfigParser → ConfigParser
remove key p = record p { config_map = erase_key key p.config_map }

-- `writeJson`: the members that are given to the library's writer, or none where the file does not
-- open, which throws.
unfoldable pub write_members : ConfigMap → List (Bytes × Value)
write_members [] = []
write_members ((k, v) ∷ m) = (c_str k, text (c_str v)) ∷ write_members m

unfoldable pub save : Bool → ConfigParser → Option (List (Bytes × Value))
unfolding write_members
save opens p = if opens then some (write_members p.config_map) else none

abbrev pub HasNoKey : Bytes → ConfigMap → Type 0
HasNoKey key = All (λ e. e.0 ≢ key)

-- A map has each key once.
abbrev pub IsMap : ConfigMap → Type 0
IsMap [] = Unit
IsMap ((k, v) ∷ m) = HasNoKey k m × IsMap m
