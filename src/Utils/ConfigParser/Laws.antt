-- ===== src/Utils/ConfigParser/Laws.antt =====
-- The configuration as a map, and its file.
use repo_init.Base.{
  [], ◌≡◌, refl, sym, ap, ◌∙◌, ◌≢◌, inl, inr, true, false, some, List, ◌∷◌, ◌++◌, append-nil,
  append_assoc, arith, if◌then◌else◌, Bool-cases, is_empty, All, All-append, Bytes, str_eq, Lacks,
  str_eq→eq, str_eq_refl,
}
use repo_init.Utils.ConfigParser.{
  ConfigMap, Value, File, closed, parse_error, no_object, members, ConfigParser, c_str, lookup,
  insert_or_assign, erase_key, value_text, read_members, load, get, set, remove, write_members,
  save, HasNoKey, IsMap,
}

str_neq : (s t : Bytes) → s ≢ t → str_eq s t ≡ false
str_neq s t h = elim (Bool-cases (str_eq s t)) [ inl y ↦ absurd (h (str_eq→eq s t y)) | inr n ↦ n ]

lookup-absent : (key : Bytes) (m : ConfigMap) → HasNoKey key m → lookup key m ≡ []
unfolding lookup
lookup-absent key [] h = refl
lookup-absent key ((k, v) ∷ m) h = rw (str_neq k key h.0) (lookup-absent key m h.1)

both_same : (k key s : Bytes) → str_eq k s ≡ true → str_eq key s ≡ true → str_eq k key ≡ true
both_same k key s a b = rw (str_eq→eq k s a, str_eq→eq key s b) (str_eq_refl s)

pub lookup-insert_or_assign :
    (key other_key value : Bytes) (m : ConfigMap)
    → lookup other_key (insert_or_assign key value m)
      ≡ (if str_eq key other_key then value else lookup other_key m)
unfolding lookup insert_or_assign
lookup-insert_or_assign key other_key value [] = refl
lookup-insert_or_assign key other_key value ((k, v) ∷ m) =
    let r = lookup-insert_or_assign key other_key value m in
    elim (Bool-cases (str_eq k key)) [
      | inl y ↦ let same = str_eq→eq k key y in rw same (ground (arith, str_eq_refl key))
      | inr n ↦ elim (Bool-cases (str_eq k other_key)) [
        | inr miss ↦ rw (n, miss) r
        | inl hit ↦ elim (Bool-cases (str_eq key other_key)) [
          | inl also ↦ let both = both_same k key other_key hit also in ground arith
          | inr not_key ↦ rw (n, hit, not_key) refl
        ]
      ]
    ]

insert_or_assign-HasNoKey :
    (absent key value : Bytes) (m : ConfigMap)
    → key ≢ absent
    → HasNoKey absent m
    → HasNoKey absent (insert_or_assign key value m)
unfolding insert_or_assign
insert_or_assign-HasNoKey absent key value [] d h = (d, tt)
insert_or_assign-HasNoKey absent key value ((k, v) ∷ m) d h = elim (Bool-cases (str_eq k key)) [
  | inl y ↦ rw y h
  | inr n ↦ rw n (h.0, insert_or_assign-HasNoKey absent key value m d h.1)
]

eq→str_eq : (s t : Bytes) → s ≡ t → str_eq s t ≡ true
eq→str_eq s t e = rw e (str_eq_refl t)

insert_or_assign-IsMap :
    (key value : Bytes) (m : ConfigMap) → IsMap m → IsMap (insert_or_assign key value m)
unfolding insert_or_assign
insert_or_assign-IsMap key value [] h = (tt, tt)
insert_or_assign-IsMap key value ((k, v) ∷ m) h = elim (Bool-cases (str_eq k key)) [
  | inl y ↦ rw y h
  | inr n ↦
      let differ : key ≢ k = λ e. let y = eq→str_eq k key (sym e) in ground arith in
      rw n
        (insert_or_assign-HasNoKey k key value m differ h.0, insert_or_assign-IsMap key value m h.1)
]

erase_key-HasNoKey :
    (absent key : Bytes) (m : ConfigMap) → HasNoKey absent m → HasNoKey absent (erase_key key m)
unfolding erase_key
erase_key-HasNoKey absent key [] h = tt
erase_key-HasNoKey absent key ((k, v) ∷ m) h = elim (Bool-cases (str_eq k key)) [
  | inl y ↦ rw y h.1
  | inr n ↦ rw n (h.0, erase_key-HasNoKey absent key m h.1)
]

erase_key-IsMap :
    (key : Bytes) (m : ConfigMap)
    → IsMap m
    → IsMap (erase_key key m) × HasNoKey key (erase_key key m)
unfolding erase_key
erase_key-IsMap key [] h = (tt, tt)
erase_key-IsMap key ((k, v) ∷ m) h = elim (Bool-cases (str_eq k key)) [
  | inl y ↦ rw y (h.1, rw (sym (str_eq→eq k key y)) h.0)
  | inr n ↦
      let differ : k ≢ key = λ e. let y = eq→str_eq k key e in ground arith in
      let r = erase_key-IsMap key m h.1 in
      rw n ((erase_key-HasNoKey k key m h.0, r.0), (differ, r.1))
]

lookup-erase_key :
    (key other_key : Bytes) (m : ConfigMap)
    → str_eq key other_key ≡ false
    → lookup other_key (erase_key key m) ≡ lookup other_key m
unfolding lookup erase_key
lookup-erase_key key other_key [] d = refl
lookup-erase_key key other_key ((k, v) ∷ m) d = elim (Bool-cases (str_eq k key)) [
  | inl y ↦ rw (y, str_eq→eq k key y, d) refl
  | inr n ↦ elim (Bool-cases (str_eq k other_key)) [
    | inl hit ↦ rw (n, hit) refl
    | inr miss ↦ rw (n, miss) (lookup-erase_key key other_key m d)
  ]
]

-- The configuration answers as a map: after `set` a key gives its new value and any other what it
-- gave, after `remove` a key gives nothing and any other what it gave, and both keep each key once.
pub get-set-remove :
    (key other_key value : Bytes) (p : ConfigParser)
    → IsMap p.config_map
    → IsMap (set key value p).config_map
      × IsMap (remove key p).config_map
      × (get key (set key value p) ≡ value)
      × (get key (remove key p) ≡ [])
      × (key ≢ other_key
          → (get other_key (set key value p) ≡ get other_key p)
            × (get other_key (remove key p) ≡ get other_key p))
unfolding get set remove
get-set-remove key other_key value p v =
    let removed = erase_key-IsMap key p.config_map v in
    (
      insert_or_assign-IsMap key value p.config_map v,
      removed.0,
      lookup-insert_or_assign key key value p.config_map ∙ rw (str_eq_refl key) refl,
      lookup-absent key (erase_key key p.config_map) removed.1,
      λ d.
          let n = str_neq key other_key d in
          (
            lookup-insert_or_assign key other_key value p.config_map ∙ rw n refl,
            lookup-erase_key key other_key p.config_map n,
          ),
    )

read_members-IsMap :
    (ms : List (Bytes × Value)) (m : ConfigMap) → IsMap m → IsMap (read_members ms m)
unfolding read_members
read_members-IsMap [] m h = h
read_members-IsMap ((name, value) ∷ ms) m h =
    read_members-IsMap ms _ (insert_or_assign-IsMap (c_str name) (value_text value) m h)

-- A string that has no zero survives as a C string.
c_str-Lacks : (s : Bytes) → Lacks 0 s → c_str s ≡ s
unfolding c_str
c_str-Lacks [] h = refl
c_str-Lacks (c ∷ s) h = ground (arith, c_str-Lacks s h.1)

-- Keys and values without a zero.
abbrev pub IsPrintable : ConfigMap → Type 0
IsPrintable = All (λ e. Lacks 0 e.0 × Lacks 0 e.1)

insert_or_assign-new :
    (key value : Bytes) (m : ConfigMap)
    → HasNoKey key m
    → insert_or_assign key value m ≡ m ++ (key, value) ∷ []
unfolding insert_or_assign
insert_or_assign-new key value [] h = refl
insert_or_assign-new key value ((k, v) ∷ m) h =
    rw (str_neq k key h.0) (ap (◌∷◌ (k, v)) (insert_or_assign-new key value m h.1))

abbrev Disjoint : ConfigMap → ConfigMap → Type 0
Disjoint before = All (λ e. HasNoKey e.0 before)

Disjoint-snoc :
    (before m : ConfigMap) (k v : Bytes)
    → Disjoint before m
    → HasNoKey k m
    → Disjoint (before ++ (k, v) ∷ []) m
Disjoint-snoc before [] k v d h = tt
Disjoint-snoc before (e ∷ m) k v d h = (
  All-append (λ f. f.0 ≢ e.0) before ((k, v) ∷ []) d.0 ((λ q. h.0 (sym q)), tt),
  Disjoint-snoc before m k v d.1 h.1,
)

read_members-write_members :
    (before m : ConfigMap)
    → IsMap m
    → IsPrintable m
    → Disjoint before m
    → read_members (write_members m) before ≡ before ++ m
unfolding read_members write_members
read_members-write_members before [] h p d = sym (append-nil before)
read_members-write_members before ((k, v) ∷ m) h p d =
    let plain_key = c_str-Lacks k p.0.0 in
    let plain_value = c_str-Lacks v p.0.1 in
    let r =
      read_members-write_members (before ++ (k, v) ∷ []) m h.1 p.1
        (Disjoint-snoc before m k v d.1 h.0) in
    rw (plain_key, plain_key, plain_value, plain_value, insert_or_assign-new k v before d.0)
      (r ∙ append_assoc before ((k, v) ∷ []) m)

Disjoint-nil : (m : ConfigMap) → Disjoint [] m
Disjoint-nil [] = tt
Disjoint-nil (e ∷ m) = (tt, Disjoint-nil m)

-- A configuration whose keys and values hold no zero is what it was after it was saved and the file
-- was loaded, if the library reads back the members that it wrote; loading clears what was set before.
pub load-save :
    (p q : ConfigParser) (ms : List (Bytes × Value))
    → IsMap p.config_map
    → IsPrintable p.config_map
    → save true p ≡ some ms
    → ((load (members ms) q).0.config_map ≡ p.config_map)
      × ((load (members ms) q).1 ≡ true)
      × ((load (members ms) q).0.is_valid ≡ true)
unfolding load save
load-save p q ms h printable e =
    let same : write_members p.config_map ≡ ms = ground arith in
    rw (← same) (
      read_members-write_members [] p.config_map h printable (Disjoint-nil p.config_map),
      refl,
      refl,
    )

-- Loading keeps each key once. Where the file cannot be read as an object, whatever was set before is
-- gone, every key gives nothing, and there is an error text.
pub load-fails :
    (file : File) (p : ConfigParser) (key : Bytes)
    → IsMap (load file p).0.config_map
      × ((load file p).0.is_valid ≡ (load file p).1)
      × ((load file p).1 ≡ false
          → (get key (load file p).0 ≡ []) × (is_empty ((load file p).0.last_error) ≡ false))
unfolding load get lookup
load-fails closed p key = (tt, refl, λ e. (refl, refl))
load-fails (parse_error offset) p key = (tt, refl, λ e. (refl, refl))
load-fails no_object p key = (tt, refl, λ e. (refl, refl))
load-fails (members ms) p key = (read_members-IsMap ms [] tt, refl, λ e. ground arith)
