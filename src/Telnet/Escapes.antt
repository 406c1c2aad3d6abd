-- ===== src/Telnet/Escapes.antt =====
-- TelnetSession::stripEscapeCharacters of src/telnet/TelnetServer.cpp: cursor keys leave the buffer.
use repo_init.Base.{
  [], ℕ, zero, suc, ◌<◌, ◌≡◌, refl, ap, ◌∙◌, ◌≢◌, inl, inr, none, some, List, ◌∷◌, ◌++◌, arith,
  ◌==◌, if◌then◌else◌, ==_iff, Bool-cases, Option-cases, length, Bytes, find, erase, Lacks,
  find-Lacks,
}

pub data Arrow : Type 0 where
  up down right left : Arrow

abbrev pub escape : ℕ
escape = 0x1b

abbrev pub letter : Arrow → ℕ
letter up = 0x41
letter down = 0x42
letter right = 0x43
letter left = 0x44

-- ANSI_ARROW_UP and the others.
abbrev pub ansi_arrow : Arrow → Bytes
ansi_arrow a = escape ∷ 0x5b ∷ letter a ∷ []

-- The inner do-while loop, for one cursor key.
pub erase_loop : Arrow → ℕ → Bytes → Bytes
erase_loop a zero buffer = buffer
erase_loop a (suc fuel) buffer = elim (find (ansi_arrow a) buffer) [
  | none ↦ buffer
  | some found ↦ erase_loop a fuel (erase buffer found (length (ansi_arrow a)))
]

-- The for loop over the keys.
pub for_each_cursor : List Arrow → Bytes → Bytes
for_each_cursor [] buffer = buffer
for_each_cursor (a ∷ cursors) buffer =
    for_each_cursor cursors (erase_loop a (suc (length buffer)) buffer)

unfoldable pub strip_escape_characters : Bytes → Bytes
unfolding erase_loop for_each_cursor
strip_escape_characters buffer = for_each_cursor (up ∷ down ∷ right ∷ left ∷ []) buffer

-- Input in which each escape byte opens a cursor key.
pub data Token : Type 0 where
  byte : ℕ → Token
  key : Arrow → Token

pub render : List Token → Bytes
render [] = []
render (byte c ∷ ts) = c ∷ render ts
render (key a ∷ ts) = escape ∷ 0x5b ∷ letter a ∷ render ts

-- What was typed, the cursor keys left out.
pub typed : List Token → Bytes
typed [] = []
typed (byte c ∷ ts) = c ∷ typed ts
typed (key a ∷ ts) = typed ts

pub without : Arrow → List Token → List Token
without a [] = []
without a (byte c ∷ ts) = byte c ∷ without a ts
without a (key b ∷ ts) = if letter a == letter b then without a ts else key b ∷ without a ts

abbrev pub IsPlain : List Token → Type 0
IsPlain [] = Unit
IsPlain (byte c ∷ ts) = (c ≢ escape) × IsPlain ts
IsPlain (key a ∷ ts) = IsPlain ts

pub erase_loop-cons :
    (a : Arrow) (fuel c : ℕ) (s : Bytes)
    → c ≢ escape
    → erase_loop a fuel (c ∷ s) ≡ c ∷ erase_loop a fuel s
unfolding erase_loop
erase_loop-cons a zero c s h = refl
erase_loop-cons a (suc fuel) c s h = elim (Option-cases (find (ansi_arrow a) s)) [
  | inl e ↦ ground arith
  | inr (i, e) ↦ ground (arith, erase_loop-cons a fuel c (erase s i 3) h)
]

pub erase_loop-other :
    (a b : Arrow) (fuel : ℕ) (s : Bytes)
    → letter a ≢ letter b
    → erase_loop a fuel (escape ∷ 0x5b ∷ letter b ∷ s)
      ≡ escape ∷ 0x5b ∷ letter b ∷ erase_loop a fuel s
unfolding erase_loop
erase_loop-other a b zero s h = refl
erase_loop-other a b (suc fuel) s h = elim (Option-cases (find (ansi_arrow a) s)) [
  | inl e ↦ ground arith
  | inr (i, e) ↦ ground (arith, erase_loop-other a b fuel (erase s i 3) h)
]

pub erase_loop-same :
    (a : Arrow) (fuel : ℕ) (s : Bytes)
    → erase_loop a (suc fuel) (escape ∷ 0x5b ∷ letter a ∷ s) ≡ erase_loop a fuel s
unfolding erase_loop
erase_loop-same a fuel s = ground arith

pub erase_loop-Lacks : (a : Arrow) (fuel : ℕ) (s : Bytes) → Lacks escape s → erase_loop a fuel s ≡ s
unfolding erase_loop
erase_loop-Lacks a zero s h = refl
erase_loop-Lacks a (suc fuel) [] h = refl
erase_loop-Lacks a (suc fuel) (c ∷ s) h =
    erase_loop-cons a (suc fuel) c s h.0 ∙ ap (◌∷◌ c) (erase_loop-Lacks a (suc fuel) s h.1)

erase_loop-render :
    (a : Arrow) (ts : List Token) (fuel : ℕ)
    → length (render ts) < fuel
    → IsPlain ts
    → erase_loop a fuel (render ts) ≡ render (without a ts)
unfolding render without
erase_loop-render a ts zero h p = absurd (omega arith)
erase_loop-render a [] (suc fuel) h p = erase_loop-Lacks a (suc fuel) [] tt
erase_loop-render a (byte c ∷ ts) (suc fuel) h p =
    erase_loop-cons a (suc fuel) c (render ts) p.0
    ∙ ap (◌∷◌ c) (erase_loop-render a ts (suc fuel) (omega arith) p.1)
erase_loop-render a (key b ∷ ts) (suc fuel) h p = elim (Bool-cases (letter a == letter b)) [
  | inl y ↦
      rw (y, ← (==_iff (letter a) (letter b)).0 y, erase_loop-same)
        (erase_loop-render a ts fuel (omega arith) p)
  | inr n ↦ rw n (
      erase_loop-other a b (suc fuel) (render ts) (λ e. ground (arith, e))
      ∙ ap (λ t. escape ∷ 0x5b ∷ letter b ∷ t) (erase_loop-render a ts (suc fuel) (omega arith) p))
]

without-IsPlain : (a : Arrow) (ts : List Token) → IsPlain ts → IsPlain (without a ts)
unfolding without
without-IsPlain a [] p = tt
without-IsPlain a (byte c ∷ ts) p = (p.0, without-IsPlain a ts p.1)
without-IsPlain a (key b ∷ ts) p = elim (Bool-cases (letter a == letter b)) [
  | inl y ↦ rw y (without-IsPlain a ts p)
  | inr n ↦ rw n (without-IsPlain a ts p)
]

without-typed :
    (ts : List Token)
    → render (without left (without right (without down (without up ts)))) ≡ typed ts
unfolding render without typed
without-typed [] = refl
without-typed (byte c ∷ ts) = ap (◌∷◌ c) (without-typed ts)
without-typed (key up ∷ ts) = without-typed ts
without-typed (key down ∷ ts) = without-typed ts
without-typed (key right ∷ ts) = without-typed ts
without-typed (key left ∷ ts) = without-typed ts

-- Of input in which each escape byte opens a cursor key, the typed bytes stay, in order, and every
-- cursor key goes.
pub strip_escape_characters-render :
    (ts : List Token) → IsPlain ts → strip_escape_characters (render ts) ≡ typed ts
unfolding strip_escape_characters
strip_escape_characters-render ts p =
    let pass : (a : Arrow) (us : List Token)
        → IsPlain us
        → erase_loop a (suc (length (render us))) (render us) ≡ render (without a us) =
      λ a us q. erase_loop-render a us (suc (length (render us))) (omega arith) q in
    let p₁ = without-IsPlain up ts p in
    let p₂ = without-IsPlain down _ p₁ in
    let p₃ = without-IsPlain right _ p₂ in
    rw (pass up ts p, pass down _ p₁, pass right _ p₂, pass left _ p₃) (without-typed ts)

erase_loop-append :
    (a : Arrow) (fuel : ℕ) (p s : Bytes)
    → Lacks escape p
    → erase_loop a fuel (p ++ s) ≡ p ++ erase_loop a fuel s
erase_loop-append a fuel [] s h = refl
erase_loop-append a fuel (c ∷ p) s h =
    erase_loop-cons a fuel c (p ++ s) h.0 ∙ ap (◌∷◌ c) (erase_loop-append a fuel p s h.1)

abbrev split_up : Bytes → Bytes
split_up s = escape ∷ 0x5b ∷ (ansi_arrow down ++ 0x41 ∷ s)

erase_loop-split_up :
    (fuel : ℕ) (s : Bytes) → Lacks escape s → erase_loop up (suc fuel) (split_up s) ≡ split_up s
unfolding erase_loop
erase_loop-split_up fuel s h = ground (arith, find-Lacks escape (0x5b ∷ 0x41 ∷ []) s h)

erase_loop-join_up :
    (fuel : ℕ) (s : Bytes)
    → Lacks escape s
    → erase_loop down (suc fuel) (split_up s) ≡ ansi_arrow up ++ s
erase_loop-join_up fuel s h =
    unfold erase_loop in
    ground
      (arith, erase_loop-other down up fuel s (λ e. omega arith), erase_loop-Lacks down fuel s h)

erase_loop-keep_up :
    (a : Arrow) (fuel : ℕ) (s : Bytes)
    → letter a ≢ letter up
    → Lacks escape s
    → erase_loop a fuel (ansi_arrow up ++ s) ≡ ansi_arrow up ++ s
erase_loop-keep_up a fuel s n h = rw (erase_loop-other a up fuel s n, erase_loop-Lacks a fuel s h)

-- A key up that a key down was typed into the middle of is put together by the pass for the key
-- down, after the pass for the key up, and stays in the buffer.
pub strip_escape_characters_nested :
    (p s : Bytes)
    → Lacks escape p
    → Lacks escape s
    → strip_escape_characters (p ++ (escape ∷ 0x5b ∷ (ansi_arrow down ++ 0x41 ∷ s)))
      ≡ p ++ (ansi_arrow up ++ s)
strip_escape_characters_nested p s hp hs =
    unfold strip_escape_characters in
    rw (first, second, third right (omega arith) _, third left (omega arith) _)
  where
    first : erase_loop up (suc (length (p ++ split_up s))) (p ++ split_up s) ≡ p ++ split_up s
    first = erase_loop-append up _ p (split_up s) hp ∙ ap (◌++◌ p) (erase_loop-split_up _ s hs)

    second :
        erase_loop down (suc (length (p ++ split_up s))) (p ++ split_up s)
        ≡ p ++ (ansi_arrow up ++ s)
    second = erase_loop-append down _ p (split_up s) hp ∙ ap (◌++◌ p) (erase_loop-join_up _ s hs)

    third :
        (a : Arrow)
        → letter a ≢ letter up
        → (fuel : ℕ) → erase_loop a fuel (p ++ (ansi_arrow up ++ s)) ≡ p ++ (ansi_arrow up ++ s)
    third a n fuel =
        erase_loop-append a fuel p (ansi_arrow up ++ s) hp
        ∙ ap (◌++◌ p) (erase_loop-keep_up a fuel s n hs)

-- A buffer with no escape byte is left as it is.
pub strip_escape_characters-Lacks : (s : Bytes) → Lacks escape s → strip_escape_characters s ≡ s
unfolding strip_escape_characters for_each_cursor
strip_escape_characters-Lacks s h =
    let same = λ (a : Arrow). erase_loop-Lacks a (suc (length s)) s h in
    rw (same up, same down, same right, same left) refl
