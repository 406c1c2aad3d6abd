-- ===== src/Utils/FileHelpers/Laws.antt =====
-- What findFromFile finds in a text that is made of lines.
use repo_init.Base.{
  ℕ, suc, ◌≡◌, refl, subst, Bool, true, false, none, some, List, [], ◌∷◌, ◌++◌, append-nil, arith,
  length, drop, All, All-append, Bytes, Lacks,
}
use repo_init.Utils.FileHelpers.{get_lines, find_last, keep, last_word, find_from_file}

-- Lines, each ended by a newline.
abbrev pub write_lines : List Bytes → Bytes
write_lines [] = []
write_lines (line ∷ lines) = line ++ 10 ∷ write_lines lines

abbrev pub IsLine : Bytes → Type 0
IsLine = Lacks 10

get_lines-line : (line s : Bytes) → IsLine line → get_lines (line ++ 10 ∷ s) ≡ line ∷ get_lines s
get_lines-line [] s h = refl
get_lines-line (c ∷ line) s h = ground (arith, get_lines-line line s h.1)

pub get_lines-write_lines :
    (lines : List Bytes) → All IsLine lines → get_lines (write_lines lines) ≡ lines
get_lines-write_lines [] h = refl
get_lines-write_lines (line ∷ lines) h =
    rw (get_lines-line line (write_lines lines) h.0, get_lines-write_lines lines h.1) refl

find_last-Lacks : (k : ℕ) (s : Bytes) → Lacks k s → find_last k s ≡ none
find_last-Lacks k [] h = refl
find_last-Lacks k (c ∷ s) h = ground (arith, find_last-Lacks k s h.1)

pub find_last-append :
    (k : ℕ) (p s : Bytes) → Lacks k s → find_last k (p ++ k ∷ s) ≡ some (length p)
find_last-append k [] s h = ground (arith, find_last-Lacks k s h)
find_last-append k (c ∷ p) s h = ground (arith, find_last-append k p s h)

drop-line : (p s : Bytes) → drop (suc (length p)) (p ++ 32 ∷ s) ≡ s
drop-line [] s = refl
drop-line (c ∷ p) s = drop-line p s

keep-none :
    (matches : Bytes → Bool) (before rest : List Bytes)
    → All (λ line. matches line ≡ false) before
    → keep matches (before ++ rest) ≡ keep matches rest
keep-none matches [] rest h = refl
keep-none matches (line ∷ before) rest h = ground (arith, keep-none matches before rest h.1)

keep-first :
    (matches : Bytes → Bool) (before after : List Bytes) (line : Bytes)
    → All IsLine before
    → All (λ line. matches line ≡ false) before
    → IsLine line
    → matches line ≡ true
    → All IsLine after
    → keep matches (get_lines (write_lines (before ++ line ∷ after))) ≡ line ∷ keep matches after
keep-first matches before after line hb hm hl ht ha =
    rw
      (
        get_lines-write_lines (before ++ line ∷ after)
            (All-append IsLine before (line ∷ after) hb (hl, ha)),
        keep-none matches before (line ∷ after) hm,
      )
      (ground (arith, ht))

keep-nothing :
    (matches : Bytes → Bool) (before : List Bytes)
    → All IsLine before
    → All (λ line. matches line ≡ false) before
    → keep matches (get_lines (write_lines before)) ≡ []
keep-nothing matches before hb hm =
    rw (get_lines-write_lines before hb)
      (subst (λ l. keep matches l ≡ []) (append-nil before) (keep-none matches before [] hm))

-- In a file of lines the lines returned are those that match, in their order; the last word is what
-- stands behind the last space of the first of these, and stays what it was if there is no such line or
-- the first has no space. A file that cannot be opened gives no line and leaves the word.
pub find_from_file-first :
    (matches : Bytes → Bool) (before after : List Bytes) (p w word : Bytes)
    → All IsLine before
    → All (λ line. matches line ≡ false) before
    → IsLine (p ++ 32 ∷ w)
    → matches (p ++ 32 ∷ w) ≡ true
    → Lacks 32 w
    → All IsLine after
    → let found =
        find_from_file matches (some (write_lines (before ++ (p ++ 32 ∷ w) ∷ after))) word in
      let missed = find_from_file matches (some (write_lines before)) word in
      (found ≡ ((p ++ 32 ∷ w) ∷ keep matches after, w))
      × (missed ≡ ([], word))
      × (find_from_file matches none word ≡ ([], word))
unfolding find_from_file
find_from_file-first matches before after p w word hb hm hl ht hw ha = (
  rw
      (
        keep-first matches before after (p ++ 32 ∷ w) hb hm hl ht ha,
        last_word,
        find_last-append 32 p w hw,
        drop-line p w,
      )
      refl,
  rw (keep-nothing matches before hb hm) refl,
  refl,
)
