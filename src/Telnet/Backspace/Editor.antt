-- ===== src/Telnet/Backspace/Editor.antt =====
-- The loop of processBackspace against a line editor.
use repo_init.Base.{
  [], ℕ, zero, suc, ◌+◌, ◌<◌, ◌≡◌, refl, ap, ◌∙◌, ◌≢◌, ◌⊎◌, inl, inr, Bool, true, false, Option,
  none, some, ◌∷◌, ◌++◌, arith, ◌==◌, ==_iff, Bool-cases, length, length-append, Bytes, Lacks,
  Lacks-find_byte, find_byte-append, erase_after,
}
use repo_init.Telnet.Backspace.{
  backspace_loop, delete, backspace, find_erasure, erase_at, process_backspace,
}

-- A line editor: `line` is what was typed so far, last byte first. An erasure takes the last byte;
-- with none left it gives the whole line up.
unfoldable pub edit : ℕ → Bytes → Bytes → Option Bytes
edit k line [] = some line
edit k line (c ∷ s) = elim (c == k) [
  | false ↦ edit k (c ∷ line) s
  | true ↦ elim line [ [] ↦ none | b ∷ before ↦ edit k before s ]
]

-- The bytes of a line, first byte first, in front of `s`.
unfoldable pub rev_onto : Bytes → Bytes → Bytes
rev_onto [] s = s
rev_onto (b ∷ line) s = rev_onto line (b ∷ s)

-- The line that the editor leaves, or nothing where it gave the line up.
abbrev pub left_by : Option Bytes → Bytes
left_by none = []
left_by (some line) = rev_onto line []

unfoldable pub edited : ℕ → Bytes → Bytes
unfolding edit rev_onto
edited k s = left_by (edit k [] s)

-- `k` is one erasure byte, and `s` does not hold the other.
abbrev pub IsOnlyKind : ℕ → Bytes → Type 0
IsOnlyKind k s = ((k ≡ delete) × Lacks backspace s) ⊎ ((k ≡ backspace) × Lacks delete s)

find_erasure-kind :
    (k : ℕ) (p s : Bytes)
    → IsOnlyKind k (p ++ k ∷ s)
    → Lacks k p
    → find_erasure (p ++ k ∷ s) ≡ some (length p)
find_erasure-kind k p s (inl (e, o)) h = ground (arith, find_byte-append k p s h)
find_erasure-kind k p s (inr (e, o)) h =
    ground (arith, Lacks-find_byte delete (p ++ k ∷ s) o, find_byte-append k p s h)

find_erasure-clean : (k : ℕ) (s : Bytes) → IsOnlyKind k s → Lacks k s → find_erasure s ≡ none
find_erasure-clean k s (inl (e, o)) h =
    ground (arith, Lacks-find_byte k s h, Lacks-find_byte backspace s o)
find_erasure-clean k s (inr (e, o)) h =
    ground (arith, Lacks-find_byte k s h, Lacks-find_byte delete s o)

rev_onto-append : (line s t : Bytes) → rev_onto line (s ++ t) ≡ rev_onto line s ++ t
unfolding rev_onto
rev_onto-append [] s t = refl
rev_onto-append (b ∷ line) s t = rev_onto-append line (b ∷ s) t

rev_onto-Lacks : (k : ℕ) (line s : Bytes) → Lacks k line → Lacks k s → Lacks k (rev_onto line s)
unfolding rev_onto
rev_onto-Lacks k [] s h g = g
rev_onto-Lacks k (b ∷ line) s h g = rev_onto-Lacks k line (b ∷ s) h.1 (h.0, g)

length-rev_onto : (line s : Bytes) → length (rev_onto line s) ≡ length line + length s
unfolding rev_onto
length-rev_onto [] s = omega arith
length-rev_onto (b ∷ line) s = omega (arith, length-rev_onto line (b ∷ s))

rev_onto-split : (line s : Bytes) → rev_onto line s ≡ rev_onto line [] ++ s
rev_onto-split line s = rev_onto-append line [] s

rev_onto-nil_length : (line : Bytes) → length (rev_onto line []) ≡ length line
rev_onto-nil_length line = omega (arith, length-rev_onto line [])

rev_onto-Lacks_parts :
    (j : ℕ) (line s : Bytes) → Lacks j (rev_onto line s) → Lacks j line × Lacks j s
unfolding rev_onto
rev_onto-Lacks_parts j [] s h = (tt, h)
rev_onto-Lacks_parts j (b ∷ line) s h =
    let (l, r) = rev_onto-Lacks_parts j line (b ∷ s) h in ((r.0, l), r.1)

-- One round at the first erasure byte, behind the line `b ∷ line`.
erase_at-rev_onto :
    (b k : ℕ) (line s : Bytes)
    → erase_at (rev_onto line (b ∷ k ∷ s)) (suc (length line)) ≡ rev_onto line s
erase_at-rev_onto b k line s = ground (
  arith,
  rev_onto-split line (b ∷ k ∷ s),
  rev_onto-split line s,
  rev_onto-nil_length line,
  length-append (rev_onto line []) (b ∷ k ∷ s),
  erase_after (rev_onto line []) (b ∷ k ∷ []) s,
)

find_erasure-rev_onto :
    (b k : ℕ) (line s : Bytes)
    → IsOnlyKind k (rev_onto line (b ∷ k ∷ s))
    → Lacks k (b ∷ line)
    → find_erasure (rev_onto line (b ∷ k ∷ s)) ≡ some (suc (length line))
unfolding rev_onto
find_erasure-rev_onto b k line s o h = rw (rev_onto-split (b ∷ line) (k ∷ s)) (
    find_erasure-kind k (rev_onto (b ∷ line) []) s (rw (rev_onto-split (b ∷ line) (k ∷ s)) at o)
      (rev_onto-Lacks k (b ∷ line) [] h tt)
    ∙ ap some (rev_onto-nil_length (b ∷ line)))

kind_rest :
    (k b : ℕ) (line s : Bytes)
    → IsOnlyKind k (rev_onto line (b ∷ k ∷ s))
    → IsOnlyKind k (rev_onto line s)
kind_rest k b line s (inl (e, o)) =
    let (l, r) = rev_onto-Lacks_parts backspace line _ o in
    inl (e, rev_onto-Lacks backspace line s l r.1.1)
kind_rest k b line s (inr (e, o)) =
    let (l, r) = rev_onto-Lacks_parts delete line _ o in
    inr (e, rev_onto-Lacks delete line s l r.1.1)

backspace_loop-nil : (fuel : ℕ) (f : Bool) → (backspace_loop fuel [] f).0 ≡ []
unfolding backspace_loop
backspace_loop-nil zero f = refl
backspace_loop-nil (suc fuel) f = refl

erase_at-zero : (s : Bytes) → erase_at s 0 ≡ []
erase_at-zero s = ground arith

edit-erase : (k b : ℕ) (line s : Bytes) → edit k (b ∷ line) (k ∷ s) ≡ edit k line s
unfolding edit
edit-erase k b line s = ground arith

edit-give_up : (k : ℕ) (s : Bytes) → edit k [] (k ∷ s) ≡ none
unfolding edit
edit-give_up k s = ground arith

edit-keep : (k c : ℕ) (line s : Bytes) → c ≢ k → edit k line (c ∷ s) ≡ edit k (c ∷ line) s
unfolding edit
edit-keep k c line s h = ground arith

edit-loop :
    (k : ℕ) (s line : Bytes) (fuel : ℕ) (f : Bool)
    → length s < fuel
    → Lacks k line
    → IsOnlyKind k (rev_onto line s)
    → (backspace_loop fuel (rev_onto line s) f).0 ≡ left_by (edit k line s)
unfolding backspace_loop rev_onto
edit-loop k s line zero f h c o = absurd (omega arith)
edit-loop k [] line (suc fuel) f h c o =
    unfold edit in
    rw (find_erasure-clean k (rev_onto line []) o (rev_onto-Lacks k line [] c tt), backspace_loop)
      refl
edit-loop k (d ∷ s) [] (suc fuel) f h c o = elim (Bool-cases (d == k)) [
  | inl y ↦
      let e : d ≡ k = (==_iff d k).0 y in
      rw (e, edit-give_up)
        (rw (find_erasure-kind k [] s (rw e at o) tt, backspace_loop, erase_at-zero)
          (backspace_loop-nil fuel true))
  | inr n ↦
      rw (edit-keep k d _ s (λ e. ground (arith, e)))
        (edit-loop k s (d ∷ []) (suc fuel) f (omega arith) (ground arith, tt) o)
]
edit-loop k (d ∷ s) (b ∷ line) (suc fuel) f h c o = elim (Bool-cases (d == k)) [
  | inl y ↦
      let e : d ≡ k = (==_iff d k).0 y in
      let o' : IsOnlyKind k (rev_onto line (b ∷ k ∷ s)) = rw e at o in
      rw (e, edit-erase)
        (rw (find_erasure-rev_onto b k line s o' c, backspace_loop, erase_at-rev_onto)
          (edit-loop k s line fuel true (omega arith) c.1 (kind_rest k b line s o')))
  | inr n ↦
      rw (edit-keep k d _ s (λ e. ground (arith, e)))
        (edit-loop k s (d ∷ b ∷ line) (suc fuel) f (omega arith) (ground arith, c) o)
]

-- Where the buffer holds one kind of erasure byte, the loop does what the line editor does: each
-- erasure takes the byte typed before it, and one with nothing before it gives the whole buffer up.
pub process_backspace-edited :
    (k : ℕ) (s : Bytes) → IsOnlyKind k s → (process_backspace s).0 ≡ edited k s
unfolding process_backspace edited rev_onto
process_backspace-edited k s o = edit-loop k s [] (suc (length s)) false (omega arith) tt o
