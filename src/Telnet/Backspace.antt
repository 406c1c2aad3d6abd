-- ===== src/Telnet/Backspace.antt =====
-- TelnetSession::processBackspace of src/telnet/TelnetServer.cpp.
pub mod Editor
use mathlib.Core.Bool.{false≢true}
use repo_init.Base.{
  [], ℕ, zero, suc, ◌-◌, ◌<◌, ◌≡◌, refl, sym, ◌∙◌, ◌≢◌, inl, inr, Bool, true, false, ◌&&◌, Option,
  none, some, arith, ltb, if◌then◌else◌, Option-cases, length, Bytes, find_byte, erase, Lacks,
  find_byte-lt, find_byte-Lacks, Lacks-find_byte, length-erase,
}

abbrev pub delete : ℕ
delete = 0x7f

abbrev pub backspace : ℕ
backspace = 0x08

-- Every delete byte comes before any backspace byte.
abbrev pub find_erasure : Bytes → Option ℕ
find_erasure buffer = elim (find_byte delete buffer) [
  | some found ↦ some found
  | none ↦ find_byte backspace buffer
]

-- One round on a hit at `found`.
abbrev pub erase_at : Bytes → ℕ → Bytes
erase_at buffer found =
    if ltb 1 (length buffer) && ltb 0 found then erase buffer (found - 1) 2 else []

-- The do-while loop: the buffer, and `foundBackspaces`.
pub backspace_loop : ℕ → Bytes → Bool → Bytes × Bool
backspace_loop zero buffer found_backspaces = (buffer, found_backspaces)
backspace_loop (suc fuel) buffer found_backspaces = elim (find_erasure buffer) [
  | none ↦ (buffer, found_backspaces)
  | some found ↦ backspace_loop fuel (erase_at buffer found) true
]

unfoldable pub process_backspace : Bytes → Bytes × Bool
unfolding backspace_loop
process_backspace buffer = backspace_loop (suc (length buffer)) buffer false

abbrev pub IsClean : Bytes → Type 0
IsClean s = Lacks delete s × Lacks backspace s

find_erasure-none : (s : Bytes) → find_erasure s ≡ none → IsClean s
find_erasure-none s h = ground (arith, find_byte-Lacks delete s, find_byte-Lacks backspace s)

find_erasure-lt : (s : Bytes) (i : ℕ) → find_erasure s ≡ some i → i < length s
find_erasure-lt s i h = ground (arith, find_byte-lt delete s i, find_byte-lt backspace s i)

erase_at-lt : (s : Bytes) (i : ℕ) → i < length s → length (erase_at s i) < length s
erase_at-lt s i h = ground (arith, length-erase s (i - 1) 2)

backspace_loop-IsClean :
    (fuel : ℕ) (s : Bytes) (f : Bool) → length s < fuel → IsClean (backspace_loop fuel s f).0
unfolding backspace_loop
backspace_loop-IsClean zero s f h = absurd (omega arith)
backspace_loop-IsClean (suc fuel) s f h = elim (Option-cases (find_erasure s)) [
  | inl e ↦ rw (e, backspace_loop) (find_erasure-none s e)
  | inr (i, e) ↦
      let l = erase_at-lt s i (find_erasure-lt s i e) in
      rw (e, backspace_loop) (backspace_loop-IsClean fuel (erase_at s i) true (omega arith))
]

backspace_loop-found : (fuel : ℕ) (s : Bytes) → (backspace_loop fuel s true).1 ≡ true
unfolding backspace_loop
backspace_loop-found zero s = refl
backspace_loop-found (suc fuel) s = elim (Option-cases (find_erasure s)) [
  | inl e ↦ rw (e, backspace_loop)
  | inr (i, e) ↦ rw (e, backspace_loop) (backspace_loop-found fuel (erase_at s i))
]

-- The loop ends with no erasure byte left in the buffer; and it reports no change exactly when
-- there was none, where the buffer stays as it was.
pub process_backspace_total :
    (s : Bytes)
    → IsClean (process_backspace s).0
      × (IsClean s → process_backspace s ≡ (s, false))
      × ((process_backspace s).1 ≡ false → IsClean s)
unfolding process_backspace
process_backspace_total s = (
  backspace_loop-IsClean (suc (length s)) s false (omega arith),
  λ c. unchanged (find_erasure s) refl c,
  λ h. reported (find_erasure s) refl h,
)
  where
    unchanged :
        (o : Option ℕ)
        → find_erasure s ≡ o
        → IsClean s
        → backspace_loop (suc (length s)) s false ≡ (s, false)
    unchanged none e c = rw (e, backspace_loop)
    unchanged (some i) e c =
        ground (arith, Lacks-find_byte delete s c.0, Lacks-find_byte backspace s c.1)

    reported :
        (o : Option ℕ)
        → find_erasure s ≡ o
        → (backspace_loop (suc (length s)) s false).1 ≡ false
        → IsClean s
    reported none e h = find_erasure-none s e
    reported (some i) e h =
        absurd (false≢true (sym h ∙ rw (e, backspace_loop) (backspace_loop-found _ (erase_at s i))))

-- A clean buffer is left as it is.
pub process_backspace-IsClean : (s : Bytes) → IsClean s → process_backspace s ≡ (s, false)
unfolding process_backspace backspace_loop
process_backspace-IsClean s h =
    rw (backspace_loop, Lacks-find_byte delete s h.0, Lacks-find_byte backspace s h.1) refl
