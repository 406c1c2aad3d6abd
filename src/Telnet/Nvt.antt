-- ===== src/Telnet/Nvt.antt =====
-- TelnetSession::stripNVT of src/telnet/TelnetServer.cpp: negotiation sequences leave the buffer.
use repo_init.Base.{
  [], ℕ, zero, suc, ◌+◌, ◌-◌, ◌<◌, ◌≡◌, refl, ap, ◌∙◌, ◌≢◌, inl, inr, true, false, none, some, ◌∷◌,
  ◌++◌, arith, leb, ◌==◌, Bool-cases, Option-cases, length, Bytes, find_byte, erase, Lacks,
  find_byte-lt,
}

-- ASCII_NBSP, the byte that opens a negotiation sequence.
abbrev pub nvt_command : ℕ
nvt_command = 0xff

-- The do-while loop. `found` is npos in the last case: npos + 2 is 1 in size_t, so the loop breaks
-- or its condition fails, and either way it is left.
unfoldable pub strip_loop : ℕ → Bytes → Bytes
strip_loop zero buffer = buffer
strip_loop (suc fuel) buffer = elim (find_byte nvt_command buffer) [
  | none ↦ buffer
  | some found ↦ elim (leb (found + 2) (length buffer - 1)) [
    | true ↦ strip_loop fuel (erase buffer found 3)
    | false ↦ elim (leb (length buffer) (found + 2)) [
      | true ↦ buffer
      | false ↦ strip_loop fuel buffer
    ]
  ]
]

unfoldable pub strip_nvt : Bytes → Bytes
strip_nvt buffer = strip_loop (suc (length buffer)) buffer

-- The description: one pass, which drops each command byte that two more bytes follow, with these.
unfoldable pub drop_commands : Bytes → Bytes
drop_commands [] = []
drop_commands (c ∷ []) = c ∷ []
drop_commands (c ∷ d ∷ []) = c ∷ d ∷ []
drop_commands (c ∷ d ∷ e ∷ s) = elim (c == nvt_command) [
  | true ↦ drop_commands s
  | false ↦ c ∷ drop_commands (d ∷ e ∷ s)
]

strip_loop-cons :
    (fuel c : ℕ) (s : Bytes) → c ≢ nvt_command → strip_loop fuel (c ∷ s) ≡ c ∷ strip_loop fuel s
unfolding strip_loop
strip_loop-cons zero c s h = refl
strip_loop-cons (suc fuel) c s h = elim (Option-cases (find_byte nvt_command s)) [
  | inl e ↦ ground arith
  | inr (i, e) ↦ ground (
    arith,
    find_byte-lt nvt_command s i e,
    strip_loop-cons fuel c (erase s i 3) h,
    strip_loop-cons fuel c s h,
  )
]

-- The loop with any fuel above the buffer's length is the single pass.
pub strip_loop-drop_commands :
    (s : Bytes) (fuel : ℕ) → length s < fuel → strip_loop fuel s ≡ drop_commands s
unfolding strip_loop drop_commands
strip_loop-drop_commands s zero h = absurd (omega arith)
strip_loop-drop_commands [] (suc fuel) h = refl
strip_loop-drop_commands (c ∷ []) (suc fuel) h = ground arith
strip_loop-drop_commands (c ∷ d ∷ []) (suc fuel) h = ground arith
strip_loop-drop_commands (c ∷ d ∷ e ∷ s) (suc fuel) h = elim (Bool-cases (c == nvt_command)) [
  | inl t ↦ ground (arith, strip_loop-drop_commands s fuel)
  | inr f ↦ ground (
    arith,
    strip_loop-cons (suc fuel) c (d ∷ e ∷ s),
    strip_loop-drop_commands (d ∷ e ∷ s) (suc fuel),
  )
]

-- The loop of `stripNVT` ends, and does what one pass does: it drops each command byte that two more
-- bytes follow, with these two, and keeps all others in order.
pub strip_nvt-drop_commands : (s : Bytes) → strip_nvt s ≡ drop_commands s
unfolding strip_nvt
strip_nvt-drop_commands s = strip_loop-drop_commands s (suc (length s)) (omega arith)

drop_commands-cons :
    (c : ℕ) (s : Bytes) → c ≢ nvt_command → drop_commands (c ∷ s) ≡ c ∷ drop_commands s
unfolding drop_commands
drop_commands-cons c [] h = refl
drop_commands-cons c (d ∷ []) h = refl
drop_commands-cons c (d ∷ e ∷ s) h = ground arith

drop_commands-append : (s t : Bytes) → drop_commands (drop_commands s ++ t) ≡ drop_commands (s ++ t)
unfolding drop_commands
drop_commands-append [] t = refl
drop_commands-append (c ∷ []) t = refl
drop_commands-append (c ∷ d ∷ []) t = refl
drop_commands-append (c ∷ d ∷ e ∷ s) t = ground (
  arith,
  drop_commands-append s t,
  drop_commands-append (d ∷ e ∷ s) t,
  drop_commands-cons c (drop_commands (d ∷ e ∷ s) ++ t),
)

-- Stripping what is left of one reception together with the next gives what stripping the two at
-- once gives: a negotiation sequence that two receptions share leaves the buffer whole.
pub strip_nvt-append : (s t : Bytes) → strip_nvt (strip_nvt s ++ t) ≡ strip_nvt (s ++ t)
strip_nvt-append s t =
    rw
      (
        strip_nvt-drop_commands s,
        strip_nvt-drop_commands (drop_commands s ++ t),
        strip_nvt-drop_commands (s ++ t),
      )
      (drop_commands-append s t)

-- Text with no command byte is left as it is.
pub drop_commands-Lacks : (s : Bytes) → Lacks nvt_command s → drop_commands s ≡ s
unfolding drop_commands
drop_commands-Lacks [] h = refl
drop_commands-Lacks (c ∷ []) h = refl
drop_commands-Lacks (c ∷ d ∷ []) h = refl
drop_commands-Lacks (c ∷ d ∷ e ∷ s) h = ground (arith, drop_commands-Lacks (d ∷ e ∷ s) h.1)

-- Around a whole sequence, text before it with no command byte and text behind it stay.
pub strip_nvt_sequence :
    (p s : Bytes) (d e : ℕ)
    → Lacks nvt_command p
    → strip_nvt (p ++ (nvt_command ∷ d ∷ e ∷ s)) ≡ p ++ strip_nvt s
strip_nvt_sequence p s d e h = rw (strip_nvt-drop_commands, strip_nvt-drop_commands s) (go p h)
  where
    go :
        (p : Bytes)
        → Lacks nvt_command p
        → drop_commands (p ++ (nvt_command ∷ d ∷ e ∷ s)) ≡ p ++ drop_commands s
    go [] h = unfold drop_commands in refl
    go (c ∷ p) h = drop_commands-cons c _ h.0 ∙ ap (◌∷◌ c) (go p h.1)
