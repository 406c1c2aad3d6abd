-- ===== src/Telnet/Lines.antt =====
-- TelnetSession::getCompleteLines of src/telnet/TelnetServer.cpp: lines that end in CR LF.
use repo_init.Base.{
  [], ℕ, zero, suc, ◌+◌, ◌<◌, ◌≡◌, refl, sym, ap, ◌∙◌, inl, inr, none, some, List, ◌∷◌, ◌++◌,
  append-nil, append_assoc, arith, Option-cases, length, take, length-append, length-drop,
  drop-length, take-length, All, All-append, Bytes, find, erase, find-split, find-le, drop-add,
}

abbrev pub crlf : Bytes
crlf = 0x0d ∷ 0x0a ∷ []

-- The do-while loop; the vector grows at its end.
lines_loop : ℕ → List Bytes → Bytes → List Bytes × Bytes
lines_loop zero lines buffer = (lines, buffer)
lines_loop (suc fuel) lines buffer = elim (find crlf buffer) [
  | none ↦ (lines, buffer)
  | some found ↦ lines_loop fuel (lines ++ take found buffer ∷ []) (erase buffer 0 (found + 2))
]

-- The lines, and what stays in the buffer.
unfoldable pub get_complete_lines : Bytes → List Bytes × Bytes
unfolding lines_loop
get_complete_lines buffer = lines_loop (suc (length buffer)) [] buffer

-- The bytes that a vector of lines stands for.
unfoldable pub spell : List Bytes → Bytes
spell [] = []
spell (l ∷ ls) = l ++ (crlf ++ spell ls)

-- `ls` and `rest` are a cutting of `buffer` at its CR LF pairs: they spell it, and no CR LF is left.
pub record IsCut (buffer : Bytes) (ls : List Bytes) (rest : Bytes) : Type 0 where
  pub spelled : spell ls ++ rest ≡ buffer
  pub lines_clean : All (λ l. find crlf l ≡ none) ls
  pub rest_clean : find crlf rest ≡ none

find-crlf-append :
    (l t : Bytes) → find crlf l ≡ none → find crlf (l ++ (crlf ++ t)) ≡ some (length l)
find-crlf-append [] t h = refl
find-crlf-append (c ∷ []) t h = ground arith
find-crlf-append (c ∷ d ∷ l) t h = elim (Option-cases (find crlf (d ∷ l))) [
  | inl e ↦ ground (arith, find-crlf-append (d ∷ l) t e)
  | inr (i, e) ↦ ground arith
]

-- The part before the first hit holds none.
find-crlf-take : (s : Bytes) (i : ℕ) → find crlf s ≡ some i → find crlf (take i s) ≡ none
find-crlf-take s zero h = refl
find-crlf-take [] (suc i) h = refl
find-crlf-take (c ∷ []) (suc i) h = ground arith
find-crlf-take (c ∷ d ∷ s) (suc i) h = elim (Option-cases (find crlf (d ∷ s))) [
  | inl e ↦ ground arith
  | inr (zero, e) ↦ ground arith
  | inr (suc j, e) ↦ ground (arith, find-crlf-take (d ∷ s) (suc j) e)
]

lines_loop-spell :
    (fuel : ℕ) (acc ls : List Bytes) (rest : Bytes)
    → length (spell ls) < fuel
    → All (λ l. find crlf l ≡ none) ls
    → find crlf rest ≡ none
    → lines_loop fuel acc (spell ls ++ rest) ≡ (acc ++ ls, rest)
unfolding lines_loop spell
lines_loop-spell zero acc ls rest h c r = absurd (omega arith)
lines_loop-spell (suc fuel) acc [] rest h c r =
    rw (r, lines_loop) (ap (λ a. (a, rest)) (sym (append-nil acc)))
lines_loop-spell (suc fuel) acc (l ∷ ls) rest h c r =
    rw (append_assoc, append_assoc)
      (rw
        (
          find-crlf-append l (spell ls ++ rest) c.0,
          lines_loop,
          take-length l (crlf ++ (spell ls ++ rest)),
          drop-add (length l) 2 (l ++ (crlf ++ (spell ls ++ rest))),
          drop-length l (crlf ++ (spell ls ++ rest)),
        )
        (lines_loop-spell fuel (acc ++ l ∷ []) ls rest
            (omega (arith, length-append l (crlf ++ spell ls))) c.1 r
          ∙ ap (λ a. (a, rest)) (append_assoc acc (l ∷ []) ls)))

lines_loop-IsCut :
    (fuel : ℕ) (acc : List Bytes) (buffer : Bytes)
    → length buffer < fuel
    → (ls : List Bytes) × (rest : Bytes) × (lines_loop fuel acc buffer ≡ (acc ++ ls, rest))
      × IsCut buffer ls rest
unfolding lines_loop spell
lines_loop-IsCut zero acc buffer h = absurd (omega arith)
lines_loop-IsCut (suc fuel) acc buffer h = elim (Option-cases (find crlf buffer)) [
  | inl e ↦ (
    [],
    buffer,
    rw (e, lines_loop) (ap (λ a. (a, buffer)) (sym (append-nil acc))),
    record { spelled = refl; lines_clean = tt; rest_clean = e },
  )
  | inr (i, e) ↦
      let b : Bytes = erase buffer 0 (i + 2) in
      let (ls, rest, r, cut) =
        lines_loop-IsCut fuel (acc ++ take i buffer ∷ []) b
          (omega (arith, find-le crlf buffer i e, length-drop (i + 2) buffer)) in
      (
        take i buffer ∷ ls,
        rest,
        rw (e, lines_loop) (r ∙ ap (λ a. (a, rest)) (append_assoc acc (take i buffer ∷ []) ls)),
        record {
          spelled =
              rw (append_assoc, append_assoc, cut.spelled, drop-add i 2 buffer)
                (find-split crlf buffer i e);
          lines_clean = (find-crlf-take buffer i e, cut.lines_clean);
          rest_clean = cut.rest_clean;
        },
      )
]

-- `getCompleteLines` cuts the whole buffer: its lines, each with a CR LF behind it, and what it leaves
-- spell the buffer, and neither a line nor the rest holds a CR LF.
pub get_complete_lines-IsCut :
    (buffer : Bytes) → IsCut buffer (get_complete_lines buffer).0 (get_complete_lines buffer).1
unfolding get_complete_lines
get_complete_lines-IsCut buffer =
    let (ls, rest, r, cut) = lines_loop-IsCut (suc (length buffer)) [] buffer (omega arith) in
    rw r cut

-- There is one such cutting, and `getCompleteLines` finds it.
pub get_complete_lines_unique :
    (buffer : Bytes) (ls : List Bytes) (rest : Bytes)
    → IsCut buffer ls rest
    → get_complete_lines buffer ≡ (ls, rest)
unfolding get_complete_lines
get_complete_lines_unique buffer ls rest cut = rw (← cut.spelled) (
    lines_loop-spell (suc (length (spell ls ++ rest))) [] ls rest
      (omega (arith, length-append (spell ls) rest)) cut.lines_clean cut.rest_clean)

spell-append : (ls ms : List Bytes) → spell (ls ++ ms) ≡ spell ls ++ spell ms
unfolding spell
spell-append [] ms = refl
spell-append (l ∷ ls) ms = simp (spell-append ls ms, append_assoc)

-- However the bytes are split over two receptions, the lines are the same: those of the first, then
-- those of what it left together with the second.
pub get_complete_lines-append :
    (s t : Bytes)
    → let (ls, rest) = get_complete_lines s in
      let (ms, rest') = get_complete_lines (rest ++ t) in
      get_complete_lines (s ++ t) ≡ (ls ++ ms, rest')
get_complete_lines-append s t =
    let (ls, rest) = get_complete_lines s in
    let (ms, rest') = get_complete_lines (rest ++ t) in
    let a = get_complete_lines-IsCut s in
    let b = get_complete_lines-IsCut (rest ++ t) in
    get_complete_lines_unique (s ++ t) (ls ++ ms) rest' (record {
      spelled =
          rw (spell-append ls ms, append_assoc, b.spelled, ← append_assoc (spell ls) rest t)
            (ap (λ u. u ++ t) a.spelled);
      lines_clean = All-append (λ l. find crlf l ≡ none) ls ms a.lines_clean b.lines_clean;
      rest_clean = b.rest_clean;
    })
