-- ===== src/Telnet/History.antt =====
-- TelnetSession::addToHistory and processCommandHistory of src/telnet/TelnetServer.cpp.
-- The list iterator is the index of what it points at; the length of the list is `end()`.
use repo_init.Base.{
  [], ℕ, suc, ◌-◌, ◌≤◌, ◌<◌, ◌≡◌, sym, ◌≢◌, ◌↔◌, inl, inr, Bool, true, false, not, ◌&&◌, ◌||◌,
  Option, none, some, List, ◌∷◌, ◌++◌, arith, ltb, ◌==◌, if◌then◌else◌, Bool-cases, Option-cases,
  is_just, length, is_empty, get_elem?, get_elem?-none, drop, length-append, length-drop, All,
  All-append, Bytes, str_eq, find, str_eq_refl, add_size,
}
use repo_init.Telnet.Session.{failed, count, Env, Session, interactive_prompt}
use repo_init.Telnet.Escapes.{Arrow, up, down, right, left, ansi_arrow}

abbrev pub telnet_history_limit : ℕ
telnet_history_limit = 50

-- `m_history.back()`, and an empty string if there is none.
abbrev pub last_line : List Bytes → Bytes
last_line [] = []
last_line (l ∷ []) = l
last_line (l ∷ m ∷ ls) = last_line (m ∷ ls)

abbrev pub push_line : List Bytes → Bytes → List Bytes
push_line ls line =
    let grown = ls ++ line ∷ [] in
    if ltb telnet_history_limit (length grown) then drop 1 grown else grown

abbrev pub extend_history : List Bytes → Bytes → List Bytes
extend_history ls line =
    if not (str_eq line (last_line ls)) && not (is_empty line) then push_line ls line else ls

unfoldable pub add_to_history : Session → Bytes → Session
add_to_history s line =
    let h = extend_history s.history line in record s { history = h; history_cursor = length h }

abbrev pub has_key : Arrow → Bytes → Bool
has_key a buffer = is_just (find (ansi_arrow a) buffer)

-- `buffer = *m_historyCursor`, and the cursor key that counters the one typed. `none` is undefined
-- behaviour: the iterator is `end()`, which cannot be read.
unfoldable pub recall : Env → Session → ℕ → Arrow → Option (Session × Bool)
recall env s cursor counter = elim (get_elem? s.history cursor) [
  | none ↦ none
  | some line ↦
      let s₁ = record s {
        buffer = line;
        history_cursor = cursor;
        wire = s.wire ++ ansi_arrow counter ∷ [];
      } in
      elim (env.send_result s.socket s.wire (ansi_arrow counter)) [
        | failed ↦ some (s₁, false)
        | count n ↦ some (record s₁ { upload_bytes = add_size s.upload_bytes n }, true)
      ]
]

-- `if (m_historyCursor != m_history.begin()) --m_historyCursor`
abbrev pub cursor_up : Session → ℕ
cursor_up s = if s.history_cursor == 0 then 0 else s.history_cursor - 1

-- `if (next(m_historyCursor) != m_history.end()) ++m_historyCursor`. `none` is undefined behaviour:
-- there is no next of `end()`.
abbrev pub cursor_down : Session → Option ℕ
cursor_down s =
    if s.history_cursor == length s.history
    then none
    else some (
        if suc s.history_cursor == length s.history then s.history_cursor else suc s.history_cursor)

unfoldable pub process_command_history : Env → Bytes → Session → Option (Session × Bool)
process_command_history env prompt s =
    if interactive_prompt prompt
    then if has_key up s.buffer && not (is_empty s.history)
      then recall env s (cursor_up s) down
      else if has_key down s.buffer && not (is_empty s.history)
      then (elim (cursor_down s) as (λ _. Option (Session × Bool)) [
        | none ↦ none
        | some c ↦ recall env s c up
      ])
      else some (s, has_key left s.buffer || has_key right s.buffer)
    else some (s, false)

-- No two neighbours are one line.
abbrev pub NoRepeats : List Bytes → Type 0
NoRepeats [] = Unit
NoRepeats (l ∷ []) = Unit
NoRepeats (l ∷ m ∷ ls) = (l ≢ m) × NoRepeats (m ∷ ls)

pub record IsLines (ls : List Bytes) : Type 0 where
  pub bounded : length ls ≤ telnet_history_limit
  pub lines_filled : All (λ l. l ≢ []) ls
  pub no_repeats : NoRepeats ls

pub record IsHistory (s : Session) : Type 0 where
  pub lines : IsLines s.history
  pub cursor_within : s.history_cursor ≤ length s.history

drop_one-All : (ls : List Bytes) → All (λ l. l ≢ []) ls → All (λ l. l ≢ []) (drop 1 ls)
drop_one-All [] h = tt
drop_one-All (l ∷ ls) h = h.1

drop_one-NoRepeats : (ls : List Bytes) → NoRepeats ls → NoRepeats (drop 1 ls)
drop_one-NoRepeats [] h = tt
drop_one-NoRepeats (l ∷ []) h = tt
drop_one-NoRepeats (l ∷ m ∷ ls) h = h.1

append-NoRepeats :
    (ls : List Bytes) (line : Bytes)
    → line ≢ last_line ls
    → NoRepeats ls
    → NoRepeats (ls ++ line ∷ [])
append-NoRepeats [] line h n = tt
append-NoRepeats (l ∷ []) line h n = (λ e. h (sym e), tt)
append-NoRepeats (l ∷ m ∷ ls) line h n = (n.0, append-NoRepeats (m ∷ ls) line h n.1)

str_eq-ne : (s t : Bytes) → str_eq s t ≡ false → s ≢ t
str_eq-ne s t h e = ground (arith, rw e at (str_eq_refl s))

push_line-IsLines :
    (ls : List Bytes) (line : Bytes)
    → IsLines ls
    → line ≢ last_line ls
    → line ≢ []
    → IsLines (push_line ls line)
push_line-IsLines ls line v n f =
    let filled = All-append (λ l. l ≢ []) ls (line ∷ []) v.lines_filled (f, tt) in
    let apart = append-NoRepeats ls line n v.no_repeats in
    let long = length-append ls (line ∷ []) in
    elim (Bool-cases (ltb telnet_history_limit (length (ls ++ line ∷ [])))) [
      | inl y ↦ rw y (record {
        bounded = omega (arith, v.bounded, long, length-drop 1 (ls ++ line ∷ []));
        lines_filled = drop_one-All (ls ++ line ∷ []) filled;
        no_repeats = drop_one-NoRepeats (ls ++ line ∷ []) apart;
      })
      | inr no_drop ↦
          rw no_drop (record { bounded = ground arith; lines_filled = filled; no_repeats = apart })
    ]

extend_history-IsLines :
    (ls : List Bytes) (line : Bytes) → IsLines ls → IsLines (extend_history ls line)
extend_history-IsLines ls line v = elim (Bool-cases (str_eq line (last_line ls))) [
  | inl y ↦ rw y v
  | inr n ↦ rw n (elim (Bool-cases (is_empty line)) [
    | inl e ↦ rw e v
    | inr f ↦ rw f (push_line-IsLines ls line v (str_eq-ne line (last_line ls) n) (λ e. cc))
  ])
]

-- A completed line keeps the history within its limit, with no empty line and no line twice in a
-- row, and the cursor within it.
pub add_to_history-IsHistory :
    (s : Session) (line : Bytes) → IsHistory s → IsHistory (add_to_history s line)
unfolding add_to_history
add_to_history-IsHistory s line v = record {
  lines = extend_history-IsLines s.history line v.lines;
  cursor_within = omega arith;
}

-- The key down is read with the cursor at the end of a history that is not empty.
pub record IsDownAtEnd (prompt : Bytes) (s : Session) : Type 0 where
  pub interactive : interactive_prompt prompt ≡ true
  pub no_key_up : has_key up s.buffer ≡ false
  pub key_down : has_key down s.buffer ≡ true
  pub has_history : is_empty s.history ≡ false
  pub at_end : s.history_cursor ≡ length s.history

recall-defined :
    (env : Env) (s : Session) (cursor : ℕ) (a : Arrow)
    → cursor < length s.history
    → recall env s cursor a ≢ none
unfolding recall
recall-defined env s cursor a h e = elim (Option-cases (get_elem? s.history cursor)) [
  | inl n ↦ absurd (omega (arith, get_elem?-none s.history cursor n))
  | inr (line, g) ↦ ground arith
]

is_empty-length {ℓ} : {A : Type ℓ} (xs : List A) → is_empty xs ≡ false → 0 < length xs
is_empty-length [] h = cc
is_empty-length (x ∷ xs) h = omega arith

-- With the cursor within the history, the handling of the cursor keys is undefined exactly when it
-- reads a key down with the cursor at the end of a history that is not empty.
pub process_command_history-undefined :
    (env : Env) (prompt : Bytes) (s : Session)
    → IsHistory s
    → (process_command_history env prompt s ≡ none) ↔ IsDownAtEnd prompt s
unfolding process_command_history
process_command_history-undefined env prompt s v = (
  λ e. ground (
    arith,
    recall-defined env s (cursor_up s) down,
    recall-defined env s s.history_cursor up,
    recall-defined env s (suc s.history_cursor) up,
    is_empty-length s.history,
  ),
  λ d. ground arith,
)

recall-IsHistory :
    (env : Env) (s s' : Session) (cursor : ℕ) (a : Arrow) (b : Bool)
    → IsHistory s
    → cursor < length s.history
    → recall env s cursor a ≡ some (s', b)
    → IsHistory s' × (s'.history ≡ s.history)
unfolding recall
recall-IsHistory env s s' cursor a b v h e = elim (Option-cases (get_elem? s.history cursor)) [
  | inl n ↦ absurd (omega (arith, get_elem?-none s.history cursor n))
  | inr (line, g) ↦ ground arith
]

-- Where it is defined, it keeps the history as it is and the cursor within it.
pub process_command_history-IsHistory :
    (env : Env) (prompt : Bytes) (s s' : Session) (b : Bool)
    → IsHistory s
    → process_command_history env prompt s ≡ some (s', b)
    → IsHistory s' × (s'.history ≡ s.history)
unfolding process_command_history
process_command_history-IsHistory env prompt s s' b v e = ground (
  arith,
  recall-IsHistory env s s' (cursor_up s) down b v,
  recall-IsHistory env s s' s.history_cursor up b v,
  recall-IsHistory env s s' (suc s.history_cursor) up b v,
  is_empty-length s.history,
)
