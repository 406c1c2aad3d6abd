-- ===== src/Telnet/Commands/Completion.antt =====
-- TelnetTabCallback: completion and suggestions; and what the callbacks leave alone of a session.
use repo_init.Base.{
  [], ℕ, suc, ◌+◌, ◌-◌, ◌≡◌, refl, ◌∙◌, inl, inr, not, ◌&&◌, List, ◌∷◌, ◌++◌, map, append-nil,
  append_assoc, arith, ◌==◌, if◌then◌else◌, Bool-cases, length, is_empty, All, Bytes, starts_with,
  Lacks,
}
use repo_init.Telnet.Session.{Env, World, Session, send_line}
use repo_init.Telnet.Session.Frame.{Frame, Frame-refl, send_line-Frame}
use repo_init.Telnet.Commands.{
  telnet_commands, TabScan, tab_scan, empty_scan, tab_callback, pad_left, key_width,
}

-- The commands that a line is the beginning of, in the order of the table.
abbrev pub matches : Bytes → List (Bytes × Bytes) → List Bytes
matches line [] = []
matches line ((command, text) ∷ rest) =
    if starts_with line command then command ∷ matches line rest else matches line rest

-- All commands on one line, each but the first aligned to the right in a column.
abbrev columns : List Bytes → Bytes
columns [] = []
columns (c ∷ cs) = pad_left b' ' key_width c ++ columns cs

abbrev pub suggestions : List Bytes → Bytes
suggestions [] = []
suggestions (c ∷ cs) = c ++ columns cs

abbrev pub last_of : Bytes → List Bytes → Bytes
last_of c [] = c
last_of c (d ∷ cs) = last_of d cs

tab_scan-later :
    (line : Bytes) (cmds : List (Bytes × Bytes)) (n : ℕ) (c stream : Bytes)
    → tab_scan line cmds (record { ctr = n; retval = c; stream = stream; width = key_width })
      ≡ record {
        ctr = n + length (matches line cmds);
        retval = last_of c (matches line cmds);
        stream = stream ++ columns (matches line cmds);
        width = key_width;
      }
unfolding tab_scan
tab_scan-later line [] n c stream = ground (arith, append-nil stream)
tab_scan-later line ((d, text) ∷ cmds) n c stream = elim (Bool-cases (starts_with line d)) [
  | inl y ↦ rw y (
      tab_scan-later line cmds (suc n) d (stream ++ pad_left b' ' key_width d)
      ∙ ground
          (arith, append_assoc stream (pad_left b' ' key_width d) (columns (matches line cmds))))
  | inr no_match ↦ rw no_match (tab_scan-later line cmds n c stream)
]

-- What the scan finds, by the matches.
abbrev scanned : List Bytes → TabScan
scanned [] = empty_scan
scanned (c ∷ cs) = record {
  ctr = suc (length cs);
  retval = last_of c cs;
  stream = c ++ columns cs;
  width = key_width;
}

pad_left-zero : (fill : ℕ) (s : Bytes) → pad_left fill 0 s ≡ s
pad_left-zero fill s = let e : 0 - length s ≡ 0 = omega arith in rw e

tab_scan-first :
    (line : Bytes) (cmds : List (Bytes × Bytes))
    → tab_scan line cmds empty_scan ≡ scanned (matches line cmds)
unfolding tab_scan
tab_scan-first line [] = refl
tab_scan-first line ((d, text) ∷ cmds) = elim (Bool-cases (starts_with line d)) [
  | inl y ↦ rw (y, pad_left-zero) (tab_scan-later line cmds 1 d d ∙ ground arith)
  | inr no_match ↦ rw no_match (tab_scan-first line cmds)
]

-- The answer to a line with given matches.
abbrev pub answer : Env → Bytes → Session → World → List Bytes → Session × World × Bytes
answer env prompt s w [] = (s, w, [])
answer env prompt s w (c ∷ []) = (s, w, c)
answer env prompt s w (c ∷ d ∷ cs) = (send_line env prompt s (suggestions (c ∷ d ∷ cs)), w, [])

abbrev IsFilled : List Bytes → Type 0
IsFilled [] = Unit
IsFilled ([] ∷ cs) = ⊥
IsFilled ((c ∷ s) ∷ cs) = IsFilled cs

answer-scanned :
    (env : Env) (prompt : Bytes) (s : Session) (w : World) (cs : List Bytes)
    → IsFilled cs
    → (if not ((scanned cs).ctr == 1) && not (is_empty (scanned cs).stream)
        then (send_line env prompt s (scanned cs).stream, w, [])
        else (s, w, (scanned cs).retval))
      ≡ answer env prompt s w cs
answer-scanned env prompt s w [] f = refl
answer-scanned env prompt s w ([] ∷ cs) f = absurd f
answer-scanned env prompt s w ((b ∷ c) ∷ []) f = refl
answer-scanned env prompt s w ((b ∷ c) ∷ d ∷ cs) f = ground arith

matches-IsFilled :
    (line : Bytes) (cmds : List (Bytes × Bytes))
    → IsFilled (map (λ c. c.0) cmds)
    → IsFilled (matches line cmds)
matches-IsFilled line [] f = tt
matches-IsFilled line (([], text) ∷ cmds) f = absurd f
matches-IsFilled line ((b ∷ c, text) ∷ cmds) f = elim (Bool-cases (starts_with line (b ∷ c))) [
  | inl y ↦ rw y (matches-IsFilled line cmds f)
  | inr n ↦ rw n (matches-IsFilled line cmds f)
]

-- With one command that begins with the line, the callback completes to it and sends nothing; with
-- several it sends them as one line and completes to nothing; with none it does nothing.
pub tab_callback-answer :
    (env : Env) (prompt : Bytes) (s : Session) (w : World) (line : Bytes)
    → tab_callback env prompt s w line ≡ answer env prompt s w (matches line telnet_commands)
unfolding tab_callback
tab_callback-answer env prompt s w line = rw (tab_scan-first line telnet_commands) (
    answer-scanned env prompt s w (matches line telnet_commands)
      (matches-IsFilled line telnet_commands tt))

LacksAll : ℕ → List Bytes → Type 0
LacksAll k = All (Lacks k)

matches-LacksAll :
    (k : ℕ) (line : Bytes) (cmds : List (Bytes × Bytes))
    → LacksAll k (map (λ c. c.0) cmds)
    → LacksAll k (matches line cmds)
unfolding LacksAll
matches-LacksAll k line [] f = tt
matches-LacksAll k line ((c, text) ∷ cmds) f = elim (Bool-cases (starts_with line c)) [
  | inl y ↦ rw y (f.0, matches-LacksAll k line cmds f.1)
  | inr n ↦ rw n (matches-LacksAll k line cmds f.1)
]

answer-Frame :
    (env : Env) (prompt : Bytes) (s : Session) (w : World) (cs : List Bytes)
    → Frame s (answer env prompt s w cs).0
answer-Frame env prompt s w [] = Frame-refl s
answer-Frame env prompt s w (c ∷ []) = Frame-refl s
answer-Frame env prompt s w (c ∷ d ∷ cs) = send_line-Frame env prompt s _

answer-Lacks :
    (env : Env) (prompt : Bytes) (s : Session) (w : World) (k : ℕ) (cs : List Bytes)
    → LacksAll k cs
    → Lacks k (answer env prompt s w cs).2
unfolding LacksAll
answer-Lacks env prompt s w k [] h = tt
answer-Lacks env prompt s w k (c ∷ []) h = h.0
answer-Lacks env prompt s w k (c ∷ d ∷ cs) h = tt

pub tab_callback-Frame :
    (env : Env) (prompt : Bytes) (s : Session) (w : World) (line : Bytes)
    → Frame s (tab_callback env prompt s w line).0
tab_callback-Frame env prompt s w line =
    rw tab_callback-answer (answer-Frame env prompt s w (matches line telnet_commands))

pub tab_callback-Lacks :
    (env : Env) (prompt : Bytes) (s : Session) (w : World) (line : Bytes)
    → Lacks 0x09 (tab_callback env prompt s w line).2
unfolding LacksAll
tab_callback-Lacks env prompt s w line = rw tab_callback-answer (
    answer-Lacks env prompt s w 0x09 (matches line telnet_commands)
      (matches-LacksAll 0x09 line telnet_commands (ground arith)))
