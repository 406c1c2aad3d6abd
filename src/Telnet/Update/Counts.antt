-- ===== src/Telnet/Update/Counts.antt =====
-- How many commands a reception counts, and what it leaves in the buffer.
use repo_init.Base.{
  Bool-cases, inl, inr, if◌then◌else◌, [], ℕ, ◌+◌, ◌%◌, ◌≡◌, refl, ◌∙◌, Bool, none, some, List, ◌∷◌,
  arith, length, Bytes, find, size_mod,
}
use repo_init.Telnet.Session.{Env, World, Session, NewLineCallback, Host}
use repo_init.Telnet.Lines.{crlf, get_complete_lines, get_complete_lines-IsCut}
use repo_init.Telnet.History.{add_to_history}
use repo_init.Telnet.Update.{process_line, process_lines, run_lines, take_lines}
use repo_init.Telnet.Update.Laws.{IsLineSafe, reprint-Frame}

abbrev pub counted : Session → ℕ
counted s = s.success_cmd_ctr + s.fail_cmd_ctr

-- What the callback says of each line, as it meets them.
abbrev pub verdicts : NewLineCallback → Session → World → List Bytes → List Bool
verdicts callback s w [] = []
verdicts callback s w (line ∷ lines) =
    let (s', w') = process_line callback s w line in
    (callback s w line).2 ∷ verdicts callback s' w' lines

abbrev pub successes : List Bool → ℕ
successes [] = 0
successes (b ∷ bs) = (if b then 1 else 0) + successes bs

abbrev pub failures : List Bool → ℕ
failures [] = 0
failures (b ∷ bs) = (if b then 0 else 1) + failures bs

-- The counters of commands have grown by `g` and `f`, in 64 bits.
pub record Grown (g f : ℕ) (s t : Session) : Type 0 where
  pub good : t.success_cmd_ctr % size_mod ≡ (s.success_cmd_ctr + g) % size_mod
  pub bad : t.fail_cmd_ctr % size_mod ≡ (s.fail_cmd_ctr + f) % size_mod

process_line-Grown :
    (callback : NewLineCallback) (s : Session) (w : World) (line : Bytes)
    → IsLineSafe (some callback)
    → let b = (callback s w line).2 in
      Grown (if b then 1 else 0) (if b then 0 else 1) s (process_line callback s w line).0
unfolding process_line add_to_history
process_line-Grown callback s w line safe =
    let kept = safe s w line in
    elim (Bool-cases (callback s w line).2) [
      | inl e ↦ simp e (record {
        good = omega (arith, kept.success_cmd_ctr);
        bad = omega (arith, kept.fail_cmd_ctr);
      })
      | inr e ↦ simp e (record {
        good = omega (arith, kept.success_cmd_ctr);
        bad = omega (arith, kept.fail_cmd_ctr);
      })
    ]

process_lines-Grown :
    (callback : NewLineCallback) (s : Session) (w : World) (lines : List Bytes)
    → IsLineSafe (some callback)
    → let bs = verdicts callback s w lines in
      Grown (successes bs) (failures bs) s (process_lines callback s w lines).0
unfolding process_lines
process_lines-Grown callback s w [] safe = record { good = omega arith; bad = omega arith }
process_lines-Grown callback s w (line ∷ lines) safe =
    let (s', w') = process_line callback s w line in
    let one = process_line-Grown callback s w line safe in
    let rest = process_lines-Grown callback s' w' lines safe in
    record { good = omega (arith, one.good, rest.good); bad = omega (arith, one.bad, rest.bad) }

process_line-counts :
    (callback : NewLineCallback) (s : Session) (w : World) (line : Bytes)
    → IsLineSafe (some callback)
    → (counted (process_line callback s w line).0 % size_mod ≡ (counted s + 1) % size_mod)
      × ((process_line callback s w line).0.buffer ≡ s.buffer)
unfolding process_line add_to_history
process_line-counts callback s w line safe = ground (arith, safe s w line)

process_lines-counts :
    (callback : NewLineCallback) (s : Session) (w : World) (lines : List Bytes)
    → IsLineSafe (some callback)
    → (counted (process_lines callback s w lines).0 % size_mod
        ≡ (counted s + length lines) % size_mod)
      × ((process_lines callback s w lines).0.buffer ≡ s.buffer)
unfolding process_lines
process_lines-counts callback s w [] safe = (ground arith, refl)
process_lines-counts callback s w (line ∷ lines) safe =
    let (s', w') = process_line callback s w line in
    let one = process_line-counts callback s w line safe in
    let rest = process_lines-counts callback s' w' lines safe in
    (omega (arith, one.0, rest.0), rest.1 ∙ one.1)

run_lines-set :
    (host : Host) (callback : NewLineCallback) (s : Session) (w : World) (lines : List Bytes)
    → host.newline_callback ≡ some callback
    → run_lines host s w lines ≡ process_lines callback s w lines
unfolding run_lines
run_lines-set host callback s w lines set = rw (set, run_lines)

-- With a callback installed that leaves the buffer, the history and the counters of commands alone, each
-- complete line of the buffer is counted in 64 bits, as succeeded where the callback says so and as
-- failed where it does not, and taken out of it: what stays holds no CR LF.
pub take_lines-counts :
    (env : Env) (host : Host) (callback : NewLineCallback) (required : Bool) (s : Session)
    (w : World)
    → host.newline_callback ≡ some callback
    → IsLineSafe (some callback)
    → let s' = (take_lines env host required s w).0 in
      let (lines, rest) = get_complete_lines s.buffer in
      let bs = verdicts callback (record s { buffer = rest }) w lines in
      Grown (successes bs) (failures bs) s s'
      × (counted s' % size_mod ≡ (counted s + length lines) % size_mod)
      × (s'.buffer ≡ rest)
      × (find crlf s'.buffer ≡ none)
unfolding take_lines
take_lines-counts env host callback required s w set safe =
    let (lines, rest) = get_complete_lines s.buffer in
    let s₁ : Session = record s { buffer = rest } in
    let run = run_lines-set host callback s₁ w lines set in
    let p = process_lines-counts callback s₁ w lines safe in
    let g = process_lines-Grown callback s₁ w lines safe in
    let f = reprint-Frame env host required (process_lines callback s₁ w lines).0 in
    let clean = (get_complete_lines-IsCut s.buffer).rest_clean in
    rw run (
      record { good = rw f.success_cmd_ctr g.good; bad = rw f.fail_cmd_ctr g.bad },
      rw (f.success_cmd_ctr, f.fail_cmd_ctr) p.0,
      f.buffer ∙ p.1,
      rw (f.buffer, p.1) clean,
    )
