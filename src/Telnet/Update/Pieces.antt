-- ===== src/Telnet/Update/Pieces.antt =====
-- Text that reaches TelnetSession::update in pieces, and the lines that it makes of them.
use repo_init.Base.{
  ℕ, ◌≡◌, refl, sym, ap, subst, ◌∙◌, inl, inr, Bool, false, Option, none, some, List, [], ◌∷◌, ◌++◌,
  append-nil, append_assoc, if◌then◌else◌, Bool-cases, is_empty, Bytes, find,
}
use repo_init.Logging.Level.{Level, off, info, debug, trace, default_level}
use repo_init.Telnet.Commands.{
  Command, test_message, help, disable_log, disable_log_all, enable_log_v, enable_log_vv,
  enable_log_vvv, ping, version, clear, status, quit, switch_on, run_command, message_callback,
}
use repo_init.Utils.Hasher.{const_hasher}
use repo_init.Telnet.History.{add_to_history}
use repo_init.Telnet.Nvt.{strip_nvt}
use repo_init.Telnet.Lines.{
  get_complete_lines, get_complete_lines_unique, get_complete_lines-IsCut,
  get_complete_lines-append, spell, crlf,
}
use repo_init.Telnet.Session.{Env, World, Session, Host, send_line}
use repo_init.Telnet.Session.Frame.{echo_back-Frame}
use repo_init.Telnet.Update.{
  received, replace_null, reset_stats, reprint, take_in, take_lines, process_line, process_lines,
  run_lines, update,
}
use repo_init.Telnet.Update.Installed.{main_host, main_host-IsSafeHost}
use repo_init.Telnet.Update.Laws.{update-some}
use repo_init.Telnet.Update.Text.{
  IsText, IsText-append, get_complete_lines-IsText, replace_null-IsText, strip_nvt-text,
  edit_buffer-text,
}

-- Pieces of text, received one after the other, each at a time.
unfoldable pub receive_all :
    Env → Host → List (ℕ × Bytes) → Session → World → Option (Session × World)
receive_all env host [] s w = some (s, w)
receive_all env host ((now, text) ∷ pieces) s w = elim (update env host now (received text) s w) [
  | none ↦ none
  | some (s', w') ↦ receive_all env host pieces s' w'
]

-- The whole text, in which null bytes are line feeds.
abbrev pub joined : List (ℕ × Bytes) → Bytes
joined [] = []
joined ((now, text) ∷ pieces) = replace_null text ++ joined pieces

abbrev pub AllText : List (ℕ × Bytes) → Type 0
AllText [] = Unit
AllText ((now, text) ∷ pieces) = IsText text × AllText pieces

-- The log level that a command sets.
abbrev pub level_set : Bool → Option Command → Level → Level
level_set ndebug (some disable_log) level = default_level ndebug
level_set ndebug (some disable_log_all) level = off
level_set ndebug (some enable_log_v) level = info
level_set ndebug (some enable_log_vv) level = debug
level_set ndebug (some enable_log_vvv) level = trace
level_set ndebug _ level = level

-- The log level behind some lines; an empty one is no command.
abbrev pub level_after : Bool → Level → List Bytes → Level
level_after ndebug level [] = level
level_after ndebug level (line ∷ lines) =
    level_after ndebug
      (if is_empty line then level else level_set ndebug (switch_on (const_hasher line)) level)
      lines

level_after-append :
    (ndebug : Bool) (ls ms : List Bytes) (level : Level)
    → level_after ndebug (level_after ndebug level ls) ms ≡ level_after ndebug level (ls ++ ms)
level_after-append ndebug [] ms level = refl
level_after-append ndebug (l ∷ ls) ms level = level_after-append ndebug ls ms _

module _ (env : Env) (prompt : Bytes) where
  run_command-level :
      (s : Session) (w : World) (command : Option Command)
      → (run_command env prompt s w command).1.log_level ≡ level_set env.ndebug command w.log_level
  unfolding run_command
  run_command-level s w (some test_message) = refl
  run_command-level s w (some help) = refl
  run_command-level s w (some disable_log) = refl
  run_command-level s w (some disable_log_all) = refl
  run_command-level s w (some enable_log_v) = refl
  run_command-level s w (some enable_log_vv) = refl
  run_command-level s w (some enable_log_vvv) = refl
  run_command-level s w (some ping) = refl
  run_command-level s w (some version) = refl
  run_command-level s w (some clear) = refl
  run_command-level s w (some status) = refl
  run_command-level s w (some quit) = refl
  run_command-level s w none = refl

  message_callback-level :
      (s : Session) (w : World) (line : Bytes)
      → (message_callback env prompt s w line).1.log_level
        ≡ level_after env.ndebug w.log_level (line ∷ [])
  unfolding message_callback
  message_callback-level s w line =
      let run = run_command-level (send_line env prompt s line) w (switch_on (const_hasher line)) in
      elim (Bool-cases (is_empty line)) [
        | inl e ↦ rw (message_callback, e) refl
        | inr e ↦ rw (message_callback, e) run
      ]

  process_line-buffer :
      (s : Session) (w : World) (line : Bytes)
      → (process_line (message_callback env prompt) s w line).0.buffer ≡ s.buffer
  unfolding process_line add_to_history main_host
  process_line-buffer s w line =
      let kept = ((main_host-IsSafeHost env prompt).safe_line s w line).buffer in
      elim (Bool-cases (message_callback env prompt s w line).2) [
        | inl e ↦ simp e kept
        | inr e ↦ simp e kept
      ]

  process_lines-level :
      (lines : List Bytes) (s : Session) (w : World)
      → let r = process_lines (message_callback env prompt) s w lines in
        (r.0.buffer ≡ s.buffer) × (r.1.log_level ≡ level_after env.ndebug w.log_level lines)
  unfolding process_lines
  process_lines-level [] s w = (refl, refl)
  process_lines-level (line ∷ lines) s w =
      let f = message_callback env prompt in
      let s' = (process_line f s w line).0 in
      let w' = (process_line f s w line).1 in
      let rest = process_lines-level lines s' w' in
      let level : w'.log_level ≡ level_after env.ndebug w.log_level (line ∷ []) =
        unfold process_line in message_callback-level s w line in
      (
        rest.0 ∙ process_line-buffer s w line,
        rest.1 ∙ ap (λ l. level_after env.ndebug l lines) level,
      )

  -- One piece: the lines of the buffer with it are run, and the buffer is what they leave.
  abbrev Taken : Session → World → Bytes → Session → World → Type 0
  Taken s w text s' w' =
      let (lines, rest) = get_complete_lines (s.buffer ++ replace_null text) in
      (s'.buffer ≡ rest) × (w'.log_level ≡ level_after env.ndebug w.log_level lines)

  -- No line is complete.
  abbrev pub IsRest : Session → Type 0
  IsRest s = find crlf s.buffer ≡ none

  rest-lines : (s : Session) → IsRest s → get_complete_lines (s.buffer ++ []) ≡ ([], s.buffer)
  unfolding spell
  rest-lines s h =
      ap get_complete_lines (append-nil s.buffer)
      ∙ get_complete_lines_unique s.buffer [] s.buffer
          (record { spelled = refl; lines_clean = tt; rest_clean = h })

  take_lines-Taken :
      (s : Session) (w : World)
      → let (lines, rest) = get_complete_lines s.buffer in
        let r = take_lines env (main_host env prompt) false s w in
        (r.0.buffer ≡ rest) × (r.1.log_level ≡ level_after env.ndebug w.log_level lines)
  unfolding take_lines run_lines reprint main_host
  take_lines-Taken s w =
      let (lines, rest) = get_complete_lines s.buffer in
      process_lines-level lines (record s { buffer = rest }) w

  update-Taken :
      (now : ℕ) (text : Bytes) (s : Session) (w : World)
      → IsRest s
      → IsText s.buffer
      → IsText text
      → (s' : Session) × (w' : World) × (update env (main_host env prompt) now (received text) s w
          ≡ some (s', w'))
        × Taken s w text s' w'
  unfolding update take_in reset_stats
  update-Taken now [] s w cut h t = (reset_stats s, w, refl, rw (rest-lines s cut) (refl, refl))
  update-Taken now (c ∷ text) s w cut h t =
      let host = main_host env prompt in
      let s₁ = take_in env now (reset_stats s) (c ∷ text) in
      let all =
        IsText-append s.buffer (replace_null (c ∷ text)) h (replace_null-IsText (c ∷ text) t) in
      let got : s₁.buffer ≡ s.buffer ++ replace_null (c ∷ text) =
        ap (λ b. strip_nvt (b ++ replace_null (c ∷ text))) (echo_back-Frame env _ (c ∷ text)).buffer
        ∙ strip_nvt-text _ all in
      let taken = take_lines-Taken s₁ w in
      let (s', w') = take_lines env host false s₁ w in
      (
        s',
        w',
        update-some env host now c text s w s₁ w false
            (edit_buffer-text env host s₁ w (subst IsText (sym got) all)),
        subst
            (λ b.
              let (lines, rest) = get_complete_lines b in
              (s'.buffer ≡ rest) × (w'.log_level ≡ level_after env.ndebug w.log_level lines))
            got taken,
      )

  -- Text without NVT commands, cursor keys, erasures and tabs reaches a session of main, whose buffer is
  -- such text with no complete line, in any pieces. Then each update is defined, the buffer is what the
  -- complete lines of the buffer and the whole text leave, and the log level is what these lines make
  -- of it, one after the other, in whichever way the text is cut into pieces.
  pub receive_all-get_complete_lines :
      (pieces : List (ℕ × Bytes)) (s : Session) (w : World)
      → IsRest s
      → IsText s.buffer
      → AllText pieces
      → let (lines, rest) = get_complete_lines (s.buffer ++ joined pieces) in
        (s' : Session) × (w' : World) × (receive_all env (main_host env prompt) pieces s w
          ≡ some (s', w'))
        × (s'.buffer ≡ rest)
        × (w'.log_level ≡ level_after env.ndebug w.log_level lines)
  unfolding receive_all
  receive_all-get_complete_lines [] s w cut h t =
      let none_here = rest-lines s cut in
      (
        s,
        w,
        refl,
        sym (ap (λ r. r.1) none_here),
        sym (ap (λ r. level_after env.ndebug w.log_level r.0) none_here),
      )
  receive_all-get_complete_lines ((now, text) ∷ pieces) s w cut h t =
      let (s₁, w₁, e, (buffer, level)) = update-Taken now text s w cut h t.0 in
      let here = s.buffer ++ replace_null text in
      let (lines, rest) = get_complete_lines here in
      let left = get_complete_lines-IsCut here in
      let text_left =
        get_complete_lines-IsText here
          (IsText-append s.buffer (replace_null text) h (replace_null-IsText text t.0)) in
      let cut₁ : IsRest s₁ = rw buffer left.rest_clean in
      let (s₂, w₂, e₂, buffer₂, level₂) =
        receive_all-get_complete_lines pieces s₁ w₁ cut₁ (subst IsText (sym buffer) text_left)
          t.1 in
      let ms = (get_complete_lines (rest ++ joined pieces)).0 in
      let whole =
        ap get_complete_lines (sym (append_assoc s.buffer (replace_null text) (joined pieces)))
        ∙ get_complete_lines-append here (joined pieces) in
      (
        s₂,
        w₂,
        rw (receive_all, e) e₂,
        buffer₂
            ∙ ap (λ b. (get_complete_lines (b ++ joined pieces)).1) buffer
            ∙ sym (ap (λ r. r.1) whole),
        level₂
            ∙ ap (λ l. level_after env.ndebug l (get_complete_lines (s₁.buffer ++ joined pieces)).0)
                level
            ∙ ap
                (λ b.
                  level_after env.ndebug (level_after env.ndebug w.log_level lines)
                    (get_complete_lines (b ++ joined pieces)).0)
                buffer
            ∙ level_after-append env.ndebug lines ms w.log_level
            ∙ sym (ap (λ r. level_after env.ndebug w.log_level r.0) whole),
      )
