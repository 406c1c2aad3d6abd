-- ===== src/Telnet/Update.antt =====
-- TelnetSession::update of src/telnet/TelnetServer.cpp: one reception and what it sets off.
pub mod Flags
pub mod Editing
pub mod Laws
pub mod Text
pub mod Counts
pub mod Installed
pub mod Pieces
use repo_init.Base.{
  [], ℕ, suc, ◌+◌, Bool, false, ◌&&◌, ◌||◌, Option, none, some, List, ◌∷◌, ◌++◌, ◌==◌,
  if◌then◌else◌, length, Bytes, add_size,
}
use repo_init.Telnet.Session.{
  Env, World, Session, NewLineCallback, Host, interactive_prompt, send_prompt_and_buffer,
  erase_line, echo_back,
}
use repo_init.Telnet.Nvt.{strip_nvt}
use repo_init.Telnet.Escapes.{strip_escape_characters}
use repo_init.Telnet.Backspace.{process_backspace}
use repo_init.Telnet.Lines.{get_complete_lines}
use repo_init.Telnet.History.{add_to_history, process_command_history}
use repo_init.Telnet.Tab.{process_tab}

-- The outcome of recv: an error other than EAGAIN, EAGAIN, or the bytes read, at most the buffer's 512
-- of them, and none where the peer has closed.
pub data Recv : Type 0 where
  broken : Recv
  again : Recv
  received : Bytes → Recv

-- std::replace_if
abbrev pub replace_null : Bytes → Bytes
replace_null [] = []
replace_null (c ∷ s) = (if c == 0x00 then 0x0a else c) ∷ replace_null s

unfoldable pub reset_stats : Session → Session
reset_stats s = record s {
  upload_bytes = 0;
  download_bytes = 0;
  success_cmd_ctr = 0;
  fail_cmd_ctr = 0;
}

-- The interactive part behind the cursor keys. The flag is `requirePromptReprint`.
unfoldable pub finish_edit : Host → Session → World → Bool → Option (Session × World × Bool)
finish_edit host s w scrolled =
    let (kept, erased) = process_backspace (strip_escape_characters s.buffer) in
    elim (process_tab host (record s { buffer = kept }) w)
      as (λ _. Option (Session × World × Bool)) [
        | none ↦ none
        | some (s', w', completed) ↦ some (s', w', scrolled || (erased || completed))
      ]

-- The interactive part; `none` is undefined behaviour.
unfoldable pub edit_buffer : Env → Host → Session → World → Option (Session × World × Bool)
edit_buffer env host s w =
    if interactive_prompt host.prompt_string
    then (elim (process_command_history env host.prompt_string s)
        as (λ _. Option (Session × World × Bool)) [
          | none ↦ none
          | some (s', scrolled) ↦ finish_edit host s' w scrolled
        ])
    else some (s, w, false)

-- The body of the loop over the lines.
unfoldable pub process_line : NewLineCallback → Session → World → Bytes → Session × World
process_line callback s w line =
    let (s₁, w', succeeded) = callback s w line in
    let s₂ =
      if succeeded
      then record s₁ { success_cmd_ctr = add_size s₁.success_cmd_ctr 1 }
      else record s₁ { fail_cmd_ctr = add_size s₁.fail_cmd_ctr 1 } in
    (add_to_history s₂ line, w')

unfoldable pub process_lines : NewLineCallback → Session → World → List Bytes → Session × World
process_lines callback s w [] = (s, w)
process_lines callback s w (line ∷ lines) =
    let (s', w') = process_line callback s w line in process_lines callback s' w' lines

-- With no callback the loop is left at once, and the lines are lost.
unfoldable pub run_lines : Host → Session → World → List Bytes → Session × World
run_lines host s w lines = elim host.newline_callback as (λ _. Session × World) [
  | none ↦ (s, w)
  | some callback ↦ process_lines callback s w lines
]

unfoldable pub reprint : Env → Host → Bool → Session → Session
reprint env host required s =
    if required && interactive_prompt host.prompt_string
    then send_prompt_and_buffer env host.prompt_string (erase_line env s)
    else s

-- What a reception of bytes adds to the buffer.
unfoldable pub take_in : Env → ℕ → Session → Bytes → Session
take_in env now s text =
    let s₁ = record s {
      download_bytes = add_size s.download_bytes (length text);
      last_seen_time = now;
    } in
    let s₂ = echo_back env s₁ text in
    record s₂ { buffer = strip_nvt (s₂.buffer ++ replace_null text) }

-- The lines of the buffer, taken out and run.
unfoldable pub take_lines : Env → Host → Bool → Session → World → Session × World
take_lines env host required s w =
    let (lines, rest) = get_complete_lines s.buffer in
    let (s', w') = run_lines host (record s { buffer = rest }) w lines in
    (reprint env host required s', w')

unfoldable pub update : Env → Host → ℕ → Recv → Session → World → Option (Session × World)
update env host now broken s w =
    let s₁ = reset_stats s in some (record s₁ { closes = suc s₁.closes }, w)
update env host now again s w = some (reset_stats s, w)
update env host now (received []) s w = some (reset_stats s, w)
update env host now (received (c ∷ text)) s w =
    elim (edit_buffer env host (take_in env now (reset_stats s) (c ∷ text)) w) [
      | none ↦ none
      | some (s₁, w₁, required) ↦ some (take_lines env host required s₁ w₁)
    ]
