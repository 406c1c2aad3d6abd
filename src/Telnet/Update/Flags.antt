-- ===== src/Telnet/Update/Flags.antt =====
-- The check flags of the process are no session's: what TelnetSession::update does with them.
use repo_init.Base.{
  ℕ, zero, suc, ◌≡◌, refl, subst, ◌∙◌, inl, inr, Bool, true, false, Option, none, some, List, [],
  ◌∷◌, arith, Bool-cases, Option-cases, is_empty, take, Bytes, find_byte, erase,
}
use repo_init.Telnet.Commands.{
  Command, test_message, help, disable_log, disable_log_all, enable_log_v, enable_log_vv,
  enable_log_vvv, ping, version, clear, status, quit, switch_on, run_command, message_callback,
  tab_callback, connected_callback,
}
use repo_init.Utils.Hasher.{const_hasher}
use repo_init.Telnet.Session.{
  send_line, Env, World, Session, Host, ConnectedCallback, NewLineCallback, TabCallback,
  interactive_prompt,
}
use repo_init.Telnet.History.{process_command_history}
use repo_init.Telnet.Backspace.{process_backspace}
use repo_init.Telnet.Escapes.{strip_escape_characters}
use repo_init.Telnet.Tab.{tab, complete, tab_round, tab_loop, tabs, process_tab}
use repo_init.Telnet.Lines.{get_complete_lines}
use repo_init.Telnet.Update.{
  Recv, broken, again, received, finish_edit, edit_buffer, process_line, process_lines, run_lines,
  take_lines, take_in, reset_stats, update,
}
use repo_init.Telnet.Update.Installed.{main_host}

-- Callbacks that leave the flags alone.
pub record KeepsFlags (host : Host) : Type 0 where
  pub on_tab :
      (f : TabCallback)
      → host.tab_callback ≡ some f
      → (s : Session) (w : World) (line : Bytes) → (f s w line).1.check_flags ≡ w.check_flags
  pub on_line :
      (f : NewLineCallback)
      → host.newline_callback ≡ some f
      → (s : Session) (w : World) (line : Bytes) → (f s w line).1.check_flags ≡ w.check_flags
  pub on_connect :
      (f : ConnectedCallback)
      → host.connected_callback ≡ some f
      → (s : Session) (w : World) → (f s w).1.check_flags ≡ w.check_flags

-- The flags behind a part of the update, unless that is undefined.
abbrev Edited : World → Option (Session × World × Bool) → Type 0
Edited w none = Unit
Edited w (some (s, w', b)) = w'.check_flags ≡ w.check_flags

Edited-trans :
    (w w' : World) (o : Option (Session × World × Bool))
    → w'.check_flags ≡ w.check_flags
    → Edited w' o
    → Edited w o
Edited-trans w w' none e h = tt
Edited-trans w w' (some r) e h = h ∙ e

abbrev pub Updated : World → Option (Session × World) → Type 0
Updated w none = Unit
Updated w (some (s, w')) = w'.check_flags ≡ w.check_flags

module _ (host : Host) (quiet : KeepsFlags host) where
  complete-flags :
      (found : ℕ) (s : Session) (w : World)
      → (complete host.tab_callback found s w).1.check_flags ≡ w.check_flags
  unfolding complete
  complete-flags found s w = elim (Option-cases host.tab_callback) [
    | inl e ↦ rw e refl
    | inr (f, e) ↦
        let kept = quiet.on_tab f e s w (take found s.buffer) in rw e (ground (arith, kept))
  ]

  tab_loop-Edited :
      (fuel : ℕ) (s : Session) (w : World) (found_tabs : Bool)
      → Edited w (tab_loop host fuel s w found_tabs)
  unfolding tab_loop tab_round
  tab_loop-Edited zero s w found_tabs = tt
  tab_loop-Edited (suc fuel) s w found_tabs = elim (Option-cases (find_byte tab s.buffer)) [
    | inl e ↦ rw (tab_loop, e) refl
    | inr (found, e) ↦
        let r = tab_round host found s w in
        rw (tab_loop, e)
          (Edited-trans w r.1 (tab_loop host fuel r.0 r.1 true)
            (complete-flags found (record s { buffer = erase s.buffer found 1 }) w)
            (tab_loop-Edited fuel r.0 r.1 true))
  ]

  finish_edit-Edited :
      (s : Session) (w : World) (scrolled : Bool) → Edited w (finish_edit host s w scrolled)
  unfolding finish_edit process_tab
  finish_edit-Edited s w scrolled =
      let kept = (process_backspace (strip_escape_characters s.buffer)).0 in
      let s' : Session = record s { buffer = kept } in
      let h = tab_loop-Edited (suc (tabs kept)) s' w false in
      elim (Option-cases (tab_loop host (suc (tabs kept)) s' w false)) [
        | inl e ↦ rw (finish_edit, process_tab, e) tt
        | inr (r, e) ↦ rw (finish_edit, process_tab, e) (subst (Edited w) e h)
      ]

  edit_buffer-Edited : (env : Env) (s : Session) (w : World) → Edited w (edit_buffer env host s w)
  unfolding edit_buffer
  edit_buffer-Edited env s w = elim (Bool-cases (interactive_prompt host.prompt_string)) [
    | inr e ↦ rw (edit_buffer, e) refl
    | inl e ↦ elim (Option-cases (process_command_history env host.prompt_string s)) [
      | inl n ↦ rw (edit_buffer, e, n) tt
      | inr ((s', scrolled), n) ↦ rw (edit_buffer, e, n) (finish_edit-Edited s' w scrolled)
    ]
  ]

  process_lines-flags :
      (f : NewLineCallback) (lines : List Bytes) (s : Session) (w : World)
      → host.newline_callback ≡ some f
      → (process_lines f s w lines).1.check_flags ≡ w.check_flags
  unfolding process_lines process_line
  process_lines-flags f [] s w e = refl
  process_lines-flags f (line ∷ lines) s w e =
      process_lines-flags f lines (process_line f s w line).0 (f s w line).1 e
      ∙ quiet.on_line f e s w line

  take_lines-flags :
      (env : Env) (required : Bool) (s : Session) (w : World)
      → (take_lines env host required s w).1.check_flags ≡ w.check_flags
  unfolding take_lines run_lines
  take_lines-flags env required s w =
      let (lines, rest) = get_complete_lines s.buffer in
      elim (Option-cases host.newline_callback) [
        | inl e ↦ rw (take_lines, run_lines, e) refl
        | inr (f, e) ↦
            rw (take_lines, run_lines, e)
              (process_lines-flags f lines (record s { buffer = rest }) w e)
      ]

  pub update-Updated :
      (env : Env) (now : ℕ) (r : Recv) (s : Session) (w : World)
      → Updated w (update env host now r s w)
  unfolding update
  update-Updated env now broken s w = refl
  update-Updated env now again s w = refl
  update-Updated env now (received []) s w = refl
  update-Updated env now (received (c ∷ text)) s w =
      let s' = take_in env now (reset_stats s) (c ∷ text) in
      let h = edit_buffer-Edited env s' w in
      elim (Option-cases (edit_buffer env host s' w)) [
        | inl e ↦ rw (update, e) tt
        | inr ((s₁, w₁, required), e) ↦
            rw (update, e) (take_lines-flags env required s₁ w₁ ∙ subst (Edited w) e h)
      ]

run_command-flags :
    (env : Env) (prompt : Bytes) (s : Session) (w : World) (command : Option Command)
    → (run_command env prompt s w command).1.check_flags ≡ w.check_flags
unfolding run_command
run_command-flags env prompt s w (some test_message) = refl
run_command-flags env prompt s w (some help) = refl
run_command-flags env prompt s w (some disable_log) = refl
run_command-flags env prompt s w (some disable_log_all) = refl
run_command-flags env prompt s w (some enable_log_v) = refl
run_command-flags env prompt s w (some enable_log_vv) = refl
run_command-flags env prompt s w (some enable_log_vvv) = refl
run_command-flags env prompt s w (some ping) = refl
run_command-flags env prompt s w (some version) = refl
run_command-flags env prompt s w (some clear) = refl
run_command-flags env prompt s w (some status) = refl
run_command-flags env prompt s w (some quit) = refl
run_command-flags env prompt s w none = refl

message_callback-flags :
    (env : Env) (prompt : Bytes) (s : Session) (w : World) (line : Bytes)
    → (message_callback env prompt s w line).1.check_flags ≡ w.check_flags
unfolding message_callback
message_callback-flags env prompt s w line =
    let kept =
      run_command-flags env prompt (send_line env prompt s line) w
        (switch_on (const_hasher line)) in
    elim (Bool-cases (is_empty line)) [
      | inl e ↦ rw (message_callback, e) refl
      | inr e ↦ rw (message_callback, e) kept
    ]

tab_callback-flags :
    (env : Env) (prompt : Bytes) (s : Session) (w : World) (line : Bytes)
    → (tab_callback env prompt s w line).1.check_flags ≡ w.check_flags
unfolding tab_callback
tab_callback-flags env prompt s w line = ground arith

some-inj : {A : Type 0} (a b : A) → some a ≡ some b → a ≡ b
some-inj a b e = ground (arith, e)

pub main_host-KeepsFlags : (env : Env) (prompt : Bytes) → KeepsFlags (main_host env prompt)
unfolding main_host connected_callback
main_host-KeepsFlags env prompt = record {
  on_tab = (λ f e s w line.
      subst (λ (g : TabCallback). (g s w line).1.check_flags ≡ w.check_flags) (some-inj _ f e)
        (tab_callback-flags env prompt s w line));
  on_line = (λ f e s w line.
      subst (λ (g : NewLineCallback). (g s w line).1.check_flags ≡ w.check_flags) (some-inj _ f e)
        (message_callback-flags env prompt s w line));
  on_connect = (λ f e s w.
      subst (λ (g : ConnectedCallback). (g s w).1.check_flags ≡ w.check_flags) (some-inj _ f e)
        refl);
}
