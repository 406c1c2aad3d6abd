-- ===== src/Telnet/Update/Text.antt =====
-- Text that TelnetSession::update has nothing to edit in.
use repo_init.Base.{
  ℕ, ◌≡◌, refl, sym, ap, subst, ◌∙◌, ◌≢◌, inl, inr, false, some, [], ◌∷◌, ◌++◌, arith, Bool-cases,
  All-append, Bytes, Lacks, Lacks-find_byte, find-Lacks,
}
use repo_init.Telnet.Nvt.{nvt_command, strip_nvt, strip_nvt-drop_commands, drop_commands-Lacks}
use repo_init.Telnet.Escapes.{
  up, down, right, left, escape, letter, strip_escape_characters-Lacks, strip_escape_characters,
}
use repo_init.Telnet.Backspace.{process_backspace-IsClean, delete, backspace, process_backspace}
use repo_init.Telnet.Tab.{tab, process_tab, tab_loop}
use repo_init.Telnet.History.{process_command_history}
use repo_init.Telnet.Lines.{get_complete_lines, get_complete_lines-IsCut, spell}
use repo_init.Telnet.Session.{Env, World, Session, Host, interactive_prompt}
use repo_init.Telnet.Update.{replace_null, finish_edit, edit_buffer}

-- No NVT command, cursor key, erasure or tab.
pub record IsText (s : Bytes) : Type 0 where
  pub no_command : Lacks nvt_command s
  pub no_escape : Lacks escape s
  pub no_delete : Lacks delete s
  pub no_backspace : Lacks backspace s
  pub no_tab : Lacks tab s

Lacks-append : (k : ℕ) (s t : Bytes) → Lacks k s → Lacks k t → Lacks k (s ++ t)
Lacks-append k s t h g = All-append (λ c. c ≢ k) s t h g

pub IsText-append : (s t : Bytes) → IsText s → IsText t → IsText (s ++ t)
IsText-append s t h g = record {
  no_command = Lacks-append nvt_command s t h.no_command g.no_command;
  no_escape = Lacks-append escape s t h.no_escape g.no_escape;
  no_delete = Lacks-append delete s t h.no_delete g.no_delete;
  no_backspace = Lacks-append backspace s t h.no_backspace g.no_backspace;
  no_tab = Lacks-append tab s t h.no_tab g.no_tab;
}

Lacks-behind : (k : ℕ) (s t : Bytes) → Lacks k (s ++ t) → Lacks k t
Lacks-behind k [] t h = h
Lacks-behind k (c ∷ s) t h = Lacks-behind k s t h.1

IsText-behind : (s t : Bytes) → IsText (s ++ t) → IsText t
IsText-behind s t h = record {
  no_command = Lacks-behind nvt_command s t h.no_command;
  no_escape = Lacks-behind escape s t h.no_escape;
  no_delete = Lacks-behind delete s t h.no_delete;
  no_backspace = Lacks-behind backspace s t h.no_backspace;
  no_tab = Lacks-behind tab s t h.no_tab;
}

-- What the complete lines leave is text, if all is.
pub get_complete_lines-IsText : (s : Bytes) → IsText s → IsText (get_complete_lines s).1
get_complete_lines-IsText s h =
    let (ls, rest) = get_complete_lines s in
    IsText-behind (spell ls) rest (subst IsText (sym (get_complete_lines-IsCut s).spelled) h)

replace_null-Lacks : (k : ℕ) (s : Bytes) → k ≢ 0x0a → Lacks k s → Lacks k (replace_null s)
replace_null-Lacks k [] n h = tt
replace_null-Lacks k (c ∷ s) n h = ground (arith, replace_null-Lacks k s n h.1)

pub replace_null-IsText : (s : Bytes) → IsText s → IsText (replace_null s)
replace_null-IsText s h = record {
  no_command = replace_null-Lacks nvt_command s (λ e. omega arith) h.no_command;
  no_escape = replace_null-Lacks escape s (λ e. omega arith) h.no_escape;
  no_delete = replace_null-Lacks delete s (λ e. omega arith) h.no_delete;
  no_backspace = replace_null-Lacks backspace s (λ e. omega arith) h.no_backspace;
  no_tab = replace_null-Lacks tab s (λ e. omega arith) h.no_tab;
}

pub strip_nvt-text : (s : Bytes) → IsText s → strip_nvt s ≡ s
strip_nvt-text s h = strip_nvt-drop_commands s ∙ drop_commands-Lacks s h.no_command

module _ (env : Env) (host : Host) where
  process_command_history-text :
      (s : Session)
      → IsText s.buffer
      → process_command_history env host.prompt_string s ≡ some (s, false)
  unfolding process_command_history
  process_command_history-text s h =
      let none_of = λ (q : Bytes). find-Lacks escape q s.buffer h.no_escape in
      rw
        (
          none_of (0x5b ∷ letter up ∷ []),
          none_of (0x5b ∷ letter down ∷ []),
          none_of (0x5b ∷ letter left ∷ []),
          none_of (0x5b ∷ letter right ∷ []),
        )
        (ground arith)

  process_tab-text :
      (s : Session) (w : World) → IsText s.buffer → process_tab host s w ≡ some (s, w, false)
  unfolding process_tab tab_loop
  process_tab-text s w h = rw (process_tab, tab_loop, Lacks-find_byte tab s.buffer h.no_tab) refl

  finish_edit-text :
      (s : Session) (w : World) → IsText s.buffer → finish_edit host s w false ≡ some (s, w, false)
  unfolding finish_edit
  finish_edit-text s w h =
      let kept : process_backspace (strip_escape_characters s.buffer) ≡ (s.buffer, false) =
        ap process_backspace (strip_escape_characters-Lacks s.buffer h.no_escape)
        ∙ process_backspace-IsClean s.buffer (h.no_delete, h.no_backspace) in
      rw (finish_edit, kept, process_tab-text s w h, kept) refl

  pub edit_buffer-text :
      (s : Session) (w : World) → IsText s.buffer → edit_buffer env host s w ≡ some (s, w, false)
  unfolding edit_buffer
  edit_buffer-text s w h = elim (Bool-cases (interactive_prompt host.prompt_string)) [
    | inr n ↦ rw n refl
    | inl y ↦ rw (y, process_command_history-text s h) (finish_edit-text s w h)
  ]
