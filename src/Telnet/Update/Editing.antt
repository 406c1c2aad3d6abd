-- ===== src/Telnet/Update/Editing.antt =====
-- The interactive part of TelnetSession::update: where it is defined, and the history behind it.
use repo_init.Base.{
  ◌≡◌, sym, ◌∙◌, ◌↔◌, inl, inr, Bool, true, false, ◌||◌, none, some, ltb, Bool-cases, Option-cases,
}
use repo_init.Telnet.Session.{Env, World, Session, Host, interactive_prompt}
use repo_init.Telnet.Backspace.{process_backspace}
use repo_init.Telnet.Escapes.{strip_escape_characters}
use repo_init.Telnet.History.{
  IsHistory, IsDownAtEnd, process_command_history, process_command_history-undefined,
  process_command_history-IsHistory,
}
use repo_init.Telnet.Tab.{tabs}
use repo_init.Telnet.Tab.Laws.{IsSafe, KeepsHistory, process_tab-total}
use repo_init.Telnet.Update.{finish_edit, edit_buffer}

pub history_moved :
    (s t : Session)
    → IsHistory s
    → t.history ≡ s.history
    → t.history_cursor ≡ s.history_cursor
    → IsHistory t
history_moved s t v h c = record { lines = rw h v.lines; cursor_within = rw (h, c) v.cursor_within }

finish_edit-total :
    (host : Host) (s : Session) (w : World) (b : Bool)
    → IsSafe host.tab_callback
    → (s' : Session) × (w' : World) × (b' : Bool) × (finish_edit host s w b ≡ some (s', w', b'))
      × KeepsHistory s s'
unfolding finish_edit
finish_edit-total host s w b safe =
    let (kept, erased) = process_backspace (strip_escape_characters s.buffer) in
    let (s', w', r, t, k) = process_tab-total host (record s { buffer = kept }) w safe in
    (
      s',
      w',
      b || (erased || ltb 0 (tabs kept)),
      rw (r, finish_edit),
      record { same_history = k.same_history; same_cursor = k.same_cursor },
    )

edited-IsHistory :
    (host : Host) (s s' : Session) (w w' : World) (b b' : Bool)
    → IsSafe host.tab_callback
    → IsHistory s
    → finish_edit host s w b ≡ some (s', w', b')
    → IsHistory s'
edited-IsHistory host s s' w w' b b' safe v e =
    let (s₁, w₁, b₁, r, k) = finish_edit-total host s w b safe in
    let same : s₁ ≡ s' = cc (r, e) in
    rw (← same) (history_moved s s₁ v k.same_history k.same_cursor)

-- The three outcomes of the interactive part.
module _ (env : Env) (host : Host) (s : Session) (w : World) where
  edit_buffer-plain :
      interactive_prompt host.prompt_string ≡ false → edit_buffer env host s w ≡ some (s, w, false)
  unfolding edit_buffer
  edit_buffer-plain n = rw n

  edit_buffer-none :
      interactive_prompt host.prompt_string ≡ true
      → process_command_history env host.prompt_string s ≡ none
      → edit_buffer env host s w ≡ none
  unfolding edit_buffer
  edit_buffer-none y p = rw (y, p)

  edit_buffer-some :
      (s' : Session) (b : Bool)
      → interactive_prompt host.prompt_string ≡ true
      → process_command_history env host.prompt_string s ≡ some (s', b)
      → edit_buffer env host s w ≡ finish_edit host s' w b
  unfolding edit_buffer
  edit_buffer-some s' b y p = rw (y, p)

pub edit_buffer-IsHistory :
    (env : Env) (host : Host) (s s' : Session) (w w' : World) (b : Bool)
    → IsSafe host.tab_callback
    → IsHistory s
    → edit_buffer env host s w ≡ some (s', w', b)
    → IsHistory s'
edit_buffer-IsHistory env host s s' w w' b safe v e =
    let pch = process_command_history env host.prompt_string s in
    elim (Bool-cases (interactive_prompt host.prompt_string)) [
      | inr n ↦ let same : s ≡ s' = cc (edit_buffer-plain env host s w n, e) in rw (← same) v
      | inl y ↦ elim (Option-cases pch) [
        | inl p ↦ cc (edit_buffer-none env host s w y p, e)
        | inr ((s₁, b₁), p) ↦
            edited-IsHistory host s₁ s' w w' b₁ b safe
              (process_command_history-IsHistory env host.prompt_string s s₁ b₁ v p).0
              (sym (edit_buffer-some env host s w s₁ b₁ y p) ∙ e)
      ]
    ]

-- Reading the cursor keys is the one step of it that can be undefined.
pub edit_buffer-undefined :
    (env : Env) (host : Host) (s : Session) (w : World)
    → IsSafe host.tab_callback
    → IsHistory s
    → (edit_buffer env host s w ≡ none) ↔ IsDownAtEnd host.prompt_string s
edit_buffer-undefined env host s w safe v =
    let pch = process_command_history env host.prompt_string s in
    let keys = process_command_history-undefined env host.prompt_string s v in
    (
      λ e. elim (Bool-cases (interactive_prompt host.prompt_string)) [
        | inr n ↦ cc (edit_buffer-plain env host s w n, e)
        | inl y ↦ elim (Option-cases pch) [
          | inl p ↦ keys.0 p
          | inr ((s₁, b₁), p) ↦
              let (s₂, w₂, b₂, r, k) = finish_edit-total host s₁ w b₁ safe in
              cc (edit_buffer-some env host s w s₁ b₁ y p, e, r)
        ]
      ],
      λ d. edit_buffer-none env host s w d.interactive (keys.1 d),
    )
