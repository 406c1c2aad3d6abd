-- ===== src/Telnet/Update/Laws.antt =====
-- What one reception makes of a session.
use repo_init.Base.{
  [], ℕ, ◌≡◌, refl, ◌↔◌, inl, inr, Bool, ◌&&◌, Option, none, some, List, ◌∷◌, Bool-cases,
  Option-cases, Bytes,
}
use repo_init.Telnet.Session.{
  Env, World, Session, NewLineCallback, Host, interactive_prompt, erase_line,
}
use repo_init.Telnet.Session.Frame.{
  Frame, Frame-refl, Frame-trans, erase_line-Frame, send_prompt_and_buffer-Frame, echo_back-Frame,
}
use repo_init.Telnet.Lines.{get_complete_lines}
use repo_init.Telnet.History.{IsHistory, IsDownAtEnd, add_to_history-IsHistory}
use repo_init.Telnet.Tab.Laws.{IsSafe}
use repo_init.Telnet.Update.Editing.{history_moved, edit_buffer-IsHistory, edit_buffer-undefined}
use repo_init.Telnet.Update.{
  Recv, broken, again, received, reset_stats, edit_buffer, process_line, process_lines, run_lines,
  reprint, take_in, take_lines, update,
}

-- What a callback for lines may not change: the buffer, the history and the counters of commands.
pub record Kept (s t : Session) : Type 0 where
  pub buffer : t.buffer ≡ s.buffer
  pub history : t.history ≡ s.history
  pub history_cursor : t.history_cursor ≡ s.history_cursor
  pub success_cmd_ctr : t.success_cmd_ctr ≡ s.success_cmd_ctr
  pub fail_cmd_ctr : t.fail_cmd_ctr ≡ s.fail_cmd_ctr

abbrev pub IsLineSafe : Option NewLineCallback → Type 0
IsLineSafe none = Unit
IsLineSafe (some callback) = (s : Session) (w : World) (line : Bytes) → Kept s (callback s w line).0

pub record IsSafeHost (host : Host) : Type 0 where
  pub safe_tab : IsSafe host.tab_callback
  pub safe_line : IsLineSafe host.newline_callback

process_line-IsHistory :
    (callback : NewLineCallback) (s : Session) (w : World) (line : Bytes)
    → IsLineSafe (some callback)
    → IsHistory s
    → IsHistory (process_line callback s w line).0
unfolding process_line
process_line-IsHistory callback s w line safe v =
    let (s₁, w₁, b) = callback s w line in
    let k = safe s w line in
    let v₁ = history_moved s s₁ v k.history k.history_cursor in
    elim (Bool-cases b) [
      | inl y ↦ rw y (add_to_history-IsHistory _ line (history_moved s₁ _ v₁ refl refl))
      | inr n ↦ rw n (add_to_history-IsHistory _ line (history_moved s₁ _ v₁ refl refl))
    ]

process_lines-IsHistory :
    (callback : NewLineCallback) (s : Session) (w : World) (lines : List Bytes)
    → IsLineSafe (some callback)
    → IsHistory s
    → IsHistory (process_lines callback s w lines).0
unfolding process_lines
process_lines-IsHistory callback s w [] safe v = v
process_lines-IsHistory callback s w (line ∷ lines) safe v =
    let (s', w') = process_line callback s w line in
    process_lines-IsHistory callback s' w' lines safe
      (process_line-IsHistory callback s w line safe v)

run_lines-IsHistory :
    (host : Host) (s : Session) (w : World) (lines : List Bytes)
    → IsLineSafe host.newline_callback
    → IsHistory s
    → IsHistory (run_lines host s w lines).0
unfolding run_lines
run_lines-IsHistory host s w lines safe v =
    elim host.newline_callback
        as (λ o.
          IsLineSafe o
          → IsHistory
              (elim o as (λ _. Session × World) [
                | none ↦ (s, w)
                | some callback ↦ process_lines callback s w lines
              ]).0) [
                | none ↦ λ _. v
                | some callback ↦ λ k. process_lines-IsHistory callback s w lines k v
              ]
      safe

pub reprint-Frame :
    (env : Env) (host : Host) (required : Bool) (s : Session)
    → Frame s (reprint env host required s)
unfolding reprint
reprint-Frame env host required s =
    elim (Bool-cases (required && interactive_prompt host.prompt_string)) [
      | inl y ↦ rw y (
          Frame-trans (erase_line-Frame env s)
            (send_prompt_and_buffer-Frame env host.prompt_string (erase_line env s)))
      | inr n ↦ rw n (Frame-refl s)
    ]

take_lines-IsHistory :
    (env : Env) (host : Host) (required : Bool) (s : Session) (w : World)
    → IsLineSafe host.newline_callback
    → IsHistory s
    → IsHistory (take_lines env host required s w).0
unfolding take_lines
take_lines-IsHistory env host required s w safe v =
    let (lines, rest) = get_complete_lines s.buffer in
    let (s', w') = run_lines host (record s { buffer = rest }) w lines in
    let v' =
      run_lines-IsHistory host (record s { buffer = rest }) w lines safe
        (history_moved s (record s { buffer = rest }) v refl refl) in
    let f = reprint-Frame env host required s' in
    history_moved s' (reprint env host required s') v' f.history f.history_cursor

take_in-IsHistory :
    (env : Env) (now : ℕ) (s : Session) (text : Bytes)
    → IsHistory s
    → IsHistory (take_in env now (reset_stats s) text)
unfolding take_in reset_stats
take_in-IsHistory env now s text v =
    history_moved s _ v (echo_back-Frame env _ text).history
      (echo_back-Frame env _ text).history_cursor

module _ (env : Env) (host : Host) (now : ℕ) (c : ℕ) (text : Bytes) (s : Session) (w : World) where
  pub update-some :
      (s₁ : Session) (w₁ : World) (b : Bool)
      → edit_buffer env host (take_in env now (reset_stats s) (c ∷ text)) w ≡ some (s₁, w₁, b)
      → update env host now (received (c ∷ text)) s w ≡ some (take_lines env host b s₁ w₁)
  unfolding update
  update-some s₁ w₁ b e = rw (e, update)

  update-none :
      edit_buffer env host (take_in env now (reset_stats s) (c ∷ text)) w ≡ none
      → update env host now (received (c ∷ text)) s w ≡ none
  unfolding update
  update-none e = rw (e, update)

quiet-IsHistory :
    (s s' : Session) (w w' : World) (n : ℕ)
    → IsHistory s
    → ◌≡◌ {A = Option (Session × World)}
        (some (record (reset_stats s) { closes = n }, w))
        (some (s', w'))
    → IsHistory s'
unfolding reset_stats
quiet-IsHistory s s' w w' n v e =
    let same : record (reset_stats s) { closes = n } ≡ s' = cc in
    rw (← same) (history_moved s (record (reset_stats s) { closes = n }) v refl refl)

-- A reception keeps the history sound: within its limit, with no empty line and no line twice in a
-- row, and the cursor within it, if the callbacks leave it alone.
pub update-IsHistory :
    (env : Env) (host : Host) (now : ℕ) (r : Recv) (s s' : Session) (w w' : World)
    → IsSafeHost host
    → IsHistory s
    → update env host now r s w ≡ some (s', w')
    → IsHistory s'
update-IsHistory env host now broken s s' w w' safe v e =
    unfold update in quiet-IsHistory s s' w w' _ v e
update-IsHistory env host now again s s' w w' safe v e =
    unfold update in quiet-IsHistory s s' w w' _ v e
update-IsHistory env host now (received []) s s' w w' safe v e =
    unfold update in quiet-IsHistory s s' w w' _ v e
update-IsHistory env host now (received (c ∷ text)) s s' w w' safe v e =
    let t = take_in env now (reset_stats s) (c ∷ text) in
    let v₁ = take_in-IsHistory env now s (c ∷ text) v in
    elim (Option-cases (edit_buffer env host t w)) [
      | inl n ↦ cc (update-none env host now c text s w n, e)
      | inr ((s₁, w₁, b), p) ↦
          let v₂ = edit_buffer-IsHistory env host t s₁ w w₁ b safe.safe_tab v₁ p in
          let v₃ = take_lines-IsHistory env host b s₁ w₁ safe.safe_line v₂ in
          let same : (take_lines env host b s₁ w₁).0 ≡ s' =
            cc (update-some env host now c text s w s₁ w₁ b p, e) in
          rw (← same) v₃
    ]

-- Of a sound session, the handling of a reception is undefined exactly when the bytes received leave
-- a key down in the buffer, and no key up, with the cursor at the end of a history that is not empty.
pub update-undefined :
    (env : Env) (host : Host) (now c : ℕ) (text : Bytes) (s : Session) (w : World)
    → IsSafeHost host
    → IsHistory s
    → (update env host now (received (c ∷ text)) s w ≡ none)
      ↔ IsDownAtEnd host.prompt_string (take_in env now (reset_stats s) (c ∷ text))
update-undefined env host now c text s w safe v =
    let t = take_in env now (reset_stats s) (c ∷ text) in
    let u =
      edit_buffer-undefined env host t w safe.safe_tab (take_in-IsHistory env now s (c ∷ text) v) in
    (
      λ e. elim (Option-cases (edit_buffer env host t w)) [
        | inl n ↦ u.0 n
        | inr ((s₁, w₁, b), p) ↦ cc (update-some env host now c text s w s₁ w₁ b p, e)
      ],
      λ d. update-none env host now c text s w (u.1 d),
    )
