-- ===== src/Telnet/Update/Installed.antt =====
-- The callbacks that src/main.cpp installs are safe for a session.
use repo_init.Base.{
  [], ℕ, ◌*◌, ◌≤◌, ◌≡◌, refl, ◌≢◌, ◌⊎◌, inl, inr, Bool, true, false, Option, none, some, List, ◌∷◌,
  arith, is_empty, Bytes, codes,
}
use repo_init.Telnet.Session.{
  Env, World, Session, Host, ticks_per_second, send_line, check_timeout, mark_timeout,
}
use repo_init.Telnet.Session.Frame.{Frame, Frame-refl, Frame-trans, send_line-Frame}
use repo_init.Telnet.Commands.{
  telnet_commands, print_commands, print_available_commands, connected_callback, Command, help,
  version, status, quit, switch_on, send_status, run_command, message_callback, tab_callback,
}
use repo_init.Telnet.Commands.Completion.{tab_callback-Frame, tab_callback-Lacks}
use repo_init.Telnet.Commands.Switch.{asked}
use repo_init.Telnet.Update.Laws.{Kept, IsSafeHost}
use repo_init.Utils.Hasher.{const_hasher}

-- The server's callbacks and prompt as main sets them.
unfoldable pub main_host : Env → Bytes → Host
main_host env prompt = record {
  prompt_string = prompt;
  connected_callback = some (connected_callback env prompt);
  newline_callback = some (message_callback env prompt);
  tab_callback = some (tab_callback env prompt);
}

Frame-Kept : {s t : Session} → Frame s t → Kept s t
Frame-Kept f = ground arith

Kept-trans : {s t u : Session} → Kept s t → Kept t u → Kept s u
Kept-trans f g = ground arith

print_commands-Frame :
    (env : Env) (prompt : Bytes) (s : Session) (cmds : List (Bytes × Bytes))
    → Frame s (print_commands env prompt s cmds)
unfolding print_commands
print_commands-Frame env prompt s [] = Frame-refl s
print_commands-Frame env prompt s ((c, text) ∷ cmds) =
    Frame-trans (send_line-Frame env prompt s _)
      (print_commands-Frame env prompt (send_line env prompt s _) cmds)

pub print_available_commands-Frame :
    (env : Env) (prompt : Bytes) (s : Session) → Frame s (print_available_commands env prompt s)
unfolding print_available_commands
print_available_commands-Frame env prompt s =
    let s₁ = send_line env prompt s [] in
    let s₂ = send_line env prompt s₁ (codes "Available commands:") in
    Frame-trans (send_line-Frame env prompt s []) (
      Frame-trans (send_line-Frame env prompt s₁ (codes "Available commands:")) (
        Frame-trans (send_line-Frame env prompt s₂ [])
          (print_commands-Frame env prompt (send_line env prompt s₂ []) telnet_commands)))

send_status-Frame :
    (env : Env) (prompt : Bytes) (s : Session) (flags : List (Bytes × Bool))
    → Frame s (send_status env prompt s flags)
unfolding send_status
send_status-Frame env prompt s [] = Frame-refl s
send_status-Frame env prompt s (f ∷ flags) =
    Frame-trans (send_line-Frame env prompt s _)
      (send_status-Frame env prompt (send_line env prompt s _) flags)

-- The commands other than quit only send.
run_command-Frame :
    (env : Env) (prompt : Bytes) (s : Session) (w : World) (c : Option Command)
    → c ≢ some quit
    → Frame s (run_command env prompt s w c).0
unfolding run_command
run_command-Frame env prompt s w (some quit) h = absurd (h refl)
run_command-Frame env prompt s w (some help) h = print_available_commands-Frame env prompt s
run_command-Frame env prompt s w (some status) h = send_status-Frame env prompt s w.check_flags
run_command-Frame env prompt s w (some version) h = send_line-Frame env prompt s env.full_version
run_command-Frame env prompt s w (some _) h = send_line-Frame env prompt s _
run_command-Frame env prompt s w none h = send_line-Frame env prompt s _

run_quit-Frame :
    (env : Env) (prompt : Bytes) (s : Session) (w : World)
    → Frame (mark_timeout s) (run_command env prompt s w (some quit)).0
unfolding run_command mark_timeout
run_quit-Frame env prompt s w =
    let s₁ = send_line env prompt s (codes "Closing connection") in
    let f =
      Frame-trans (send_line-Frame env prompt s (codes "Closing connection"))
        (send_line-Frame env prompt s₁ (codes "Goodbye!")) in
    ground arith

message_callback-some :
    (env : Env) (prompt : Bytes) (s : Session) (w : World) (line : Bytes)
    → is_empty line ≡ false
    → message_callback env prompt s w line
      ≡ run_command env prompt (send_line env prompt s line) w (switch_on (const_hasher line))
unfolding message_callback
message_callback-some env prompt s w line h = rw (h, message_callback)

message_callback-empty :
    (env : Env) (prompt : Bytes) (s : Session) (w : World)
    → message_callback env prompt s w [] ≡ (send_line env prompt s [], w, true)
unfolding message_callback
message_callback-empty env prompt s w = refl

is_quit : (c : Option Command) → (c ≡ some quit) ⊎ (c ≢ some quit)
is_quit none = inr (λ e. cc)
is_quit (some quit) = inl refl
is_quit (some _) = inr (λ e. cc)

-- A line that does not ask for quit leaves all of the session but what it sent; one that does marks
-- it as timed out besides.
pub message_callback-Frame :
    (env : Env) (prompt : Bytes) (s : Session) (w : World) (line : Bytes)
    → (asked line ≢ some quit → Frame s (message_callback env prompt s w line).0)
      × (asked line ≡ some quit → Frame (mark_timeout s) (message_callback env prompt s w line).0)
message_callback-Frame env prompt s w [] =
    (λ n. rw message_callback-empty (send_line-Frame env prompt s []), λ q. cc)
message_callback-Frame env prompt s w (c ∷ line) =
    let l : Bytes = c ∷ line in
    let f = send_line-Frame env prompt s l in
    let s₁ : Session = send_line env prompt s l in
    (
      λ n.
          rw (message_callback-some env prompt s w l refl)
            (Frame-trans f (run_command-Frame env prompt s₁ w (switch_on (const_hasher l)) n)),
      λ q.
          rw (message_callback-some env prompt s w l refl, q)
            (Frame-trans (mark_timeout-Frame f) (run_quit-Frame env prompt s₁ w)),
    )
  where
    mark_timeout-Frame : {s t : Session} → Frame s t → Frame (mark_timeout s) (mark_timeout t)
    mark_timeout-Frame f = unfold mark_timeout in ground arith

message_callback-Kept :
    (env : Env) (prompt : Bytes) (s : Session) (w : World) (line : Bytes)
    → Kept s (message_callback env prompt s w line).0
unfolding mark_timeout
message_callback-Kept env prompt s w line =
    let f = message_callback-Frame env prompt s w line in
    elim (is_quit (asked line)) [
      | inl q ↦ let k = Frame-Kept (f.1 q) in ground arith
      | inr n ↦ Frame-Kept (f.0 n)
    ]

-- The callbacks that main installs leave the buffer, the history and the counters of commands alone,
-- and complete no line with a tab.
pub main_host-IsSafeHost : (env : Env) (prompt : Bytes) → IsSafeHost (main_host env prompt)
unfolding main_host
main_host-IsSafeHost env prompt = record {
  safe_tab = record {
    keeps_buffer = λ s w line. (tab_callback-Frame env prompt s w line).buffer;
    keeps_history = λ s w line.
        let f = tab_callback-Frame env prompt s w line in
        record { same_history = f.history; same_cursor = f.history_cursor };
    answers_clean = tab_callback-Lacks env prompt;
  };
  safe_line = message_callback-Kept env prompt;
}

-- A line that asks for quit makes the session time out at the next check, 121 seconds or more after
-- the clock's epoch; any other leaves the check as it was.
pub message_callback-timeout :
    (env : Env) (prompt : Bytes) (s : Session) (w : World) (line : Bytes) (now : ℕ)
    → 121 * ticks_per_second ≤ now
    → (asked line ≡ some quit → check_timeout (message_callback env prompt s w line).0 now ≡ true)
      × (asked line ≢ some quit
          → check_timeout (message_callback env prompt s w line).0 now ≡ check_timeout s now)
unfolding check_timeout mark_timeout
message_callback-timeout env prompt s w line now h =
    let f = message_callback-Frame env prompt s w line in
    (λ q. rw ((f.1 q).last_seen_time) (ground arith), λ n. rw ((f.0 n).last_seen_time))
