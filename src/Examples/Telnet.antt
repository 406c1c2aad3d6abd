-- ===== src/Examples/Telnet.antt =====
-- Uses of the theorems on the Telnet sessions.
use repo_init.Base.{
  All, [], ◌+◌, ◌*◌, ◌%◌, ◌≡◌, refl, ◌≢◌, ◌↔◌, inl, true, none, some, List, ◌∷◌, ◌++◌, arith, ltb,
  length, Bytes, codes, find, size_mod,
}
use repo_init.Examples.Data.{open_env, small_world, one_client, one_client-IsHistory, prompt_text}
use repo_init.Telnet.Backspace.{process_backspace}
use repo_init.Telnet.Backspace.Editor.{process_backspace-edited, edited}
use repo_init.Telnet.Commands.{telnet_commands, tab_callback, message_callback, quit, switch_on}
use repo_init.Telnet.Commands.Completion.{answer, matches, tab_callback-answer}
use repo_init.Telnet.Commands.Switch.{IsAscii, switch_on-disguise, asked}
use repo_init.Telnet.Escapes.{
  strip_escape_characters, strip_escape_characters-render, Token, byte, key, up, render, typed,
}
use repo_init.Telnet.History.{
  IsHistory, IsDownAtEnd, process_command_history, process_command_history-undefined,
}
use repo_init.Telnet.Lines.{
  crlf, get_complete_lines, IsCut, get_complete_lines-IsCut, get_complete_lines-append,
}
use repo_init.Telnet.Nvt.{strip_nvt, drop_commands, strip_nvt-drop_commands}
use repo_init.Telnet.Session.{Session, World, check_timeout, ticks_per_second}
use repo_init.Telnet.Tab.{process_tab, tabs}
use repo_init.Telnet.Tab.Laws.{KeepsHistory, process_tab-total}
use repo_init.Telnet.Update.{received, again, update, take_lines, take_in, reset_stats}
use repo_init.Telnet.Update.Counts.{
  verdicts, successes, failures, Grown, counted, take_lines-counts,
}
use repo_init.Telnet.Update.Installed.{main_host, main_host-IsSafeHost, message_callback-timeout}
use repo_init.Utils.Hasher.{const_hasher}
use repo_init.Telnet.Update.Laws.{update-IsHistory, update-undefined}

get_complete_lines-IsCut_example :
    IsCut one_client.buffer
      (get_complete_lines one_client.buffer).0
      (get_complete_lines one_client.buffer).1
get_complete_lines-IsCut_example = get_complete_lines-IsCut one_client.buffer

get_complete_lines-append_example : get_complete_lines (one_client.buffer ++ codes "lp") ≡ (
  (get_complete_lines one_client.buffer).0
      ++ (get_complete_lines ((get_complete_lines one_client.buffer).1 ++ codes "lp")).0,
  (get_complete_lines ((get_complete_lines one_client.buffer).1 ++ codes "lp")).1,
)
get_complete_lines-append_example = get_complete_lines-append one_client.buffer (codes "lp")

abbrev negotiation : Bytes
negotiation = 0x61 ∷ 0xff ∷ 0xfd ∷ 0x01 ∷ 0x62 ∷ 0xff ∷ []

strip_nvt-drop_commands_example : strip_nvt negotiation ≡ drop_commands negotiation
strip_nvt-drop_commands_example = strip_nvt-drop_commands negotiation

abbrev erasures : Bytes
erasures = 0x61 ∷ 0x62 ∷ 0x7f ∷ 0x63 ∷ []

process_backspace-edited_example : (process_backspace erasures).0 ≡ edited 0x7f erasures
process_backspace-edited_example = process_backspace-edited 0x7f erasures (
    inl (
      refl,
      ((λ e. omega arith), ((λ e. omega arith), ((λ e. omega arith), ((λ e. omega arith), tt)))),
    ))

process_command_history-undefined_example :
    (process_command_history open_env prompt_text one_client ≡ none)
    ↔ IsDownAtEnd prompt_text one_client
process_command_history-undefined_example =
    process_command_history-undefined open_env prompt_text one_client one_client-IsHistory

tab_callback-answer_example :
    tab_callback open_env prompt_text one_client small_world (codes "he")
    ≡ answer open_env prompt_text one_client small_world (matches (codes "he") telnet_commands)
tab_callback-answer_example =
    tab_callback-answer open_env prompt_text one_client small_world (codes "he")

switch_on-disguise_example :
    let r = message_callback open_env prompt_text one_client small_world (codes "ping") in
    let r' = message_callback open_env prompt_text one_client small_world (codes "Ojng") in
    (codes "Ojng" ≢ codes "ping")
    × (switch_on (const_hasher (codes "Ojng")) ≡ switch_on (const_hasher (codes "ping")))
    × (r'.1 ≡ r.1)
    × (r'.2 ≡ r.2)
    × (All IsAscii (codes "ping") → All IsAscii (codes "Ojng"))
switch_on-disguise_example =
    switch_on-disguise open_env prompt_text one_client small_world 112 105 (codes "ng")
      (omega arith) (omega arith) (omega arith) (omega arith)

message_callback-timeout_example :
    (asked (codes "quit") ≡ some quit
      → check_timeout
          (message_callback open_env prompt_text one_client small_world (codes "quit")).0
          (500 * ticks_per_second)
        ≡ true)
    × (asked (codes "quit") ≢ some quit
        → check_timeout
            (message_callback open_env prompt_text one_client small_world (codes "quit")).0
            (500 * ticks_per_second)
          ≡ check_timeout one_client (500 * ticks_per_second))
message_callback-timeout_example =
    message_callback-timeout open_env prompt_text one_client small_world (codes "quit")
      (500 * ticks_per_second) (omega arith)

process_tab-total_example :
    (s' : Session) × (w' : World) × (process_tab
        (main_host open_env prompt_text)
        one_client
        small_world
      ≡ some (s', w', ltb 0 (tabs one_client.buffer)))
    × (tabs s'.buffer ≡ 0)
    × KeepsHistory one_client s'
process_tab-total_example =
    process_tab-total (main_host open_env prompt_text) one_client small_world
      ((main_host-IsSafeHost open_env prompt_text).safe_tab)

update-undefined_example :
    (update open_env
        (main_host open_env prompt_text)
        9
        (received (0x1b ∷ codes "[B"))
        one_client
        small_world
      ≡ none)
    ↔ IsDownAtEnd
        (main_host open_env prompt_text).prompt_string
        (take_in open_env 9 (reset_stats one_client) (0x1b ∷ codes "[B"))
update-undefined_example =
    update-undefined open_env (main_host open_env prompt_text) 9 0x1b (codes "[B") one_client
      small_world (main_host-IsSafeHost open_env prompt_text) one_client-IsHistory

update-IsHistory_example : IsHistory (reset_stats one_client)
update-IsHistory_example =
    update-IsHistory open_env (main_host open_env prompt_text) 9 again one_client
      (reset_stats one_client) small_world small_world (main_host-IsSafeHost open_env prompt_text)
      one_client-IsHistory (unfold update in refl)

take_lines-counts_example :
    let bs =
      verdicts
        (message_callback open_env prompt_text)
        (record one_client { buffer = (get_complete_lines one_client.buffer).1 })
        small_world
        (get_complete_lines one_client.buffer).0 in
    Grown
      (successes bs)
      (failures bs)
      one_client
      (take_lines open_env (main_host open_env prompt_text) true one_client small_world).0
    × (counted (take_lines open_env (main_host open_env prompt_text) true one_client small_world).0
          % size_mod
        ≡ (counted one_client + length (get_complete_lines one_client.buffer).0) % size_mod)
    × ((take_lines open_env (main_host open_env prompt_text) true one_client small_world).0.buffer
        ≡ (get_complete_lines one_client.buffer).1)
    × (find crlf (
          (take_lines open_env
            (main_host open_env prompt_text)
            true
            one_client
            small_world).0.buffer)
        ≡ none)
unfolding main_host
take_lines-counts_example =
    take_lines-counts open_env (main_host open_env prompt_text)
      (message_callback open_env prompt_text) true one_client small_world refl
      (main_host-IsSafeHost open_env prompt_text).safe_line

abbrev arrows : List Token
arrows = byte 0x61 ∷ key up ∷ byte 0x62 ∷ []

strip_escape_characters-render_example : strip_escape_characters (render arrows) ≡ typed arrows
strip_escape_characters-render_example =
    strip_escape_characters-render arrows ((λ e. omega arith), ((λ e. omega arith), tt))
