-- ===== src/Examples/Pieces.antt =====
-- Uses of the theorems on text that reaches a session in pieces.
use repo_init.Base.{ℕ, ◌≡◌, refl, some, List, [], ◌∷◌, ◌++◌, Bytes, codes, find_byte-Lacks}
use repo_init.Examples.Data.{open_env, small_world, one_client, prompt_text}
use repo_init.Telnet.Lines.{get_complete_lines}
use repo_init.Telnet.Session.{Session, World}
use repo_init.Telnet.Update.Installed.{main_host}
use repo_init.Telnet.Update.Pieces.{
  receive_all, joined, level_after, receive_all-get_complete_lines,
}
use repo_init.Telnet.Update.Text.{IsText}

abbrev typing_client : Session
typing_client = record one_client { buffer = codes "disable" }

-- A line whose end comes in two pieces.
abbrev first_piece : Bytes
first_piece = codes " log all" ++ 0x0d ∷ []

abbrev second_piece : Bytes
second_piece = 0x0a ∷ codes "pi"

abbrev pieces : List (ℕ × Bytes)
pieces = (8, first_piece) ∷ (9, second_piece) ∷ []

first_piece-IsText : IsText first_piece
first_piece-IsText = record {
  no_command = find_byte-Lacks _ first_piece refl;
  no_escape = find_byte-Lacks _ first_piece refl;
  no_delete = find_byte-Lacks _ first_piece refl;
  no_backspace = find_byte-Lacks _ first_piece refl;
  no_tab = find_byte-Lacks _ first_piece refl;
}

second_piece-IsText : IsText second_piece
second_piece-IsText = record {
  no_command = find_byte-Lacks _ second_piece refl;
  no_escape = find_byte-Lacks _ second_piece refl;
  no_delete = find_byte-Lacks _ second_piece refl;
  no_backspace = find_byte-Lacks _ second_piece refl;
  no_tab = find_byte-Lacks _ second_piece refl;
}

typing_client-IsText : IsText typing_client.buffer
typing_client-IsText = record {
  no_command = find_byte-Lacks _ typing_client.buffer refl;
  no_escape = find_byte-Lacks _ typing_client.buffer refl;
  no_delete = find_byte-Lacks _ typing_client.buffer refl;
  no_backspace = find_byte-Lacks _ typing_client.buffer refl;
  no_tab = find_byte-Lacks _ typing_client.buffer refl;
}

receive_all-get_complete_lines_example :
    let (lines, rest) = get_complete_lines (typing_client.buffer ++ joined pieces) in
    (s' : Session) × (w' : World) × (receive_all open_env
        (main_host open_env prompt_text)
        pieces
        typing_client
        small_world
      ≡ some (s', w'))
    × (s'.buffer ≡ rest)
    × (w'.log_level ≡ level_after open_env.ndebug small_world.log_level lines)
receive_all-get_complete_lines_example =
    receive_all-get_complete_lines open_env prompt_text pieces typing_client small_world refl
      typing_client-IsText (first_piece-IsText, (second_piece-IsText, tt))
