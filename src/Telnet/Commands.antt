-- ===== src/Telnet/Commands.antt =====
-- The callbacks of src/telnet/TelnetServer.cpp: the commands that a Telnet session understands.
pub mod Switch
pub mod Completion
use repo_init.Base.{
  [], ℕ, suc, ◌+◌, ◌-◌, Bool, true, false, not, ◌&&◌, Option, none, some, List, ◌∷◌, ◌++◌, ◌==◌,
  if◌then◌else◌, length, is_empty, replicate, Bytes, codes, starts_with,
}
use repo_init.Telnet.Session.{Env, World, Session, send_line, mark_timeout}
use repo_init.Utils.Hasher.{const_hasher}
use repo_init.Logging.Level.{Level, trace, debug, info, off, default_level}

-- The command table, each entry with its description.
abbrev pub telnet_commands : List (Bytes × Bytes)
telnet_commands =
    (codes "clear", codes "Clears the terminal screen")
    ∷ (codes "disable log", codes "Resets logger level")
    ∷ (
      codes "enable log",
      codes
          "Enable specified logger level. Level can be \"v\" (info), \"vv\" (debug) and \"vvv\" (trace)",
    )
    ∷ (codes "help", codes "Prints available commands")
    ∷ (codes "ping", codes "Pings the server")
    ∷ (codes "status", codes "Checks the internal status")
    ∷ (codes "version", codes "Displays the current version")
    ∷ (codes "quit", codes "Ends the connection")
    ∷ []

-- The banner, in UTF-8.
abbrev pub banner : Bytes
banner =
    0x0d ∷ 0x0a ∷ 0xf0 ∷ 0x9d ∷ 0x91 ∷ 0xb2 ∷ 0xf0 ∷ 0x9d ∷ 0x92 ∷ 0x86 ∷ 0xf0 ∷ 0x9d ∷ 0x92 ∷ 0x86
    ∷ 0xf0 ∷ 0x9d ∷ 0x92 ∷ 0x91 ∷ 0x20 ∷ 0xf0 ∷ 0x9d ∷ 0x92 ∷ 0x9a ∷ 0xf0 ∷ 0x9d ∷ 0x92 ∷ 0x90
    ∷ 0xf0 ∷ 0x9d ∷ 0x92 ∷ 0x96 ∷ 0xf0 ∷ 0x9d ∷ 0x92 ∷ 0x93 ∷ 0x20 ∷ 0xf0 ∷ 0x9d ∷ 0x92 ∷ 0x86
    ∷ 0xf0 ∷ 0x9d ∷ 0x92 ∷ 0x9a ∷ 0xf0 ∷ 0x9d ∷ 0x92 ∷ 0x86 ∷ 0xf0 ∷ 0x9d ∷ 0x92 ∷ 0x94 ∷ 0x20
    ∷ 0xf0 ∷ 0x9d ∷ 0x92 ∷ 0x90 ∷ 0xf0 ∷ 0x9d ∷ 0x92 ∷ 0x8f ∷ 0x20 ∷ 0xf0 ∷ 0x9d ∷ 0x92 ∷ 0x95
    ∷ 0xf0 ∷ 0x9d ∷ 0x92 ∷ 0x89 ∷ 0xf0 ∷ 0x9d ∷ 0x92 ∷ 0x86 ∷ 0x20 ∷ 0xf0 ∷ 0x9d ∷ 0x92 ∷ 0x94
    ∷ 0xf0 ∷ 0x9d ∷ 0x92 ∷ 0x95 ∷ 0xf0 ∷ 0x9d ∷ 0x92 ∷ 0x82 ∷ 0xf0 ∷ 0x9d ∷ 0x92 ∷ 0x93 ∷ 0xf0
    ∷ 0x9d ∷ 0x92 ∷ 0x94 ∷ 0x20 ∷ 0xf0 ∷ 0x9d ∷ 0x92 ∷ 0x82 ∷ 0xf0 ∷ 0x9d ∷ 0x92 ∷ 0x8f ∷ 0xf0
    ∷ 0x9d ∷ 0x92 ∷ 0x85 ∷ 0x20 ∷ 0xf0 ∷ 0x9d ∷ 0x92 ∷ 0x9a ∷ 0xf0 ∷ 0x9d ∷ 0x92 ∷ 0x90 ∷ 0xf0
    ∷ 0x9d ∷ 0x92 ∷ 0x96 ∷ 0xf0 ∷ 0x9d ∷ 0x92 ∷ 0x93 ∷ 0x20 ∷ 0xf0 ∷ 0x9d ∷ 0x92 ∷ 0x87 ∷ 0xf0
    ∷ 0x9d ∷ 0x92 ∷ 0x86 ∷ 0xf0 ∷ 0x9d ∷ 0x92 ∷ 0x86 ∷ 0xf0 ∷ 0x9d ∷ 0x92 ∷ 0x95 ∷ 0x20 ∷ 0xf0
    ∷ 0x9d ∷ 0x92 ∷ 0x90 ∷ 0xf0 ∷ 0x9d ∷ 0x92 ∷ 0x8f ∷ 0x20 ∷ 0xf0 ∷ 0x9d ∷ 0x92 ∷ 0x95 ∷ 0xf0
    ∷ 0x9d ∷ 0x92 ∷ 0x89 ∷ 0xf0 ∷ 0x9d ∷ 0x92 ∷ 0x86 ∷ 0x20 ∷ 0xf0 ∷ 0x9d ∷ 0x92 ∷ 0x88 ∷ 0xf0
    ∷ 0x9d ∷ 0x92 ∷ 0x93 ∷ 0xf0 ∷ 0x9d ∷ 0x92 ∷ 0x90 ∷ 0xf0 ∷ 0x9d ∷ 0x92 ∷ 0x96 ∷ 0xf0 ∷ 0x9d
    ∷ 0x92 ∷ 0x8f ∷ 0xf0 ∷ 0x9d ∷ 0x92 ∷ 0x85 ∷ 0x20 ∷ 0x0d ∷ 0x0a ∷ []

-- Alignment to the left and to the right with a fill byte, as std::format and setw do it.
abbrev pub pad_right : ℕ → ℕ → Bytes → Bytes
pad_right fill width s = s ++ replicate (width - length s) fill

abbrev pub pad_left : ℕ → ℕ → Bytes → Bytes
pad_left fill width s = replicate (width - length s) fill ++ s

abbrev pub key_width : ℕ
key_width = 30

abbrev pub val_width : ℕ
val_width = 15

unfoldable pub print_commands : Env → Bytes → Session → List (Bytes × Bytes) → Session
print_commands env prompt s [] = s
print_commands env prompt s ((command, text) ∷ rest) =
    print_commands env prompt
      (send_line env prompt s (pad_right b' ' 25 command ++ (codes " : " ++ text))) rest

-- TelnetPrintAvailableCommands
unfoldable pub print_available_commands : Env → Bytes → Session → Session
unfolding print_commands
print_available_commands env prompt s =
    let s₁ = send_line env prompt s [] in
    let s₂ = send_line env prompt s₁ (codes "Available commands:") in
    let s₃ = send_line env prompt s₂ [] in print_commands env prompt s₃ telnet_commands

-- TelnetConnectedCallback
unfoldable pub connected_callback : Env → Bytes → Session → World → Session × World
connected_callback env prompt s w =
    (print_available_commands env prompt (send_line env prompt s banner), w)

-- The cases of the switch.
pub data Command : Type 0 where
  test_message help disable_log disable_log_all enable_log_v enable_log_vv enable_log_vvv ping
        version clear status quit :
      Command

abbrev pub label : Command → Bytes
label test_message = codes "Test Message"
label help = codes "help"
label disable_log = codes "disable log"
label disable_log_all = codes "disable log all"
label enable_log_v = codes "enable log v"
label enable_log_vv = codes "enable log vv"
label enable_log_vvv = codes "enable log vvv"
label ping = codes "ping"
label version = codes "version"
label clear = codes "clear"
label status = codes "status"
label quit = codes "quit"

-- The switch compares the hash of the line with that of each label.
unfoldable pub switch_on : ℕ → Option Command
unfolding const_hasher
switch_on h =
    if h == const_hasher (label test_message)
    then some test_message
    else if h == const_hasher (label help)
    then some help
    else if h == const_hasher (label disable_log)
    then some disable_log
    else if h == const_hasher (label disable_log_all)
    then some disable_log_all
    else if h == const_hasher (label enable_log_v)
    then some enable_log_v
    else if h == const_hasher (label enable_log_vv)
    then some enable_log_vv
    else if h == const_hasher (label enable_log_vvv)
    then some enable_log_vvv
    else if h == const_hasher (label ping)
    then some ping
    else if h == const_hasher (label version)
    then some version
    else if h == const_hasher (label clear)
    then some clear
    else if h == const_hasher (label status)
    then some status
    else if h == const_hasher (label quit)
    then some quit
    else none

abbrev status_line : Bytes × Bool → Bytes
status_line (service, flag) =
    pad_right b'.' key_width (service ++ codes " ")
    ++ (pad_left b'.' val_width (if flag then codes " OK" else codes " Not Active") ++ codes " ")

unfoldable pub send_status : Env → Bytes → Session → List (Bytes × Bool) → Session
send_status env prompt s [] = s
send_status env prompt s (flag ∷ flags) =
    send_status env prompt (send_line env prompt s (status_line flag)) flags

abbrev pub clear_screen : Bytes
clear_screen = 0x1b ∷ codes "[2J"

-- The body of each case, and of the default case.
unfoldable pub run_command : Env → Bytes → Session → World → Option Command → Session × World × Bool
unfolding send_status
run_command env prompt s w (some test_message) = (send_line env prompt s (codes "OK"), w, true)
run_command env prompt s w (some help) = (print_available_commands env prompt s, w, true)
run_command env prompt s w (some disable_log) = (
  send_line env prompt s (codes "Default log mode enabled"),
  record w { log_level = default_level env.ndebug },
  true,
)
run_command env prompt s w (some disable_log_all) =
    (send_line env prompt s (codes "Disabling all logs"), record w { log_level = off }, true)
run_command env prompt s w (some enable_log_v) =
    (send_line env prompt s (codes "Info log mode enabled"), record w { log_level = info }, true)
run_command env prompt s w (some enable_log_vv) =
    (send_line env prompt s (codes "Debug log mode enabled"), record w { log_level = debug }, true)
run_command env prompt s w (some enable_log_vvv) =
    (send_line env prompt s (codes "Trace log mode enabled"), record w { log_level = trace }, true)
run_command env prompt s w (some ping) = (send_line env prompt s (codes "pong"), w, true)
run_command env prompt s w (some version) = (send_line env prompt s env.full_version, w, true)
run_command env prompt s w (some clear) = (send_line env prompt s clear_screen, w, true)
run_command env prompt s w (some status) = (send_status env prompt s w.check_flags, w, true)
run_command env prompt s w (some quit) =
    let s₁ = send_line env prompt s (codes "Closing connection") in
    (mark_timeout (send_line env prompt s₁ (codes "Goodbye!")), w, true)
run_command env prompt s w none =
    (send_line env prompt s (codes "Unknown command received"), w, false)

-- TelnetMessageCallback
unfoldable pub message_callback : Env → Bytes → Session → World → Bytes → Session × World × Bool
unfolding run_command
message_callback env prompt s w line =
    let s₁ = send_line env prompt s line in
    if is_empty line
    then (s₁, w, true)
    else run_command env prompt s₁ w (switch_on (const_hasher line))

-- The loop of TelnetTabCallback: the count, the last match, the stream, and the width set on it.
pub record TabScan : Type 0 where
  pub ctr : ℕ
  pub retval : Bytes
  pub stream : Bytes
  pub width : ℕ

abbrev pub scan_match : TabScan → Bytes → TabScan
scan_match t command = record {
  ctr = suc t.ctr;
  retval = command;
  stream = t.stream ++ pad_left b' ' t.width command;
  width = key_width;
}

unfoldable pub tab_scan : Bytes → List (Bytes × Bytes) → TabScan → TabScan
tab_scan line [] t = t
tab_scan line ((command, text) ∷ rest) t =
    tab_scan line rest (if starts_with line command then scan_match t command else t)

abbrev pub empty_scan : TabScan
empty_scan = record { ctr = 0; retval = []; stream = []; width = 0 }

-- TelnetTabCallback
unfoldable pub tab_callback : Env → Bytes → Session → World → Bytes → Session × World × Bytes
unfolding tab_scan
tab_callback env prompt s w line =
    let t = tab_scan line telnet_commands empty_scan in
    if not (t.ctr == 1) && not (is_empty t.stream)
    then (send_line env prompt s t.stream, w, [])
    else (s, w, t.retval)
