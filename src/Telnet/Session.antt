-- ===== src/Telnet/Session.antt =====
-- TelnetSession: its state, what it sends, its timeout, and the set-up of a connection.
-- Times are in ticks of the clocks, nanoseconds; the peer is what `send` answers.
pub mod Frame
use repo_init.Base.{
  [], ℕ, suc, ◌+◌, ◌-◌, ◌/◌, Bool, not, ◌||◌, Option, none, some, List, ◌∷◌, ◌++◌, ltb, leb, ◌==◌,
  if◌then◌else◌, is_empty, Bytes, codes, add_size,
}
use repo_init.Logging.Level.{Level}
use repo_init.Telnet.Lines.{crlf}
use repo_init.Telnet.Nvt.{nvt_command}

-- The value of send: -1, or the number of bytes taken.
pub data SendResult : Type 0 where
  failed : SendResult
  count : ℕ → SendResult

-- What the program does not compute itself: the build's constants, and the answer of the network to
-- the bytes sent now on a socket, given what was sent on it before.
pub record Env : Type 0 where
  pub ndebug : Bool
  pub full_version : Bytes
  pub send_result : ℕ → List Bytes → Bytes → SendResult

-- The process state that callbacks reach: spdlog's level and the runtime check flags.
pub record World : Type 0 where
  pub log_level : Level
  pub check_flags : List (Bytes × Bool)

pub record Session : Type 0 where
  pub connect_time : ℕ
  pub disconnect_time : ℕ
  pub upload_bytes : ℕ
  pub download_bytes : ℕ
  pub success_cmd_ctr : ℕ
  pub fail_cmd_ctr : ℕ
  pub last_seen_time : ℕ
  pub socket : ℕ
  pub buffer : Bytes
  pub history : List Bytes
  pub history_cursor : ℕ
  -- what was passed to `send`, in order, and the calls of `close` on the socket
  pub wire : List Bytes
  pub closes : ℕ

abbrev pub ConnectedCallback : Type 0
ConnectedCallback = Session → World → Session × World

abbrev pub NewLineCallback : Type 0
NewLineCallback = Session → World → Bytes → Session × World × Bool

abbrev pub TabCallback : Type 0
TabCallback = Session → World → Bytes → Session × World × Bytes

-- What a session reads of its server: the prompt and the callbacks, which may be unset.
pub record Host : Type 0 where
  pub prompt_string : Bytes
  pub connected_callback : Option ConnectedCallback
  pub newline_callback : Option NewLineCallback
  pub tab_callback : Option TabCallback

abbrev pub interactive_prompt : Bytes → Bool
interactive_prompt prompt = not (is_empty prompt)

-- The constructor.
unfoldable pub new_session : ℕ → Session
new_session client_socket = record {
  connect_time = 0;
  disconnect_time = 0;
  upload_bytes = 0;
  download_bytes = 0;
  success_cmd_ctr = 0;
  fail_cmd_ctr = 0;
  last_seen_time = 0;
  socket = client_socket;
  buffer = [];
  history = [];
  history_cursor = 0;
  wire = [];
  closes = 0;
}

abbrev pub erase_line_code : Bytes
erase_line_code = 0x1b ∷ codes "[2K"

abbrev pub move_back : Bytes
move_back = 0x1b ∷ codes "[80D"

-- std::chrono::duration_cast<std::chrono::seconds>
abbrev pub ticks_per_second : ℕ
ticks_per_second = 1_000_000_000

abbrev pub telnet_timeout : ℕ
telnet_timeout = 120

-- `send`, with `if (sendBytes > 0) stats.uploadBytes += sendBytes` behind it.
unfoldable pub transmit : Env → Session → Bytes → Session
transmit env s text = elim (env.send_result s.socket s.wire text) [
  | failed ↦ record s { wire = s.wire ++ text ∷ [] }
  | count n ↦ record s {
    wire = s.wire ++ text ∷ [];
    upload_bytes = if ltb 0 n then add_size s.upload_bytes n else s.upload_bytes;
  }
]

unfoldable pub send_prompt_and_buffer : Env → Bytes → Session → Session
send_prompt_and_buffer env prompt s =
    let s₁ = transmit env s prompt in if is_empty s₁.buffer then s₁ else transmit env s₁ s₁.buffer

unfoldable pub erase_line : Env → Session → Session
erase_line env s = transmit env (transmit env s erase_line_code) move_back

unfoldable pub send_line : Env → Bytes → Session → Bytes → Session
send_line env prompt s text =
    let wipe = interactive_prompt prompt || not (is_empty s.buffer) in
    let s₁ = if wipe then erase_line env s else s in
    let s₂ = transmit env s₁ (text ++ crlf) in
    if interactive_prompt prompt then send_prompt_and_buffer env prompt s₂ else s₂

unfoldable pub close_client : Session → ℕ → Session
close_client s now = record s { closes = suc s.closes; disconnect_time = now }

abbrev pub distance : ℕ → ℕ → ℕ
distance a b = if leb b a then a - b else b - a

unfoldable pub check_timeout : Session → ℕ → Bool
check_timeout s now = ltb telnet_timeout (distance now s.last_seen_time / ticks_per_second)

unfoldable pub mark_timeout : Session → Session
mark_timeout s = record s { last_seen_time = 0 }

-- The first byte decides; `text` is what was received, which is not empty.
unfoldable pub echo_back : Env → Session → Bytes → Session
echo_back env s [] = s
echo_back env s (c ∷ text) = if c == nvt_command then s else transmit env s (c ∷ text)

unfoldable pub initialise : Env → Host → Session → World → ℕ → ℕ → Session × World
initialise env host s w now_connect now_seen =
    let s₁ = record s { connect_time = now_connect } in
    let s₂ = transmit env s₁ (0xff ∷ 0xfb ∷ 0x01 ∷ []) in
    let s₃ = transmit env s₂ (0xff ∷ 0xfe ∷ 0x01 ∷ []) in
    let s₄ = transmit env s₃ (0xff ∷ 0xfb ∷ 0x03 ∷ []) in
    let (s₅, w') = (elim host.connected_callback as (λ _. Session × World) [
      | none ↦ (s₄, w)
      | some f ↦ f s₄ w
    ]) in
    (record s₅ { last_seen_time = now_seen }, w')
