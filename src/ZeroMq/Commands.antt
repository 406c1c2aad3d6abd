-- ===== src/ZeroMq/Commands.antt =====
-- ZeroMQServerMessageCallback of src/zeromq/ZeroMQServer.cpp: the requests of the control socket.
use repo_init.Base.{
  [], ℕ, suc, ◌+◌, ◌-◌, ◌*◌, ◌/◌, ◌%◌, ◌^◌, ◌<◌, ◌≡◌, refl, ap, ◌∙◌, ◌≢◌, ◌↔◌, ◌⊎◌, inl, inr, Bool,
  true, false, Option, none, some, List, ◌∷◌, ◌++◌, append_assoc, arith, ◌==◌, if◌then◌else◌,
  Option-cases, length, is_empty, take, length-append, take-length, Bytes, codes, str_eq,
}
use repo_init.Logging.Level.{Level, trace, debug, info, default_level}
use repo_init.Telnet.Session.{World}

-- The constants of the build, and libzmq's codes for a handshake.
pub record ZeroMqEnv : Type 0 where
  pub ndebug : Bool
  pub full_version : Bytes
  pub handshake_failed : ℕ
  pub handshake_succeeded : ℕ

-- The value of four bytes in memory; the machine is little-endian.
abbrev pub join_uint32 : ℕ → ℕ → ℕ → ℕ → ℕ
join_uint32 a b c d = (a + b * 2 ^ 8 + c * 2 ^ 16 + d * 2 ^ 24) % 2 ^ 32

-- The dereferenced pointer; fewer than four bytes are read beyond the message.
unfoldable pub read_uint32 : Bytes → Option ℕ
read_uint32 (a ∷ b ∷ c ∷ d ∷ _) = some (join_uint32 a b c d)
read_uint32 _ = none

unfoldable pub write_uint32 : ℕ → Bytes
write_uint32 n =
    (n % 2 ^ 8) ∷ (n / 2 ^ 8 % 2 ^ 8) ∷ (n / 2 ^ 16 % 2 ^ 8) ∷ (n / 2 ^ 24 % 2 ^ 8) ∷ []

-- LOG_LEVEL_ID, VERSION_INFO_ID, PING_PONG_ID and STATUS_CHECK_ID.
abbrev pub log_level_id : ℕ
log_level_id = join_uint32 b'L' b'O' b'G' b'L'

abbrev pub version_info_id : ℕ
version_info_id = join_uint32 b'V' b'E' b'R' b'I'

abbrev pub ping_pong_id : ℕ
ping_pong_id = join_uint32 b'P' b'I' b'N' b'G'

abbrev pub status_check_id : ℕ
status_check_id = join_uint32 b'S' b'C' b'H' b'K'

-- The four tests in their order, each of which sets the level.
unfoldable pub set_level : Bool → Bytes → Level → Level
set_level ndebug text level =
    let l₁ = if str_eq text (codes "v") then info else level in
    let l₂ = if str_eq text (codes "vv") then debug else l₁ in
    let l₃ = if str_eq text (codes "vvv") then trace else l₂ in
    if str_eq text (codes "r") then default_level ndebug else l₃

unfoldable pub status_entries : List (Bytes × Bool) → Bytes
status_entries [] = []
status_entries ((process, flag) ∷ flags) =
    codes "\""
    ++ process
    ++ codes "\":"
    ++ (if flag then codes "1," else codes "0,")
    ++ status_entries flags

-- The body for a status check: the last character is replaced.
unfoldable pub status_body : List (Bytes × Bool) → Bytes
unfolding status_entries
status_body flags =
    let text = codes "{" ++ status_entries flags in take (length text - 1) text ++ codes "}"

-- What a case of the switch leaves: the process state, and the body of a reply that says success.
-- `none` is a `break` that leaves the reply as a failure. `rest` is what follows the first part.
unfoldable pub change_log_level : ZeroMqEnv → World → List Bytes → World × Option Bytes
unfolding set_level
change_log_level env w (text ∷ []) =
    (record w { log_level = set_level env.ndebug text w.log_level }, some [])
change_log_level env w rest = (w, none)

unfoldable pub run_request : ZeroMqEnv → World → ℕ → List Bytes → World × Option Bytes
unfolding change_log_level status_body
run_request env w id rest =
    if id == log_level_id
    then change_log_level env w rest
    else if id == version_info_id
    then (w, if is_empty rest then some env.full_version else none)
    else if id == ping_pong_id
    then (w, if is_empty rest then some (codes "PONG") else none)
    else if id == status_check_id
    then (w, if is_empty rest then some (status_body w.check_flags) else none)
    else (w, none)

-- The reply's parts.
unfoldable pub reply_parts : ZeroMqEnv → Option Bytes → List Bytes
unfolding write_uint32
reply_parts env none = write_uint32 env.handshake_failed ∷ [] ∷ []
reply_parts env (some body) = write_uint32 env.handshake_succeeded ∷ body ∷ []

-- `reply == ZMQ_EVENT_HANDSHAKE_SUCCEEDED`.
unfoldable pub reply_succeeded : ZeroMqEnv → Option Bytes → Bool
reply_succeeded env none = env.handshake_failed == env.handshake_succeeded
reply_succeeded env (some body) = env.handshake_succeeded == env.handshake_succeeded

-- ZeroMQServerMessageCallback: the process state, the reply's parts and the result. `none` is a read
-- outside of the messages.
unfoldable pub message_callback :
    ZeroMqEnv → World → List Bytes → Option (World × List Bytes × Bool)
unfolding run_request reply_parts read_uint32 reply_succeeded
message_callback env w [] = none
message_callback env w (head ∷ rest) =
    elim (read_uint32 head) as (λ _. Option (World × List Bytes × Bool)) [
      | none ↦ none
      | some id ↦
          let (w', body) = run_request env w id rest in
          some (w', reply_parts env body, reply_succeeded env body)
    ]

-- The number of parts that a request of each kind has; any other identifier is no request.
abbrev pub IsRequest : ℕ → ℕ → Type 0
IsRequest id parts =
    ((id ≡ log_level_id) × (parts ≡ 2))
    ⊎ (((id ≡ version_info_id) ⊎ (id ≡ ping_pong_id) ⊎ (id ≡ status_check_id)) × (parts ≡ 1))

-- A message of four bytes or more reads as an identifier, so the callback answers it with two parts,
-- of which the first is one of the two codes.
pub message_callback-parts :
    (env : ZeroMqEnv) (w : World) (a b c d : ℕ) (tail : Bytes) (rest : List Bytes)
    → (w' : World) × (body : Option Bytes) × (message_callback env w ((a ∷ b ∷ c ∷ d ∷ tail) ∷ rest)
        ≡ some (w', reply_parts env body, reply_succeeded env body))
      × (length (reply_parts env body) ≡ 2)
unfolding message_callback read_uint32 reply_parts
message_callback-parts env w a b c d tail rest =
    let (w', body) = run_request env w (join_uint32 a b c d) rest in
    (
      w',
      body,
      refl,
      elim body as (λ o. length (reply_parts env o) ≡ 2) [ none ↦ refl | some t ↦ refl ],
    )

run_request-some :
    (env : ZeroMqEnv) (w : World) (id : ℕ) (rest : List Bytes)
    → ((run_request env w id rest).1 ≢ none) ↔ IsRequest id (suc (length rest))
unfolding run_request change_log_level
run_request-some env w id [] = ground arith
run_request-some env w id (text ∷ []) = ground arith
run_request-some env w id (text ∷ more ∷ rest) = ground arith

-- The callback succeeds exactly on a request with the number of parts that its kind has; the reply
-- then carries the code of success, and the code of failure otherwise, before the body.
pub message_callback-result :
    (env : ZeroMqEnv) (w : World) (a b c d : ℕ) (tail : Bytes) (rest : List Bytes)
    → env.handshake_failed ≢ env.handshake_succeeded
    → (w' : World) × (code : ℕ) × (body : Bytes) × (result : Bool) × (message_callback env w
          ((a ∷ b ∷ c ∷ d ∷ tail) ∷ rest)
        ≡ some (w', write_uint32 code ∷ body ∷ [], result))
      × ((result ≡ true) ↔ IsRequest (join_uint32 a b c d) (suc (length rest)))
      × (result ≡ true → code ≡ env.handshake_succeeded)
      × (result ≡ false → (code ≡ env.handshake_failed) × (body ≡ []))
unfolding message_callback read_uint32 reply_parts reply_succeeded
message_callback-result env w a b c d tail rest differ =
    let id = join_uint32 a b c d in
    let w' = (run_request env w id rest).0 in
    let known = run_request-some env w id rest in
    elim (Option-cases (run_request env w id rest).1) [
      | inl n ↦ (
        w',
        env.handshake_failed,
        [],
        false,
        ground (arith, n),
        (λ e. ground arith, λ q. absurd (known.1 q n)),
        λ e. ground arith,
        λ e. (refl, refl),
      )
      | inr (body, h) ↦ (
        w',
        env.handshake_succeeded,
        body,
        true,
        ground (arith, h),
        (λ e. known.0 (λ n. ground arith), λ q. refl),
        λ e. refl,
        λ e. ground arith,
      )
    ]

-- A code written by the callback reads back as it was, if it fits 32 bits.
pub read_uint32-write_uint32 : (n : ℕ) → n < 2 ^ 32 → read_uint32 (write_uint32 n) ≡ some n
unfolding read_uint32 write_uint32
read_uint32-write_uint32 n h = ap some (omega arith)

abbrev flag_entry : Bytes × Bool → Bytes
flag_entry (process, flag) =
    codes "\"" ++ process ++ codes "\":" ++ (if flag then codes "1" else codes "0")

-- The entries with a comma between them.
unfoldable pub join_entries : List (Bytes × Bool) → Bytes
join_entries [] = []
join_entries (flag ∷ []) = flag_entry flag
join_entries (flag ∷ flags) = flag_entry flag ++ codes "," ++ join_entries flags

take-last : (s : Bytes) (c : ℕ) → take (length (s ++ c ∷ []) - 1) (s ++ c ∷ []) ≡ s
take-last s c =
    let e : length (s ++ c ∷ []) - 1 ≡ length s = omega (arith, length-append s (c ∷ [])) in
    rw e (take-length s (c ∷ []))

status_entries-join :
    (flag : Bytes × Bool) (flags : List (Bytes × Bool))
    → status_entries (flag ∷ flags) ≡ join_entries (flag ∷ flags) ++ codes ","
unfolding status_entries join_entries
status_entries-join (process, true) [] = simp append_assoc
status_entries-join (process, false) [] = simp append_assoc
status_entries-join (process, true) (flag ∷ flags) =
    rw (status_entries-join flag flags) (simp append_assoc)
status_entries-join (process, false) (flag ∷ flags) =
    rw (status_entries-join flag flags) (simp append_assoc)

-- The answer to a status check, if there is a flag, holds the flags in their order between braces,
-- with a comma between two of them; with no flag it is a closing brace alone.
pub status_body-join :
    (flags : List (Bytes × Bool))
    → (is_empty flags ≡ false → status_body flags ≡ codes "{" ++ join_entries flags ++ codes "}")
      × (is_empty flags ≡ true → status_body flags ≡ codes "}")
unfolding status_body
status_body-join [] = (λ e. ground arith, λ e. refl)
status_body-join (flag ∷ flags) = (
  λ e.
      ap (λ t. take (length (b'{' ∷ t) - 1) (b'{' ∷ t) ++ codes "}")
        (status_entries-join flag flags)
      ∙ ap (λ t. t ++ codes "}") (take-last (b'{' ∷ join_entries (flag ∷ flags)) b','),
  λ e. ground arith,
)
