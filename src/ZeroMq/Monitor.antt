-- ===== src/ZeroMq/Monitor.antt =====
-- ZeroMQMonitor of src/zeromq/ZeroMQMonitor.cpp: the events of a socket, with libzmq 4.3 or later.
use repo_init.Base.{
  Bool, true, not, ◌||◌, if◌then◌else◌, [], ℕ, suc, ◌+◌, ◌-◌, ◌%◌, ◌^◌, ◌≡◌, refl, Option, none,
  some, List, ◌∷◌, ◌++◌, arith, length, length-append, Bytes, codes,
}
use repo_init.Logging.Level.{Level, debug, info, warn}

pub data Event : Type 0 where
  connected connect_delayed connect_retried listening bind_failed accepted accept_failed closed
        close_failed disconnected handshake_failed_no_detail handshake_failed_protocol
        handshake_failed_auth handshake_succeeded unknown :
      Event

-- `log_lines` is what was given to spdlog; `peer_count` is an atomic int as a word of 32 bits.
pub record Monitor : Type 0 where
  pub peer_count : ℕ
  pub log_lines : List (Level × Bytes)
  pub thread_running : Bool

abbrev pub int_mod : ℕ
int_mod = 2 ^ 32

-- The text of a null address is empty.
abbrev address_text : Option Bytes → Bytes
address_text none = []
address_text (some addr) = addr

-- `on_event`: only these three levels are logged.
unfoldable pub on_event : Bytes → Level → Option Bytes → Monitor → Monitor
on_event message level addr m = elim level [
  | debug ↦ record m { log_lines = m.log_lines ++ (debug, line) ∷ [] }
  | info ↦ record m { log_lines = m.log_lines ++ (info, line) ∷ [] }
  | warn ↦ record m { log_lines = m.log_lines ++ (warn, line) ∷ [] }
  | _ ↦ m
]
  where
    line : Bytes
    line = message ++ codes " " ++ address_text addr

-- fetch_add(1) and fetch_sub(1), which wrap around.
unfoldable pub count_peer : Event → ℕ → ℕ
count_peer connected n = (n + 1) % int_mod
count_peer disconnected n = (n + (int_mod - 1)) % int_mod
count_peer _ n = n

-- The text and the level of each handler.
abbrev pub event_text : Event → Bytes
event_text connected = codes "Connected"
event_text connect_delayed = codes "Connect delayed"
event_text connect_retried = codes "Connect retried"
event_text listening = codes "Listening"
event_text bind_failed = codes "Bind failed"
event_text accepted = codes "Accepted"
event_text accept_failed = codes "Accept failed"
event_text closed = codes "Closed"
event_text close_failed = codes "Close failed"
event_text disconnected = codes "Disconnected"
event_text handshake_failed_no_detail = codes "Handshake failed (no detail)"
event_text handshake_failed_protocol = codes "Handshake failed (protocol)"
event_text handshake_failed_auth = codes "Handshake failed (auth)"
event_text handshake_succeeded = codes "Handshake succeeded"
event_text unknown = codes "Unknown event"

abbrev pub event_level : Event → Level
event_level connected = info
event_level connect_delayed = debug
event_level connect_retried = debug
event_level listening = debug
event_level bind_failed = warn
event_level accepted = info
event_level accept_failed = warn
event_level closed = debug
event_level close_failed = warn
event_level disconnected = info
event_level handshake_failed_no_detail = warn
event_level handshake_failed_protocol = warn
event_level handshake_failed_auth = warn
event_level handshake_succeeded = info
event_level unknown = warn

-- The handlers of the events.
unfoldable pub handle : Event → Bytes → Monitor → Monitor
unfolding on_event count_peer
handle e addr m =
    on_event (event_text e) (event_level e) (some addr)
      (record m { peer_count = count_peer e m.peer_count })

unfoldable pub handle_all : List (Event × Bytes) → Monitor → Monitor
unfolding handle
handle_all [] m = m
handle_all ((e, addr) ∷ events) m = handle_all events (handle e addr m)

-- startMonitoring, with what `init` of the library does, which calls on_monitor_started; `none` is an
-- exception, for a null socket or of the library.
unfoldable pub start_monitoring : Bool → Bool → Monitor → Option Monitor
unfolding on_event
start_monitoring has_socket init_ok m =
    if not has_socket || not init_ok
    then none
    else some (record (on_event (codes "Monitor started") info none m) { thread_running = true })

-- threadFunc until its stop is requested: each call of check_event handles an event or none.
unfoldable pub thread_func : List (Option (Event × Bytes)) → Monitor → Monitor
unfolding handle
thread_func [] m = m
thread_func (none ∷ rounds) m = thread_func rounds m
thread_func (some (e, addr) ∷ rounds) m = thread_func rounds (handle e addr m)

-- stopMonitoring, which leaves the thread.
unfoldable pub stop_monitoring : Monitor → Monitor
stop_monitoring m = record m { log_lines = m.log_lines ++ (info, codes "Monitor stopped") ∷ [] }

-- How often connections were made, and how often one was lost.
abbrev connects : Event → ℕ
connects connected = 1
connects _ = 0

abbrev disconnects : Event → ℕ
disconnects disconnected = 1
disconnects _ = 0

abbrev pub count_connected : List (Event × Bytes) → ℕ
count_connected [] = 0
count_connected ((e, addr) ∷ events) = connects e + count_connected events

abbrev pub count_disconnected : List (Event × Bytes) → ℕ
count_disconnected [] = 0
count_disconnected ((e, addr) ∷ events) = disconnects e + count_disconnected events

count_peer-word :
    (e : Event) (n : ℕ) → (count_peer e n + disconnects e) % int_mod ≡ (n + connects e) % int_mod
unfolding count_peer
count_peer-word connected n = omega arith
count_peer-word disconnected n = omega arith
count_peer-word _ n = refl

one_more :
    (lines : List (Level × Bytes)) (line : Level × Bytes)
    → length (lines ++ line ∷ []) ≡ suc (length lines)
one_more lines line = omega (arith, length-append lines (line ∷ []))

handle-step :
    (e : Event) (addr : Bytes) (m : Monitor)
    → ((handle e addr m).peer_count ≡ count_peer e m.peer_count)
      × (length (handle e addr m).log_lines ≡ suc (length m.log_lines))
unfolding handle on_event
handle-step connected addr m = (refl, one_more m.log_lines _)
handle-step connect_delayed addr m = (refl, one_more m.log_lines _)
handle-step connect_retried addr m = (refl, one_more m.log_lines _)
handle-step listening addr m = (refl, one_more m.log_lines _)
handle-step bind_failed addr m = (refl, one_more m.log_lines _)
handle-step accepted addr m = (refl, one_more m.log_lines _)
handle-step accept_failed addr m = (refl, one_more m.log_lines _)
handle-step closed addr m = (refl, one_more m.log_lines _)
handle-step close_failed addr m = (refl, one_more m.log_lines _)
handle-step disconnected addr m = (refl, one_more m.log_lines _)
handle-step handshake_failed_no_detail addr m = (refl, one_more m.log_lines _)
handle-step handshake_failed_protocol addr m = (refl, one_more m.log_lines _)
handle-step handshake_failed_auth addr m = (refl, one_more m.log_lines _)
handle-step handshake_succeeded addr m = (refl, one_more m.log_lines _)
handle-step unknown addr m = (refl, one_more m.log_lines _)

-- Each event logs one line, and after any events the count of peers is the number of connections made
-- less the number of disconnections, as a word of 32 bits: an accepted peer is not counted.
pub handle_all-counts :
    (events : List (Event × Bytes)) (m : Monitor)
    → let m' = handle_all events m in
      ((m'.peer_count + count_disconnected events) % int_mod
        ≡ (m.peer_count + count_connected events) % int_mod)
      × (length m'.log_lines ≡ length m.log_lines + length events)
unfolding handle_all
handle_all-counts [] m = ground arith
handle_all-counts ((e, addr) ∷ events) m =
    let r = handle_all-counts events (handle e addr m) in
    let s = handle-step e addr m in
    let word = count_peer-word e m.peer_count in
    (omega (arith, r.0, s.0, word), omega (arith, r.1, s.1))
