-- ===== src/Examples/ZeroMq.antt =====
-- Uses of the theorems on the control socket.
use repo_init.Base.{
  [], ℕ, ◌+◌, ◌%◌, ◌≡◌, refl, ◌↔◌, Bool, true, false, some, List, ◌∷◌, arith, length, Bytes, codes,
}
use repo_init.Examples.Data.{plain_prometheus, small_world, zeromq_env, bound_server}
use repo_init.Telnet.Session.{World}
use repo_init.ZeroMq.Commands.{
  message_callback, message_callback-result, write_uint32, join_uint32, IsRequest,
}
use repo_init.ZeroMq.Monitor.{
  Monitor, Event, accepted, disconnected, handle_all, handle_all-counts, count_connected,
  count_disconnected, int_mod,
}
use repo_init.ZeroMq.Server.{Round, Sending, After, update}
use repo_init.ZeroMq.Server.Laws.{update-answers}
use repo_init.ZeroMq.Socket.{Use, starts, stops}
use repo_init.ZeroMq.Stats.{ZeroMqStats, ZeroMqServerStats, init_zeromq_stats, consume_stats}

abbrev uses : List Use
uses = starts true ∷ starts true ∷ stops false ∷ stops true ∷ []

message_callback-result_example :
    (w' : World) × (code : ℕ) × (body : Bytes) × (result : Bool) × (message_callback zeromq_env
        small_world
        (codes "PING" ∷ [])
      ≡ some (w', write_uint32 code ∷ body ∷ [], result))
    × ((result ≡ true) ↔ IsRequest (join_uint32 80 73 78 71) 1)
    × (result ≡ true → code ≡ 0x1000)
    × (result ≡ false → (code ≡ 0x0800) × (body ≡ []))
message_callback-result_example =
    message_callback-result zeromq_env small_world 80 73 78 71 [] [] (λ e. omega arith)

abbrev whole : Sending
whole = record { sent = some 2; left = [] ∷ [] ∷ [] }

abbrev pub ping_round : Round
ping_round = record {
  incoming = some (codes "PING" ∷ []);
  sending = some whole;
  processing_time = 5;
}

update-answers_example :
    (a : After plain_prometheus) × (reply : List Bytes) × (update plain_prometheus zeromq_env
        ping_round bound_server small_world
      ≡ some a)
    × (a.reply ≡ some reply)
    × (length reply ≡ 2)
    × (a.failed ≡ false)
update-answers_example =
    update-answers plain_prometheus zeromq_env ping_round bound_server small_world (codes "PING") []
      whole refl refl refl refl

abbrev two_events : List (Event × Bytes)
two_events = (accepted, codes "a") ∷ (disconnected, codes "a") ∷ []

abbrev idle_monitor : Monitor
idle_monitor = record { peer_count = 0; log_lines = []; thread_running = false }

handle_all-counts_example :
    (((handle_all two_events idle_monitor).peer_count + count_disconnected two_events) % int_mod
      ≡ (idle_monitor.peer_count + count_connected two_events) % int_mod)
    × (length (handle_all two_events idle_monitor).log_lines
        ≡ length idle_monitor.log_lines + length two_events)
handle_all-counts_example = handle_all-counts two_events idle_monitor

abbrev new_stats : ZeroMqStats plain_prometheus
new_stats = init_zeromq_stats plain_prometheus

abbrev good_stat : ZeroMqServerStats
good_stat = record { is_successful = true; processing_time = 6 }

abbrev consumed : ZeroMqStats plain_prometheus
consumed =
    consume_stats plain_prometheus new_stats (codes "PING" ∷ []) (codes "PONG" ∷ []) good_stat
