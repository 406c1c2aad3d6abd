-- ===== src/Examples/Server.antt =====
-- Uses of the theorems on the Telnet server and its statistics.
use repo_init.Base.{[], ◌+◌, ◌≡◌, refl, Bool, true, false, none, some, ◌∷◌, arith}
use repo_init.Examples.Data.{
  plain_prometheus, plain_prometheus-IsPrometheus, open_env, small_world, one_client,
  one_client-IsHistory, prompt_text, small_server,
}
use repo_init.Metrics.BaseStats.{init_base_stats}
use repo_init.Telnet.Session.{Session, check_timeout}
use repo_init.Telnet.Server.{
  Server, SetUp, Visit, Accepted, closed, open_still, visit, session_loop, accept_connection, Tick,
  take_pending, update_server, thread_func, initialise_server,
}
use repo_init.Telnet.Server.Limits.{
  IsServer, IsSafeServerHost, main_host-IsSafeServerHost, thread_func-IsServer,
}
use repo_init.Telnet.Server.Outcomes.{visit_broken}
use repo_init.Telnet.Server.Walk.{walk, session_loop-walks}
use repo_init.Telnet.Stats.{
  TelnetStats, TelnetServerStats, init_telnet_stats, consume_session, IsTelnetConsistent,
  init_telnet_stats-IsTelnetConsistent, consume_session-IsTelnetConsistent,
}
use repo_init.Telnet.Update.{broken, again, update, reset_stats}

abbrev quiet_visit : Visit
quiet_visit = record { recv = again; now_seen = 9; now_check = 10; now_close = 11 }

abbrev broken_visit : Visit
broken_visit = record { recv = broken; now_seen = 9; now_check = 10; now_close = 11 }

abbrev pub quiet_tick : Tick plain_prometheus
quiet_tick = record {
  pending = none;
  now_connect = 1;
  now_seen = 2;
  now_close = 3;
  feed = λ round. quiet_visit;
  processing_time = 4;
}

small_server-IsServer : IsServer plain_prometheus small_server
small_server-IsServer = record { at_most = omega arith; histories = (one_client-IsHistory, tt) }

small_server-IsSafeServerHost : IsSafeServerHost small_server.host
small_server-IsSafeServerHost = main_host-IsSafeServerHost open_env prompt_text

session_loop-walks_example :
    session_loop plain_prometheus open_env small_server.host
      (λ round. quiet_visit)
      2
      0
      0
      (record { kept = one_client ∷ []; world = small_world; tally = none })
    ≡ walk plain_prometheus open_env small_server.host
        (λ round. quiet_visit)
        0
        (one_client ∷ [])
        small_world
        none
session_loop-walks_example =
    session_loop-walks plain_prometheus open_env small_server.host (λ round. quiet_visit)
      (one_client ∷ []) small_world none

abbrev quiet_client : Session
quiet_client = record one_client {
  upload_bytes = 0;
  download_bytes = 0;
  success_cmd_ctr = 0;
  fail_cmd_ctr = 0;
}

abbrev quiet_server : Server plain_prometheus
quiet_server = record small_server { sessions = quiet_client ∷ [] }

thread_func-IsServer_example :
    IsServer plain_prometheus quiet_server × (quiet_server.host ≡ small_server.host)
unfolding thread_func update_server take_pending session_loop visit update reset_stats check_timeout
thread_func-IsServer_example =
    thread_func-IsServer plain_prometheus open_env (quiet_tick ∷ []) (some false) (some true)
      small_server quiet_server small_world small_world small_server-IsSafeServerHost
      small_server-IsServer refl

abbrev taken : Accepted plain_prometheus
taken = accept_connection plain_prometheus open_env 1 2 3 (some 9) small_server small_world

visit_broken_example :
    (check_timeout one_client 10 ≡ true
      → (s' : Session) × (visit plain_prometheus open_env small_server.host broken_visit one_client
            small_world
          ≡ closed s' small_world)
        × (s'.closes ≡ 2 + one_client.closes)
        × (s'.socket ≡ one_client.socket))
    × (check_timeout one_client 10 ≡ false
        → (s' : Session) × (visit plain_prometheus open_env small_server.host broken_visit
              one_client small_world
            ≡ open_still s' small_world)
          × (s'.closes ≡ 1 + one_client.closes)
          × (s'.socket ≡ one_client.socket))
visit_broken_example =
    visit_broken plain_prometheus open_env small_server.host broken_visit one_client small_world
      refl

abbrev counted_stats : TelnetStats plain_prometheus
counted_stats = init_telnet_stats plain_prometheus

counted_stats-IsTelnetConsistent : IsTelnetConsistent plain_prometheus counted_stats
counted_stats-IsTelnetConsistent =
    init_telnet_stats-IsTelnetConsistent plain_prometheus plain_prometheus-IsPrometheus

consume_session-IsTelnetConsistent_example :
    IsTelnetConsistent plain_prometheus
      (consume_session plain_prometheus (init_telnet_stats plain_prometheus) one_client true)
unfolding init_telnet_stats init_base_stats
consume_session-IsTelnetConsistent_example =
    consume_session-IsTelnetConsistent plain_prometheus plain_prometheus-IsPrometheus
      (init_telnet_stats plain_prometheus) one_client true (omega arith)
      counted_stats-IsTelnetConsistent

abbrev busy_stat : TelnetServerStats
busy_stat = record {
  processing_time = 7;
  active_connection_ctr = 2;
  accepted_connection_ctr = 1;
  refused_connection_ctr = 0;
}

abbrev good_set_up : SetUp
good_set_up = record {
  resolved = true;
  opened = some 3;
  option_set = true;
  bound = true;
  listening = true;
}

abbrev idle_server : Server plain_prometheus
idle_server = record small_server { initialised = false; sessions = [] }

abbrev set_up : Server plain_prometheus × Bool
set_up = initialise_server plain_prometheus good_set_up 23 prompt_text true idle_server
