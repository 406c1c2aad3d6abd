-- ===== src/Examples/Data.antt =====
-- The concrete values that the examples share.
use repo_init.Base.{
  [], ℕ, ◌+◌, refl, true, false, none, some, List, ◌∷◌, ◌++◌, arith, length, Bytes, codes,
}
use repo_init.Logging.Level.{info}
use repo_init.Metrics.Prometheus.{Prometheus, IsPrometheus}
use repo_init.Telnet.Session.{count, Env, World, Session}
use repo_init.Telnet.History.{IsHistory}
use repo_init.Telnet.Server.{Server}
use repo_init.Telnet.Update.Installed.{main_host}
use repo_init.ZeroMq.Commands.{ZeroMqEnv, message_callback}
use repo_init.ZeroMq.Socket.{bind}
use repo_init.ZeroMq.Server.{ZeroMqServer}

-- Metrics that are numbers and lists.
abbrev pub plain_prometheus : Prometheus
plain_prometheus = record {
  Counter = ℕ;
  Gauge = ℕ;
  Summary = List ℕ;
  new_counter = 0;
  new_gauge = 0;
  new_summary = [];
  counter_value = λ c. c;
  increment = λ n c. c + n;
  gauge_value = λ g. g;
  set_gauge = λ v g. v;
  observations = λ s. s;
  observe = λ v s. v ∷ s;
}

pub plain_prometheus-IsPrometheus : IsPrometheus plain_prometheus
plain_prometheus-IsPrometheus = record {
  new_counter_value = refl;
  new_gauge_value = refl;
  new_summary_empty = refl;
  increment_value = λ n c h. refl;
  set_gauge_value = λ v g. refl;
  observe_adds = λ v s. refl;
}

-- A network that takes every byte.
abbrev pub open_env : Env
open_env = record {
  ndebug = true;
  full_version = codes "v1.2.3";
  send_result = λ socket wire text. count (length text);
}

abbrev pub small_world : World
small_world = record { log_level = info; check_flags = (codes "A", true) ∷ (codes "B", false) ∷ [] }

-- A client on socket 7 with two lines in its history.
abbrev pub one_client : Session
one_client = record {
  connect_time = 0;
  disconnect_time = 5_000_000_000;
  upload_bytes = 3;
  download_bytes = 4;
  success_cmd_ctr = 1;
  fail_cmd_ctr = 2;
  last_seen_time = 0;
  socket = 7;
  buffer = codes "ping" ++ (0x0d ∷ 0x0a ∷ codes "he");
  history = codes "help" ∷ codes "ping" ∷ [];
  history_cursor = 2;
  wire = [];
  closes = 0;
}

pub one_client-IsHistory : IsHistory one_client
one_client-IsHistory = record {
  lines = record {
    bounded = omega arith;
    lines_filled = ((λ e. ground arith), ((λ e. ground arith), tt));
    no_repeats = ((λ e. ground arith), tt);
  };
  cursor_within = omega arith;
}

abbrev pub prompt_text : Bytes
prompt_text = codes "> "

abbrev pub small_server : Server plain_prometheus
small_server = record {
  host = main_host open_env prompt_text;
  listen_port = 23;
  listen_socket = some 3;
  listen_closes = 0;
  sessions = one_client ∷ [];
  initialised = true;
  stats = none;
  thread_running = true;
}

abbrev pub zeromq_env : ZeroMqEnv
zeromq_env = record {
  ndebug = true;
  full_version = codes "v1.2.3";
  handshake_failed = 0x0800;
  handshake_succeeded = 0x1000;
}

abbrev pub bound_server : ZeroMqServer plain_prometheus
bound_server = record {
  socket = record {
    socket_addr = codes "tcp://127.0.0.1:1";
    is_binded = true;
    is_active = true;
    calls = bind ∷ [];
  };
  callback = some (message_callback zeromq_env);
  stats = none;
  thread_running = true;
}
