-- ===== src/Main/Start.antt =====
-- main of src/main.cpp: what it starts, in which order, and where it gives up.
use repo_init.Base.{
  ℕ, ◌+◌, Bool, true, false, not, Option, none, some, List, [], ◌∷◌, ◌++◌, if◌then◌else◌, is_just,
  is_empty, Bytes, codes,
}
use repo_init.Base.Int.{ℤ, pos, negsuc}
use repo_init.Logging.Level.{Level, info, default_level}
use repo_init.Main.{adjust_log_level, not_wanted, refused, port, telnet_start}
use repo_init.Metrics.Process.{ProcessMetrics, process_metrics}
use repo_init.Metrics.Prometheus.{Prometheus}
use repo_init.Metrics.Registries.{PrometheusServer, prometheus_server, create_new_registry}
use repo_init.Telnet.Server.{Server, SetUp, initialise_server}
use repo_init.Telnet.Session.{Env, World}
use repo_init.Telnet.Update.Installed.{main_host}
use repo_init.Utils.ConfigParser.{File, ConfigParser, config_parser, get}
use repo_init.Utils.InputParser.{get_cmd_option, cmd_option_exists}
use repo_init.Utils.Tracer.Start.{Tracer, Build, Crashpad, threw, made, tracer}
use repo_init.ZeroMq.Commands.{ZeroMqEnv, message_callback}
use repo_init.ZeroMq.Server.{ZeroMqServer, initialise}
use repo_init.ZeroMq.Socket.{Outcome, returned, init}
use repo_init.ZeroMq.Stats.{init_zeromq_stats}
pub mod Laws
pub mod Parts
pub mod Steps

-- What main meets: the files by their paths, the results of curl_global_init and of std::signal, what
-- crashpad says, and whether the servers' calls come back. `exposer` is the registry of the Prometheus
-- server, `none` if its constructor throws; the other registries are those that it makes.
pub record Machine : Type 0 where
  pub ndebug : Bool
  pub files : Bytes → File
  pub curl_code : ℤ
  pub sigint_set : Bool
  pub sigterm_set : Bool
  pub sigalrm_set : Bool
  pub build : Build
  pub crashpad : Crashpad
  pub executable : Option Bytes
  pub now : ℕ
  pub exposer : Option ℕ
  pub monitor_registry : ℕ
  pub zeromq_registry : ℕ
  pub telnet_registry : ℕ
  pub zeromq_env : ZeroMqEnv
  pub zeromq_made : Bool
  pub zeromq_bound : Bool
  pub telnet_env : Env
  pub telnet_set_up : SetUp

-- How main ends before its loop: by EXIT_FAILURE, or by an exception that nothing catches.
pub data Ending : Type 0 where
  exit_failure uncaught : Ending

abbrev pub is_negative : ℤ → Bool
is_negative (pos n) = false
is_negative (negsuc n) = true

-- The path of the configuration.
abbrev pub config_path : List Bytes → Bytes
config_path tokens =
    if cmd_option_exists (codes "--config") tokens
    then get_cmd_option (codes "--config") tokens
    else codes "config.json"

module _ (p : Prometheus) where
  -- What runs. The flags of the world are vCheckFlag.
  pub record Program : Type 0 where
    pub world : World
    pub alarm_set : Bool
    pub crashpad_controller : Option Tracer
    pub main_prometheus_server : Option PrometheusServer
    pub self_monitor : Option ProcessMetrics
    pub zmq_controller : Option (ZeroMqServer p)
    pub telnet_controller : Option (Server p)

  -- A part of main: the program after it, and how main has ended, if it has.
  abbrev pub Step : Type 0
  Step = Program × Option Ending

  infixl 5 ◌then_do◌
  abbrev pub ◌then_do◌ : Step → (Program → Step) → Step
  (s, none) then_do f = f s
  (s, some e) then_do f = (s, some e)

  abbrev pub add_flag : Bytes → Program → Program
  add_flag name s = record s {
    world = record s.world { check_flags = s.world.check_flags ++ (name, false) ∷ [] };
  }

  -- The program before main: the level is spdlog's own.
  abbrev pub empty_program : Level → Program
  empty_program level = record {
    world = record { log_level = level; check_flags = [] };
    alarm_set = false;
    crashpad_controller = none;
    main_prometheus_server = none;
    self_monitor = none;
    zmq_controller = none;
    telnet_controller = none;
  }

  -- curl and the configuration. The result of curl is a CURLcode.
  unfoldable pub check_config : Machine → ConfigParser → Program → Step
  check_config m config s =
      if is_negative m.curl_code
      then (s, some exit_failure)
      else if not config.is_valid
      then (s, some uncaught)
      else (s, none)

  -- MainLogger and the options for the level.
  unfoldable pub set_up_log : Machine → List Bytes → Program → Step
  set_up_log m tokens s = (
    record s {
      world = record s.world { log_level = adjust_log_level tokens (default_level m.ndebug) };
    },
    none,
  )

  -- The three signals, in their order, and the alarm.
  unfoldable pub set_signals : Machine → Program → Step
  set_signals m s =
      if not m.sigint_set
      then (s, some exit_failure)
      else if not m.sigterm_set
      then (s, some exit_failure)
      else if not m.sigalrm_set
      then (s, some exit_failure)
      else (record s { alarm_set = true }, none)

  unfoldable pub start_tracer : Machine → ConfigParser → Program → Step
  start_tracer m config s =
      let flagged = add_flag (codes "Crashpad Handler") s in
      elim (tracer m.build m.crashpad m.executable (get (codes "CRASHPAD_REMOTE") config)
        (get (codes "CRASHPAD_PROXY") config) (get (codes "CRASHPAD_EXECUTABLE_PATH") config)
        (get (codes "CRASHPAD_REPORT_DIR") config)) [
          | threw f ↦ (flagged, some uncaught)
          | made t ↦ (record flagged { crashpad_controller = some t }, none)
        ]

  unfoldable pub start_prometheus : Machine → List Bytes → Program → Step
  start_prometheus m tokens s =
      if is_empty (get_cmd_option (codes "--enable-prometheus") tokens)
      then (s, none)
      else (elim m.exposer as (λ _. Step) [
        | none ↦ (s, some exit_failure)
        | some reg ↦ (record s { main_prometheus_server = some (prometheus_server reg) }, none)
      ])

  -- createNewRegistry on the server that there may be.
  abbrev pub with_registry : ℕ → Option PrometheusServer → Option PrometheusServer
  with_registry reg none = none
  with_registry reg (some server) = some (create_new_registry reg server).0

  unfoldable pub start_monitor : Machine → Program → Step
  start_monitor m s =
      let flagged = add_flag (codes "Self Monitor") s in
      if is_just s.main_prometheus_server
      then (
        record flagged {
          main_prometheus_server = with_registry m.monitor_registry s.main_prometheus_server;
          self_monitor = process_metrics true (some false) m.now;
        },
        none,
      )
      else (flagged, none)

  -- The constructor of ZeroMQServer, with the callback that main sets.
  abbrev pub zeromq_server : Machine → Bytes → Bool → ZeroMqServer p
  zeromq_server m addr registry = record {
    socket = init addr true;
    callback = some (message_callback m.zeromq_env);
    stats = if registry then some (init_zeromq_stats p) else none;
    thread_running = false;
  }

  -- The constructor or `initialise` may throw. The registry is made first, and stays.
  unfoldable pub start_zeromq : Machine → List Bytes → Program → Step
  start_zeromq m tokens s =
      let flagged = add_flag (codes "ZeroMQ Server") s in
      let addr = get_cmd_option (codes "--enable-zeromq") tokens in
      let registered = record flagged {
        main_prometheus_server = with_registry m.zeromq_registry s.main_prometheus_server;
      } in
      let (server, outcome) =
        initialise p m.zeromq_bound (zeromq_server m addr (is_just s.main_prometheus_server)) in
      if is_empty addr
      then (flagged, none)
      else if not m.zeromq_made
      then (registered, some exit_failure)
      else (elim outcome as (λ _. Step) [
        | Outcome.threw ↦ (registered, some exit_failure)
        | returned b ↦ (record registered { zmq_controller = some server }, none)
      ])

  -- A TelnetServer with the callbacks of main, which read its prompt when they run.
  abbrev pub telnet_server : Env → Bytes → Server p
  telnet_server env prompt = record {
    host = record (main_host env prompt) { prompt_string = [] };
    listen_port = 0;
    listen_socket = none;
    listen_closes = 0;
    sessions = [];
    initialised = false;
    stats = none;
    thread_running = false;
  }

  -- What `initialise` returns is left unread.
  unfoldable pub start_telnet : Machine → List Bytes → Program → Step
  start_telnet m tokens s =
      let flagged = add_flag (codes "Telnet Server") s in
      elim (telnet_start tokens) [
        | not_wanted ↦ (flagged, none)
        | refused ↦ (flagged, some exit_failure)
        | port n ↦ (
          record flagged {
            main_prometheus_server = with_registry m.telnet_registry s.main_prometheus_server;
            telnet_controller =
                some
                  (initialise_server p m.telnet_set_up n (codes "> ")
                    (is_just s.main_prometheus_server) (telnet_server m.telnet_env (codes "> "))).0;
          },
          none,
        )
      ]

  -- main up to its loop.
  unfoldable pub start : Machine → List Bytes → Step
  start m tokens =
      let config = config_parser (config_path tokens) (m.files (config_path tokens)) in
      check_config m config (empty_program info)
      then_do set_up_log m tokens
      then_do set_signals m
      then_do start_tracer m config
      then_do start_prometheus m tokens
      then_do start_monitor m
      then_do start_zeromq m tokens
      then_do start_telnet m tokens
