-- ===== src/Examples/Start.antt =====
-- Uses of the theorems on the start of the program and of the crash handler.
use repo_init.Base.{
  ◌≡◌, refl, ◌≢◌, ◌↔◌, true, false, not, none, some, List, [], ◌∷◌, ◌++◌, if◌then◌else◌, is_empty,
  Bytes, codes, str_eq, find_byte-Lacks,
}
use repo_init.Base.Int.{pos}
use repo_init.Examples.Data.{plain_prometheus, open_env, zeromq_env}
use repo_init.Logging.Level.{default_level}
use repo_init.Main.{adjust_log_level}
use repo_init.Main.Start.{Machine, start}
use repo_init.Main.Start.Laws.{can_start}
use repo_init.Main.Start.Steps.{HasStarted}
use repo_init.Main.Start.Parts.{all_flags, start-HasStarted}
use repo_init.Utils.ConfigParser.{File, members}
use repo_init.Utils.InputParser.{get_cmd_option, cmd_option_exists}
use repo_init.Utils.Tracer.Start.{
  Tracer, Build, Crashpad, threw, made, no_database, no_settings, not_started, tracer, or_default,
  tracer-result,
}

abbrev build : Build
build = record {
  project_name = codes "XXX";
  full_revision = codes "1.0";
  build_date = codes "today";
  build_time = codes "now";
  build_type = codes "Release";
  compiler_name = codes "GNU";
  compiler_version = codes "13";
}

abbrev crashpad : Crashpad
crashpad = record {
  database = (λ path. true);
  settings = (λ path. true);
  starts = (λ handler path. str_eq handler (codes "/opt/crashpad_handler"));
}

abbrev small_tracer : Tracer
small_tracer = record {
  server_path = codes "https://a";
  server_proxy = [];
  handler_path = codes "/opt/crashpad_handler";
  report_path = codes "/opt";
  annotations = [];
  uploads_enabled = true;
  thread_running = true;
}

abbrev pub machine : Machine
machine = record {
  ndebug = true;
  files = (λ path. if str_eq path (codes "config.json") then members [] else File.closed);
  curl_code = pos 0;
  sigint_set = true;
  sigterm_set = true;
  sigalrm_set = true;
  build = build;
  crashpad = crashpad;
  executable = some (codes "/opt" ++ 47 ∷ codes "XXX");
  now = 1;
  exposer = some 0;
  monitor_registry = 1;
  zeromq_registry = 2;
  telnet_registry = 3;
  zeromq_env = zeromq_env;
  zeromq_made = true;
  zeromq_bound = true;
  telnet_env = open_env;
  telnet_set_up = record {
    resolved = true;
    opened = some 4;
    option_set = true;
    bound = true;
    listening = true;
  };
}

abbrev pub command_line : List Bytes
command_line =
    codes "--enable-prometheus"
    ∷ codes "localhost:8200"
    ∷ codes "--enable-telnet"
    ∷ codes "2323"
    ∷ codes "-vv"
    ∷ []

start-HasStarted_example :
    let r = start plain_prometheus machine command_line in
    ((r.1 ≡ none) ↔ (can_start machine command_line ≡ true))
    × (can_start machine command_line ≡ true
        → HasStarted plain_prometheus all_flags
            (adjust_log_level command_line (default_level true))
            true
            true
            (not (is_empty (get_cmd_option (codes "--enable-prometheus") command_line)))
            (not (is_empty (get_cmd_option (codes "--enable-prometheus") command_line)))
            (not (is_empty (get_cmd_option (codes "--enable-zeromq") command_line)))
            (cmd_option_exists (codes "--enable-telnet") command_line)
            r.0)
start-HasStarted_example = start-HasStarted plain_prometheus machine command_line

tracer-result_example :
    let r =
      tracer build crashpad
        (some (codes "/opt" ++ 47 ∷ codes "XXX"))
        (codes "https://a")
        []
        []
        [] in
    let handler' = or_default [] (codes "/opt" ++ codes "/crashpad_handler") in
    let report' = or_default [] (codes "/opt") in
    (r ≡ made small_tracer
      → (codes "/opt/crashpad_handler" ≡ handler')
        × (codes "/opt" ≡ report')
        × (codes "https://a" ≡ codes "https://a")
        × (small_tracer.server_proxy ≡ [])
        × (true ≡ true)
        × (crashpad.starts handler' report' ≡ true))
    × (crashpad.database report' ≡ false → r ≡ threw no_database)
    × (crashpad.database report' ≡ true → crashpad.settings report' ≡ false → r ≡ threw no_settings)
    × (crashpad.database report' ≡ true
        → crashpad.settings report' ≡ true
        → crashpad.starts handler' report' ≡ false
        → r ≡ threw not_started)
    × (crashpad.database report' ≡ true
        → crashpad.settings report' ≡ true
        → crashpad.starts handler' report' ≡ true
        → r ≢ threw no_database × r ≢ threw no_settings × r ≢ threw not_started)
tracer-result_example =
    tracer-result build crashpad (codes "/opt") (codes "XXX") (codes "https://a") [] [] []
      small_tracer (find_byte-Lacks 47 (codes "XXX") refl)
