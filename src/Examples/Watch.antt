-- ===== src/Examples/Watch.antt =====
-- Uses of the theorems on the running program.
use repo_init.Base.{
  ◌≡◌, refl, true, false, Option, none, some, List, [], ◌∷◌, is_just, Bytes, codes,
}
use repo_init.Base.Numbers.{stoull}
use repo_init.Main.{telnet_start}
use repo_init.Main.Start.{
  check_config, set_up_log, set_signals, start_tracer, start_prometheus, start_monitor,
  start_zeromq, start_telnet,
}
use repo_init.Main.Watch.{act, crash_step, monitor_step, zeromq_step, telnet_step}
use repo_init.Main.Watch.Rounds.{marks, is_alive}
use repo_init.Utils.Tracer.{thread_loop, is_running}
use repo_init.Utils.FileHelpers.{find_from_file}
use repo_init.Main.{alarm_func}
use repo_init.Metrics.Process.{process_metrics, get_disk_io, find_number}
use repo_init.Telnet.Server.{
  initialise_server, open_listen, update_server, session_loop, take_pending, visit,
}
use repo_init.Utils.ConfigParser.{config_parser, get, lookup}
use repo_init.Utils.InputParser.{get_cmd_option, cmd_option_exists}
use repo_init.Utils.Tracer.Start.{tracer, get_self_executable_dir}
use repo_init.Base.{not, is_empty, false, ◌&&◌, ◌↔◌}
use repo_init.Main.End.{exit_success, terminated, finish}
use repo_init.Main.End.Laws.{has_session, IsShut, IsStopped, finish-servers}
use repo_init.Examples.Data.{plain_prometheus}
use repo_init.Examples.Process.{first_system}
use repo_init.Examples.Server.{quiet_tick}
use repo_init.Examples.ZeroMq.{ping_round}
use repo_init.Examples.Start.{machine, command_line}
use repo_init.Logging.Level.{info}
use repo_init.Main.Start.{Program, start, empty_program}
use repo_init.Main.Start.Laws.{can_start}
use repo_init.Main.Watch.{zeromq_round, Event, alarm, crash_round, monitor_round, telnet_round, run}
use repo_init.Main.Watch.Host.{IsMain}
use repo_init.Main.Watch.Steps.{flags_of}
use repo_init.Main.Watch.Laws.{run-flags, run-without_telnet}

-- The crash handler has a round, the alarm comes, and the Telnet server has one.
abbrev events : List (Event plain_prometheus)
events = crash_round none ∷ monitor_round first_system ∷ alarm ∷ telnet_round quiet_tick ∷ []

abbrev started : Program plain_prometheus
started = (start plain_prometheus machine command_line).0

abbrev or_empty : Option (Program plain_prometheus) → Program plain_prometheus
or_empty none = empty_program plain_prometheus info
or_empty (some s) = s

abbrev reached : Program plain_prometheus
reached = or_empty (run plain_prometheus machine events started)

is_just-or_empty :
    (o : Option (Program plain_prometheus)) → is_just o ≡ true → o ≡ some (or_empty o)
is_just-or_empty none e = cc
is_just-or_empty (some s) e = refl

run-reached : is_just (run plain_prometheus machine events started) ≡ true
unfolding run act crash_step monitor_step zeromq_step telnet_step alarm_func thread_loop start
    check_config config_parser cmd_option_exists set_up_log set_signals start_tracer tracer get
    lookup get_self_executable_dir start_prometheus get_cmd_option start_monitor start_zeromq
    start_telnet telnet_start stoull initialise_server open_listen update_server session_loop
    take_pending visit process_metrics is_running get_disk_io find_number find_from_file
run-reached = refl

can : can_start machine command_line ≡ true
unfolding config_parser cmd_option_exists tracer get lookup get_self_executable_dir get_cmd_option
    telnet_start stoull
can = refl

run-flags_example :
    (reached.world.check_flags
      ≡ flags_of (λ part.
        is_alive plain_prometheus part false (marks plain_prometheus machine events started)))
    × IsMain plain_prometheus machine reached
run-flags_example =
    run-flags plain_prometheus machine command_line events reached can
      (is_just-or_empty (run plain_prometheus machine events started) run-reached)

abbrev plain_line : List Bytes
plain_line =
    codes "--enable-prometheus"
    ∷ codes "localhost:8200"
    ∷ codes "--enable-zeromq"
    ∷ codes "tcp://*:8300"
    ∷ []

abbrev plain_events : List (Event plain_prometheus)
plain_events = zeromq_round ping_round ∷ alarm ∷ monitor_round first_system ∷ []

run-without_telnet_example :
    is_just
      (run plain_prometheus machine plain_events (start plain_prometheus machine plain_line).0)
    ≡ true
unfolding config_parser cmd_option_exists tracer get lookup get_self_executable_dir get_cmd_option
    telnet_start stoull
run-without_telnet_example =
    run-without_telnet plain_prometheus machine plain_line plain_events refl refl

finish-servers_example :
    let e = finish plain_prometheus 5 true true reached in
    (is_just e.telnet_left ≡ has_session plain_prometheus reached.telnet_controller)
    × (is_just e.telnet_shut ≡ (
        cmd_option_exists (codes "--enable-telnet") command_line
        && not (has_session plain_prometheus reached.telnet_controller)))
    × IsShut plain_prometheus e.telnet_shut
    × ((e.exit ≡ terminated) ↔ (
        (not (is_empty (get_cmd_option (codes "--enable-zeromq") command_line)) ≡ true)
        × (true ≡ false)))
    × (e.exit ≡ exit_success → IsStopped plain_prometheus e.zeromq_shut)
finish-servers_example =
    finish-servers plain_prometheus machine command_line events reached 5 true true can
      (is_just-or_empty (run plain_prometheus machine events started) run-reached)
