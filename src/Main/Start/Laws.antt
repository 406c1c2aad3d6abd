-- ===== src/Main/Start/Laws.antt =====
-- Which command lines and answers of the system main starts with, and what runs then.
use repo_init.Base.{
  is_just, ◌≡◌, refl, Bool, true, false, not, ◌&&◌, ◌||◌, none, some, List, arith, is_empty, Bytes,
  codes,
}
use repo_init.Main.{TelnetStart, not_wanted, refused, port, telnet_start}
use repo_init.Main.Start.{
  Machine, is_negative, config_path, Program, Step, ◌then_do◌, check_config, set_up_log,
  set_signals, start_tracer, start_prometheus, start_monitor, start_zeromq, start_telnet, start,
}
use repo_init.Metrics.Prometheus.{Prometheus}
use repo_init.Utils.ConfigParser.{ConfigParser, config_parser, get}
use repo_init.Utils.InputParser.{get_cmd_option}
use repo_init.Utils.Tracer.Start.{Made, threw, made, tracer}
use repo_init.ZeroMq.Server.{initialise}
use repo_init.ZeroMq.Socket.{ZeroMq, init}
use repo_init.ZeroMq.Socket as Socket

abbrev pub is_made : Made → Bool
is_made (threw f) = false
is_made (made t) = true

abbrev pub is_accepted : TelnetStart → Bool
is_accepted not_wanted = true
is_accepted refused = false
is_accepted (port n) = true

abbrev pub main_tracer : Machine → ConfigParser → Made
main_tracer m config =
    tracer m.build m.crashpad m.executable (get (codes "CRASHPAD_REMOTE") config)
      (get (codes "CRASHPAD_PROXY") config) (get (codes "CRASHPAD_EXECUTABLE_PATH") config)
      (get (codes "CRASHPAD_REPORT_DIR") config)

-- What has to hold for main to come to its loop.
abbrev pub can_start : Machine → List Bytes → Bool
can_start m tokens =
    let config = config_parser (config_path tokens) (m.files (config_path tokens)) in
    (not (is_negative m.curl_code) && config.is_valid)
    && (m.sigint_set && m.sigterm_set && m.sigalrm_set)
    && is_made (main_tracer m config)
    && (is_empty (get_cmd_option (codes "--enable-prometheus") tokens) || is_just m.exposer)
    && (is_empty (get_cmd_option (codes "--enable-zeromq") tokens)
        || m.zeromq_made && m.zeromq_bound)
    && is_accepted (telnet_start tokens)

module _ (p : Prometheus) where
  abbrev pub goes_on : Step p → Bool
  goes_on (s, none) = true
  goes_on (s, some e) = false

  goes_on-then_do :
      (a : Step p) (f : Program p → Step p)
      → goes_on (◌then_do◌ p a f) ≡ (goes_on a && goes_on (f a.0))
  goes_on-then_do (s, none) f = refl
  goes_on-then_do (s, some e) f = refl

  then_do-goes_on :
      (a : Step p) (f : Program p → Step p) → goes_on a ≡ true → ◌then_do◌ p a f ≡ f a.0
  then_do-goes_on (s, none) f h = refl
  then_do-goes_on (s, some e) f h = cc

  check_config-goes_on :
      (m : Machine) (config : ConfigParser) (s : Program p)
      → goes_on (check_config p m config s) ≡ (not (is_negative m.curl_code) && config.is_valid)
  unfolding check_config
  check_config-goes_on m config s = ground arith

  set_signals-goes_on :
      (m : Machine) (s : Program p)
      → goes_on (set_signals p m s) ≡ (m.sigint_set && m.sigterm_set && m.sigalrm_set)
  unfolding set_signals
  set_signals-goes_on m s = ground arith

  start_tracer-goes_on :
      (m : Machine) (config : ConfigParser) (s : Program p)
      → goes_on (start_tracer p m config s) ≡ is_made (main_tracer m config)
  unfolding start_tracer
  start_tracer-goes_on m config s = ground arith

  start_prometheus-goes_on :
      (m : Machine) (tokens : List Bytes) (s : Program p)
      → goes_on (start_prometheus p m tokens s)
        ≡ (is_empty (get_cmd_option (codes "--enable-prometheus") tokens) || is_just m.exposer)
  unfolding start_prometheus
  start_prometheus-goes_on m tokens s = ground arith

  start_monitor-goes_on : (m : Machine) (s : Program p) → goes_on (start_monitor p m s) ≡ true
  unfolding start_monitor
  start_monitor-goes_on m s = ground arith

  start_zeromq-goes_on :
      (m : Machine) (tokens : List Bytes) (s : Program p)
      → goes_on (start_zeromq p m tokens s) ≡ (
          is_empty (get_cmd_option (codes "--enable-zeromq") tokens)
          || m.zeromq_made && m.zeromq_bound)
  unfolding start_zeromq initialise init Socket.start
  start_zeromq-goes_on m tokens s = ground arith

  start_telnet-goes_on :
      (m : Machine) (tokens : List Bytes) (s : Program p)
      → goes_on (start_telnet p m tokens s) ≡ is_accepted (telnet_start tokens)
  unfolding start_telnet
  start_telnet-goes_on m tokens s = ground arith

  pub start-goes_on :
      (m : Machine) (tokens : List Bytes) → goes_on (start p m tokens) ≡ can_start m tokens
  unfolding start set_up_log
  start-goes_on m tokens =
      simp
        (
          goes_on-then_do, check_config-goes_on, set_signals-goes_on, start_tracer-goes_on,
          start_prometheus-goes_on, start_monitor-goes_on, start_zeromq-goes_on,
          start_telnet-goes_on,
        )
        (ground arith)
