-- ===== src/Main/Start/Steps.antt =====
-- What each part of the start of main adds to what runs.
use repo_init.Base.{
  ◌≡◌, refl, Bool, true, false, not, List, [], ◌∷◌, ◌++◌, arith, is_just, is_empty, Bytes, codes,
}
use repo_init.Logging.Level.{Level, default_level}
use repo_init.Main.{adjust_log_level, telnet_start}
use repo_init.Main.Start.{
  Machine, Program, empty_program, check_config, set_up_log, set_signals, start_tracer,
  start_prometheus, start_monitor, start_zeromq, start_telnet,
}
use repo_init.Metrics.Process.{process_metrics}
use repo_init.Metrics.Prometheus.{Prometheus}
use repo_init.Utils.ConfigParser.{ConfigParser}
use repo_init.Utils.InputParser.{get_cmd_option, cmd_option_exists}
use repo_init.Main.Start.Laws.{goes_on}

module _ (p : Prometheus) where
  -- What has been started: the flags that there are, the level, whether the alarm is set, and which of
  -- the tracer, the Prometheus server, the self monitor, the ZeroMQ and the Telnet server exist.
  pub record HasStarted (flags : List (Bytes × Bool)) (level : Level)
      (alarm tracing reports monitors controls serves : Bool) (s : Program p) : Type 0 where
    pub flags_are : s.world.check_flags ≡ flags
    pub level_is : s.world.log_level ≡ level
    pub alarm_is : s.alarm_set ≡ alarm
    pub tracer_is : is_just s.crashpad_controller ≡ tracing
    pub prometheus_is : is_just s.main_prometheus_server ≡ reports
    pub monitor_is : is_just s.self_monitor ≡ monitors
    pub zeromq_is : is_just s.zmq_controller ≡ controls
    pub telnet_is : is_just s.telnet_controller ≡ serves

  pub empty_program-HasStarted :
      (level : Level)
      → HasStarted [] level false false false false false false (empty_program p level)
  empty_program-HasStarted level = record {
    flags_are = refl;
    level_is = refl;
    alarm_is = refl;
    tracer_is = refl;
    prometheus_is = refl;
    monitor_is = refl;
    zeromq_is = refl;
    telnet_is = refl;
  }

  pub check_config-HasStarted :
      (m : Machine) (config : ConfigParser) (level : Level)
      → HasStarted [] level false false false false false false
          (check_config p m config (empty_program p level)).0
  unfolding check_config
  check_config-HasStarted m config level = ground arith

  module _ (flags : List (Bytes × Bool)) (level : Level) (s : Program p) where
    pub set_up_log-HasStarted :
        (m : Machine) (tokens : List Bytes)
        → HasStarted flags level false false false false false false s
        → HasStarted flags
            (adjust_log_level tokens (default_level m.ndebug))
            false
            false
            false
            false
            false
            false
            (set_up_log p m tokens s).0
    unfolding set_up_log
    set_up_log-HasStarted m tokens h = record {
      flags_are = h.flags_are;
      level_is = refl;
      alarm_is = h.alarm_is;
      tracer_is = h.tracer_is;
      prometheus_is = h.prometheus_is;
      monitor_is = h.monitor_is;
      zeromq_is = h.zeromq_is;
      telnet_is = h.telnet_is;
    }

    pub set_signals-HasStarted :
        (m : Machine)
        → HasStarted flags level false false false false false false s
        → goes_on p (set_signals p m s) ≡ true
        → HasStarted flags level true false false false false false (set_signals p m s).0
    unfolding set_signals
    set_signals-HasStarted m h g = ground arith

    pub start_tracer-HasStarted :
        (m : Machine) (config : ConfigParser)
        → HasStarted flags level true false false false false false s
        → goes_on p (start_tracer p m config s) ≡ true
        → HasStarted
            (flags ++ (codes "Crashpad Handler", false) ∷ [])
            level
            true
            true
            false
            false
            false
            false
            (start_tracer p m config s).0
    unfolding start_tracer
    start_tracer-HasStarted m config h g = ground arith

    pub start_prometheus-HasStarted :
        (m : Machine) (tokens : List Bytes)
        → HasStarted flags level true true false false false false s
        → goes_on p (start_prometheus p m tokens s) ≡ true
        → HasStarted flags level true true
            (not (is_empty (get_cmd_option (codes "--enable-prometheus") tokens)))
            false
            false
            false
            (start_prometheus p m tokens s).0
    unfolding start_prometheus
    start_prometheus-HasStarted m tokens h g = ground arith

    pub start_monitor-HasStarted :
        (m : Machine) (reports : Bool)
        → HasStarted flags level true true reports false false false s
        → HasStarted
            (flags ++ (codes "Self Monitor", false) ∷ [])
            level
            true
            true
            reports
            reports
            false
            false
            (start_monitor p m s).0
    unfolding start_monitor process_metrics
    start_monitor-HasStarted m reports h = ground arith

    pub start_zeromq-HasStarted :
        (m : Machine) (tokens : List Bytes) (reports : Bool)
        → HasStarted flags level true true reports reports false false s
        → goes_on p (start_zeromq p m tokens s) ≡ true
        → HasStarted
            (flags ++ (codes "ZeroMQ Server", false) ∷ [])
            level
            true
            true
            reports
            reports
            (not (is_empty (get_cmd_option (codes "--enable-zeromq") tokens)))
            false
            (start_zeromq p m tokens s).0
    unfolding start_zeromq
    start_zeromq-HasStarted m tokens reports h g = ground arith

    pub start_telnet-HasStarted :
        (m : Machine) (tokens : List Bytes) (reports controls : Bool)
        → HasStarted flags level true true reports reports controls false s
        → goes_on p (start_telnet p m tokens s) ≡ true
        → HasStarted
            (flags ++ (codes "Telnet Server", false) ∷ [])
            level
            true
            true
            reports
            reports
            controls
            (cmd_option_exists (codes "--enable-telnet") tokens)
            (start_telnet p m tokens s).0
    unfolding start_telnet telnet_start
    start_telnet-HasStarted m tokens reports controls h g = ground arith
