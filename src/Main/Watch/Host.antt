-- ===== src/Main/Watch/Host.antt =====
-- The servers of the running program of src/main.cpp: they keep the callbacks that main has set,
-- and the control server its socket.
use repo_init.Base.{
  true, ℕ, ◌≡◌, refl, sym, subst, ◌⊎◌, inl, inr, Bool, false, Option, none, some, List, arith,
  Bool-cases, is_just, is_empty, All, Bytes, codes,
}
use repo_init.Main.Start.{
  Machine, Program, Step, ◌then_do◌, check_config, set_up_log, set_signals, start_tracer,
  start_prometheus, start_monitor, start_zeromq, start_telnet, start, telnet_server, empty_program,
  config_path, zeromq_server,
}
use repo_init.Utils.ConfigParser.{ConfigParser, config_parser}
use repo_init.Logging.Level.{info}
use repo_init.Metrics.Prometheus.{Prometheus}
use repo_init.Telnet.Server.{Server, SetUp, initialise_server, open_listen}
use repo_init.Telnet.Server.Limits.{IsServer}
use repo_init.Telnet.History.{IsHistory}
use repo_init.Telnet.Update.Installed.{main_host}
use repo_init.ZeroMq.Commands.{message_callback}
use repo_init.ZeroMq.Socket as ZeroMq
use repo_init.ZeroMq.Socket.{init}
use repo_init.ZeroMq.Socket.{Outcome, threw, returned}
use repo_init.Main.{not_wanted, refused, port, telnet_start, TelnetStart}
use repo_init.Utils.InputParser.{get_cmd_option}
use repo_init.ZeroMq.Server.{ZeroMqServer, initialise}

Outcome-cases : (o : Outcome) → (o ≡ threw) ⊎ ((b : Bool) × (o ≡ returned b))
Outcome-cases threw = inl refl
Outcome-cases (returned b) = inr (b, refl)

module _ (p : Prometheus) (m : Machine) where
  abbrev pub IsTelnet : Option (Server p) → Type 0
  IsTelnet none = Unit
  IsTelnet (some v) = (v.host ≡ main_host m.telnet_env (codes "> ")) × IsServer p v

  abbrev pub IsZeroMq : Option (ZeroMqServer p) → Type 0
  IsZeroMq none = Unit
  IsZeroMq (some z) =
      (z.callback ≡ some (message_callback m.zeromq_env)) × (z.socket.is_active ≡ true)

  -- The servers have the callbacks of main, and the Telnet server keeps its bounds.
  pub record IsMain (s : Program p) : Type 0 where
    pub telnet_is : IsTelnet s.telnet_controller
    pub zeromq_is : IsZeroMq s.zmq_controller

  -- A part of main that starts neither server.
  abbrev Same : Program p → Program p → Type 0
  Same s s' = (s'.telnet_controller ≡ s.telnet_controller) × (s'.zmq_controller ≡ s.zmq_controller)

  Same-IsMain : (s s' : Program p) → Same s s' → IsMain s → IsMain s'
  Same-IsMain s s' e h = record {
    telnet_is = subst IsTelnet (sym e.0) h.telnet_is;
    zeromq_is = subst IsZeroMq (sym e.1) h.zeromq_is;
  }

  check_config-Same : (config : ConfigParser) (s : Program p) → Same s (check_config p m config s).0
  unfolding check_config
  check_config-Same config s = ground arith

  set_up_log-Same : (tokens : List Bytes) (s : Program p) → Same s (set_up_log p m tokens s).0
  unfolding set_up_log
  set_up_log-Same tokens s = (refl, refl)

  set_signals-Same : (s : Program p) → Same s (set_signals p m s).0
  unfolding set_signals
  set_signals-Same s = ground arith

  start_tracer-Same : (config : ConfigParser) (s : Program p) → Same s (start_tracer p m config s).0
  unfolding start_tracer
  start_tracer-Same config s = ground arith

  start_prometheus-Same :
      (tokens : List Bytes) (s : Program p) → Same s (start_prometheus p m tokens s).0
  unfolding start_prometheus
  start_prometheus-Same tokens s = ground arith

  start_monitor-Same : (s : Program p) → Same s (start_monitor p m s).0
  unfolding start_monitor
  start_monitor-Same s = ground arith

  zeromq_server-callback :
      (addr : Bytes) (registry : Bool)
      → (initialise p m.zeromq_bound (zeromq_server p m addr registry)).0.callback
        ≡ some (message_callback m.zeromq_env)
  unfolding initialise
  zeromq_server-callback addr registry = ground arith

  zeromq_server-is_active :
      (addr : Bytes) (registry b : Bool)
      → let r = initialise p m.zeromq_bound (zeromq_server p m addr registry) in
        r.1 ≡ returned b → r.0.socket.is_active ≡ true
  unfolding initialise init ZeroMq.start
  zeromq_server-is_active addr registry b e = ground (arith, e)

  start_zeromq-IsMain :
      (tokens : List Bytes) (s : Program p) → IsMain s → IsMain (start_zeromq p m tokens s).0
  unfolding start_zeromq
  start_zeromq-IsMain tokens s h =
      let addr = get_cmd_option (codes "--enable-zeromq") tokens in
      let server = zeromq_server p m addr (is_just s.main_prometheus_server) in
      let kept = zeromq_server-callback addr (is_just s.main_prometheus_server) in
      elim (Bool-cases (is_empty addr)) [
        | inl e ↦ rw e (record { telnet_is = h.telnet_is; zeromq_is = h.zeromq_is })
        | inr e ↦ elim (Bool-cases m.zeromq_made) [
          | inr n ↦ rw (e, n) (record { telnet_is = h.telnet_is; zeromq_is = h.zeromq_is })
          | inl n ↦ elim (Outcome-cases (initialise p m.zeromq_bound server).1) [
            | inl o ↦ rw (e, n, o) (record { telnet_is = h.telnet_is; zeromq_is = h.zeromq_is })
            | inr (b, o) ↦
                rw (e, n, o)
                  (record {
                    telnet_is = h.telnet_is;
                    zeromq_is =
                        (kept, zeromq_server-is_active addr (is_just s.main_prometheus_server) b o);
                  })
          ]
        ]
      ]

  initialise_server-kept :
      (c : SetUp) (n : ℕ) (prompt : Bytes) (registry : Bool) (v : Server p)
      → v.initialised ≡ false
      → let v' = (initialise_server p c n prompt registry v).0 in
        (v'.host ≡ record v.host { prompt_string = prompt }) × (v'.sessions ≡ v.sessions)
  unfolding initialise_server open_listen
  initialise_server-kept c n prompt registry v fresh = ground (arith, fresh)

  initialise_server-IsTelnet :
      (c : SetUp) (n : ℕ) (registry : Bool)
      → IsTelnet (
          some
            (initialise_server p c n
              (codes "> ")
              registry
              (telnet_server p m.telnet_env (codes "> "))).0)
  unfolding main_host
  initialise_server-IsTelnet c n registry =
      let v = telnet_server p m.telnet_env (codes "> ") in
      let kept = initialise_server-kept c n (codes "> ") registry v refl in
      let fresh : IsServer p v = record { at_most = omega arith; histories = tt } in
      (
        kept.0,
        record {
          at_most = rw kept.1 fresh.at_most;
          histories = subst (All IsHistory) (sym kept.1) fresh.histories;
        },
      )

  start_telnet-IsMain :
      (tokens : List Bytes) (s : Program p) → IsMain s → IsMain (start_telnet p m tokens s).0
  unfolding start_telnet
  start_telnet-IsMain tokens s h = start_as (telnet_start tokens) refl
    where
      start_as : (t : TelnetStart) → telnet_start tokens ≡ t → IsMain (start_telnet p m tokens s).0
      start_as not_wanted e =
          rw (start_telnet, e) (record { telnet_is = h.telnet_is; zeromq_is = h.zeromq_is })
      start_as refused e =
          rw (start_telnet, e) (record { telnet_is = h.telnet_is; zeromq_is = h.zeromq_is })
      start_as (port n) e =
          rw (start_telnet, e)
            (record {
              telnet_is =
                  initialise_server-IsTelnet m.telnet_set_up n (is_just s.main_prometheus_server);
              zeromq_is = h.zeromq_is;
            })

  then_do-IsMain :
      (a : Step p) (f : Program p → Step p)
      → IsMain a.0
      → ((s : Program p) → IsMain s → IsMain (f s).0)
      → IsMain (◌then_do◌ p a f).0
  then_do-IsMain (s, none) f h step = step s h
  then_do-IsMain (s, some e) f h step = h

  then_do-Same :
      (a : Step p) (f : Program p → Step p)
      → IsMain a.0
      → ((s : Program p) → Same s (f s).0)
      → IsMain (◌then_do◌ p a f).0
  then_do-Same a f h same = then_do-IsMain a f h (λ s h'. Same-IsMain s (f s).0 (same s) h')

  pub start-IsMain : (tokens : List Bytes) → IsMain (start p m tokens).0
  unfolding start
  start-IsMain tokens =
      let config = config_parser (config_path tokens) (m.files (config_path tokens)) in
      let a₁ = check_config p m config (empty_program p info) in
      let a₂ = ◌then_do◌ p a₁ (set_up_log p m tokens) in
      let a₃ = ◌then_do◌ p a₂ (set_signals p m) in
      let a₄ = ◌then_do◌ p a₃ (start_tracer p m config) in
      let a₅ = ◌then_do◌ p a₄ (start_prometheus p m tokens) in
      let a₆ = ◌then_do◌ p a₅ (start_monitor p m) in
      let a₇ = ◌then_do◌ p a₆ (start_zeromq p m tokens) in
      let fresh : IsMain (empty_program p info) = record { telnet_is = tt; zeromq_is = tt } in
      let h₁ =
        Same-IsMain (empty_program p info) a₁.0 (check_config-Same config (empty_program p info))
          fresh in
      let h₂ = then_do-Same a₁ (set_up_log p m tokens) h₁ (set_up_log-Same tokens) in
      let h₃ = then_do-Same a₂ (set_signals p m) h₂ set_signals-Same in
      let h₄ = then_do-Same a₃ (start_tracer p m config) h₃ (start_tracer-Same config) in
      let h₅ = then_do-Same a₄ (start_prometheus p m tokens) h₄ (start_prometheus-Same tokens) in
      let h₆ = then_do-Same a₅ (start_monitor p m) h₅ start_monitor-Same in
      let h₇ = then_do-IsMain a₆ (start_zeromq p m tokens) h₆ (start_zeromq-IsMain tokens) in
      then_do-IsMain a₇ (start_telnet p m tokens) h₇ (start_telnet-IsMain tokens)
