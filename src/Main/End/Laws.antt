-- ===== src/Main/End/Laws.antt =====
-- What main of src/main.cpp has let go of when it ends behind its loop.
use repo_init.Base.{
  ℕ, ◌≡◌, refl, ap, subst, ◌∙◌, ◌↔◌, ◌⊎◌, inl, inr, Bool, true, false, not, ◌&&◌, Option, none,
  some, List, [], ◌∷◌, arith, Option-cases, is_just, is_empty, Bytes, codes,
}
use repo_init.Main.End.{exit_success, terminated, release_telnet, destroy_zeromq, finish}
use repo_init.Main.Start.{Machine, Program, start}
use repo_init.Main.Start.Laws.{can_start}
use repo_init.Main.Start.Parts.{start-HasStarted}
use repo_init.Main.Watch.{
  Event, alarm, crash_round, monitor_round, zeromq_round, telnet_round, crash_step, monitor_step,
  zeromq_step, telnet_step, act, run,
}
use repo_init.Main.Watch.Host.{IsZeroMq}
use repo_init.Main.Watch.Laws.{run-flags}
use repo_init.Metrics.Prometheus.{Prometheus}
use repo_init.Telnet.Server as Telnet
use repo_init.Telnet.Server.{Server}
use repo_init.Telnet.Session.{Session}
use repo_init.Utils.InputParser.{cmd_option_exists, get_cmd_option}
use repo_init.ZeroMq.Server as ZeroMq
use repo_init.ZeroMq.Server.{ZeroMqServer}
use repo_init.ZeroMq.Socket as Socket

module _ (p : Prometheus) where
  -- Which servers there are.
  abbrev Same : Program p → Option (Program p) → Type 0
  Same s none = Unit
  Same s (some s') =
      (is_just s'.telnet_controller ≡ is_just s.telnet_controller)
      × (is_just s'.zmq_controller ≡ is_just s.zmq_controller)

  act-Same : (m : Machine) (e : Event p) (s : Program p) → Same s (act p m e s)
  unfolding act crash_step monitor_step zeromq_step telnet_step
  act-Same m alarm s = ground arith
  act-Same m (crash_round h) s = ground arith
  act-Same m (monitor_round system) s = ground arith
  act-Same m (zeromq_round r) s = ground arith
  act-Same m (telnet_round k) s = ground arith

  run-servers :
      (m : Machine) (es : List (Event p)) (s s' : Program p)
      → run p m es s ≡ some s'
      → (is_just s'.telnet_controller ≡ is_just s.telnet_controller)
        × (is_just s'.zmq_controller ≡ is_just s.zmq_controller)
  unfolding run
  run-servers m [] s s' e = let same : s ≡ s' = ground (arith, e) in rw (← same) (refl, refl)
  run-servers m (x ∷ es) s s' e = elim (Option-cases (act p m x s)) [
    | inl n ↦ ground (arith, n, e)
    | inr (s₁, h) ↦
        let kept = subst (Same s) h (act-Same m x s) in
        let e' : run p m es s₁ ≡ some s' = ground (arith, h, e) in
        let rest = run-servers m es s₁ s' e' in (rest.0 ∙ kept.0, rest.1 ∙ kept.1)
  ]

  -- Whether a session is open.
  abbrev pub has_session : Option (Server p) → Bool
  has_session none = false
  has_session (some v) = not (is_empty v.sessions)

  -- A Telnet server that its destructor has shut down.
  abbrev pub IsShut : Option (Server p × List Session) → Type 0
  IsShut none = Unit
  IsShut (some (v, closed)) = (closed ≡ []) × (v.listen_socket ≡ none) × (v.thread_running ≡ false)

  release_telnet-IsShut :
      (now : ℕ) (o : Option (Server p))
      → let r = release_telnet p now o in
        (is_just r.0 ≡ has_session o)
        × (is_just r.1 ≡ (is_just o && not (has_session o)))
        × IsShut r.1
  unfolding release_telnet Telnet.shutdown
  release_telnet-IsShut now none = (refl, refl, tt)
  release_telnet-IsShut now (some v) = elim (List-cases v.sessions) [
    | inl e ↦ simp e (refl, refl, (refl, refl, refl))
    | inr (x, rest, e) ↦ simp e (ground arith)
  ]
    where
      List-cases :
          (l : List Session) → (l ≡ []) ⊎ ((x : Session) × (rest : List Session) × (l ≡ x ∷ rest))
      List-cases [] = inl refl
      List-cases (x ∷ rest) = inr (x, rest, refl)

  -- A control server that has unbound its socket, and has no thread.
  abbrev pub IsStopped : Option (ZeroMqServer p) → Type 0
  IsStopped none = Unit
  IsStopped (some z) = (z.socket.is_active ≡ false) × (z.thread_running ≡ false)

  destroy_zeromq-exit :
      (m : Machine) (first second : Bool) (o : Option (ZeroMqServer p))
      → IsZeroMq p m o
      → let r = destroy_zeromq p first second o in
        ((r.1 ≡ terminated) ↔ ((is_just o ≡ true) × (first ≡ false)))
        × (r.1 ≡ exit_success → IsStopped r.0)
  unfolding destroy_zeromq ZeroMq.shutdown Socket.stop
  destroy_zeromq-exit m first second none ok = ground arith
  destroy_zeromq-exit m first second (some z) ok = ground (arith, ok.1)

  -- When main has come to its loop and then, after any rounds and alarms of which none is undefined, ends:
  -- the Telnet server outlives main just if it has a session, whose pointer owns it still. It is shut
  -- down just if it was asked for and has none, and so closes no session; its listening socket is closed
  -- and its thread has ended. A destructor throws just if a control server was asked for and its call of
  -- unbind throws; else the control server, if there is one, is inactive and has no thread.
  pub finish-servers :
      (m : Machine) (tokens : List Bytes) (es : List (Event p)) (s' : Program p) (now : ℕ)
      (first second : Bool)
      → can_start m tokens ≡ true
      → run p m es (start p m tokens).0 ≡ some s'
      → let e = finish p now first second s' in
        (is_just e.telnet_left ≡ has_session s'.telnet_controller)
        × (is_just e.telnet_shut ≡ (
            cmd_option_exists (codes "--enable-telnet") tokens
            && not (has_session s'.telnet_controller)))
        × IsShut e.telnet_shut
        × ((e.exit ≡ terminated) ↔ (
            (not (is_empty (get_cmd_option (codes "--enable-zeromq") tokens)) ≡ true)
            × (first ≡ false)))
        × (e.exit ≡ exit_success → IsStopped e.zeromq_shut)
  unfolding finish
  finish-servers m tokens es s' now first second can e =
      let started = (start-HasStarted p m tokens).1 can in
      let kept = run-servers m es (start p m tokens).0 s' e in
      let ok = (run-flags p m tokens es s' can e).1 in
      let telnet = release_telnet-IsShut now s'.telnet_controller in
      let control = destroy_zeromq-exit m first second s'.zmq_controller ok.zeromq_is in
      let serves = kept.0 ∙ started.telnet_is in
      let controls = kept.1 ∙ started.zeromq_is in
      (
        telnet.0,
        telnet.1 ∙ ap (λ b. b && not (has_session s'.telnet_controller)) serves,
        telnet.2,
        subst
            (λ b.
              ((destroy_zeromq p first second s'.zmq_controller).1 ≡ terminated)
              ↔ ((b ≡ true) × (first ≡ false)))
            controls control.0,
        control.1,
      )
