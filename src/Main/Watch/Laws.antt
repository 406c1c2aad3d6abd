-- ===== src/Main/Watch/Laws.antt =====
-- What the check flags of the running program say: which of its threads have had a round since the last
-- alarm of src/main.cpp.
use repo_init.Base.{
  ◌≡◌, refl, subst, ◌∙◌, inl, inr, Bool, true, false, Option, none, some, List, [], ◌∷◌, arith,
  Bool-cases, Option-cases, is_just, Bytes, codes,
}
use repo_init.Main.Start.{Machine, Program, start}
use repo_init.Main.Start.Laws.{can_start}
use repo_init.Main.Start.Parts.{start-HasStarted}
use repo_init.Main.Watch.{
  Part, Event, alarm, crash_round, monitor_round, zeromq_round, telnet_round, crash_step,
  monitor_step, zeromq_step, act, run,
}
use repo_init.Main.Watch.Rounds.{mark_of, marks, is_alive}
use repo_init.Main.Watch.Host.{IsMain, IsZeroMq, start-IsMain}
use repo_init.Metrics.Prometheus.{Prometheus}
use repo_init.Telnet.Server.{Server}
use repo_init.Utils.InputParser.{cmd_option_exists}
use repo_init.ZeroMq.Server.Laws.{update-defined}
use repo_init.Main.Watch.Steps.{flags_of, flags_of-next, set_marks-flags_of, Stepped, act-Acted}

module _ (p : Prometheus) where
  module _ (m : Machine) where
    run-is_alive :
        (es : List (Event p)) (s s' : Program p) (f : Part → Bool)
        → s.world.check_flags ≡ flags_of f
        → IsMain p m s
        → run p m es s ≡ some s'
        → (s'.world.check_flags ≡ flags_of (λ part. is_alive p part (f part) (marks p m es s)))
          × IsMain p m s'
    unfolding run marks
    run-is_alive [] s s' f flags ok e =
        let same : s ≡ s' = ground (arith, e) in rw (← same) (flags, ok)
    run-is_alive (x ∷ es) s s' f flags ok e = elim (Option-cases (act p m x s)) [
      | inl n ↦ ground (arith, n, e)
      | inr (s₁, h) ↦
          let acted = subst (Stepped p m (mark_of p x s) s) h (act-Acted p m x s ok) in
          let k = mark_of p x s in
          let marked = acted.1 ∙ set_marks-flags_of p k s.world f flags in
          let e' : run p m es s₁ ≡ some s' = ground (arith, h, e) in
          let rest =
            run-is_alive es s₁ s' (λ part. is_alive p part (f part) (k ∷ [])) marked acted.0 e' in
          simp (marks, h) (rest.0 ∙ flags_of-next p f k (marks p m es s₁), rest.1)
    ]

    -- What runs without a Telnet server.
    act-defined :
        (e : Event p) (s : Program p)
        → s.telnet_controller ≡ none
        → IsMain p m s
        → (s' : Program p) × (act p m e s ≡ some s') × (s'.telnet_controller ≡ none)
    unfolding act crash_step monitor_step zeromq_step
    act-defined alarm s off ok = (_, refl, off)
    act-defined (crash_round h) s off ok = (_, refl, ground (arith, off))
    act-defined (monitor_round system) s off ok = elim (Option-cases s.self_monitor) [
      | inl e ↦ simp (act, e) (_, refl, off)
      | inr (t, e) ↦ simp (act, e) (_, refl, ground (arith, off))
    ]
    act-defined (zeromq_round r) s off ok = elim (Option-cases s.zmq_controller) [
      | inl e ↦ simp (act, e) (_, refl, off)
      | inr (z, e) ↦ elim (Bool-cases z.thread_running) [
        | inr n ↦ simp (act, e, n) (_, refl, off)
        | inl n ↦
            let set = subst (IsZeroMq p m) e ok.zeromq_is in
            let (a, u, set') = update-defined p m.zeromq_env r z s.world set.0 in
            simp (act, zeromq_step, e, n, u) (_, refl, ground (arith, off))
      ]
    ]
    act-defined (telnet_round k) s off ok = simp (act, off) (_, refl, off)

    run-defined :
        (es : List (Event p)) (s : Program p)
        → s.telnet_controller ≡ none
        → IsMain p m s
        → is_just (run p m es s) ≡ true
    unfolding run
    run-defined [] s off ok = refl
    run-defined (x ∷ es) s off ok =
        let (s', h, off') = act-defined x s off ok in
        let acted = subst (Stepped p m (mark_of p x s) s) h (act-Acted p m x s ok) in
        simp (run, h) (run-defined es s' off' acted.0)

  -- When main has come to its loop, then after any rounds of its threads and any alarms, in any order,
  -- in which no round is undefined, the check flags are the four of its parts, in the order of their
  -- start, and a flag is set just if its part has come to the end of a round since the last alarm. A part
  -- with a thread comes to the end of every round, but the measurement of one in which a number of the
  -- process's input and output is none, and the control server of one in which receiving throws, or
  -- sending the reply to a message that has come. The Telnet server still has the callbacks and the prompt
  -- of main, at most five sessions and their histories in order; the control server still has the callback
  -- of main.
  pub run-flags :
      (m : Machine) (tokens : List Bytes) (es : List (Event p)) (s' : Program p)
      → can_start m tokens ≡ true
      → run p m es (start p m tokens).0 ≡ some s'
      → (s'.world.check_flags
          ≡ flags_of (λ part. is_alive p part false (marks p m es (start p m tokens).0)))
        × IsMain p m s'
  run-flags m tokens es s' can e =
      let started = (start-HasStarted p m tokens).1 can in
      run-is_alive m es (start p m tokens).0 s' (λ part. false) started.flags_are
        (start-IsMain p m tokens) e

  -- When main has come to its loop and no Telnet server was asked for, every sequence of rounds of its
  -- threads and of alarms is defined.
  pub run-without_telnet :
      (m : Machine) (tokens : List Bytes) (es : List (Event p))
      → can_start m tokens ≡ true
      → cmd_option_exists (codes "--enable-telnet") tokens ≡ false
      → is_just (run p m es (start p m tokens).0) ≡ true
  run-without_telnet m tokens es can off =
      let started = (start-HasStarted p m tokens).1 can in
      run-defined m es (start p m tokens).0 (absent _ (started.telnet_is ∙ off))
        (start-IsMain p m tokens)
    where
      absent : (o : Option (Server p)) → is_just o ≡ false → o ≡ none
      absent none e = refl
      absent (some v) e = cc
