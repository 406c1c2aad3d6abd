-- ===== src/Main/Watch/Steps.antt =====
-- What one event of the running program of src/main.cpp does to the check flags and to the servers.
use repo_init.Base.{
  ◌≡◌, refl, sym, ap, subst, ◌∙◌, inl, inr, Bool, true, false, not, Option, none, some, List, [],
  ◌∷◌, arith, Bool-cases, Option-cases, is_just, Bytes, codes,
}
use repo_init.Main.{alarm_func, clear_flags}
use repo_init.Main.Start.{Machine, Program}
use repo_init.Main.Watch.{
  Part, crash_part, monitor_part, zeromq_part, telnet_part, part_name, mark, Event, alarm,
  crash_round, monitor_round, zeromq_round, telnet_round, crash_step, monitor_step, zeromq_step,
  telnet_step, act, test_and_set,
}
use repo_init.Main.Watch.Rounds.{
  Mark, cleared, unmarked, alive, alive_if, mark_of, is_alive, measures, comes_back,
  update-comes_back,
}
use repo_init.Metrics.Process as Process
use repo_init.Metrics.Process.{get_disk_io}
use repo_init.Utils.Tracer.{thread_loop, thread_loop-step}
use repo_init.Main.Watch.Host.{IsMain, IsTelnet, IsZeroMq}
use repo_init.Metrics.Prometheus.{Prometheus}
use repo_init.Telnet.Server.{Server, Tick, update_server}
use repo_init.Telnet.Server.Flags as Telnet
use repo_init.Telnet.Server.Flags.{update_server-Served}
use repo_init.Telnet.Server.Limits.{
  update_server-IsServer, IsSafeServerHost, main_host-IsSafeServerHost,
}
use repo_init.Telnet.Session.{World}
use repo_init.Telnet.Update.Flags.{main_host-KeepsFlags}
use repo_init.Telnet.Update.Installed.{main_host}
use repo_init.ZeroMq.Commands.{message_callback}
use repo_init.ZeroMq.Server.{Round, ZeroMqServer}
use repo_init.ZeroMq.Server as ZeroMq
use repo_init.ZeroMq.Server.Flags as Control
use repo_init.ZeroMq.Server.Flags.{message_callback-IsQuiet}
use repo_init.ZeroMq.Socket.{ZeroMq as Socket}

-- The flags, where each part has one.
abbrev pub flags_of : (Part → Bool) → List (Bytes × Bool)
flags_of f =
    (part_name crash_part, f crash_part)
    ∷ (part_name monitor_part, f monitor_part)
    ∷ (part_name zeromq_part, f zeromq_part)
    ∷ (part_name telnet_part, f telnet_part)
    ∷ []

module _ (p : Prometheus) where
  pub flags_of-next :
      (f : Part → Bool) (k : Mark p) (ks : List (Mark p))
      → flags_of (λ part. is_alive p part (is_alive p part (f part) (k ∷ [])) ks)
        ≡ flags_of (λ part. is_alive p part (f part) (k ∷ ks))
  flags_of-next f cleared ks = refl
  flags_of-next f unmarked ks = refl
  flags_of-next f (alive q) ks = refl

  abbrev set_marks : Mark p → World → World
  set_marks cleared w = alarm_func w
  set_marks unmarked w = w
  set_marks (alive part) w = mark part w

  pub set_marks-flags_of :
      (k : Mark p) (w : World) (f : Part → Bool)
      → w.check_flags ≡ flags_of f
      → (set_marks k w).check_flags ≡ flags_of (λ part. is_alive p part (f part) (k ∷ []))
  unfolding alarm_func
  set_marks-flags_of cleared w f e = ap clear_flags e
  set_marks-flags_of unmarked w f e = e
  set_marks-flags_of (alive crash_part) w f e = ap (test_and_set (part_name crash_part)) e
  set_marks-flags_of (alive monitor_part) w f e = ap (test_and_set (part_name monitor_part)) e
  set_marks-flags_of (alive zeromq_part) w f e = ap (test_and_set (part_name zeromq_part)) e
  set_marks-flags_of (alive telnet_part) w f e = ap (test_and_set (part_name telnet_part)) e

  -- A step leaves the servers as main has set them up, and does to the flags what its mark says.
  abbrev pub Stepped : Machine → Mark p → Program p → Option (Program p) → Type 0
  Stepped m k s none = Unit
  Stepped m k s (some s') =
      IsMain p m s' × (s'.world.check_flags ≡ (set_marks k s.world).check_flags)

  test_and_set_next :
      (part : Part) (w w' : World)
      → w'.check_flags ≡ w.check_flags
      → (mark part w').check_flags ≡ (mark part w).check_flags
  test_and_set_next part w w' e = ap (test_and_set (part_name part)) e

  module _ (m : Machine) where
    crash_step-Stepped :
        (h : _) (s : Program p)
        → IsMain p m s
        → Stepped m (alive crash_part) s (some (crash_step p h s))
    unfolding crash_step
    crash_step-Stepped h s ok =
        let ends = thread_loop-step h [] 0 (some false) (omega arith) in
        simp (crash_step, ends, thread_loop)
          (record { telnet_is = ok.telnet_is; zeromq_is = ok.zeromq_is }, refl)

    monitor_step-Stepped :
        (system : _) (t : _) (s : Program p)
        → IsMain p m s
        → Stepped m
            (alive_if p monitor_part (measures system (some t)))
            s
            (some (monitor_step p system t s))
    unfolding monitor_step Process.update
    monitor_step-Stepped system t s ok =
        elim (Option-cases
          (get_disk_io system.io_for_read system.io_for_write t.old_read_bytes t.old_write_bytes)) [
            | inl n ↦
                simp (monitor_step, Process.update, n)
                  (record { telnet_is = ok.telnet_is; zeromq_is = ok.zeromq_is }, refl)
            | inr (r, n) ↦
                simp (monitor_step, Process.update, n)
                  (record { telnet_is = ok.telnet_is; zeromq_is = ok.zeromq_is }, refl)
          ]

    zeromq_step-Stepped :
        (r : Round) (z : ZeroMqServer p) (s : Program p)
        → IsMain p m s
        → IsZeroMq p m (some z)
        → Stepped m (alive_if p zeromq_part (comes_back r)) s (zeromq_step p m r z s)
    unfolding zeromq_step
    zeromq_step-Stepped r z s ok set =
        let f = message_callback m.zeromq_env in
        let kept =
          Control.update-Served p m.zeromq_env f (message_callback-IsQuiet m.zeromq_env) r z s.world
            set.0 in
        elim (Option-cases (ZeroMq.update p m.zeromq_env r z s.world)) [
          | inl u ↦ rw (zeromq_step, u) tt
          | inr (a, u) ↦
              let got = subst (Control.Served p f z s.world) u kept in
              let is : IsZeroMq p m (some a.server) =
                (got.1, ap (λ (o : Socket). o.is_active) got.2 ∙ set.1) in
              let failed = update-comes_back p m.zeromq_env r z s.world a set.1 u in
              elim (Bool-cases (comes_back r)) [
                | inl c ↦
                    let no : a.failed ≡ false = failed ∙ ap not c in
                    simp (zeromq_step, u, c, no)
                      (
                        record { telnet_is = ok.telnet_is; zeromq_is = is },
                        test_and_set_next zeromq_part s.world a.world got.0,
                      )
                | inr c ↦
                    let yes : a.failed ≡ true = failed ∙ ap not c in
                    simp (zeromq_step, u, c, yes)
                      (record { telnet_is = ok.telnet_is; zeromq_is = is }, got.0)
              ]
        ]

    telnet_step-Stepped :
        (k : Tick p) (v : Server p) (s : Program p)
        → IsMain p m s
        → IsTelnet p m (some v)
        → Stepped m (alive telnet_part) s (telnet_step p m k v s)
    unfolding telnet_step
    telnet_step-Stepped k v s ok set =
        let env = m.telnet_env in
        let host = main_host env (codes "> ") in
        let kept =
          update_server-Served p env host (main_host-KeepsFlags env (codes "> ")) k v s.world
            set.0 in
        elim (Option-cases (update_server p env k v s.world)) [
          | inl u ↦ rw (telnet_step, u) tt
          | inr ((v', w'), u) ↦
              let safe =
                subst IsSafeServerHost (sym set.0) (main_host-IsSafeServerHost env (codes "> ")) in
              let next = update_server-IsServer p env k v v' s.world w' safe set.1 u in
              let got = subst (Telnet.Served p s.world) u kept in
              simp (telnet_step, u)
                (
                  record { telnet_is = (next.1 ∙ set.0, next.0); zeromq_is = ok.zeromq_is },
                  test_and_set_next telnet_part s.world w' got,
                )
        ]

    pub act-Acted :
        (e : Event p) (s : Program p) → IsMain p m s → Stepped m (mark_of p e s) s (act p m e s)
    unfolding act
    act-Acted alarm s ok = (record { telnet_is = ok.telnet_is; zeromq_is = ok.zeromq_is }, refl)
    act-Acted (crash_round h) s ok = elim (Bool-cases (is_just s.crashpad_controller)) [
      | inl e ↦ rw (act, e) (crash_step-Stepped h s ok)
      | inr e ↦ rw (act, e) (ok, refl)
    ]
    act-Acted (monitor_round system) s ok = elim (Option-cases s.self_monitor) [
      | inl e ↦ rw (act, e) (ok, refl)
      | inr (t, e) ↦ rw (act, e) (monitor_step-Stepped system t s ok)
    ]
    act-Acted (zeromq_round r) s ok = elim (Option-cases s.zmq_controller) [
      | inl e ↦ rw (act, e) (ok, refl)
      | inr (z, e) ↦ elim (Bool-cases z.thread_running) [
        | inr n ↦ simp (act, e, n) (ok, refl)
        | inl n ↦
            simp (act, e, n) (zeromq_step-Stepped r z s ok (subst (IsZeroMq p m) e ok.zeromq_is))
      ]
    ]
    act-Acted (telnet_round k) s ok = elim (Option-cases s.telnet_controller) [
      | inl e ↦ rw (act, e) (ok, refl)
      | inr (v, e) ↦ elim (Bool-cases v.thread_running) [
        | inr n ↦ simp (act, e, n) (ok, refl)
        | inl n ↦
            simp (act, e, n) (telnet_step-Stepped k v s ok (subst (IsTelnet p m) e ok.telnet_is))
      ]
    ]
