-- ===== src/Telnet/Server/Limits.antt =====
-- What the operations of TelnetServer keep: at most five sessions, each with a history in order.
use repo_init.Base.{
  [], ℕ, ◌≤◌, ◌≡◌, refl, sym, ap, subst, ◌∙◌, inl, inr, Bool, Option, none, some, List, ◌∷◌, arith,
  leb, Bool-cases, Option-cases, length, length-append, All, All-append, Bytes,
}
use repo_init.Telnet.Server.{
  Server, Accepted, Pass, accept_connection, Tick, take_pending, server_stats, update_server,
  thread_func, max_available_session, consume_total, set_flag,
}
use repo_init.Metrics.Prometheus.{Prometheus}
use repo_init.Telnet.Session.{
  Env, World, Session, ConnectedCallback, Host, new_session, transmit, send_line, initialise,
}
use repo_init.Telnet.Commands.{connected_callback, banner}
use repo_init.Telnet.History.{IsHistory}
use repo_init.Telnet.Session.Frame.{Frame-trans, transmit-Frame, send_line-Frame}
use repo_init.Telnet.Server.Histories.{walk-IsHistory}
use repo_init.Telnet.Server.Walk.{walk, session_loop-walks}
use repo_init.Telnet.Update.Installed.{
  main_host, main_host-IsSafeHost, print_available_commands-Frame,
}
use repo_init.Telnet.Update.Editing.{history_moved}
use repo_init.Telnet.Update.Laws.{IsSafeHost}

-- The callbacks of a server keep the histories of its sessions in order.
pub record IsSafeServerHost (host : Host) : Type 0 where
  pub safe_host : IsSafeHost host
  pub safe_connect :
      (f : ConnectedCallback)
      → host.connected_callback ≡ some f
      → (s : Session) (w : World) → IsHistory s
      → IsHistory (f s w).0

pub record IsServer (p : Prometheus) (v : Server p) : Type 0 where
  pub at_most : length v.sessions ≤ max_available_session
  pub histories : All IsHistory v.sessions

new_session-IsHistory : (client_socket : ℕ) → IsHistory (new_session client_socket)
unfolding new_session
new_session-IsHistory client_socket = record {
  lines = record { bounded = omega arith; lines_filled = tt; no_repeats = tt };
  cursor_within = omega arith;
}

initialise-IsHistory :
    (env : Env) (host : Host) (s : Session) (w : World) (now_connect now_seen : ℕ)
    → IsSafeServerHost host
    → IsHistory s
    → IsHistory (initialise env host s w now_connect now_seen).0
unfolding initialise
initialise-IsHistory env host s w now_connect now_seen safe v =
    let s₄ : Session =
      transmit env
        (transmit env
          (transmit env (record s { connect_time = now_connect }) (0xff ∷ 0xfb ∷ 0x01 ∷ []))
          (0xff ∷ 0xfe ∷ 0x01 ∷ []))
        (0xff ∷ 0xfb ∷ 0x03 ∷ []) in
    let f =
      Frame-trans (transmit-Frame env (record s { connect_time = now_connect }) _)
        (Frame-trans (transmit-Frame env _ _) (transmit-Frame env _ _)) in
    let v₄ : IsHistory s₄ = history_moved s s₄ v f.history f.history_cursor in
    elim (Option-cases host.connected_callback) [
      | inl e ↦ rw e (history_moved s₄ (record s₄ { last_seen_time = now_seen }) v₄ refl refl)
      | inr (g, e) ↦ rw e (
          history_moved (g s₄ w).0 (record (g s₄ w).0 { last_seen_time = now_seen })
            (safe.safe_connect g e s₄ w v₄) refl refl)
    ]

module _ (p : Prometheus) where
  accept_connection-IsServer :
      (env : Env) (now_connect now_seen now_close : ℕ) (accepted : Option ℕ) (v : Server p)
      (w : World)
      → IsSafeServerHost v.host
      → IsServer p v
      → IsServer p (accept_connection p env now_connect now_seen now_close accepted v w).server
  unfolding accept_connection
  accept_connection-IsServer env now_connect now_seen now_close none v w safe ok = ok
  accept_connection-IsServer env now_connect now_seen now_close (some socket) v w safe ok =
      let started = initialise env v.host (new_session socket) w now_connect now_seen in
      let fresh =
        initialise-IsHistory env v.host (new_session socket) w now_connect now_seen safe
          (new_session-IsHistory socket) in
      elim (Bool-cases (leb max_available_session (length v.sessions))) [
        | inl y ↦ rw y ok
        | inr n ↦ rw n (record {
          at_most = rw (length-append v.sessions (started.0 ∷ [])) (ground (arith, n));
          histories = All-append IsHistory v.sessions (started.0 ∷ []) ok.histories (fresh, tt);
        })
      ]

  accept_connection-host :
      (env : Env) (now_connect now_seen now_close : ℕ) (accepted : Option ℕ) (v : Server p)
      (w : World)
      → (accept_connection p env now_connect now_seen now_close accepted v w).server.host ≡ v.host
  unfolding accept_connection
  accept_connection-host env now_connect now_seen now_close none v w = refl
  accept_connection-host env now_connect now_seen now_close (some socket) v w = ground arith

  take_pending-IsServer :
      (env : Env) (k : Tick p) (v : Server p) (w : World)
      → IsSafeServerHost v.host
      → IsServer p v
      → IsServer p (take_pending p env k v w).server
        × ((take_pending p env k v w).server.host ≡ v.host)
  unfolding take_pending
  take_pending-IsServer env k v w safe ok = elim (Option-cases k.pending) [
    | inl e ↦ rw e (ok, refl)
    | inr (accepted, e) ↦ rw e (
      accept_connection-IsServer env k.now_connect k.now_seen k.now_close accepted v w safe ok,
      accept_connection-host env k.now_connect k.now_seen k.now_close accepted v w,
    )
  ]

  -- What a round leaves of a server whose sessions were walked.
  abbrev pub finish : Tick p → Accepted p → Option (Pass p) → Option (Server p × World)
  finish k a none = none
  finish k a (some z) = some (
    record a.server {
      sessions = z.kept;
      stats = consume_total p z.tally (server_stats p k a.result z.kept);
    },
    z.world,
  )

  pub update_server-finish :
      (env : Env) (k : Tick p) (v : Server p) (w : World)
      → let a = take_pending p env k v w in
        update_server p env k v w
        ≡ finish k a (walk p env a.server.host k.feed 0 a.server.sessions a.world a.server.stats)
  unfolding update_server
  update_server-finish env k v w =
      let a = take_pending p env k v w in
      let pass = walk p env a.server.host k.feed 0 a.server.sessions a.world a.server.stats in
      rw
        (
          update_server,
          session_loop-walks p env a.server.host k.feed a.server.sessions a.world a.server.stats,
        )
        (elim (Option-cases pass) [ inl n ↦ rw n refl | inr (z, h) ↦ rw h refl ])

  -- A round of the server keeps at most five sessions, each with a well-formed history, and the
  -- callbacks and the prompt, if the callbacks keep the histories.
  pub update_server-IsServer :
      (env : Env) (k : Tick p) (v v' : Server p) (w w' : World)
      → IsSafeServerHost v.host
      → IsServer p v
      → update_server p env k v w ≡ some (v', w')
      → IsServer p v' × (v'.host ≡ v.host)
  update_server-IsServer env k v v' w w' safe ok e =
      let a = take_pending p env k v w in
      let v₁ = a.server in
      let ok₁ = take_pending-IsServer env k v w safe ok in
      let pass = walk p env v₁.host k.feed 0 v₁.sessions a.world v₁.stats in
      elim (Option-cases pass) [
        | inl n ↦
            let q = sym (ap (finish k a) n) ∙ sym (update_server-finish env k v w) ∙ e in
            ground arith
        | inr (z, h) ↦
            let q = sym (ap (finish k a) h) ∙ sym (update_server-finish env k v w) ∙ e in
            let kept =
              walk-IsHistory p env v₁.host k.feed 0 v₁.sessions a.world v₁.stats z
                (subst IsSafeHost (sym ok₁.1) safe.safe_host) ok₁.0.histories h in
            let same : finish k a (some z) ≡ some (v', w') = q in
            let got : record v₁ {
              sessions = z.kept;
              stats = consume_total p z.tally (server_stats p k a.result z.kept);
            }
                ≡ v' =
              ground arith in
            rw (← got)
              (record { at_most = omega (arith, kept.1, ok₁.0.at_most); histories = kept.0 }, ok₁.1)
      ]

  -- Any rounds of the server's thread keep at most five sessions, each with a well-formed history, and
  -- the callbacks and the prompt, if the callbacks keep the histories.
  pub thread_func-IsServer :
      (env : Env) (ks : List (Tick p)) (flag flag' : Option Bool) (v v' : Server p) (w w' : World)
      → IsSafeServerHost v.host
      → IsServer p v
      → thread_func p env ks flag v w ≡ some (flag', v', w')
      → IsServer p v' × (v'.host ≡ v.host)
  unfolding thread_func
  thread_func-IsServer env [] flag flag' v v' w w' safe ok e = ground arith
  thread_func-IsServer env (k ∷ ks) flag flag' v v' w w' safe ok e =
      elim (Option-cases (update_server p env k v w)) [
        | inl n ↦ ground arith
        | inr ((u, x), h) ↦
            let one = update_server-IsServer env k v u w x safe ok h in
            let safe' = subst IsSafeServerHost (sym one.1) safe in
            let e' : thread_func p env ks (set_flag p flag) u x ≡ some (flag', v', w') =
              ground arith in
            let rest =
              thread_func-IsServer env ks (set_flag p flag) flag' u v' x w' safe' one.0 e' in
            (rest.0, rest.1 ∙ one.1)
      ]

-- The callbacks that main installs are safe for the server.
pub main_host-IsSafeServerHost :
    (env : Env) (prompt : Bytes) → IsSafeServerHost (main_host env prompt)
unfolding main_host connected_callback
main_host-IsSafeServerHost env prompt = record {
  safe_host = main_host-IsSafeHost env prompt;
  safe_connect = λ f e s w v.
      let g =
        Frame-trans (send_line-Frame env prompt s banner)
          (print_available_commands-Frame env prompt (send_line env prompt s banner)) in
      let same : connected_callback env prompt ≡ f = ground arith in
      rw (← same) (history_moved s _ v g.history g.history_cursor);
}
