-- ===== src/Telnet/Server/Outcomes.antt =====
-- What acceptConnection, initialise and a failed reception leave of TelnetServer.
use repo_init.Base.{
  [], ℕ, suc, ◌+◌, ◌<◌, ◌≡◌, refl, ap, ◌≢◌, ◌↔◌, inl, inr, Bool, true, false, none, some, ◌∷◌, ◌++◌,
  arith, leb, Bool-cases, length, Bytes,
}
use repo_init.Telnet.Server.{
  Server, SetUp, Visit, closed, open_still, visit, accept_connection, initialise_server,
  open_listen, max_available_session, too_many,
}
use repo_init.Metrics.Prometheus.{Prometheus}
use repo_init.Telnet.Session.{
  Env, World, Session, Host, new_session, send_line, close_client, check_timeout, initialise,
}
use repo_init.Telnet.Session.Frame.{send_line-Frame}
use repo_init.Telnet.Update.{broken, reset_stats, update}

module _ (p : Prometheus) where
  -- A connection on which accept gives a socket is accepted exactly when fewer than five sessions are
  -- open. Then the new session stands behind the others; otherwise the server stays as it was, and
  -- the session is closed once and dropped.
  pub accept_connection-result :
      (env : Env) (now_connect now_seen now_close : ℕ) (client_socket : ℕ) (v : Server p)
      (w : World)
      → let a = accept_connection p env now_connect now_seen now_close (some client_socket) v w in
        ((a.result ≡ true) ↔ (length v.sessions < max_available_session))
        × (a.result ≡ true
            → (a.server.sessions
                ≡ v.sessions
                  ++ (initialise env v.host (new_session client_socket) w now_connect now_seen).0
                    ∷ [])
              × (a.turned_away ≡ none))
        × (a.result ≡ false
            → (a.server ≡ v)
              × ((s : Session) × (a.turned_away ≡ some s)
                  × (s.closes
                      ≡ suc (
                          (initialise env v.host
                            (new_session client_socket)
                            w
                            now_connect
                            now_seen).0.closes))))
  unfolding accept_connection close_client
  accept_connection-result env now_connect now_seen now_close client_socket v w =
      let s = (initialise env v.host (new_session client_socket) w now_connect now_seen).0 in
      let f = send_line-Frame env v.host.prompt_string s too_many in
      let turned = close_client (send_line env v.host.prompt_string s too_many) now_close in
      elim (Bool-cases (leb max_available_session (length v.sessions))) [
        | inl y ↦ rw y (
          (λ e. ground arith, λ h. ground (arith, y)),
          λ e. ground arith,
          λ e. (refl, (turned, refl, ap suc f.closes)),
        )
        | inr n ↦ rw n ((λ e. ground (arith, n), λ h. refl), λ e. (refl, refl), λ e. ground arith)
      ]

  -- A session whose reception fails is closed there; where it has timed out as well, the same visit
  -- closes it a second time, and where it has not, it stays in the list with its socket closed.
  pub visit_broken :
      (env : Env) (host : Host) (k : Visit) (s : Session) (w : World)
      → k.recv ≡ broken
      → (check_timeout s k.now_check ≡ true
          → (s' : Session) × (visit p env host k s w ≡ closed s' w)
            × (s'.closes ≡ 2 + s.closes)
            × (s'.socket ≡ s.socket))
        × (check_timeout s k.now_check ≡ false
            → (s' : Session) × (visit p env host k s w ≡ open_still s' w)
              × (s'.closes ≡ 1 + s.closes)
              × (s'.socket ≡ s.socket))
  unfolding visit update reset_stats close_client check_timeout
  visit_broken env host k s w h =
      let s' : Session = record (reset_stats s) { closes = suc s.closes } in
      (
        λ e. (close_client s' k.now_close, ground arith, omega arith, refl),
        λ e. (s', ground arith, omega arith, refl),
      )

  -- `initialise` succeeds exactly when the server is not initialised and all of its calls succeed. A
  -- server that was initialised stays as it was, and one that succeeds listens on the port, on the
  -- socket that it opened.
  pub initialise_server-result :
      (c : SetUp) (port : ℕ) (prompt : Bytes) (registry : Bool) (v : Server p)
      → let (v', result) = initialise_server p c port prompt registry v in
        ((result ≡ true) ↔ (
          (v.initialised ≡ false)
          × (c.resolved ≡ true)
          × (c.opened ≢ none)
          × (c.option_set ≡ true)
          × (c.bound ≡ true)
          × (c.listening ≡ true)))
        × (v.initialised ≡ true → v' ≡ v)
        × (result ≡ true
            → (v'.initialised ≡ true)
              × (v'.listen_port ≡ port)
              × (v'.listen_socket ≡ c.opened)
              × (v'.sessions ≡ v.sessions))
  unfolding initialise_server open_listen
  initialise_server-result c port prompt registry v = ground arith
