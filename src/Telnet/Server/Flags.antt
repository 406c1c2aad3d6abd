-- ===== src/Telnet/Server/Flags.antt =====
-- A round of TelnetServer leaves the check flags of the process alone.
use repo_init.Base.{
  ℕ, suc, ◌≡◌, refl, sym, subst, ◌∙◌, inl, inr, true, false, Option, none, some, List, [], ◌∷◌,
  arith, leb, Bool-cases, Option-cases, length,
}
use repo_init.Metrics.Prometheus.{Prometheus}
use repo_init.Telnet.Session.{Env, World, Session, Host, new_session, initialise}
use repo_init.Telnet.Stats.{TelnetStats}
use repo_init.Telnet.Server.{
  Server, Visit, Accepted, Pass, Outcome, undefined, closed, open_still, visit, consume,
  accept_connection, Tick, take_pending, update_server, max_available_session,
}
use repo_init.Telnet.Server.Walk.{walk, keep}
use repo_init.Telnet.Server.Limits.{finish, update_server-finish}
use repo_init.Telnet.Update.{update}
use repo_init.Telnet.Update.Flags.{KeepsFlags, Updated, update-Updated}

module _ (p : Prometheus) where
  abbrev Visited : World → Outcome p → Type 0
  Visited w undefined = Unit
  Visited w (closed s w') = w'.check_flags ≡ w.check_flags
  Visited w (open_still s w') = w'.check_flags ≡ w.check_flags

  abbrev Passed : World → Option (Pass p) → Type 0
  Passed w none = Unit
  Passed w (some a) = a.world.check_flags ≡ w.check_flags

  Passed-trans :
      (w w' : World) (o : Option (Pass p))
      → w'.check_flags ≡ w.check_flags
      → Passed w' o
      → Passed w o
  Passed-trans w w' none e h = tt
  Passed-trans w w' (some a) e h = h ∙ e

  Passed-keep :
      (w : World) (env : Env) (host : Host) (feed : ℕ → Visit) (before : List Session)
      (o : Option (Pass p))
      → Passed w o
      → Passed w (keep p env host feed before o)
  Passed-keep w env host feed before none h = tt
  Passed-keep w env host feed before (some a) h = h

  -- The flags behind a round of the server, unless that is undefined.
  abbrev pub Served : World → Option (Server p × World) → Type 0
  Served w none = Unit
  Served w (some (v, w')) = w'.check_flags ≡ w.check_flags

  Served-finish :
      (w : World) (k : Tick p) (a : Accepted p) (o : Option (Pass p))
      → Passed w o
      → Served w (finish p k a o)
  Served-finish w k a none h = tt
  Served-finish w k a (some z) h = h

  module _ (env : Env) (host : Host) (quiet : KeepsFlags host) where
    visit-Visited : (k : Visit) (s : Session) (w : World) → Visited w (visit p env host k s w)
    unfolding visit
    visit-Visited k s w =
        let h = update-Updated host quiet env k.now_seen k.recv s w in
        elim (Option-cases (update env host k.now_seen k.recv s w)) [
          | inl e ↦ rw (visit, e) tt
          | inr ((s', w'), e) ↦ rw (visit, e) (ground (arith, subst (Updated w) e h))
        ]

    walk-Passed :
        (feed : ℕ → Visit) (ss : List Session) (round : ℕ) (w : World) (t : Option (TelnetStats p))
        → Passed w (walk p env host feed round ss w t)
    unfolding walk
    walk-Passed feed [] round w t = refl
    walk-Passed feed (s ∷ ss) round w t =
        step (visit p env host (feed round) s w) (visit-Visited (feed round) s w)
          (λ w' t'. walk-Passed feed ss (suc round) w' t')
      where
        step :
            (o : Outcome p)
            → Visited w o
            → ((w' : World) (t' : Option (TelnetStats p))
                → Passed w' (walk p env host feed (suc round) ss w' t'))
            → Passed w (elim o as (λ _. Option (Pass p)) [
              | undefined ↦ none
              | closed s' w' ↦ walk p env host feed (suc round) ss w' (consume p t s' true)
              | open_still s' w' ↦
                  keep p env host feed
                    (s' ∷ [])
                    (walk p env host feed (suc round) ss w' (consume p t s' false))
            ])
        step undefined h rest = tt
        step (closed s' w') h rest = Passed-trans w w' _ h (rest w' (consume p t s' true))
        step (open_still s' w') h rest =
            Passed-keep w env host feed (s' ∷ []) _
              (Passed-trans w w' _ h (rest w' (consume p t s' false)))

    initialise-flags :
        (s : Session) (w : World) (now_connect now_seen : ℕ)
        → (initialise env host s w now_connect now_seen).1.check_flags ≡ w.check_flags
    unfolding initialise
    initialise-flags s w now_connect now_seen = elim (Option-cases host.connected_callback) [
      | inl e ↦ rw e refl
      | inr (f, e) ↦ rw e (quiet.on_connect f e _ w)
    ]

    accept_connection-flags :
        (now_connect now_seen now_close : ℕ) (accepted : Option ℕ) (v : Server p) (w : World)
        → v.host ≡ host
        → let a = accept_connection p env now_connect now_seen now_close accepted v w in
          (a.world.check_flags ≡ w.check_flags) × (a.server.host ≡ host)
    unfolding accept_connection
    accept_connection-flags now_connect now_seen now_close none v w e = (refl, e)
    accept_connection-flags now_connect now_seen now_close (some socket) v w e =
        let kept = initialise-flags (new_session socket) w now_connect now_seen in
        elim (Bool-cases (leb max_available_session (length v.sessions))) [
          | inl y ↦ rw (y, e) (kept, refl)
          | inr n ↦ rw (n, e) (kept, refl)
        ]

    take_pending-flags :
        (k : Tick p) (v : Server p) (w : World)
        → v.host ≡ host
        → ((take_pending p env k v w).world.check_flags ≡ w.check_flags)
          × ((take_pending p env k v w).server.host ≡ host)
    unfolding take_pending
    take_pending-flags k v w e = elim (Option-cases k.pending) [
      | inl n ↦ rw n (refl, e)
      | inr (accepted, n) ↦
          rw n (accept_connection-flags k.now_connect k.now_seen k.now_close accepted v w e)
    ]

    pub update_server-Served :
        (k : Tick p) (v : Server p) (w : World)
        → v.host ≡ host
        → Served w (update_server p env k v w)
    update_server-Served k v w e =
        let a = take_pending p env k v w in
        let start = take_pending-flags k v w e in
        let pass = walk-Passed k.feed a.server.sessions 0 a.world a.server.stats in
        let here =
          subst
            (λ h. Passed a.world (walk p env h k.feed 0 a.server.sessions a.world a.server.stats))
            (sym start.1) pass in
        rw (update_server-finish p env k v w)
          (Served-finish w k a _ (Passed-trans w a.world _ start.0 here))
