-- ===== src/Telnet/Server/Histories.antt =====
-- The histories of the sessions that a pass keeps.
use repo_init.Base.{
  [], ℕ, suc, ◌≤◌, ◌≡◌, refl, ap, ◌∙◌, inl, inr, true, false, Option, some, List, ◌∷◌, arith,
  Option-cases, length, All,
}
use repo_init.Telnet.Server.{Visit, Pass, Outcome, undefined, closed, open_still, visit, consume}
use repo_init.Metrics.Prometheus.{Prometheus}
use repo_init.Telnet.Session.{Env, World, Session, Host}
use repo_init.Telnet.Stats.{TelnetStats}
use repo_init.Telnet.History.{IsHistory}
use repo_init.Telnet.Server.Walk.{walk}
use repo_init.Telnet.Update.{update}
use repo_init.Telnet.Update.Laws.{IsSafeHost, update-IsHistory}

module _ (p : Prometheus) where
  visit-IsHistory :
      (env : Env) (host : Host) (k : Visit) (s s' : Session) (w w' : World)
      → IsSafeHost host
      → IsHistory s
      → visit p env host k s w ≡ open_still s' w'
      → IsHistory s'
  unfolding visit
  visit-IsHistory env host k s s' w w' safe v e =
      elim (Option-cases (update env host k.now_seen k.recv s w)) [
        | inl n ↦ ground arith
        | inr (q, h) ↦
            let same : q ≡ (s', w') = ground arith in
            update-IsHistory env host k.now_seen k.recv s s' w w' safe v (h ∙ ap some same)
      ]

  pub walk-IsHistory :
      (env : Env) (host : Host) (feed : ℕ → Visit) (round : ℕ) (ss : List Session) (w : World)
      (t : Option (TelnetStats p)) (a : Pass p)
      → IsSafeHost host
      → All IsHistory ss
      → walk p env host feed round ss w t ≡ some a
      → All IsHistory a.kept × (length a.kept ≤ length ss)
  unfolding walk
  walk-IsHistory env host feed round [] w t a safe v e = ground arith
  walk-IsHistory env host feed round (s ∷ ss) w t a safe v e =
      step (visit p env host (feed round) s w) refl
        (λ w' t' a' e'. walk-IsHistory env host feed (suc round) ss w' t' a' safe v.1 e')
    where
      step :
          (o : Outcome p)
          → visit p env host (feed round) s w ≡ o
          → ((w' : World) (t' : Option (TelnetStats p)) (a' : Pass p)
              → walk p env host feed (suc round) ss w' t' ≡ some a'
              → All IsHistory a'.kept × (length a'.kept ≤ length ss))
          → All IsHistory a.kept × (length a.kept ≤ suc (length ss))
      step undefined h rest = ground arith
      step (closed s' w') h rest =
          let e' : walk p env host feed (suc round) ss w' (consume p t s' true) ≡ some a =
            ground arith in
          let r = rest w' (consume p t s' true) a e' in (r.0, omega (arith, r.1))
      step (open_still s' w') h rest =
          let later = walk p env host feed (suc round) ss w' (consume p t s' false) in
          let fine = visit-IsHistory env host (feed round) s s' w w' safe v.0 h in
          elim (Option-cases later) [
            | inl n ↦ ground arith
            | inr (a', e') ↦
                let r = rest w' (consume p t s' false) a' e' in
                let same : s' ∷ a'.kept ≡ a.kept = ground arith in
                rw (← same) ((fine, r.0), omega (arith, r.1))
          ]
