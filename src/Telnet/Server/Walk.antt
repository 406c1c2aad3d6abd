-- ===== src/Telnet/Server/Walk.antt =====
-- The loop over the sessions by index, with its erasures, is one pass over the list.
use repo_init.Base.{
  [], ℕ, zero, suc, ◌<◌, ◌≡◌, refl, sym, ap, ◌∙◌, true, false, Option, none, some, List, ◌∷◌, ◌++◌,
  append_assoc, arith, length, get_elem?,
}
use repo_init.Metrics.Prometheus.{Prometheus}
use repo_init.Telnet.Session.{Env, World, Session, Host}
use repo_init.Telnet.Stats.{TelnetStats}
use repo_init.Telnet.Server.{
  Visit, Pass, Outcome, undefined, closed, open_still, visit, replace_at, erase_at, session_loop,
  consume,
}

module _ (p : Prometheus) (env : Env) (host : Host) (feed : ℕ → Visit) where
  -- A session in front of those that a pass keeps.
  abbrev pub keep : List Session → Option (Pass p) → Option (Pass p)
  keep before none = none
  keep before (some a) = some (record a { kept = before ++ a.kept })

  -- Each session is visited once, in order; the visit's outcome says whether it stays.
  unfoldable pub walk : ℕ → List Session → World → Option (TelnetStats p) → Option (Pass p)
  walk round [] w t = some (record { kept = []; world = w; tally = t })
  walk round (s ∷ ss) w t = elim (visit p env host (feed round) s w) [
    | undefined ↦ none
    | closed s' w' ↦ walk (suc round) ss w' (consume p t s' true)
    | open_still s' w' ↦ keep (s' ∷ []) (walk (suc round) ss w' (consume p t s' false))
  ]

  get_elem?-append :
      (before ss : List Session) (s : Session)
      → get_elem? (before ++ s ∷ ss) (length before) ≡ some s
  get_elem?-append [] ss s = refl
  get_elem?-append (b ∷ before) ss s = get_elem?-append before ss s

  get_elem?-end : (before : List Session) → get_elem? (before ++ []) (length before) ≡ none
  get_elem?-end [] = refl
  get_elem?-end (b ∷ before) = get_elem?-end before

  erase_at-append :
      (before ss : List Session) (s : Session)
      → erase_at p (before ++ s ∷ ss) (length before) ≡ before ++ ss
  erase_at-append [] ss s = refl
  erase_at-append (b ∷ before) ss s = ap (◌∷◌ b) (erase_at-append before ss s)

  replace_at-append :
      (before ss : List Session) (s s' : Session)
      → replace_at p (before ++ s ∷ ss) (length before) s' ≡ (before ++ s' ∷ []) ++ ss
  replace_at-append [] ss s s' = refl
  replace_at-append (b ∷ before) ss s s' = ap (◌∷◌ b) (replace_at-append before ss s s')

  keep-keep :
      (before after : List Session) (r : Option (Pass p))
      → keep before (keep after r) ≡ keep (before ++ after) r
  keep-keep before after none = refl
  keep-keep before after (some a) =
      ap (λ k. some (record a { kept = k })) (sym (append_assoc before after a.kept))

  keep-nil : (r : Option (Pass p)) → keep [] r ≡ r
  keep-nil none = refl
  keep-nil (some a) = refl

  length-snoc :
      (before : List Session) (s : Session) → length (before ++ s ∷ []) ≡ suc (length before)
  length-snoc [] s = refl
  length-snoc (b ∷ before) s = ap suc (length-snoc before s)

  session_loop-walk :
      (ss before : List Session) (fuel round : ℕ) (w : World) (t : Option (TelnetStats p))
      → length ss < fuel
      → session_loop p env host feed fuel
          (length before)
          round
          (record { kept = before ++ ss; world = w; tally = t })
        ≡ keep before (walk round ss w t)
  unfolding session_loop walk
  session_loop-walk ss before zero round w t h = absurd (omega arith)
  session_loop-walk [] before (suc fuel) round w t h = rw (get_elem?-end before, session_loop)
  session_loop-walk (s ∷ ss) before (suc fuel) round w t h =
      step (visit p env host (feed round) s w) refl
        (λ w' t'. session_loop-walk ss before fuel (suc round) w' t' (omega arith))
        (λ s' w' t'. session_loop-walk ss (before ++ s' ∷ []) fuel (suc round) w' t' (omega arith))
    where
      step :
          (o : Outcome p)
          → visit p env host (feed round) s w ≡ o
          → ((w' : World) (t' : Option (TelnetStats p))
              → session_loop p env host feed fuel
                  (length before)
                  (suc round)
                  (record { kept = before ++ ss; world = w'; tally = t' })
                ≡ keep before (walk (suc round) ss w' t'))
          → ((s' : Session) (w' : World) (t' : Option (TelnetStats p))
              → session_loop p env host feed fuel
                  (length (before ++ s' ∷ []))
                  (suc round)
                  (record { kept = (before ++ s' ∷ []) ++ ss; world = w'; tally = t' })
                ≡ keep (before ++ s' ∷ []) (walk (suc round) ss w' t'))
          → session_loop p env host feed
              (suc fuel)
              (length before)
              round
              (record { kept = before ++ s ∷ ss; world = w; tally = t })
            ≡ keep before (walk round (s ∷ ss) w t)
      step undefined e on_closed on_open = rw (get_elem?-append before ss s, session_loop, e, walk)
      step (closed s' w') e on_closed on_open =
          rw (get_elem?-append before ss s, session_loop, e, walk, erase_at-append before ss s)
            (on_closed w' (consume p t s' true))
      step (open_still s' w') e on_closed on_open =
          rw
            (
              get_elem?-append before ss s,
              session_loop,
              e,
              walk,
              replace_at-append before ss s s',
              keep-keep before (s' ∷ []),
              sym (length-snoc before s'),
            )
            (on_open s' w' (consume p t s' false))

  -- The loop of `update` visits each session once, in order, each with its own reception and clock,
  -- and keeps those that its visit leaves open: with fuel for one more round than there are sessions
  -- it is one pass over the list.
  pub session_loop-walks :
      (ss : List Session) (w : World) (t : Option (TelnetStats p))
      → session_loop p env host feed
          (suc (length ss))
          0
          0
          (record { kept = ss; world = w; tally = t })
        ≡ walk 0 ss w t
  session_loop-walks ss w t =
      session_loop-walk ss [] (suc (length ss)) 0 w t (omega arith) ∙ keep-nil (walk 0 ss w t)
