-- ===== src/ZeroMq/Server/Flags.antt =====
-- A round of ZeroMQServer leaves the check flags of the process and its callback alone.
use repo_init.Base.{
  ℕ, ◌≡◌, refl, subst, ◌∙◌, inl, inr, Bool, Option, none, some, List, [], ◌∷◌, arith, ◌==◌,
  Bool-cases, Option-cases, length, is_empty, Bytes,
}
use repo_init.Metrics.Prometheus.{Prometheus}
use repo_init.Telnet.Session.{World}
use repo_init.ZeroMq.Commands.{
  ZeroMqEnv, message_callback, run_request, change_log_level, read_uint32,
}
use repo_init.ZeroMq.Server.{MessageCallback, ZeroMqServer, Round, After, answer, deliver, update}
use repo_init.ZeroMq.Socket.{recv_messages}

abbrev Answered : World → Option (World × List Bytes × Bool) → Type 0
Answered w none = Unit
Answered w (some (w', reply, b)) = w'.check_flags ≡ w.check_flags

-- A callback that leaves the flags alone.
abbrev pub IsQuiet : MessageCallback → Type 0
IsQuiet f = (w : World) (parts : List Bytes) → Answered w (f w parts)

run_request-flags :
    (env : ZeroMqEnv) (w : World) (id : ℕ) (rest : List Bytes)
    → (run_request env w id rest).0.check_flags ≡ w.check_flags
unfolding run_request change_log_level
run_request-flags env w id rest = ground arith

pub message_callback-IsQuiet : (env : ZeroMqEnv) → IsQuiet (message_callback env)
unfolding message_callback
message_callback-IsQuiet env w [] = tt
message_callback-IsQuiet env w (head ∷ rest) = elim (Option-cases (read_uint32 head)) [
  | inl e ↦ rw (message_callback, e) tt
  | inr (id, e) ↦ rw (message_callback, e) (run_request-flags env w id rest)
]

module _ (p : Prometheus) where
  -- The flags, the callback and the socket behind a round, unless that is undefined.
  abbrev pub Served : MessageCallback → ZeroMqServer p → World → Option (After p) → Type 0
  Served f z w none = Unit
  Served f z w (some a) =
      (a.world.check_flags ≡ w.check_flags)
      × (a.server.callback ≡ some f)
      × (a.server.socket ≡ z.socket)

  module _ (env : ZeroMqEnv) (f : MessageCallback) (quiet : IsQuiet f) where
    answer-Answered : (w : World) (parts : List Bytes) → Answered w (answer env (some f) w parts)
    unfolding answer
    answer-Answered w [] = refl
    answer-Answered w (head ∷ rest) = elim (Bool-cases (length head == 4)) [
      | inl e ↦ rw (answer, e) (quiet w (head ∷ rest))
      | inr e ↦ rw (answer, e) refl
    ]

    deliver-Served :
        (r : Round) (z : ZeroMqServer p) (w : World) (parts reply : List Bytes) (good : Bool)
        → ((deliver p r z w parts reply good).world.check_flags ≡ w.check_flags)
          × ((deliver p r z w parts reply good).server.callback ≡ z.callback)
          × ((deliver p r z w parts reply good).server.socket ≡ z.socket)
    unfolding deliver
    deliver-Served r z w parts reply good = ground arith

    pub update-Served :
        (r : Round) (z : ZeroMqServer p) (w : World)
        → z.callback ≡ some f
        → Served f z w (update p env r z w)
    unfolding update
    update-Served r z w e = elim (Option-cases r.incoming) [
      | inl n ↦ rw (update, n) (refl, e, refl)
      | inr (parts, n) ↦ elim (Bool-cases (is_empty (recv_messages z.socket parts))) [
        | inl m ↦ rw (update, n, m) (refl, e, refl)
        | inr m ↦
            let h = answer-Answered w (recv_messages z.socket parts) in
            elim (Option-cases (answer env (some f) w (recv_messages z.socket parts))) [
              | inl q ↦ rw (update, n, m, e, q) tt
              | inr ((w', reply, good), q) ↦
                  let kept = deliver-Served r z w' (recv_messages z.socket parts) reply good in
                  let same : w'.check_flags ≡ w.check_flags = subst (Answered w) q h in
                  rw (update, n, m, e, q) (kept.0 ∙ same, kept.1 ∙ e, kept.2)
            ]
      ]
    ]
