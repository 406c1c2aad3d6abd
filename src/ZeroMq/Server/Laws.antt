-- ===== src/ZeroMq/Server/Laws.antt =====
-- The control server answers each message that it reads, and counts what it answers.
use repo_init.Base.{
  [], ◌≡◌, refl, ◌∙◌, inl, inr, Bool, true, false, Option, none, some, List, ◌∷◌, arith, ◌==◌,
  if◌then◌else◌, Option-cases, length, is_empty, Bytes,
}
use repo_init.Metrics.Prometheus.{Prometheus}
use repo_init.Telnet.Session.{World}
use repo_init.ZeroMq.Commands.{
  ZeroMqEnv, message_callback, message_callback-parts, write_uint32, reply_parts, reply_succeeded,
}
use repo_init.ZeroMq.Socket.{threw, returned, start, stop, recv_messages, send_messages}
use repo_init.ZeroMq.Server.{
  MessageCallback, ZeroMqServer, Sending, Round, answer, After, deliver, update, set_flag,
  thread_func, initialise, shutdown,
}

-- With the program's callback, a message of any parts is answered, by two parts.
answer-parts :
    (env : ZeroMqEnv) (w : World) (head : Bytes) (rest : List Bytes)
    → (w' : World) × (reply : List Bytes) × (successful : Bool) × (answer env
          (some (message_callback env))
          w
          (head ∷ rest)
        ≡ some (w', reply, successful))
      × (length reply ≡ 2)
unfolding answer
answer-parts env w [] rest = (w, _, false, refl, refl)
answer-parts env w (a ∷ []) rest = (w, _, false, refl, refl)
answer-parts env w (a ∷ b ∷ []) rest = (w, _, false, refl, refl)
answer-parts env w (a ∷ b ∷ c ∷ []) rest = (w, _, false, refl, refl)
answer-parts env w (a ∷ b ∷ c ∷ d ∷ []) rest =
    let (w', body, e, two) = message_callback-parts env w a b c d [] rest in
    (w', reply_parts env body, reply_succeeded env body, e, two)
answer-parts env w (a ∷ b ∷ c ∷ d ∷ x ∷ head) rest =
    let n : (length (a ∷ b ∷ c ∷ d ∷ x ∷ head) == 4) ≡ false = ground arith in
    (w, write_uint32 env.handshake_failed ∷ [] ∷ [], false, rw n refl, refl)

answer-installed :
    (env : ZeroMqEnv) (callback : Option MessageCallback) (w : World) (head : Bytes)
    (rest : List Bytes)
    → callback ≡ some (message_callback env)
    → (w' : World) × (reply : List Bytes) × (successful : Bool) × (answer env callback w
          (head ∷ rest)
        ≡ some (w', reply, successful))
      × (length reply ≡ 2)
answer-installed env callback w head rest set = rw set (answer-parts env w head rest)

module _ (p : Prometheus) where
  -- With the program's callback on an active socket, a message of at least one part is answered: the
  -- round is defined, and if the library sends, two parts go out.
  pub update-answers :
      (env : ZeroMqEnv) (r : Round) (z : ZeroMqServer p) (w : World) (head : Bytes)
      (rest : List Bytes) (s : Sending)
      → z.callback ≡ some (message_callback env)
      → z.socket.is_active ≡ true
      → r.incoming ≡ some (head ∷ rest)
      → r.sending ≡ some s
      → (a : After p) × (reply : List Bytes) × (update p env r z w ≡ some a)
        × (a.reply ≡ some reply)
        × (length reply ≡ 2)
        × (a.failed ≡ false)
  unfolding update deliver recv_messages send_messages
  update-answers env r z w head rest s set active arrives sends =
      let (w', reply, successful, e, two) = answer-installed env z.callback w head rest set in
      (
        deliver p r z w' (head ∷ rest) reply successful,
        reply,
        ground arith,
        ground arith,
        two,
        ground arith,
      )

  deliver-callback :
      (r : Round) (z : ZeroMqServer p) (w : World) (received reply : List Bytes) (b : Bool)
      → (deliver p r z w received reply b).server.callback ≡ z.callback
  unfolding deliver
  deliver-callback r z w received reply b = ground arith

  pub update-defined :
      (env : ZeroMqEnv) (r : Round) (z : ZeroMqServer p) (w : World)
      → z.callback ≡ some (message_callback env)
      → (a : After p) × (update p env r z w ≡ some a)
        × (a.server.callback ≡ some (message_callback env))
  unfolding update
  update-defined env r z w set = elim (Option-cases r.incoming) [
    | inl n ↦ rw n (_, refl, set)
    | inr (parts, e) ↦ rw e (read (recv_messages z.socket parts))
  ]
    where
      read :
          (received : List Bytes)
          → (a : After p) × ((if is_empty received
                then some (record { server = z; world = w; reply = none; failed = false })
                else (elim (answer env z.callback w received) as (λ _. Option (After p)) [
                  | none ↦ none
                  | some (w', reply, successful) ↦ some (deliver p r z w' received reply successful)
                ]))
              ≡ some a)
            × (a.server.callback ≡ some (message_callback env))
      read [] = (_, refl, set)
      read (head ∷ rest) =
          let (w', reply, successful, e, two) = answer-installed env z.callback w head rest set in
          (
            deliver p r z w' (head ∷ rest) reply successful,
            rw e refl,
            deliver-callback r z w' (head ∷ rest) reply successful ∙ set,
          )

  -- With the program's callback, the server's thread reads nothing outside of the messages, whatever
  -- arrives and whichever calls of the library throw.
  pub thread_func-defined :
      (env : ZeroMqEnv) (rs : List Round) (flag : Option Bool) (z : ZeroMqServer p) (w : World)
      → z.callback ≡ some (message_callback env)
      → (flag' : Option Bool) × (z' : ZeroMqServer p) × (w' : World) × (thread_func p env rs flag z
            w
          ≡ some (flag', z', w'))
  unfolding thread_func
  thread_func-defined env [] flag z w set = (flag, z, w, refl)
  thread_func-defined env (r ∷ rs) flag z w set =
      let (a, e, set') = update-defined env r z w set in
      rw (thread_func, e)
        (thread_func-defined env rs (if a.failed then flag else set_flag p flag) a.server a.world
          set')

  -- A server that `initialise` starts listens with its thread running; one that runs already says no
  -- and stays as it was; and where bind throws nothing has changed. After `shutdown` no thread runs,
  -- and the socket is closed unless unbind throws.
  pub initialise-shutdown :
      (b c : Bool) (z : ZeroMqServer p)
      → (z.socket.is_active ≡ true → initialise p b z ≡ (z, returned false))
        × (z.socket.is_active ≡ false
            → ((initialise p true z).0.thread_running ≡ true)
              × ((initialise p true z).0.socket.is_active ≡ true)
              × (initialise p false z ≡ (z, threw)))
        × ((shutdown p c z).0.thread_running ≡ false)
        × ((shutdown p true z).0.socket.is_active ≡ false)
  unfolding initialise shutdown start stop
  initialise-shutdown b c z = ground arith
