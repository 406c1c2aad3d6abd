-- ===== src/ZeroMq/Server.antt =====
-- ZeroMQServer of src/zeromq/ZeroMQServer.cpp: a round of the server, its thread, start and end.
pub mod Laws
pub mod Flags
use repo_init.Base.{
  [], ℕ, Bool, true, false, not, Option, none, some, List, ◌∷◌, ◌==◌, if◌then◌else◌, length,
  is_empty, Bytes,
}
use repo_init.Metrics.Prometheus.{Prometheus}
use repo_init.Telnet.Session.{World}
use repo_init.ZeroMq.Commands.{ZeroMqEnv, write_uint32}
use repo_init.ZeroMq.Socket.{
  ZeroMq, Outcome, threw, returned, start, stop, recv_messages, send_messages,
}
use repo_init.ZeroMq.Stats.{ZeroMqStats, ZeroMqServerStats, consume_stats}

abbrev pub MessageCallback : Type 0
MessageCallback = World → List Bytes → Option (World × List Bytes × Bool)

-- `stats` is none for a server without a registry.
pub record ZeroMqServer (p : Prometheus) : Type 0 where
  pub socket : ZeroMq
  pub callback : Option MessageCallback
  pub stats : Option (ZeroMqStats p)
  pub thread_running : Bool

-- What send_multipart returns, and what it leaves in the messages that it was given.
pub record Sending : Type 0 where
  pub sent : Option ℕ
  pub left : List Bytes

-- What a round meets: the parts that arrive, the sending, and the time taken. `none` is an exception
-- of the library.
pub record Round : Type 0 where
  pub incoming : Option (List Bytes)
  pub sending : Option Sending
  pub processing_time : ℕ

-- The reply to a message, and whether the request succeeded. `none` is undefined behaviour.
unfoldable pub answer :
    ZeroMqEnv → Option MessageCallback → World → List Bytes → Option (World × List Bytes × Bool)
answer env callback w [] = some (w, [], false)
answer env callback w (head ∷ rest) =
    if not (length head == 4)
    then some (w, write_uint32 env.handshake_failed ∷ [] ∷ [], false)
    else (elim callback as (λ _. Option (World × List Bytes × Bool)) [
      | none ↦ some (w, [], false)
      | some f ↦ f w (head ∷ rest)
    ])

module _ (p : Prometheus) where
  abbrev pub consume :
      Option (ZeroMqStats p) → List Bytes → List Bytes → ZeroMqServerStats → Option (ZeroMqStats p)
  consume none received sent stat = none
  consume (some t) received sent stat = some (consume_stats p t received sent stat)

  -- What `update` leaves: the server, the process state, the reply given to the network, if any, and
  -- whether it threw.
  pub record After : Type 0 where
    pub server : ZeroMqServer p
    pub world : World
    pub reply : Option (List Bytes)
    pub failed : Bool

  -- The part of `update` behind the callback.
  unfoldable pub deliver : Round → ZeroMqServer p → World → List Bytes → List Bytes → Bool → After
  deliver r z w received reply successful = elim r.sending [
    | none ↦ record { server = z; world = w; reply = none; failed = true }
    | some s ↦
        let stat : ZeroMqServerStats = record {
          is_successful = successful;
          processing_time = r.processing_time;
        } in
        record {
          server = record z {
            stats = consume z.stats received (if z.socket.is_active then s.left else reply) stat;
          };
          world = w;
          reply = some (send_messages z.socket s.sent reply).0;
          failed = false;
        }
  ]

  -- ZeroMQServer::update.
  unfoldable pub update : ZeroMqEnv → Round → ZeroMqServer p → World → Option After
  unfolding deliver
  update env r z w = elim r.incoming [
    | none ↦ some (record { server = z; world = w; reply = none; failed = true })
    | some parts ↦
        let received = recv_messages z.socket parts in
        if is_empty received
        then some (record { server = z; world = w; reply = none; failed = false })
        else (elim (answer env z.callback w received) as (λ _. Option After) [
          | none ↦ none
          | some (w', reply, successful) ↦ some (deliver r z w' received reply successful)
        ])
  ]

  abbrev pub set_flag : Option Bool → Option Bool
  set_flag none = none
  set_flag (some b) = some true

  -- ZeroMQServer::threadFunc until the stop is requested; a round that throws leaves the flag alone.
  unfoldable pub thread_func :
      ZeroMqEnv
      → List Round
      → Option Bool
      → ZeroMqServer p
      → World
      → Option (Option Bool × ZeroMqServer p × World)
  thread_func env [] flag z w = some (flag, z, w)
  thread_func env (r ∷ rs) flag z w = elim (update env r z w) [
    | none ↦ none
    | some a ↦ thread_func env rs (if a.failed then flag else set_flag flag) a.server a.world
  ]

  -- `initialise`; `succeeds` says whether bind comes back.
  unfoldable pub initialise : Bool → ZeroMqServer p → ZeroMqServer p × Outcome
  initialise succeeds z =
      let (socket, outcome) = start succeeds z.socket in
      elim outcome [
        | threw ↦ (record z { socket = socket }, threw)
        | returned true ↦ (record z { socket = socket; thread_running = true }, returned true)
        | returned false ↦ (record z { socket = socket }, returned false)
      ]

  -- `shutdown`; `succeeds` says whether unbind comes back.
  unfoldable pub shutdown : Bool → ZeroMqServer p → ZeroMqServer p × Outcome
  shutdown succeeds z =
      let (socket, outcome) = stop succeeds z.socket in
      (record z { socket = socket; thread_running = false }, outcome)
