-- ===== src/Telnet/Server.antt =====
-- TelnetServer of src/telnet/TelnetServer.cpp: set-up, the pass over the sessions, and shutdown.
pub mod Walk
pub mod Histories
pub mod Limits
pub mod Flags
pub mod Outcomes
use repo_init.Base.{
  [], ℕ, zero, suc, ◌+◌, Bool, true, false, not, ◌&&◌, ◌||◌, Option, none, some, List, ◌∷◌, ◌++◌,
  leb, if◌then◌else◌, is_just, length, get_elem?, take, drop, Bytes, codes,
}
use repo_init.Metrics.Prometheus.{Prometheus}
use repo_init.Telnet.Session.{
  Env, World, Session, Host, new_session, send_line, close_client, check_timeout, initialise,
}
use repo_init.Telnet.Stats.{
  TelnetStats, TelnetServerStats, init_telnet_stats, consume_session, consume_server,
}
use repo_init.Telnet.Update.{Recv, update}

abbrev pub max_available_session : ℕ
max_available_session = 5

-- `listen_socket` is none for INVALID_SOCKET; `listen_closes` counts the calls of close on it.
pub record Server (p : Prometheus) : Type 0 where
  pub host : Host
  pub listen_port : ℕ
  pub listen_socket : Option ℕ
  pub listen_closes : ℕ
  pub sessions : List Session
  pub initialised : Bool
  pub stats : Option (TelnetStats p)
  pub thread_running : Bool

-- What the calls of the set-up return: whether getaddrinfo, setsockopt, bind and listen succeed, and
-- the socket.
pub record SetUp : Type 0 where
  pub resolved : Bool
  pub opened : Option ℕ
  pub option_set : Bool
  pub bound : Bool
  pub listening : Bool

-- What one pass meets at a session: the reception, the clock at it, at the check of the timeout and at
-- the closing.
pub record Visit : Type 0 where
  pub recv : Recv
  pub now_seen : ℕ
  pub now_check : ℕ
  pub now_close : ℕ

abbrev pub too_many : Bytes
too_many =
    codes "Too many active connections. Please try again later. "
    ++ (0x0d ∷ 0x0a ∷ codes "Closing...")

module _ (p : Prometheus) where
  abbrev close_listen : Server p → Server p
  close_listen v = record v { listen_closes = suc v.listen_closes }

  -- The part of `initialise` behind the check of `m_initialised`. A failure leaves the socket number.
  unfoldable pub open_listen : SetUp → Server p → Server p × Bool
  open_listen c v = elim c.opened [
    | none ↦ (record v { listen_socket = none }, false)
    | some fd ↦
        let v₁ = record v { listen_socket = some fd } in
        if not c.option_set || not c.bound || not c.listening
        then (close_listen v₁, false)
        else (v₁, true)
  ]

  -- TelnetServer::initialise; `registry` says whether one was given.
  unfoldable pub initialise_server : SetUp → ℕ → Bytes → Bool → Server p → Server p × Bool
  unfolding open_listen
  initialise_server c port prompt registry v =
      if v.initialised
      then (v, false)
      else let v₁ = record v {
        listen_port = port;
        host = record v.host { prompt_string = prompt };
      } in
        if not c.resolved
        then (v₁, false)
        else let (v₂, done) = open_listen c v₁ in
          if done
          then (
            record v₂ {
              stats = if registry then some (init_telnet_stats p) else v₂.stats;
              thread_running = true;
              initialised = true;
            },
            true,
          )
          else (v₂, false)

  -- What acceptConnection leaves: the server, the session of a client that it turned away, if any, and
  -- its result.
  pub record Accepted : Type 0 where
    pub server : Server p
    pub world : World
    pub turned_away : Option Session
    pub result : Bool

  -- TelnetServer::acceptConnection on the result of accept, with the clock where it is read.
  unfoldable pub accept_connection : Env → ℕ → ℕ → ℕ → Option ℕ → Server p → World → Accepted
  accept_connection env now_connect now_seen now_close accepted v w = elim accepted [
    | none ↦ record { server = v; world = w; turned_away = none; result = false }
    | some client_socket ↦
        let (s, w') = initialise env v.host (new_session client_socket) w now_connect now_seen in
        if leb max_available_session (length v.sessions)
        then record {
          server = v;
          world = w';
          turned_away =
              some (close_client (send_line env v.host.prompt_string s too_many) now_close);
          result = false;
        }
        else record {
          server = record v { sessions = v.sessions ++ s ∷ [] };
          world = w';
          turned_away = none;
          result = true;
        }
  ]

  abbrev pub consume : Option (TelnetStats p) → Session → Bool → Option (TelnetStats p)
  consume none s closed = none
  consume (some t) s closed = some (consume_session p t s closed)

  -- The state of the pass over the sessions.
  pub record Pass : Type 0 where
    pub kept : List Session
    pub world : World
    pub tally : Option (TelnetStats p)

  -- The session at `idx` after a round: closed and erased, or kept.
  pub data Outcome : Type 0 where
    undefined : Outcome
    closed : Session → World → Outcome
    open_still : Session → World → Outcome

  unfoldable pub visit : Env → Host → Visit → Session → World → Outcome
  visit env host v s w = elim (update env host v.now_seen v.recv s w) [
    | none ↦ undefined
    | some (s', w') ↦
        if check_timeout s' v.now_check
        then closed (close_client s' v.now_close) w'
        else open_still s' w'
  ]

  -- `m_sessions[idx] = s` and `m_sessions.erase(m_sessions.begin() + idx)`.
  abbrev pub replace_at : List Session → ℕ → Session → List Session
  replace_at ss i s = take i ss ++ (s ∷ drop (suc i) ss)

  abbrev pub erase_at : List Session → ℕ → List Session
  erase_at ss i = take i ss ++ drop (suc i) ss

  -- The for loop. `round` counts the visits; `--idx` and `++idx` cancel where a session is erased.
  -- `none` is undefined behaviour in a visit, or no fuel.
  unfoldable pub session_loop : Env → Host → (ℕ → Visit) → ℕ → ℕ → ℕ → Pass → Option Pass
  session_loop env host feed zero idx round a = none
  session_loop env host feed (suc fuel) idx round a = elim (get_elem? a.kept idx) [
    | none ↦ some a
    | some s ↦ elim (visit env host (feed round) s a.world) [
      | undefined ↦ none
      | closed s' w' ↦
          session_loop env host feed fuel idx (suc round)
            (record { kept = erase_at a.kept idx; world = w'; tally = consume a.tally s' true })
      | open_still s' w' ↦
          session_loop env host feed fuel (suc idx) (suc round) (record {
            kept = replace_at a.kept idx s';
            world = w';
            tally = consume a.tally s' false;
          })
    ]
  ]

  -- What one call of TelnetServer::update meets: the result of accept, if a connection is pending, the
  -- clock, and the visits.
  pub record Tick : Type 0 where
    pub pending : Option (Option ℕ)
    pub now_connect : ℕ
    pub now_seen : ℕ
    pub now_close : ℕ
    pub feed : ℕ → Visit
    pub processing_time : ℕ

  abbrev pub consume_total : Option (TelnetStats p) → TelnetServerStats → Option (TelnetStats p)
  consume_total none stat = none
  consume_total (some t) stat = some (consume_server p t stat)

  unfoldable pub take_pending : Env → Tick → Server p → World → Accepted
  unfolding accept_connection
  take_pending env k v w = elim k.pending [
    | none ↦ record { server = v; world = w; turned_away = none; result = false }
    | some accepted ↦ accept_connection env k.now_connect k.now_seen k.now_close accepted v w
  ]

  unfoldable pub server_stats : Tick → Bool → List Session → TelnetServerStats
  server_stats k accepted sessions = record {
    processing_time = k.processing_time;
    active_connection_ctr = length sessions;
    accepted_connection_ctr = if accepted then 1 else 0;
    refused_connection_ctr = if is_just k.pending && not accepted then 1 else 0;
  }

  -- TelnetServer::update; `none` is undefined behaviour in a session.
  unfoldable pub update_server : Env → Tick → Server p → World → Option (Server p × World)
  update_server env k v w =
      let a = take_pending env k v w in
      let v₁ = a.server in
      let start : Pass = record { kept = v₁.sessions; world = a.world; tally = v₁.stats } in
      (elim (session_loop env v₁.host k.feed (suc (length v₁.sessions)) 0 0 start)
        as (λ _. Option (Server p × World)) [
          | none ↦ none
          | some e ↦ some (
            record v₁ {
              sessions = e.kept;
              stats = consume_total e.tally (server_stats k a.result e.kept);
            },
            e.world,
          )
        ])

  -- TelnetServer::threadFunc until the stop is requested, a tick to each round; the flag is the runtime
  -- check flag, if there is one.
  abbrev pub set_flag : Option Bool → Option Bool
  set_flag none = none
  set_flag (some b) = some true

  unfoldable pub thread_func :
      Env → List Tick → Option Bool → Server p → World → Option (Option Bool × Server p × World)
  thread_func env [] flag v w = some (flag, v, w)
  thread_func env (k ∷ ks) flag v w = elim (update_server env k v w) [
    | none ↦ none
    | some (v', w') ↦ thread_func env ks (set_flag flag) v' w'
  ]

  abbrev pub close_all : List Session → ℕ → List Session
  close_all [] now = []
  close_all (s ∷ ss) now = close_client s now ∷ close_all ss now

  -- TelnetServer::shutdown: the server, and the sessions that it closed.
  unfoldable pub shutdown : ℕ → Server p → Server p × List Session
  shutdown now v = (
    record v {
      sessions = [];
      listen_socket = none;
      listen_closes = suc v.listen_closes;
      initialised = false;
      thread_running = false;
    },
    close_all v.sessions now,
  )
