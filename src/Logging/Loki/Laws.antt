-- ===== src/Logging/Loki/Laws.antt =====
-- What the Loki sink sends of the messages that it was given.
use repo_init.Base.{
  ℕ, ◌≡◌, refl, ap, ◌∙◌, inl, inr, Bool, true, false, not, ◌||◌, Option, none, some, List, [], ◌∷◌,
  ◌++◌, map, append-nil, append_assoc, arith, ◌==◌, if◌then◌else◌, Bool-cases, is_empty, Bytes,
  codes,
}
use repo_init.Logging.Level.{Level, trace, debug, info, warn, err, critical, off}
use repo_init.Logging.Loki.{
  LokiSink, LogMsg, level_value, loki_api_sink, push_log, sink_it, log_text, logs_text,
  streams_text, clear_logs, flush,
}

unfoldable pub sink_all : List LogMsg → LokiSink → LokiSink
unfolding sink_it
sink_all [] k = k
sink_all (msg ∷ msgs) k = sink_all msgs (sink_it msg k)

-- The times and payloads of the messages of one level, in their order.
abbrev pub logs_of : ℕ → List LogMsg → List (Bytes × Bytes)
logs_of n [] = []
logs_of n (msg ∷ msgs) =
    if level_value msg.level == n then (msg.time, msg.payload) ∷ logs_of n msgs else logs_of n msgs

-- The five buffers, each with lines in front of those of some messages.
abbrev pub Buffers : Type 0
Buffers = List (Bytes × List (Bytes × Bytes))

abbrev five : (a b c d e : List (Bytes × Bytes)) → Buffers
five a b c d e =
    (codes "debug", a)
    ∷ (codes "info", b)
    ∷ (codes "warn", c)
    ∷ (codes "error", d)
    ∷ (codes "critical", e)
    ∷ []

abbrev pub buffers_of : List LogMsg → Buffers
buffers_of msgs =
    five (logs_of 1 msgs) (logs_of 2 msgs) (logs_of 3 msgs) (logs_of 4 msgs) (logs_of 5 msgs)

abbrev with_buffers : Bytes → Buffers → LokiSink
with_buffers information bs = record {
  internal_log_buffer = bs;
  basic_information = information;
  loki_available = true;
}

-- What a message of a level adds in front of the lines of those that come later.
abbrev added : ℕ → LogMsg → List (Bytes × Bytes)
added n msg = if level_value msg.level == n then (msg.time, msg.payload) ∷ [] else []

sink_it-five :
    (information : Bytes) (msg : LogMsg) (a b c d e : List (Bytes × Bytes))
    → sink_it msg (with_buffers information (five a b c d e))
      ≡ with_buffers information (
          five
            (a ++ added 1 msg)
            (b ++ added 2 msg)
            (c ++ added 3 msg)
            (d ++ added 4 msg)
            (e ++ added 5 msg))
unfolding sink_it push_log
sink_it-five information msg a b c d e = at_level msg.level refl
  where
    at_level :
        (l : Level)
        → msg.level ≡ l
        → sink_it msg (with_buffers information (five a b c d e))
          ≡ with_buffers information (
              five
                (a ++ added 1 msg)
                (b ++ added 2 msg)
                (c ++ added 3 msg)
                (d ++ added 4 msg)
                (e ++ added 5 msg))
    at_level trace h = simp (h, append-nil)
    at_level debug h = simp (h, append-nil)
    at_level info h = simp (h, append-nil)
    at_level warn h = simp (h, append-nil)
    at_level err h = simp (h, append-nil)
    at_level critical h = simp (h, append-nil)
    at_level off h = simp (h, append-nil)

added-logs_of :
    (n : ℕ) (msg : LogMsg) (msgs : List LogMsg) (a : List (Bytes × Bytes))
    → (a ++ added n msg) ++ logs_of n msgs ≡ a ++ logs_of n (msg ∷ msgs)
added-logs_of n msg msgs a = elim (Bool-cases (level_value msg.level == n)) [
  | inl y ↦ rw y (append_assoc a ((msg.time, msg.payload) ∷ []) (logs_of n msgs))
  | inr miss ↦ rw miss (ap (λ x. x ++ logs_of n msgs) (append-nil a))
]

sink_all-five :
    (information : Bytes) (msgs : List LogMsg) (a b c d e : List (Bytes × Bytes))
    → sink_all msgs (with_buffers information (five a b c d e))
      ≡ with_buffers information (
          five
            (a ++ logs_of 1 msgs)
            (b ++ logs_of 2 msgs)
            (c ++ logs_of 3 msgs)
            (d ++ logs_of 4 msgs)
            (e ++ logs_of 5 msgs))
unfolding sink_all
sink_all-five information [] a b c d e = simp append-nil
sink_all-five information (msg ∷ msgs) a b c d e = rw (sink_it-five information msg a b c d e) (
    sink_all-five information msgs (a ++ added 1 msg) (b ++ added 2 msg) (c ++ added 3 msg)
      (d ++ added 4 msg) (e ++ added 5 msg)
    ∙ cc (
      added-logs_of 1 msg msgs a,
      added-logs_of 2 msg msgs b,
      added-logs_of 3 msg msgs c,
      added-logs_of 4 msg msgs d,
      added-logs_of 5 msg msgs e,
    ))

-- Texts with a comma in front of each, and with a comma between two of them.
abbrev comma_all : List Bytes → Bytes
comma_all [] = []
comma_all (t ∷ ts) = codes "," ++ (t ++ comma_all ts)

abbrev pub join_comma : List Bytes → Bytes
join_comma [] = []
join_comma (t ∷ ts) = t ++ comma_all ts

logs_text-comma :
    (logs : List (Bytes × Bytes))
    → (logs_text true logs ≡ comma_all (map log_text logs))
      × (logs_text false logs ≡ join_comma (map log_text logs))
unfolding logs_text
logs_text-comma [] = (refl, refl)
logs_text-comma (log ∷ logs) =
    let r = logs_text-comma logs in
    (ap (λ t. codes "," ++ (log_text log ++ t)) r.0, ap (λ t. log_text log ++ t) r.0)

-- The stream of a level: its labels, and its lines with a comma between two of them.
abbrev pub stream_text : Bytes → Bytes → List (Bytes × Bytes) → Bytes
stream_text information name logs =
    codes "{\"stream\":{"
    ++ (information
        ++ (codes "\"level\":\""
            ++ (name
                ++ (codes "\"},\"values\":[" ++ (join_comma (map log_text logs) ++ codes "]}")))))

-- The streams of the levels that have a line.
abbrev pub streams : Bytes → Buffers → List Bytes
streams information [] = []
streams information ((name, []) ∷ bs) = streams information bs
streams information ((name, log ∷ logs) ∷ bs) =
    stream_text information name (log ∷ logs) ∷ streams information bs

streams_text-join :
    (information : Bytes) (bs : Buffers) (flag : Bool)
    → streams_text information flag bs ≡ (
      if flag then comma_all (streams information bs) else join_comma (streams information bs),
      flag || not (is_empty (streams information bs)),
    )
unfolding streams_text
streams_text-join information [] true = refl
streams_text-join information [] false = refl
streams_text-join information ((name, []) ∷ bs) flag = streams_text-join information bs flag
streams_text-join information ((name, log ∷ logs) ∷ bs) true =
    rw (streams_text-join information bs true, (logs_text-comma logs).0) (simp append_assoc)
streams_text-join information ((name, log ∷ logs) ∷ bs) false =
    rw (streams_text-join information bs true, (logs_text-comma logs).0) (simp append_assoc)

-- The request's body for some streams, or none.
abbrev pub posted : List Bytes → Option Bytes
posted [] = none
posted (t ∷ ts) = some (codes "{\"streams\":[" ++ (join_comma (t ∷ ts) ++ codes "]}"))

posted-flag :
    (ts : List Bytes)
    → (if not (is_empty ts)
        then some (codes "{\"streams\":[" ++ (join_comma ts ++ codes "]}"))
        else none)
      ≡ posted ts
posted-flag [] = refl
posted-flag (t ∷ ts) = refl

abbrev no_sink : LokiSink
no_sink = record { internal_log_buffer = []; basic_information = []; loki_available = false }

sink_all-idle : (msgs : List LogMsg) → sink_all msgs no_sink ≡ no_sink
unfolding sink_all sink_it
sink_all-idle [] = refl
sink_all-idle (msg ∷ msgs) = sink_all-idle msgs

-- With an address, a flush behind any messages sends those from debug to critical, a stream to each
-- level that has one, with the lines of the level in their order, and sends nothing if there is none;
-- the buffers are then as they were at the start. Without an address nothing is sent.
pub flush-sink_all :
    (address information : Bytes) (msgs : List LogMsg)
    → (is_empty address ≡ false
        → flush (sink_all msgs (loki_api_sink address information))
          ≡ (loki_api_sink address information, posted (streams information (buffers_of msgs))))
      × (is_empty address ≡ true
          → flush (sink_all msgs (loki_api_sink address information))
            ≡ (loki_api_sink address information, none))
unfolding flush clear_logs loki_api_sink streams_text
flush-sink_all [] information msgs = (λ e. ground arith, λ e. rw (sink_all-idle msgs) refl)
flush-sink_all (c ∷ address) information msgs = (
  λ e.
      rw
        (
          sink_all-five information msgs [] [] [] [] [],
          streams_text-join information (buffers_of msgs) false,
          posted-flag (streams information (buffers_of msgs)),
        )
        refl,
  λ e. ground arith,
)
