-- ===== src/Logging/Loki.antt =====
-- loki_api_sink of src/logging/Loki.cpp: the log lines by level, and the request that sends them.
pub mod Laws
use repo_init.Base.{
  ℕ, zero, suc, ◌+◌, ◌-◌, Bool, true, false, not, ◌&&◌, Option, none, some, List, [], ◌∷◌, ◌++◌,
  leb, if◌then◌else◌, is_empty, Bytes, codes,
}
use repo_init.Logging.Level.{Level, trace, debug, info, warn, err, critical, off}

-- `logs` of each level holds times and payloads. `available` says whether there is an address.
pub record LokiSink : Type 0 where
  pub internal_log_buffer : List (Bytes × List (Bytes × Bytes))
  pub basic_information : Bytes
  pub loki_available : Bool

-- What the sink reads of a message: its level, its time as text, and its payload.
pub record LogMsg : Type 0 where
  pub level : Level
  pub time : Bytes
  pub payload : Bytes

-- The value of a level.
abbrev pub level_value : Level → ℕ
level_value trace = 0
level_value debug = 1
level_value info = 2
level_value warn = 3
level_value err = 4
level_value critical = 5
level_value off = 6

-- The constructor; `information` is the text of the labels.
unfoldable pub loki_api_sink : Bytes → Bytes → LokiSink
loki_api_sink address information =
    if is_empty address
    then record { internal_log_buffer = []; basic_information = []; loki_available = false }
    else record {
      internal_log_buffer =
          (codes "debug", [])
          ∷ (codes "info", [])
          ∷ (codes "warn", [])
          ∷ (codes "error", [])
          ∷ (codes "critical", [])
          ∷ [];
      basic_information = information;
      loki_available = true;
    }

-- `buffer[i].logs.push_back(log)`, at an index within the buffer.
unfoldable pub push_log :
    ℕ → Bytes × Bytes → List (Bytes × List (Bytes × Bytes)) → List (Bytes × List (Bytes × Bytes))
push_log i log [] = []
push_log zero log ((name, logs) ∷ bs) = (name, logs ++ log ∷ []) ∷ bs
push_log (suc i) log (b ∷ bs) = b ∷ push_log i log bs

-- sink_it_
unfoldable pub sink_it : LogMsg → LokiSink → LokiSink
unfolding push_log
sink_it msg k =
    if not k.loki_available
    then k
    else if leb 1 (level_value msg.level) && leb (level_value msg.level) 5
    then record k {
      internal_log_buffer =
          push_log (level_value msg.level - 1) (msg.time, msg.payload) k.internal_log_buffer;
    }
    else k

abbrev comma_if : Bool → Bytes
comma_if flag = if flag then codes "," else []

abbrev pub log_text : Bytes × Bytes → Bytes
log_text (time, line) = codes "[\"" ++ (time ++ (codes "\",\"" ++ (line ++ codes "\"]")))

-- The loop over the lines of a level.
unfoldable pub logs_text : Bool → List (Bytes × Bytes) → Bytes
logs_text subflag [] = []
logs_text subflag (log ∷ logs) = comma_if subflag ++ (log_text log ++ logs_text true logs)

-- The loop over the levels: the text, and `flag`.
unfoldable pub streams_text : Bytes → Bool → List (Bytes × List (Bytes × Bytes)) → Bytes × Bool
unfolding logs_text
streams_text information flag [] = ([], flag)
streams_text information flag ((name, []) ∷ bs) = streams_text information flag bs
streams_text information flag ((name, log ∷ logs) ∷ bs) =
    let (rest, flag') = streams_text information true bs in
    (
      comma_if flag
          ++ (codes "{\"stream\":{"
              ++ (information
                  ++ (codes "\"level\":\""
                      ++ (name
                          ++ (codes "\"},\"values\":["
                              ++ (logs_text false (log ∷ logs) ++ (codes "]}" ++ rest))))))),
      flag',
    )

unfoldable pub clear_logs :
    List (Bytes × List (Bytes × Bytes)) → List (Bytes × List (Bytes × Bytes))
clear_logs [] = []
clear_logs ((name, logs) ∷ bs) = (name, []) ∷ clear_logs bs

-- flush_: the sink, and the body of the request, if one is sent.
unfoldable pub flush : LokiSink → LokiSink × Option Bytes
unfolding streams_text clear_logs
flush k =
    let (text, flag) = streams_text k.basic_information false k.internal_log_buffer in
    (
      record k { internal_log_buffer = clear_logs k.internal_log_buffer },
      if flag then some (codes "{\"streams\":[" ++ (text ++ codes "]}")) else none,
    )
