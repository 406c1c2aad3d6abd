-- ===== src/Examples/Logging.antt =====
-- A use of the theorem on the Loki sink.
use repo_init.Base.{◌≡◌, true, false, none, List, [], ◌∷◌, is_empty, codes}
use repo_init.Logging.Level.{trace, info, err}
use repo_init.Logging.Loki.{LogMsg, loki_api_sink, flush}
use repo_init.Logging.Loki.Laws.{sink_all, posted, streams, buffers_of, flush-sink_all}

abbrev three_messages : List LogMsg
three_messages =
    record { level = err; time = codes "1"; payload = codes "bad" }
    ∷ record { level = trace; time = codes "2"; payload = codes "fine" }
    ∷ record { level = info; time = codes "3"; payload = codes "ready" }
    ∷ []

flush-sink_all_example :
    (is_empty (codes "loki:3100") ≡ false
      → flush
          (sink_all three_messages (loki_api_sink (codes "loki:3100") (codes "\"build\":\"x\",")))
        ≡ (
          loki_api_sink (codes "loki:3100") (codes "\"build\":\"x\","),
          posted (streams (codes "\"build\":\"x\",") (buffers_of three_messages)),
        ))
    × (is_empty (codes "loki:3100") ≡ true
        → flush
            (sink_all three_messages (loki_api_sink (codes "loki:3100") (codes "\"build\":\"x\",")))
          ≡ (loki_api_sink (codes "loki:3100") (codes "\"build\":\"x\","), none))
flush-sink_all_example =
    flush-sink_all (codes "loki:3100") (codes "\"build\":\"x\",") three_messages
