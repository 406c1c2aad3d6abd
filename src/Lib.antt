-- ===== src/Lib.antt =====
-- Repo-Init: a C++ program with a Telnet server, a ZeroMQ control server, Prometheus metrics, a
-- configuration, clients for HTTP and raw sockets, log sinks, and a watch over a crash handler.
--
-- The program. src/main.cpp reads the command line (include/utils/InputParser.hpp) and the
-- configuration (src/utils/ConfigParser.cpp), starts its parts in a fixed order and waits for a signal.
-- The Telnet server (src/telnet/TelnetServer.cpp) has a thread that accepts clients and goes over its
-- sessions every 50 ms; a session edits what it receives, cuts it into lines and hands each to a
-- callback. The control server (src/zeromq/ZeroMQServer.cpp) answers requests on a reply socket. Both
-- count what they do in metrics that they register with src/metrics/PrometheusServer.cpp, and set a
-- flag that the alarm of main clears and that their status commands show; so do the threads of
-- src/metrics/ProcessMetrics.cpp, which reports on the process itself, and of src/utils/Tracer.cpp.
--
-- The files. Telnet/Session has the state of a TelnetSession and what it sends; Nvt, Escapes,
-- Backspace, History, Tab and Lines are stripNVT, stripEscapeCharacters, processBackspace,
-- processCommandHistory with addToHistory, processTab and getCompleteLines; Update is
-- TelnetSession::update, which composes them; Commands is the command table with the three callbacks
-- of main; Server is TelnetServer; Stats is src/telnet/TelnetStats.cpp. The files below these hold
-- their theorems. ZeroMq/Socket, Commands, Server, Stats and Monitor are the files of src/zeromq.
-- Metrics/BaseStats is src/utils/BaseServerStats.cpp; Metrics/Registries, Trackers, Status and Process
-- are src/metrics/PrometheusServer.cpp, Performance.cpp, Status.cpp and ProcessMetrics.cpp.
-- Connection/Http and RawSocket are src/connection/Http.cpp and RawSocket.cpp, and Connection/Curl is
-- what they use of libcurl. Utils/Hasher, InputParser, FileHelpers, FileMonitor, ConfigParser and Tracer
-- are files of include/utils and src/utils (FileMonitor is the class in FileHelpers.cpp, Tracer/Start the
-- start of the crash handler); Logging/Loki and Sentry are src/logging/Loki.cpp and Sentry.cpp; Main and
-- Main/Start are src/main.cpp; Main/Watch puts the rounds of its threads and its alarm, each whole, in
-- any order, Main/Watch/Rounds tells which of them come to their end, and Main/End is the end of main with the destructors of its servers. Base has the shared
-- helpers, Examples the uses at concrete inputs.
--
-- The model. A function that changes an object takes its state and gives the new one back; the state
-- that callbacks reach beside a session, the log level and the check flags, is World. Strings are
-- lists of bytes. What the program calls is a parameter: Telnet/Session.Env answers `send`, Recv and
-- Visit say what `recv` and the clock give, SetUp and Tick what the set-up and `accept` give,
-- Metrics/Prometheus is the interface of prometheus-cpp and Connection/Curl that of libcurl, each with
-- its documented laws, Main/Start.Machine says what main meets, and the outcomes of libzmq, of the JSON
-- library, of crashpad and of the kernel are arguments. Sizes and counters of 64 bits wrap around
-- (Base/Words). The values of metrics are whole numbers, or integers (Base/Int) where they may be below
-- zero, and the processor usage is a fraction; where the source casts a count to double, it is rounded
-- to 53 bits (Base/Doubles). `none` as the result of a function whose source has a
-- defined result everywhere says undefined behaviour, or fuel that ran out, and the theorems say when
-- there is none; elsewhere it says an exception, as the comment above the function does.
--
-- The bounds. stripNVT, processBackspace and getCompleteLines run on fuel for one round more than the
-- buffer has bytes, and the pass over the sessions on one more than there are sessions: each round
-- takes a byte away, goes past a session or erases it, or is the last. processTab runs on the number of
-- tabs. The loop over the events of a watched file runs on one round more than it has bytes: each round
-- goes 16 bytes or more further.
--
-- Not modelled: the log texts, names and help texts of metrics, threads (each thread is a sequence of
-- its rounds, and rounds do not overlap), the members that destructors destroy beside the servers of
-- main, constSeeder of include/utils/Hasher.hpp, the sinks that src/logging/Logger.cpp puts together,
-- and the error texts of src/utils/ErrorHelpers.cpp, which are calls of libraries. A signal that comes
-- while main starts its parts is not modelled either.
pub mod Base
pub mod Utils
pub mod Logging
pub mod Metrics
pub mod Telnet
pub mod Connection
pub mod ZeroMq
pub mod Main
pub mod Examples
