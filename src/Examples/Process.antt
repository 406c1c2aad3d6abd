-- ===== src/Examples/Process.antt =====
-- Uses of the theorems on the file helpers, the process metrics, the status tracker and Sentry.
use repo_init.Base.Doubles.{exact_max, to_double}
use repo_init.Base.Numbers.{stoull}
use repo_init.Metrics.Process.Sums.{reported}
use repo_init.Metrics.Process.{run_round, update, get_disk_io, get_cpu_usage}
use repo_init.Utils.FileHelpers.{find_from_file}
use repo_init.Base.{
  ltb→lt, ◌<◌, ◌+◌, ◌-◌, ◌%◌, ◌≤◌, ◌<◌, ◌≡◌, refl, Bool, true, false, none, some, List, [], ◌∷◌,
  ◌++◌, map, arith, length, Bytes, codes, find_byte-Lacks, size_mod,
}
use repo_init.Base.Int.{pos, negsuc, ◌+ℤ◌, ◌-ℤ◌}
use repo_init.Base.Numbers.{place_value}
use repo_init.Logging.Sentry.{
  SentryValue, set_context, inet, packet, Interface, Site, set_network_context,
}
use repo_init.Logging.Sentry.Laws.{last_value, set_network_context-last_value}
use repo_init.Metrics.Process.{
  System, Gauges, ProcessMetrics, idle, find_number, number, no_number, thread_runner,
}
use repo_init.Metrics.Process.Laws.{find_number-line}
use repo_init.Metrics.Process.Sums.{
  total_reported, thread_runner-total, total_usage, thread_runner-usage,
}
use repo_init.Metrics.Status.{
  StatusTracker, Call, increments, decrements, succeeds, fails, run_calls, begins, takes_back, good,
  bad, sum_of, landed, Counts, run_calls-Counts, result, track_status, untrack_status,
  track_status-results,
}
use repo_init.Utils.ConfigParser.{lookup}
use repo_init.Utils.FileHelpers.Laws.{write_lines}
use repo_init.Utils.FileMonitor.{FileMonitor, Inotify, thread_func}
use repo_init.Utils.FileMonitor.Laws.{Event, Round, poll_of, count_calls, thread_func-counts}

abbrev monitor : FileMonitor
monitor = record {
  f_descriptor = 7;
  w_descriptor = 1;
  file_path = codes "config.json";
  has_callback = true;
  notify_events = 2;
}

-- A reading with two changes and the closing between them, one that fails, and one of another kind.
abbrev changed : Event
changed = record { wd = 1; mask = 2; cookie = 0; name = [] }

abbrev closed : Event
closed = record { wd = 1; mask = 8; cookie = 0; name = codes "a" ++ 0 ∷ [] }

abbrev rounds : List Round
rounds =
    (some 50, some (changed ∷ closed ∷ changed ∷ []))
    ∷ (none, none)
    ∷ (some 18, some (closed ∷ []))
    ∷ []

thread_func-counts_example :
    (true ≡ true → thread_func monitor (map poll_of rounds) ≡ some (count_calls 2 rounds))
    × (true ≡ false → thread_func monitor (map poll_of rounds) ≡ some 0)
thread_func-counts_example = thread_func-counts monitor rounds (
  ((omega arith, omega arith), ((omega arith, omega arith), ((omega arith, omega arith), tt))),
  (tt, (((omega arith, omega arith), tt), tt)),
)

abbrev no_watch_calls : Inotify
no_watch_calls = record { init = some 7; add_watch = none; get_flags = true; set_flags = true }

abbrev io_file : Bytes
io_file = write_lines (
    (codes "syscr: 9" ∷ [])
    ++ (codes "read_bytes:" ++ 32 ∷ 52 ∷ codes "0") ∷ codes "write_bytes: 8" ∷ [])

find_number-line_example :
    (place_value (52 ∷ codes "0") < size_mod
      → find_number (codes "read_bytes") (some io_file) ≡ number (place_value (52 ∷ codes "0")))
    × (size_mod ≤ place_value (52 ∷ codes "0")
        → find_number (codes "read_bytes") (some io_file) ≡ no_number)
find_number-line_example =
    find_number-line (codes "read_bytes") (codes "read_bytes:") (codes "0") 52
      (codes "syscr: 9" ∷ []) (codes "write_bytes: 8" ∷ [])
      (find_byte-Lacks 10 (codes "syscr: 9") refl, tt) (refl, tt)
      (find_byte-Lacks 10 (codes "read_bytes:") refl) refl (refl, (refl, tt))
      (find_byte-Lacks 10 (codes "write_bytes: 8") refl, tt)

abbrev new_gauges : Gauges
new_gauges = record {
  init_time = 1;
  current_time = 0;
  memory = 0;
  page_faults = 0;
  cpu_usage = idle;
  disk_read = 0;
  disk_write = 0;
  thread_count = 0;
  file_descriptor_count = 0;
}

abbrev measured : ProcessMetrics
measured = record {
  check_flag = some false;
  gauges = new_gauges;
  old_read_bytes = 4;
  old_write_bytes = 8;
  old_cpu_time = pos 100;
  old_cpu = pos 10;
}

-- An update with the file above, and one with a text that is no number.
abbrev pub first_system : System
first_system = record {
  now = 5;
  max_rss = 100;
  major_faults = 0;
  times = record { ticks = pos 200; utime = pos 30 };
  io_for_read = some io_file;
  io_for_write = some io_file;
  tasks = some (codes "." ∷ codes ".." ∷ codes "7" ∷ []);
  descriptors = none;
}

abbrev second_system : System
second_system = record first_system {
  times = record { ticks = pos 300; utime = pos 31 };
  io_for_read = some (codes "read_bytes: none");
}

abbrev systems : List System
systems = first_system ∷ second_system ∷ []

few :
    ((total_reported systems measured).0 < exact_max)
    × ((total_reported systems measured).1 < exact_max)
unfolding total_reported reported run_round update get_disk_io find_number find_from_file stoull
    to_double get_cpu_usage
few = (ltb→lt _ _ refl, ltb→lt _ _ refl)

thread_runner-total_example :
    let total = total_reported systems measured in
    let p' = thread_runner systems measured in
    ((total.0 + 4) % size_mod ≡ p'.old_read_bytes) × ((total.1 + 8) % size_mod ≡ p'.old_write_bytes)
thread_runner-total_example =
    thread_runner-total systems measured (omega arith) (omega arith) few.0 few.1

thread_runner-usage_example :
    let total = total_usage systems measured in
    let p' = thread_runner systems measured in
    (total.0 ≡ p'.old_cpu -ℤ pos 10) × (total.1 ≡ p'.old_cpu_time -ℤ pos 100)
thread_runner-usage_example = thread_runner-usage systems measured refl (refl, (refl, tt))

abbrev quiet : StatusTracker
quiet = record { active_ctr = pos 0; total_ctr = 3; success_ctr = 2; failed_ctr = 1 }

abbrev calls : List Call
calls = increments ∷ succeeds ∷ fails ∷ decrements ∷ []

run_calls-Counts_example :
    Counts
      (sum_of begins calls)
      (sum_of takes_back calls)
      (sum_of good calls)
      (sum_of bad calls)
      (landed calls quiet)
      quiet
      (run_calls calls quiet)
run_calls-Counts_example = run_calls-Counts calls quiet

abbrev no_results : List Bool
no_results = []

track_status-results_example :
    let t' = untrack_status (run_calls (map result (true ∷ [])) (track_status quiet)) in
    (t'.active_ctr +ℤ pos 1 ≡ pos (0 + 1 - 1))
    × (length (true ∷ []) ≡ 0 → t'.active_ctr ≡ quiet.active_ctr)
    × (length no_results ≡ 0 → 1 ≤ length (true ∷ []) → t'.active_ctr ≡ negsuc 0)
track_status-results_example = track_status-results (true ∷ []) quiet 0 refl

abbrev interfaces : List Interface
interfaces =
    record {
      name = codes "lo";
      addr = some (inet (127 ∷ 0 ∷ 0 ∷ 1 ∷ []));
      running = true;
      loopback = true;
    }
    ∷ record {
      name = codes "eth0";
      addr = some (packet (2 ∷ 66 ∷ 172 ∷ 17 ∷ 0 ∷ 2 ∷ 0 ∷ 0 ∷ []));
      running = true;
      loopback = false;
    }
    ∷ []

abbrev site : Site
site = record {
  full_revision = codes "1.0";
  project_name = codes "XXX";
  build_date = codes "today";
  build_time = codes "now";
  compiler_name = codes "GNU";
  compiler_version = codes "13";
  build_type = codes "Release";
  hostname = codes "host";
  cpu_info = none;
  interfaces = some interfaces;
  inet_ntop = (λ long a. codes "address");
}

set_network_context-last_value_example :
    (some interfaces ≡ none → set_network_context site ≡ [])
    × ((is : List Interface)
        → some interfaces ≡ some is
        → (v : SentryValue) × (set_network_context site ≡ set_context (codes "Network") v ∷ [])
          × (lookup (codes "eth0.mac") v ≡ last_value site (codes "eth0.mac") is []))
set_network_context-last_value_example = set_network_context-last_value site (codes "eth0.mac")
