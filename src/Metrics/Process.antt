-- ===== src/Metrics/Process.antt =====
-- src/metrics/ProcessMetrics.cpp: what the process measures of itself.
use repo_init.Base.{
  ℕ, ◌+◌, ◌-◌, ◌%◌, Bool, true, false, Option, none, some, List, [], ◌∷◌, ◌==◌, if◌then◌else◌,
  length, Bytes, codes, size_mod,
}
use repo_init.Base.Int.{ℤ, pos, negsuc, ◌-ℤ◌, is_zero_ℤ}
use repo_init.Base.Doubles.{to_double}
use repo_init.Base.Numbers.{stoull}
use repo_init.Utils.FileHelpers.{find_from_file, contains}
pub mod Sums
pub mod Laws

-- What `times` gives: its result, -1 for a failure, and the user time it has written.
pub record Times : Type 0 where
  pub ticks : ℤ
  pub utime : ℤ

-- The processor usage: 0.0, or 100.0 * used / elapsed.
pub data Usage : Type 0 where
  idle : Usage
  share : ℤ → ℤ → Usage

-- The answers of the system to one update. A directory that cannot be opened has no entries to read; the
-- file /proc/self/io is opened twice.
pub record System : Type 0 where
  pub now : ℕ
  pub max_rss : ℕ
  pub major_faults : ℕ
  pub times : Times
  pub io_for_read : Option Bytes
  pub io_for_write : Option Bytes
  pub tasks : Option (List Bytes)
  pub descriptors : Option (List Bytes)

-- The values of the gauges.
pub record Gauges : Type 0 where
  pub init_time : ℕ
  pub current_time : ℕ
  pub memory : ℕ
  pub page_faults : ℕ
  pub cpu_usage : Usage
  pub disk_read : ℕ
  pub disk_write : ℕ
  pub thread_count : ℕ
  pub file_descriptor_count : ℕ

pub record ProcessMetrics : Type 0 where
  pub check_flag : Option Bool
  pub gauges : Gauges
  pub old_read_bytes : ℕ
  pub old_write_bytes : ℕ
  pub old_cpu_time : ℤ
  pub old_cpu : ℤ

-- countDirectoryEntries: every entry that readdir gives.
unfoldable pub count_directory_entries : Option (List Bytes) → ℕ
count_directory_entries none = 0
count_directory_entries (some entries) = length entries

abbrev is_minus_one : ℤ → Bool
is_minus_one (pos n) = false
is_minus_one (negsuc n) = n == 0

-- getCpuUsage, with _oldCpuTime and the user time of _oldCpu, and what they are after it.
unfoldable pub get_cpu_usage : Times → ℤ → ℤ → Usage × (ℤ × ℤ)
get_cpu_usage t old_cpu_time old_cpu =
    if is_zero_ℤ old_cpu_time
    then (idle, (if is_minus_one t.ticks then pos 0 else t.ticks, t.utime))
    else (share (t.utime -ℤ old_cpu) (t.ticks -ℤ old_cpu_time), (t.ticks, t.utime))

-- The subtraction of two numbers of 64 bits.
abbrev pub sub_size : ℕ → ℕ → ℕ
sub_size a b = (a + (size_mod - b)) % size_mod

-- The number behind a name in a file: no number where the file has none, an exception where it is no
-- number.
pub data Found : Type 0 where
  nothing no_number : Found
  number : ℕ → Found

abbrev pub parse_found : Bytes → Found
parse_found [] = nothing
parse_found (c ∷ s) = elim (stoull (c ∷ s)) [ none ↦ no_number | some n ↦ number n ]

unfoldable pub find_number : Bytes → Option Bytes → Found
find_number name file = parse_found (find_from_file (contains name) file []).1

-- getDiskIO, with _oldReadBytes and _oldWriteBytes: the result, and what they are after it; `none` is an
-- exception, which leaves them as they were.
unfoldable pub get_disk_io : Option Bytes → Option Bytes → ℕ → ℕ → Option ((ℕ × ℕ) × (ℕ × ℕ))
get_disk_io io_for_read io_for_write old_read_bytes old_write_bytes =
    elim (find_number (codes "read_bytes") io_for_read) [
      | nothing ↦ some ((0, 0), (old_read_bytes, old_write_bytes))
      | no_number ↦ none
      | number read_bytes ↦ elim (find_number (codes "write_bytes") io_for_write) [
        | nothing ↦ some ((0, 0), (old_read_bytes, old_write_bytes))
        | no_number ↦ none
        | number write_bytes ↦ some (
          (sub_size read_bytes old_read_bytes, sub_size write_bytes old_write_bytes),
          (read_bytes, write_bytes),
        )
      ]
    ]

-- The gauges that are set before the disk's, and those from there on.
abbrev pub set_first : System → Usage → Gauges → Gauges
set_first s usage g = record g {
  current_time = s.now;
  memory = to_double s.max_rss;
  page_faults = to_double s.major_faults;
  cpu_usage = usage;
}

abbrev pub set_rest : System → ℕ × ℕ → Gauges → Gauges
set_rest s io g = record g {
  disk_read = to_double io.0;
  disk_write = to_double io.1;
  thread_count = to_double (count_directory_entries s.tasks);
  file_descriptor_count = to_double (count_directory_entries s.descriptors);
}

-- The object after the update, and whether it came to its end without an exception.
unfoldable pub update : System → ProcessMetrics → ProcessMetrics × Bool
update s p =
    let (usage, (cpu_time, cpu)) = get_cpu_usage s.times p.old_cpu_time p.old_cpu in
    let first = set_first s usage p.gauges in
    elim (get_disk_io s.io_for_read s.io_for_write p.old_read_bytes p.old_write_bytes) [
      | none ↦ (record p { gauges = first; old_cpu_time = cpu_time; old_cpu = cpu }, false)
      | some (io, (read_bytes, write_bytes)) ↦ (
        record p {
          gauges = set_rest s io first;
          old_read_bytes = read_bytes;
          old_write_bytes = write_bytes;
          old_cpu_time = cpu_time;
          old_cpu = cpu;
        },
        true,
      )
    ]

abbrev pub set_flag : Option Bool → Option Bool
set_flag none = none
set_flag (some b) = some true

-- A round of threadRunner, and all of them until a stop is requested.
unfoldable pub run_round : System → ProcessMetrics → ProcessMetrics
run_round s p =
    let (p', finished) = update s p in
    if finished then record p' { check_flag = set_flag p'.check_flag } else p'

unfoldable pub thread_runner : List System → ProcessMetrics → ProcessMetrics
thread_runner [] p = p
thread_runner (s ∷ ss) p = thread_runner ss (run_round s p)

-- The constructor, without the thread that it starts; `none` is the exception for a null registry.
unfoldable pub process_metrics : Bool → Option Bool → ℕ → Option ProcessMetrics
process_metrics has_registry flag now =
    if has_registry
    then some (record {
      check_flag = flag;
      gauges = record {
        init_time = now;
        current_time = 0;
        memory = 0;
        page_faults = 0;
        cpu_usage = idle;
        disk_read = 0;
        disk_write = 0;
        thread_count = 0;
        file_descriptor_count = 0;
      };
      old_read_bytes = 0;
      old_write_bytes = 0;
      old_cpu_time = pos 0;
      old_cpu = pos 0;
    })
    else none
