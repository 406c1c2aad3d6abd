-- ===== src/Metrics/Process/Laws.antt =====
-- What the process metrics take from the texts of the kernel, and the gauges of a round.
use repo_init.Base.Doubles.{exact_max, to_double-exact}
use repo_init.Base.{
  suc, ◌≤◌, ℕ, ◌+◌, ◌≤◌, ◌<◌, ◌≡◌, refl, ap, ◌≢◌, true, false, none, some, List, [], ◌∷◌, ◌++◌,
  arith, length, All, All-append, Bytes, codes, Lacks, size_mod,
}
use repo_init.Base.Numbers.{is_digit, place_value, stoull-place_value}
use repo_init.Metrics.Process.{
  System, ProcessMetrics, count_directory_entries, get_cpu_usage, no_number, number, parse_found,
  find_number, get_disk_io, set_first, set_rest, set_flag, update, run_round,
}
use repo_init.Utils.FileHelpers.{contains}
use repo_init.Utils.FileHelpers.Laws.{write_lines, IsLine, find_from_file-first}

digit-is_byte : (c : ℕ) → is_digit c ≡ true → (c ≢ 10) × (c ≢ 32)
digit-is_byte c h = ((λ e. ground (arith, h)), (λ e. ground (arith, h)))

digits-Lacks : (s : Bytes) → All (λ c. is_digit c ≡ true) s → Lacks 10 s × Lacks 32 s
digits-Lacks [] h = (tt, tt)
digits-Lacks (c ∷ s) h =
    let head = digit-is_byte c h.0 in
    let rest = digits-Lacks s h.1 in ((head.0, rest.0), (head.1, rest.1))

-- The number found for a name is that of the digits behind the last space of the first line with the
-- name; digits for a number of more than 64 bits make the reading throw.
pub find_number-line :
    (name p digits : Bytes) (c : ℕ) (before after : List Bytes)
    → All IsLine before
    → All (λ line. contains name line ≡ false) before
    → IsLine p
    → contains name (p ++ 32 ∷ c ∷ digits) ≡ true
    → All (λ c. is_digit c ≡ true) (c ∷ digits)
    → All IsLine after
    → let file = write_lines (before ++ (p ++ 32 ∷ c ∷ digits) ∷ after) in
      (place_value (c ∷ digits) < size_mod
        → find_number name (some file) ≡ number (place_value (c ∷ digits)))
      × (size_mod ≤ place_value (c ∷ digits) → find_number name (some file) ≡ no_number)
unfolding find_number
find_number-line name p digits c before after hb hm hp ht hd ha =
    let lacks = digits-Lacks (c ∷ digits) hd in
    let line : IsLine (p ++ 32 ∷ c ∷ digits) =
      All-append (λ c. c ≢ 10) p (32 ∷ c ∷ digits) hp ((λ e. omega arith), lacks.0) in
    let found =
      find_from_file-first (contains name) before after p (c ∷ digits) [] hb hm line ht lacks.1
        ha in
    let value = stoull-place_value c digits hd in
    (
      (λ h. rw (ap (λ r. r.1) found.0, parse_found, value.0 h) refl),
      (λ h. rw (ap (λ r. r.1) found.0, parse_found, value.1 h) refl),
    )

-- A round sets the gauges of the time, the memory and the processor; those of the disk, the threads and
-- the files, and the check flag, are left if a number of the disk throws, and are else set, the counts
-- to all entries of the directories.
pub run_round-outcome :
    (s : System) (p : ProcessMetrics)
    → let d = get_disk_io s.io_for_read s.io_for_write p.old_read_bytes p.old_write_bytes in
      let usage = (get_cpu_usage s.times p.old_cpu_time p.old_cpu).0 in
      let first = set_first s usage p.gauges in
      let p' = run_round s p in
      (d ≡ none
        → (p'.gauges ≡ first)
          × (p'.check_flag ≡ p.check_flag)
          × (p'.old_read_bytes ≡ p.old_read_bytes)
          × (p'.old_write_bytes ≡ p.old_write_bytes))
      × ((io new : ℕ × ℕ)
          → d ≡ some (io, new)
          → (p'.gauges ≡ set_rest s io first)
            × (p'.check_flag ≡ set_flag p.check_flag)
            × (p'.old_read_bytes ≡ new.0)
            × (p'.old_write_bytes ≡ new.1))
unfolding run_round update
run_round-outcome s p = (
  (λ e. rw (run_round, update, e) (refl, refl, refl, refl)),
  (λ io new e. rw (run_round, update, e) (refl, refl, refl, refl)),
)

-- The entries of a directory are counted with the two for the directory and its parent: with them
-- first, the count of threads is two more than the process has, if a double holds it exactly.
pub thread_count-two_more :
    (s : System) (p : ProcessMetrics) (threads : List Bytes) (io new : ℕ × ℕ)
    → s.tasks ≡ some (codes "." ∷ codes ".." ∷ threads)
    → get_disk_io s.io_for_read s.io_for_write p.old_read_bytes p.old_write_bytes ≡ some (io, new)
    → length threads + 2 ≤ exact_max
    → (run_round s p).gauges.thread_count ≡ length threads + 2
unfolding run_round update count_directory_entries
thread_count-two_more s p threads io new ht e few =
    rw (run_round, update, e, set_rest, count_directory_entries, ht)
      (omega (arith, to_double-exact (suc (suc (length threads))) (omega (arith, few))))
