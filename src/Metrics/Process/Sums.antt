-- ===== src/Metrics/Process/Sums.antt =====
-- What the reports of the process metrics add up to.
use repo_init.Base.{
  if◌then◌else◌, ℕ, ◌+◌, ◌%◌, ◌<◌, ◌≡◌, refl, ap, ◌∙◌, ◌⊎◌, inl, inr, false, Option, none, some,
  List, [], ◌∷◌, arith, Option-cases, All, Bytes, codes, size_mod,
}
use repo_init.Base.Int.{ℤ, pos, ◌+ℤ◌, ◌-ℤ◌, is_zero_ℤ, int_laws}
use repo_init.Base.Doubles.{exact_max, to_double, to_double-exact, to_double-lt}
use repo_init.Base.Numbers.{stoull, stoull-lt}
use repo_init.Metrics.Process.{
  Times, Usage, idle, share, System, ProcessMetrics, get_cpu_usage, sub_size, Found, nothing,
  no_number, number, parse_found, find_number, get_disk_io, update, run_round, thread_runner,
}
use repo_init.Utils.FileHelpers.{find_from_file, contains}

parse_found-lt : (s : Bytes) (n : ℕ) → parse_found s ≡ number n → n < size_mod
parse_found-lt [] n h = ground arith
parse_found-lt (c ∷ s) n h = elim (Option-cases (stoull (c ∷ s))) [
  | inl e ↦ ground arith
  | inr (m, e) ↦ ground (arith, stoull-lt (c ∷ s) m e)
]

find_number-lt :
    (name : Bytes) (file : Option Bytes) (n : ℕ) → find_number name file ≡ number n → n < size_mod
unfolding find_number
find_number-lt name file n h = parse_found-lt (find_from_file (contains name) file []).1 n h

Found-cases : (f : Found) → (f ≡ nothing) ⊎ ((f ≡ no_number) ⊎ ((n : ℕ) × (f ≡ number n)))
Found-cases nothing = inl refl
Found-cases no_number = inr (inl refl)
Found-cases (number n) = inr (inr (n, refl))

sub_size-add : (a b : ℕ) → a < size_mod → b < size_mod → (sub_size a b + b) % size_mod ≡ a
sub_size-add a b ha hb = omega arith

-- What a reading of the disk reports and the numbers after it, against the numbers before it.
pub record Adds (old_read old_write : ℕ) (io new : ℕ × ℕ) : Type 0 where
  pub reads : (io.0 + old_read) % size_mod ≡ new.0
  pub writes : (io.1 + old_write) % size_mod ≡ new.1
  pub small : (new.0 < size_mod) × (new.1 < size_mod)

Adds-nothing : (r w : ℕ) → r < size_mod → w < size_mod → Adds r w (0, 0) (r, w)
Adds-nothing r w hr hw = record {
  reads = omega (arith, hr);
  writes = omega (arith, hw);
  small = (hr, hw);
}

-- An exception reports nothing.
abbrev io_of : Option ((ℕ × ℕ) × (ℕ × ℕ)) → ℕ × ℕ
io_of none = (0, 0)
io_of (some (io, new)) = io

abbrev new_of : ℕ → ℕ → Option ((ℕ × ℕ) × (ℕ × ℕ)) → ℕ × ℕ
new_of r w none = (r, w)
new_of r w (some (io, new)) = new

get_disk_io-Adds :
    (f g : Option Bytes) (r w : ℕ)
    → r < size_mod
    → w < size_mod
    → Adds r w (io_of (get_disk_io f g r w)) (new_of r w (get_disk_io f g r w))
unfolding get_disk_io
get_disk_io-Adds f g r w hr hw = elim (Found-cases (find_number (codes "read_bytes") f)) [
  | inl e ↦ rw (io_of, new_of, get_disk_io, e) (Adds-nothing r w hr hw)
  | inr (inl e) ↦ rw (io_of, new_of, get_disk_io, e) (Adds-nothing r w hr hw)
  | inr (inr (n, e)) ↦ elim (Found-cases (find_number (codes "write_bytes") g)) [
    | inl e' ↦ rw (io_of, new_of, get_disk_io, e, e') (Adds-nothing r w hr hw)
    | inr (inl e') ↦ rw (io_of, new_of, get_disk_io, e, e') (Adds-nothing r w hr hw)
    | inr (inr (m, e')) ↦
        let hn = find_number-lt (codes "read_bytes") f n e in
        let hm = find_number-lt (codes "write_bytes") g m e' in
        rw (io_of, new_of, get_disk_io, e, e')
          (record {
            reads = sub_size-add n r hn hr;
            writes = sub_size-add m w hm hw;
            small = (hn, hm);
          })
  ]
]

-- What the gauges report of the disk behind a round, which is nothing new if an exception is thrown.
unfoldable pub reported : System → ProcessMetrics → ℕ × ℕ
unfolding update run_round
reported s p =
    let g = (run_round s p).gauges in if (update s p).1 then (g.disk_read, g.disk_write) else (0, 0)

reported-io_of :
    (s : System) (p : ProcessMetrics)
    → let io =
        io_of (get_disk_io s.io_for_read s.io_for_write p.old_read_bytes p.old_write_bytes) in
      reported s p ≡ (to_double io.0, to_double io.1)
unfolding reported update run_round to_double
reported-io_of s p =
    elim (Option-cases
      (get_disk_io s.io_for_read s.io_for_write p.old_read_bytes p.old_write_bytes)) [
        | inl e ↦ rw (reported, run_round, update, e) refl
        | inr (r, e) ↦ rw (reported, run_round, update, e) refl
      ]

run_round-bytes :
    (s : System) (p : ProcessMetrics)
    → let new =
        new_of p.old_read_bytes p.old_write_bytes
          (get_disk_io s.io_for_read s.io_for_write p.old_read_bytes p.old_write_bytes) in
      ((run_round s p).old_read_bytes ≡ new.0) × ((run_round s p).old_write_bytes ≡ new.1)
unfolding run_round update get_disk_io
run_round-bytes s p = ground arith

-- What doubles have below `exact_max` is what was cast to them.
exact-reported :
    (s : System) (p : ProcessMetrics)
    → (reported s p).0 < exact_max
    → (reported s p).1 < exact_max
    → reported s p
      ≡ io_of (get_disk_io s.io_for_read s.io_for_write p.old_read_bytes p.old_write_bytes)
exact-reported s p hr hw =
    let io = io_of (get_disk_io s.io_for_read s.io_for_write p.old_read_bytes p.old_write_bytes) in
    let e = reported-io_of s p in
    let r = to_double-lt io.0 (rw (← ap (λ x. x.0) e) hr) in
    let w = to_double-lt io.1 (rw (← ap (λ x. x.1) e) hw) in
    e
    ∙ ap (λ x. (x, to_double io.1)) (to_double-exact io.0 (omega (arith, r)))
    ∙ ap (λ x. (io.0, x)) (to_double-exact io.1 (omega (arith, w)))

run_round-Adds :
    (s : System) (p : ProcessMetrics)
    → p.old_read_bytes < size_mod
    → p.old_write_bytes < size_mod
    → (reported s p).0 < exact_max
    → (reported s p).1 < exact_max
    → let p' = run_round s p in
      Adds p.old_read_bytes p.old_write_bytes (reported s p) (p'.old_read_bytes, p'.old_write_bytes)
run_round-Adds s p hr hw er ew =
    let a =
      get_disk_io-Adds s.io_for_read s.io_for_write p.old_read_bytes p.old_write_bytes hr hw in
    let b = run_round-bytes s p in rw (b.0, b.1, exact-reported s p er ew) a

-- The reports of all rounds, added up.
unfoldable pub total_reported : List System → ProcessMetrics → ℕ × ℕ
unfolding reported run_round
total_reported [] p = (0, 0)
total_reported (s ∷ ss) p =
    let (r, w) = reported s p in
    let (rs, ws) = total_reported ss (run_round s p) in (r + rs, w + ws)

-- Whatever the files hold in each round of the thread: what the gauge of the bytes read shows behind each
-- round that comes to its end, all together, is what the number kept for them has grown by, in 64 bits,
-- and so is what the gauge of the bytes written shows, also where a file has no number or one that
-- throws. Before the first round both numbers fit 64 bits, and what each gauge shows, all together, stays
-- below 2 ^ 53, where doubles are exact.
pub thread_runner-total :
    (ss : List System) (p : ProcessMetrics)
    → p.old_read_bytes < size_mod
    → p.old_write_bytes < size_mod
    → (total_reported ss p).0 < exact_max
    → (total_reported ss p).1 < exact_max
    → let total = total_reported ss p in
      let p' = thread_runner ss p in
      ((total.0 + p.old_read_bytes) % size_mod ≡ p'.old_read_bytes)
      × ((total.1 + p.old_write_bytes) % size_mod ≡ p'.old_write_bytes)
unfolding thread_runner total_reported
thread_runner-total [] p hr hw er ew = omega (arith, hr, hw)
thread_runner-total (s ∷ ss) p hr hw er ew =
    let a = run_round-Adds s p hr hw (omega (arith, er)) (omega (arith, ew)) in
    let b =
      thread_runner-total ss (run_round s p) a.small.0 a.small.1 (omega (arith, er))
        (omega (arith, ew)) in
    (omega (arith, a.reads, b.0), omega (arith, a.writes, b.1))

-- The shares of the rounds, added up: the ticks used and those that have gone by. A usage that stays
-- at 0.0 adds nothing.
abbrev pub used_of : Usage → ℤ
used_of idle = pos 0
used_of (share used elapsed) = used

abbrev pub elapsed_of : Usage → ℤ
elapsed_of idle = pos 0
elapsed_of (share used elapsed) = elapsed

unfoldable pub total_usage : List System → ProcessMetrics → ℤ × ℤ
unfolding run_round
total_usage [] p = (pos 0, pos 0)
total_usage (s ∷ ss) p =
    let p' = run_round s p in
    let (used, elapsed) = total_usage ss p' in
    (used_of p'.gauges.cpu_usage +ℤ used, elapsed_of p'.gauges.cpu_usage +ℤ elapsed)

run_round-cpu :
    (s : System) (p : ProcessMetrics)
    → let p' = run_round s p in
      let r = get_cpu_usage s.times p.old_cpu_time p.old_cpu in
      (p'.gauges.cpu_usage ≡ r.0) × (p'.old_cpu_time ≡ r.1.0) × (p'.old_cpu ≡ r.1.1)
unfolding run_round update
run_round-cpu s p =
    elim (Option-cases
      (get_disk_io s.io_for_read s.io_for_write p.old_read_bytes p.old_write_bytes)) [
        | inl e ↦ rw (run_round, update, e) (refl, refl, refl)
        | inr (r, e) ↦ rw (run_round, update, e) (refl, refl, refl)
      ]

get_cpu_usage-share :
    (t : Times) (old_cpu_time old_cpu : ℤ)
    → is_zero_ℤ old_cpu_time ≡ false
    → get_cpu_usage t old_cpu_time old_cpu
      ≡ (share (t.utime -ℤ old_cpu) (t.ticks -ℤ old_cpu_time), (t.ticks, t.utime))
unfolding get_cpu_usage
get_cpu_usage-share t old_cpu_time old_cpu h = rw h refl

run_round-usage :
    (s : System) (p : ProcessMetrics)
    → is_zero_ℤ p.old_cpu_time ≡ false
    → let p' = run_round s p in
      (used_of p'.gauges.cpu_usage ≡ s.times.utime -ℤ p.old_cpu)
      × (elapsed_of p'.gauges.cpu_usage ≡ s.times.ticks -ℤ p.old_cpu_time)
      × (p'.old_cpu ≡ s.times.utime)
      × (p'.old_cpu_time ≡ s.times.ticks)
run_round-usage s p h =
    let c = run_round-cpu s p in
    rw (c.0, c.1, c.2, get_cpu_usage-share s.times p.old_cpu_time p.old_cpu h)
      (refl, refl, refl, refl)

-- After the first measure of the times, and where the clock never shows 0, the ticks used that the
-- usages of the rounds are made of add up to the user time that has passed over all of them, and the
-- ticks they are divided by to the time that has gone by, exceptions while reading the disk included.
pub thread_runner-usage :
    (ss : List System) (p : ProcessMetrics)
    → is_zero_ℤ p.old_cpu_time ≡ false
    → All (λ s. is_zero_ℤ s.times.ticks ≡ false) ss
    → let total = total_usage ss p in
      let p' = thread_runner ss p in
      (total.0 ≡ p'.old_cpu -ℤ p.old_cpu) × (total.1 ≡ p'.old_cpu_time -ℤ p.old_cpu_time)
unfolding thread_runner total_usage
thread_runner-usage [] p h hs = (omega int_laws, omega int_laws)
thread_runner-usage (s ∷ ss) p h hs =
    let a = run_round-usage s p h in
    let b = thread_runner-usage ss (run_round s p) (ap is_zero_ℤ a.3 ∙ hs.0) hs.1 in
    (rw (a.0, b.0, a.2) (omega int_laws), rw (a.1, b.1, a.3) (omega int_laws))
