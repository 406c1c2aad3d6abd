-- ===== src/Metrics/Status.antt =====
-- src/metrics/Status.cpp: the events that run, and those that have succeeded and failed.
use repo_init.Base.{
  sym, subst, ℕ, ◌+◌, ◌-◌, ◌≤◌, ◌≡◌, ap, ◌∙◌, Bool, true, false, List, [], ◌∷◌, map, arith,
  if◌then◌else◌, length,
}
use repo_init.Base.Int.{ℤ, pos, negsuc, ◌+ℤ◌, ◌-ℤ◌, ◌≤ℤ◌, is_positive_ℤ, int_laws}

-- The gauge may be below zero; the counters are whole numbers.
pub record StatusTracker : Type 0 where
  pub active_ctr : ℤ
  pub total_ctr : ℕ
  pub success_ctr : ℕ
  pub failed_ctr : ℕ

unfoldable pub status_tracker : StatusTracker
status_tracker = record { active_ctr = pos 0; total_ctr = 0; success_ctr = 0; failed_ctr = 0 }

unfoldable pub increment_active : StatusTracker → StatusTracker
increment_active t = record t { active_ctr = t.active_ctr +ℤ pos 1 }

unfoldable pub decrement_active : StatusTracker → StatusTracker
decrement_active t = record t { active_ctr = t.active_ctr -ℤ pos 1 }

-- The decrement that only a positive gauge gets.
abbrev pub decrement_positive : ℤ → ℤ
decrement_positive a = if is_positive_ℤ a then a -ℤ pos 1 else a

unfoldable pub increment_success : StatusTracker → StatusTracker
increment_success t = record t {
  success_ctr = t.success_ctr + 1;
  total_ctr = t.total_ctr + 1;
  active_ctr = decrement_positive t.active_ctr;
}

unfoldable pub increment_fail : StatusTracker → StatusTracker
increment_fail t = record t {
  failed_ctr = t.failed_ctr + 1;
  total_ctr = t.total_ctr + 1;
  active_ctr = decrement_positive t.active_ctr;
}

-- TrackStatus: what its constructor and its destructor do.
unfoldable pub track_status : StatusTracker → StatusTracker
unfolding increment_active
track_status t = increment_active t

unfoldable pub untrack_status : StatusTracker → StatusTracker
unfolding decrement_active
untrack_status t = decrement_active t

-- The calls of a tracker.
pub data Call : Type 0 where
  increments decrements succeeds fails : Call

unfoldable pub run_call : Call → StatusTracker → StatusTracker
unfolding increment_active decrement_active increment_success increment_fail
run_call increments t = increment_active t
run_call decrements t = decrement_active t
run_call succeeds t = increment_success t
run_call fails t = increment_fail t

unfoldable pub run_calls : List Call → StatusTracker → StatusTracker
unfolding run_call
run_calls [] t = t
run_calls (c ∷ cs) t = run_calls cs (run_call c t)

-- What a call counts as: begun, taken back, succeeded and failed.
abbrev pub begins : Call → ℕ
begins increments = 1
begins _ = 0

abbrev pub takes_back : Call → ℕ
takes_back decrements = 1
takes_back _ = 0

abbrev pub good : Call → ℕ
good succeeds = 1
good _ = 0

abbrev pub bad : Call → ℕ
bad fails = 1
bad _ = 0

abbrev pub sum_of {ℓ} : {A : Type ℓ} → (A → ℕ) → List A → ℕ
sum_of f [] = 0
sum_of f (x ∷ xs) = f x + sum_of f xs

-- Whether a call is a result that finds the gauge positive.
abbrev pub takes : Call → ℤ → ℕ
takes succeeds a = if is_positive_ℤ a then 1 else 0
takes fails a = if is_positive_ℤ a then 1 else 0
takes _ a = 0

-- How many results of some calls do.
abbrev pub landed : List Call → StatusTracker → ℕ
landed [] t = 0
landed (c ∷ cs) t = takes c t.active_ctr + landed cs (run_call c t)

-- What a call does to each of the values; `l` results have found the gauge positive.
pub record Counts (b d g f l : ℕ) (t t' : StatusTracker) : Type 0 where
  pub successes : t'.success_ctr ≡ t.success_ctr + g
  pub failures : t'.failed_ctr ≡ t.failed_ctr + f
  pub totals : t'.total_ctr ≡ t.total_ctr + (g + f)
  pub gauge : t'.active_ctr +ℤ pos (d + l) ≡ t.active_ctr +ℤ pos b
  pub at_most : t'.active_ctr +ℤ pos d ≤ℤ t.active_ctr +ℤ pos b
  pub at_least : t.active_ctr +ℤ pos b ≤ℤ t'.active_ctr +ℤ pos (d + (g + f))

run_call-Counts :
    (c : Call) (t : StatusTracker)
    → Counts (begins c) (takes_back c) (good c) (bad c) (takes c t.active_ctr) t (run_call c t)
unfolding run_call ◌+ℤ◌ ◌-ℤ◌
run_call-Counts increments t = record {
  successes = omega arith;
  failures = omega arith;
  totals = omega arith;
  gauge = ground arith;
  at_most = ground arith;
  at_least = ground arith;
}
run_call-Counts decrements t = record {
  successes = omega arith;
  failures = omega arith;
  totals = omega arith;
  gauge = ground arith;
  at_most = ground arith;
  at_least = ground arith;
}
run_call-Counts succeeds t = record {
  successes = omega arith;
  failures = omega arith;
  totals = omega arith;
  gauge = ground arith;
  at_most = ground arith;
  at_least = ground arith;
}
run_call-Counts fails t = record {
  successes = omega arith;
  failures = omega arith;
  totals = omega arith;
  gauge = ground arith;
  at_most = ground arith;
  at_least = ground arith;
}

eq_le : {a b : ℤ} → a ≡ b → a ≤ℤ b
eq_le {a} {b} e = subst (λ c. a ≤ℤ c) e (omega int_laws)

Counts-trans :
    (b d g f l b' d' g' f' l' : ℕ) (t t' t'' : StatusTracker)
    → Counts b d g f l t t'
    → Counts b' d' g' f' l' t' t''
    → Counts (b + b') (d + d') (g + g') (f + f') (l + l') t t''
Counts-trans b d g f l b' d' g' f' l' t t' t'' x y = record {
  successes = omega (arith, x.successes, y.successes);
  failures = omega (arith, x.failures, y.failures);
  totals = omega (arith, x.totals, y.totals);
  gauge = omega (int_laws, eq_le x.gauge, eq_le (sym x.gauge), eq_le y.gauge, eq_le (sym y.gauge));
  at_most = omega (int_laws, x.at_most, y.at_most);
  at_least = omega (int_laws, x.at_least, y.at_least);
}

-- After any calls the counters have grown by the successes and the failures, and the total by both; the
-- gauge has grown by the events begun less those taken back, and less the successes and failures that
-- have found it positive, one for each: so by at most the first two, and by at least this less one for
-- each success and failure.
pub run_calls-Counts :
    (cs : List Call) (t : StatusTracker)
    → Counts
        (sum_of begins cs)
        (sum_of takes_back cs)
        (sum_of good cs)
        (sum_of bad cs)
        (landed cs t)
        t
        (run_calls cs t)
unfolding run_calls
run_calls-Counts [] t = record {
  successes = omega arith;
  failures = omega arith;
  totals = omega arith;
  gauge = omega int_laws;
  at_most = omega int_laws;
  at_least = omega int_laws;
}
run_calls-Counts (c ∷ cs) t =
    Counts-trans (begins c) (takes_back c) (good c) (bad c) (takes c t.active_ctr)
      (sum_of begins cs) (sum_of takes_back cs) (sum_of good cs) (sum_of bad cs)
      (landed cs (run_call c t)) t (run_call c t) (run_calls cs (run_call c t))
      (run_call-Counts c t) (run_calls-Counts cs (run_call c t))

-- Only results: successes and failures.
abbrev pub result : Bool → Call
result true = succeeds
result false = fails

run_calls-results :
    (rs : List Bool) (t : StatusTracker) (n : ℕ)
    → t.active_ctr ≡ pos n
    → (run_calls (map result rs) t).active_ctr ≡ pos (n - length rs)
unfolding run_calls run_call increment_success increment_fail ◌-ℤ◌
run_calls-results [] t n h = ground (arith, h)
run_calls-results (true ∷ rs) t n h =
    run_calls-results rs (run_call succeeds t) (n - 1) (rw h (ground arith)) ∙ ap pos (omega arith)
run_calls-results (false ∷ rs) t n h =
    run_calls-results rs (run_call fails t) (n - 1) (rw h (ground arith)) ∙ ap pos (omega arith)

-- A TrackStatus object takes its event back at its end, whatever was counted in its block: without a
-- result there the gauge is as before; with some, each takes one more away while the gauge is
-- positive, so that a single tracked event that succeeds leaves the gauge at -1.
pub track_status-results :
    (rs : List Bool) (t : StatusTracker) (n : ℕ)
    → t.active_ctr ≡ pos n
    → let t' = untrack_status (run_calls (map result rs) (track_status t)) in
      (t'.active_ctr +ℤ pos 1 ≡ pos (n + 1 - length rs))
      × (length rs ≡ 0 → t'.active_ctr ≡ t.active_ctr)
      × (n ≡ 0 → 1 ≤ length rs → t'.active_ctr ≡ negsuc 0)
unfolding untrack_status track_status increment_active decrement_active
track_status-results rs t n h =
    let started : (increment_active t).active_ctr ≡ pos (n + 1) = rw h (omega int_laws) in
    let ended = run_calls-results rs (increment_active t) (n + 1) started in
    (
      rw ended (omega int_laws),
      (λ e. rw (ended, h) (omega (int_laws, e))),
      (λ e some_result. rw ended (omega (int_laws, e, some_result))),
    )
