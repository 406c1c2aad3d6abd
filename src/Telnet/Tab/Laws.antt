-- ===== src/Telnet/Tab/Laws.antt =====
-- processTab ends, and what it makes of the buffer.
use repo_init.Base.{
  [], ℕ, zero, suc, ◌+◌, ◌<◌, ◌≡◌, refl, ap, ◌∙◌, inl, inr, Bool, true, false, ◌||◌, Option, none,
  some, ◌∷◌, ◌++◌, arith, ltb, Bool-cases, Option-cases, is_empty, take, drop, Bytes, find_byte,
  erase, Lacks, find_byte-Lacks,
}
use repo_init.Telnet.Session.{World, Session, TabCallback, Host}
use repo_init.Telnet.Tab.{tab, tabs, complete, tab_round, tab_loop, process_tab}

-- The buffer and the history of `t` are those of `s`.
pub record KeepsHistory (s t : Session) : Type 0 where
  pub same_history : t.history ≡ s.history
  pub same_cursor : t.history_cursor ≡ s.history_cursor

-- A callback that leaves the buffer and the history alone and answers with no tab.
pub record IsTabSafe (callback : TabCallback) : Type 0 where
  pub keeps_buffer :
      (s : Session) (w : World) (line : Bytes) → (callback s w line).0.buffer ≡ s.buffer
  pub keeps_history :
      (s : Session) (w : World) (line : Bytes) → KeepsHistory s (callback s w line).0
  pub answers_clean : (s : Session) (w : World) (line : Bytes) → Lacks tab (callback s w line).2

abbrev pub IsSafe : Option TabCallback → Type 0
IsSafe none = Unit
IsSafe (some callback) = IsTabSafe callback

tabs-append : (s t : Bytes) → tabs (s ++ t) ≡ tabs s + tabs t
tabs-append [] t = omega arith
tabs-append (c ∷ s) t = ground (arith, tabs-append s t)

tabs-Lacks : (s : Bytes) → Lacks tab s → tabs s ≡ 0
tabs-Lacks [] h = refl
tabs-Lacks (c ∷ s) h = ground (arith, tabs-Lacks s h.1)

-- The first tab is cut out, and there is none before it.
tabs-erase :
    (s : Bytes) (i : ℕ)
    → find_byte tab s ≡ some i
    → (tabs (erase s i 1) + 1 ≡ tabs s)
      × (tabs (take i (erase s i 1)) ≡ 0)
      × (tabs (drop i (erase s i 1)) + 1 ≡ tabs s)
tabs-erase [] i h = cc
tabs-erase (c ∷ s) i h = elim (Option-cases (find_byte tab s)) [
  | inl e ↦ ground arith
  | inr (j, e) ↦ ground (arith, tabs-erase s j e)
]

find_byte-tabs : (s : Bytes) → find_byte tab s ≡ none → tabs s ≡ 0
find_byte-tabs s h = tabs-Lacks s (find_byte-Lacks tab s h)

complete-tabs :
    (o : Option TabCallback) (i n : ℕ) (s : Session) (w : World)
    → IsSafe o
    → tabs s.buffer ≡ n
    → tabs (drop i s.buffer) ≡ n
    → tabs (complete o i s w).0.buffer ≡ n
unfolding complete
complete-tabs none i n s w safe h d = h
complete-tabs (some callback) i n s w safe h d =
    let (s', w', r) = callback s w (take i s.buffer) in
    let keep : s'.buffer ≡ s.buffer = safe.keeps_buffer s w (take i s.buffer) in
    let clean : Lacks tab r = safe.answers_clean s w (take i s.buffer) in
    elim (Bool-cases (is_empty r)) [
      | inl e ↦ rw (e, keep) h
      | inr f ↦ rw (f, keep) (omega (arith, tabs-append r (drop i s.buffer), tabs-Lacks r clean, d))
    ]

complete-history :
    (o : Option TabCallback) (i : ℕ) (s : Session) (w : World)
    → IsSafe o
    → KeepsHistory s (complete o i s w).0
unfolding complete
complete-history none i s w safe = ground arith
complete-history (some callback) i s w safe =
    let (s', w', r) = callback s w (take i s.buffer) in
    let keep = safe.keeps_history s w (take i s.buffer) in
    elim (Bool-cases (is_empty r)) [
      | inl e ↦ rw e keep
      | inr f ↦ rw f (record { same_history = keep.same_history; same_cursor = keep.same_cursor })
    ]

KeepsHistory-trans : {s t u : Session} → KeepsHistory s t → KeepsHistory t u → KeepsHistory s u
KeepsHistory-trans f g = ground arith

tab_round-history :
    (host : Host) (i : ℕ) (s : Session) (w : World)
    → IsSafe host.tab_callback
    → KeepsHistory s (tab_round host i s w).0
unfolding tab_round
tab_round-history host i s w safe =
    let k =
      complete-history host.tab_callback i (record s { buffer = erase s.buffer i 1 }) w safe in
    record { same_history = k.same_history; same_cursor = k.same_cursor }

pub tab_round-tabs :
    (host : Host) (i : ℕ) (s : Session) (w : World)
    → IsSafe host.tab_callback
    → find_byte tab s.buffer ≡ some i
    → tabs (tab_round host i s w).0.buffer + 1 ≡ tabs s.buffer
unfolding tab_round
tab_round-tabs host i s w safe h =
    let (all, before, behind) = tabs-erase s.buffer i h in
    omega (
      arith,
      complete-tabs host.tab_callback i (tabs (erase s.buffer i 1))
          (record s { buffer = erase s.buffer i 1 }) w safe refl (omega arith),
    )

raised : (f : Bool) (n m : ℕ) → n + 1 ≡ m → true ≡ (f || ltb 0 m)
raised f n m h = ground arith

tab_loop-total :
    (host : Host) (fuel : ℕ) (s : Session) (w : World) (f : Bool)
    → IsSafe host.tab_callback
    → tabs s.buffer < fuel
    → (s' : Session) × (w' : World) × (tab_loop host fuel s w f
        ≡ some (s', w', f || ltb 0 (tabs s.buffer)))
      × (tabs s'.buffer ≡ 0)
      × KeepsHistory s s'
unfolding tab_loop
tab_loop-total host zero s w f safe h = absurd (omega arith)
tab_loop-total host (suc fuel) s w f safe h = elim (Option-cases (find_byte tab s.buffer)) [
  | inl e ↦ (
    s,
    w,
    rw (e, tab_loop) (ground (arith, find_byte-tabs s.buffer e)),
    find_byte-tabs s.buffer e,
    ground arith,
  )
  | inr (i, e) ↦
      let (s₁, w₁) = tab_round host i s w in
      let n = tab_round-tabs host i s w safe e in
      let (s', w', r, t, k) = tab_loop-total host fuel s₁ w₁ true safe (omega arith) in
      (
        s',
        w',
        rw (e, tab_loop)
            (r ∙ ap (λ b. some (s', w', b)) (raised f (tabs s₁.buffer) (tabs s.buffer) n)),
        t,
        KeepsHistory-trans (tab_round-history host i s w safe) k,
      )
]

-- With a safe callback, or none, the loop ends, with no tab left in the buffer and the history as it
-- was; it reports a change exactly when there was a tab.
pub process_tab-total :
    (host : Host) (s : Session) (w : World)
    → IsSafe host.tab_callback
    → (s' : Session) × (w' : World) × (process_tab host s w ≡ some (s', w', ltb 0 (tabs s.buffer)))
      × (tabs s'.buffer ≡ 0)
      × KeepsHistory s s'
unfolding process_tab
process_tab-total host s w safe =
    tab_loop-total host (suc (tabs s.buffer)) s w false safe (omega arith)
