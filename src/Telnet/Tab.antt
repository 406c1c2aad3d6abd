-- ===== src/Telnet/Tab.antt =====
-- TelnetSession::processTab of src/telnet/TelnetServer.cpp.
pub mod Laws
use repo_init.Base.{
  [], ℕ, zero, suc, ◌+◌, Bool, true, false, Option, none, some, ◌∷◌, ◌++◌, ◌==◌, if◌then◌else◌,
  is_empty, take, drop, Bytes, find_byte, erase,
}
use repo_init.Telnet.Session.{World, Session, TabCallback, Host}

abbrev pub tab : ℕ
tab = 0x09

-- The callback may put a command in the place of what stands before the tab, which is gone by now.
-- The buffer is the session's own, which the callback sees.
unfoldable pub complete : Option TabCallback → ℕ → Session → World → Session × World
complete none found s w = (s, w)
complete (some callback) found s w =
    let (s', w', ret_command) = callback s w (take found s.buffer) in
    if is_empty ret_command
    then (s', w')
    else (record s' { buffer = ret_command ++ drop found s'.buffer }, w')

-- One round on a tab at `found`.
unfoldable pub tab_round : Host → ℕ → Session → World → Session × World
unfolding complete
tab_round host found s w =
    complete host.tab_callback found (record s { buffer = erase s.buffer found 1 }) w

-- The do-while loop, on fuel; the flag is `foundTabs`, and `none` says that the fuel ran out.
unfoldable pub tab_loop : Host → ℕ → Session → World → Bool → Option (Session × World × Bool)
tab_loop host zero s w found_tabs = none
tab_loop host (suc fuel) s w found_tabs = elim (find_byte tab s.buffer) [
  | none ↦ some (s, w, found_tabs)
  | some found ↦ let (s', w') = tab_round host found s w in tab_loop host fuel s' w' true
]

abbrev pub tabs : Bytes → ℕ
tabs [] = 0
tabs (c ∷ s) = if c == tab then suc (tabs s) else tabs s

unfoldable pub process_tab : Host → Session → World → Option (Session × World × Bool)
unfolding tab_loop tab_round
process_tab host s w = tab_loop host (suc (tabs s.buffer)) s w false
