-- ===== src/Base/Descriptors.antt =====
-- The descriptors of the process.
use repo_init.Base.{ℕ, List, [], ◌∷◌, ◌==◌, if◌then◌else◌}

-- Those that are open, the last one opened first.
abbrev pub Descriptors : Type 0
Descriptors = List ℕ

abbrev pub close : ℕ → Descriptors → Descriptors
close fd [] = []
close fd (d ∷ ds) = if d == fd then ds else d ∷ close fd ds
