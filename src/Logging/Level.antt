-- ===== src/Logging/Level.antt =====
-- spdlog::level::level_enum, in its order; spdlog gives the levels the values 0 to 6.
use repo_init.Base.{Bool, if◌then◌else◌}

pub data Level : Type 0 where
  trace debug info warn err critical off : Level

-- spdlog::set_level of the level that `NDEBUG` selects.
abbrev pub default_level : Bool → Level
default_level ndebug = if ndebug then warn else info
