-- ===== src/Utils/Tracer/Start.antt =====
-- The start of the crash handler in src/utils/Tracer.cpp: its paths and its errors.
use repo_init.Base.{
  ◌≡◌, ◌≢◌, Bool, true, false, not, Option, none, some, List, [], ◌∷◌, ◌++◌, arith, if◌then◌else◌,
  is_empty, take, take-length, Bytes, codes, Lacks,
}
use repo_init.Utils.FileHelpers.{find_last}
use repo_init.Utils.FileHelpers.Laws.{find_last-append}

-- The object; the thread runs from the end of `start_handler` on.
pub record Tracer : Type 0 where
  pub server_path : Bytes
  pub server_proxy : Bytes
  pub handler_path : Bytes
  pub report_path : Bytes
  pub annotations : List (Bytes × Bytes)
  pub uploads_enabled : Bool
  pub thread_running : Bool

-- What the build gives.
pub record Build : Type 0 where
  pub project_name : Bytes
  pub full_revision : Bytes
  pub build_date : Bytes
  pub build_time : Bytes
  pub build_type : Bytes
  pub compiler_name : Bytes
  pub compiler_version : Bytes

-- What crashpad answers for the paths that it is given: whether the database is there, whether it has
-- settings, and whether the handler starts.
pub record Crashpad : Type 0 where
  pub database : Bytes → Bool
  pub settings : Bytes → Bool
  pub starts : Bytes → Bytes → Bool

pub data Failure : Type 0 where
  no_database no_settings not_started : Failure

pub data Made : Type 0 where
  threw : Failure → Made
  made : Tracer → Made

-- getSelfExecutableDir with the result of readlink, `none` for -1.
abbrev link_text : Option Bytes → Bytes
link_text none = []
link_text (some path) = path

unfoldable pub get_self_executable_dir : Option Bytes → Bytes
get_self_executable_dir link =
    let path = link_text link in
    elim (find_last 47 path) [ none ↦ [] | some last_delim_pos ↦ take last_delim_pos path ]

unfoldable pub start_handler : Crashpad → Tracer → Made
start_handler calls t =
    if not (calls.database t.report_path)
    then threw no_database
    else if not (calls.settings t.report_path)
    then threw no_settings
    else if not (calls.starts t.handler_path t.report_path)
    then threw not_started
    else made (record t { uploads_enabled = true; thread_running = true })

-- The annotations, in the order of their keys.
abbrev annotations_of : Build → List (Bytes × Bytes)
annotations_of b =
    (codes "build_info", b.build_date ++ codes " " ++ b.build_time ++ codes " " ++ b.build_type)
    ∷ (codes "compiler_info", b.compiler_name ++ codes " " ++ b.compiler_version)
    ∷ (codes "name", b.project_name)
    ∷ (codes "version", b.full_revision)
    ∷ []

-- The constructor.
unfoldable pub tracer : Build → Crashpad → Option Bytes → Bytes → Bytes → Bytes → Bytes → Made
unfolding start_handler
tracer build calls link server_path server_proxy crashpad_handler_path report_path =
    let self_dir = get_self_executable_dir link in
    start_handler calls (record {
      server_path = server_path;
      server_proxy = server_proxy;
      handler_path =
          if is_empty crashpad_handler_path
          then self_dir ++ codes "/crashpad_handler"
          else crashpad_handler_path;
      report_path = if is_empty report_path then self_dir else report_path;
      annotations = annotations_of build;
      uploads_enabled = false;
      thread_running = false;
    })

get_self_executable_dir-dir :
    (dir name : Bytes) → Lacks 47 name → get_self_executable_dir (some (dir ++ 47 ∷ name)) ≡ dir
unfolding get_self_executable_dir
get_self_executable_dir-dir dir name h =
    rw (get_self_executable_dir, find_last-append 47 dir name h) (take-length dir (47 ∷ name))

abbrev pub or_default : Bytes → Bytes → Bytes
or_default given default = if is_empty given then default else given

-- The tracer of an executable in a directory uses the paths of the configuration, and the handler and
-- the directory beside the executable where these are empty. It is made, with its thread running, just
-- if crashpad has a database there with settings and starts the handler; else the first of the three
-- that fails is the exception.
pub tracer-result :
    (build : Build) (calls : Crashpad) (dir name server_path server_proxy handler report : Bytes)
    (t : Tracer)
    → Lacks 47 name
    → let r =
        tracer build calls (some (dir ++ 47 ∷ name)) server_path server_proxy handler report in
      let handler' = or_default handler (dir ++ codes "/crashpad_handler") in
      let report' = or_default report dir in
      (r ≡ made t
        → (t.handler_path ≡ handler')
          × (t.report_path ≡ report')
          × (t.server_path ≡ server_path)
          × (t.server_proxy ≡ server_proxy)
          × (t.thread_running ≡ true)
          × (calls.starts handler' report' ≡ true))
      × (calls.database report' ≡ false → r ≡ threw no_database)
      × (calls.database report' ≡ true → calls.settings report' ≡ false → r ≡ threw no_settings)
      × (calls.database report' ≡ true
          → calls.settings report' ≡ true
          → calls.starts handler' report' ≡ false
          → r ≡ threw not_started)
      × (calls.database report' ≡ true
          → calls.settings report' ≡ true
          → calls.starts handler' report' ≡ true
          → r ≢ threw no_database × r ≢ threw no_settings × r ≢ threw not_started)
unfolding tracer start_handler
tracer-result build calls dir name server_path server_proxy handler report t h =
    rw (get_self_executable_dir-dir dir name h) (ground arith)
