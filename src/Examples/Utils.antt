-- ===== src/Examples/Utils.antt =====
-- Uses of the theorems on the command line, the configuration, the metrics and the crash handler.
use repo_init.Base.{
  [], ◌≡◌, refl, ◌≢◌, true, false, Option, none, some, List, ◌∷◌, arith, if◌then◌else◌, is_empty,
  Bytes, codes,
}
use repo_init.Examples.Data.{plain_prometheus}
use repo_init.Metrics.Registries.{PrometheusServer, prometheus_server}
use repo_init.Metrics.Trackers.{TimerCall, starts, ends}
use repo_init.Utils.ConfigParser.{
  ConfigMap, ConfigParser, Value, text, members, load, save, get, set, remove, IsMap, write_members,
  c_str,
}
use repo_init.Utils.ConfigParser.Laws.{get-set-remove, load-save, IsPrintable}
use repo_init.Utils.Tracer.{
  Handler, stop_requested, set_flag, thread_func, thread_func-never_gives_up,
}

abbrev tokens : List Bytes
tokens = codes "--enable-telnet" ∷ codes "23" ∷ codes "-v" ∷ []

abbrev small_map : ConfigMap
small_map = (codes "a", codes "1") ∷ (codes "b", codes "2") ∷ []

abbrev small_config : ConfigParser
small_config = record {
  config_path = codes "config.json";
  config_map = small_map;
  is_valid = true;
  last_error = [];
}

small_map-IsMap : IsMap small_map
small_map-IsMap = (((λ e. ground arith), tt), (tt, tt))

get-set-remove_example :
    IsMap (set (codes "a") (codes "3") small_config).config_map
    × IsMap (remove (codes "a") small_config).config_map
    × (get (codes "a") (set (codes "a") (codes "3") small_config) ≡ codes "3")
    × (get (codes "a") (remove (codes "a") small_config) ≡ [])
    × (codes "a" ≢ codes "b"
        → (get (codes "b") (set (codes "a") (codes "3") small_config)
            ≡ get (codes "b") small_config)
          × (get (codes "b") (remove (codes "a") small_config) ≡ get (codes "b") small_config))
get-set-remove_example =
    get-set-remove (codes "a") (codes "b") (codes "3") small_config small_map-IsMap

abbrev small_members : List (Bytes × Value)
small_members = (codes "a", text (codes "1")) ∷ (codes "b", text (codes "2")) ∷ []

small_map-IsPrintable : IsPrintable small_map
small_map-IsPrintable = (
  (((λ e. omega arith), tt), ((λ e. omega arith), tt)),
  ((((λ e. omega arith), tt), ((λ e. omega arith), tt)), tt),
)

load-save_example :
    ((load (members small_members) small_config).0.config_map ≡ small_config.config_map)
    × ((load (members small_members) small_config).1 ≡ true)
    × ((load (members small_members) small_config).0.is_valid ≡ true)
unfolding save write_members c_str
load-save_example =
    load-save small_config small_config small_members small_map-IsMap small_map-IsPrintable refl

abbrev two_registries : PrometheusServer
two_registries = prometheus_server 1

abbrev timer_calls : List (TimerCall plain_prometheus)
timer_calls = starts 5 ∷ ends 12 ∷ starts 20 ∷ ends 22 ∷ []

abbrev gone : List (Option Handler)
gone = none ∷ none ∷ []

thread_func-never_gives_up_example :
    thread_func gone (some false)
    ≡ (stop_requested, if is_empty gone then some false else set_flag (some false))
thread_func-never_gives_up_example = thread_func-never_gives_up gone (some false)
