-- ===== src/Logging/Sentry.antt =====
-- sentry_api_sink of src/logging/Sentry.cpp: the contexts that are set, and the messages that are sent.
use repo_init.Base.{
  ℕ, ◌+◌, ◌/◌, ◌%◌, Bool, true, false, not, ◌||◌, Option, none, some, List, [], ◌∷◌, ◌++◌, ltb,
  if◌then◌else◌, is_empty, Bytes, codes, starts_with,
}
use repo_init.Logging.Level.{warn, err, critical}
use repo_init.Logging.Loki.{LogMsg}
use repo_init.Utils.ConfigParser.{ConfigMap, c_str, insert_or_assign}
use repo_init.Utils.FileHelpers.{find_from_file}
pub mod Laws

-- An object of sentry: sentry_value_set_by_key replaces the value of a key that it has.
abbrev pub SentryValue : Type 0
SentryValue = ConfigMap

pub data SentryLevel : Type 0 where
  warning_level error_level fatal_level : SentryLevel

-- The calls of the library; `init` has the options: the release, the address, debug and the level of the
-- library's own messages.
pub data Sent : Type 0 where
  init : Bytes → Bytes → ℕ → SentryLevel → Sent
  set_tag : Bytes → Bytes → Sent
  set_context : Bytes → SentryValue → Sent
  capture : SentryLevel → Bytes → Bytes → Sent
  close : Sent

-- An address of an interface; the bytes of the first two are for `inet_ntop`.
pub data Address : Type 0 where
  inet inet6 packet : Bytes → Address
  unknown : Address

pub record Interface : Type 0 where
  pub name : Bytes
  pub addr : Option Address
  pub running : Bool
  pub loopback : Bool

-- What the build and the system give. `interfaces` is `none` if getifaddrs fails, and `inet_ntop` is the
-- text of an address, of 16 bytes if the test is true.
pub record Site : Type 0 where
  pub full_revision : Bytes
  pub project_name : Bytes
  pub build_date : Bytes
  pub build_time : Bytes
  pub compiler_name : Bytes
  pub compiler_version : Bytes
  pub build_type : Bytes
  pub hostname : Bytes
  pub cpu_info : Option Bytes
  pub interfaces : Option (List Interface)
  pub inet_ntop : Bool → Bytes → Bytes

unfoldable pub version_context : Site → SentryValue
version_context site =
    insert_or_assign (codes "Release Date")
      (c_str (site.build_date ++ codes " " ++ site.build_time))
      (insert_or_assign site.project_name (c_str (codes "v" ++ site.full_revision)) [])

-- A search for a pattern at the start of a line; the word is kept where no line has it.
abbrev pub next_word : Site → Bytes → Bytes → Bytes
next_word site pattern word = (find_from_file (starts_with pattern) site.cpu_info word).1

unfoldable pub host_context : Site → SentryValue
host_context site =
    let siblings = next_word site (codes "siblings") [] in
    let cores = next_word site (codes "cpu cores") siblings in
    let model = next_word site (codes "model name") cores in
    let vendor = next_word site (codes "vendor_id") model in
    insert_or_assign (codes "Vendor ID") (c_str vendor) (
      insert_or_assign (codes "Model") (c_str model) (
        insert_or_assign (codes "Core count") (c_str cores) (
          insert_or_assign (codes "Thread count") (c_str siblings)
            (insert_or_assign (codes "Hostname") (c_str site.hostname) []))))

-- A digit and a byte in the format 02x.
abbrev pub hex_digit : ℕ → ℕ
hex_digit n = if ltb n 10 then 48 + n else 87 + n

abbrev pub hex_byte : ℕ → Bytes
hex_byte b = hex_digit (b / 16) ∷ hex_digit (b % 16) ∷ []

-- The first six bytes of a hardware address, with colons between them; there are eight bytes.
abbrev pub mac_text : Bytes → Bytes
mac_text (a ∷ b ∷ c ∷ d ∷ e ∷ f ∷ rest) =
    hex_byte a
    ++ 58 ∷ hex_byte b
    ++ 58 ∷ hex_byte c
    ++ 58 ∷ hex_byte d
    ++ 58 ∷ hex_byte e
    ++ 58 ∷ hex_byte f
mac_text _ = []

abbrev pub set_address : Site → Bytes → Address → SentryValue → SentryValue
set_address site name (inet a) v =
    insert_or_assign (name ++ codes ".ipv4") (c_str (site.inet_ntop false a)) v
set_address site name (inet6 a) v =
    insert_or_assign (name ++ codes ".ipv6") (c_str (site.inet_ntop true a)) v
set_address site name (packet a) v = insert_or_assign (name ++ codes ".mac") (mac_text a) v
set_address site name unknown v = v

-- A round of the loop over the interfaces.
abbrev pub set_interface : Site → Interface → SentryValue → SentryValue
set_interface site i v = elim i.addr [
  | none ↦ v
  | some a ↦ if not i.running || i.loopback then v else set_address site i.name a v
]

unfoldable pub set_interfaces : Site → List Interface → SentryValue → SentryValue
set_interfaces site [] v = v
set_interfaces site (i ∷ is) v = set_interfaces site is (set_interface site i v)

unfoldable pub set_network_context : Site → List Sent
unfolding set_interfaces
set_network_context site = elim site.interfaces [
  | none ↦ []
  | some is ↦ set_context (codes "Network") (set_interfaces site is []) ∷ []
]

-- The constructor: `_sentryAvailable`, and the calls that are made.
unfoldable pub sentry_api_sink : Site → Bytes → Bool × List Sent
unfolding version_context host_context set_network_context
sentry_api_sink site address = if is_empty address then (false, []) else (
  true,
  init site.full_revision (c_str address) 0 warning_level
      ∷ set_tag (codes "compiler.name") site.compiler_name
      ∷ set_tag (codes "compiler.version") site.compiler_version
      ∷ set_tag (codes "build") site.build_type
      ∷ set_context (codes "Version") (version_context site)
      ∷ set_context (codes "Host") (host_context site)
      ∷ set_network_context site,
)

unfoldable pub destroy : List Sent
destroy = close ∷ []

-- sink_it_: the message is read up to its first zero.
unfoldable pub sink_it : Bool → LogMsg → List Sent
sink_it available msg = if not available then [] else (elim msg.level as (λ _. List Sent) [
  | warn ↦ capture warning_level (codes "main") (c_str msg.payload) ∷ []
  | err ↦ capture error_level (codes "main") (c_str msg.payload) ∷ []
  | critical ↦ capture fatal_level (codes "main") (c_str msg.payload) ∷ []
  | _ ↦ []
])

-- The sink from its construction to its destruction, with the messages that it is given.
unfoldable pub run_sink : Bool → List LogMsg → List Sent
unfolding sink_it
run_sink available [] = []
run_sink available (msg ∷ msgs) = sink_it available msg ++ run_sink available msgs
