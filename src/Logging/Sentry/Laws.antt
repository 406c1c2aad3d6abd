-- ===== src/Logging/Sentry/Laws.antt =====
-- What reaches Sentry: the messages, the addresses, and the text of a hardware address.
use repo_init.Base.{
  ℕ, ◌+◌, ◌-◌, ◌*◌, ◌/◌, ◌%◌, ◌<◌, ◌≡◌, refl, ap, ◌∙◌, ◌≢◌, inl, inr, Bool, true, false, not, ◌&&◌,
  Option, none, some, List, [], ◌∷◌, ◌++◌, arith, ltb, leb, if◌then◌else◌, Bool-cases, Option-cases,
  length, All, Bytes, codes, str_eq,
}
use repo_init.Logging.Level.{Level, trace, debug, info, warn, err, critical, off}
use repo_init.Logging.Loki.{LogMsg, level_value}
use repo_init.Logging.Sentry.{
  SentryValue, SentryLevel, warning_level, error_level, fatal_level, Sent, capture, set_context,
  Address, inet, inet6, packet, unknown, Interface, Site, hex_digit, mac_text, set_address,
  set_interface, set_interfaces, set_network_context, sentry_api_sink, sink_it, run_sink,
}
use repo_init.Utils.ConfigParser.{c_str, lookup}
use repo_init.Utils.ConfigParser.Laws.{lookup-insert_or_assign}

-- The reading of two digits, and of six bytes with colons between them.
abbrev pub digit_value : ℕ → ℕ
digit_value c = if ltb c 58 then c - 48 else c - 87

abbrev pub read_mac : Bytes → Bytes
read_mac [] = []
read_mac (a ∷ []) = []
read_mac (a ∷ b ∷ []) = (16 * digit_value a + digit_value b) ∷ []
read_mac (a ∷ b ∷ c ∷ s) = (16 * digit_value a + digit_value b) ∷ read_mac s

digits-byte :
    (b : ℕ) → b < 256 → 16 * digit_value (hex_digit (b / 16)) + digit_value (hex_digit (b % 16)) ≡ b
digits-byte b h = ground (arith, h)

-- The text of a hardware address has the 17 characters that its buffer of 18 has room for, and reading
-- the digits gives the six bytes back.
pub mac_text-read_mac :
    (a b c d e f : ℕ) (rest : Bytes)
    → All (λ n. n < 256) (a ∷ b ∷ c ∷ d ∷ e ∷ f ∷ [])
    → let text = mac_text (a ∷ b ∷ c ∷ d ∷ e ∷ f ∷ rest) in
      (read_mac text ≡ a ∷ b ∷ c ∷ d ∷ e ∷ f ∷ []) × (length text ≡ 17)
mac_text-read_mac a b c d e f rest (ha, (hb, (hc, (hd, (he, (hf, _)))))) = (
  rw
      (
        digits-byte a ha,
        digits-byte b hb,
        digits-byte c hc,
        digits-byte d hd,
        digits-byte e he,
        digits-byte f hf,
      )
      refl,
  refl,
)

-- The messages that are to be reported, as Sentry's levels have them.
abbrev pub is_serious : LogMsg → Bool
is_serious msg = leb 3 (level_value msg.level) && ltb (level_value msg.level) 6

abbrev pub sentry_level : Level → SentryLevel
sentry_level warn = warning_level
sentry_level err = error_level
sentry_level _ = fatal_level

abbrev pub reports : List LogMsg → List Sent
reports [] = []
reports (msg ∷ msgs) =
    if is_serious msg
    then capture (sentry_level msg.level) (codes "main") (c_str msg.payload) ∷ reports msgs
    else reports msgs

sink_it-reports :
    (level : Level) (time payload : Bytes)
    → let msg : LogMsg = record { level = level; time = time; payload = payload } in
      (sink_it true msg ≡ reports (msg ∷ [])) × (sink_it false msg ≡ [])
unfolding sink_it
sink_it-reports trace time payload = (refl, refl)
sink_it-reports debug time payload = (refl, refl)
sink_it-reports info time payload = (refl, refl)
sink_it-reports warn time payload = (refl, refl)
sink_it-reports err time payload = (refl, refl)
sink_it-reports critical time payload = (refl, refl)
sink_it-reports off time payload = (refl, refl)

reports-one :
    (msg : LogMsg) (msgs : List LogMsg) → reports (msg ∷ []) ++ reports msgs ≡ reports (msg ∷ msgs)
reports-one msg msgs = elim (Bool-cases (is_serious msg)) [
  | inl e ↦ rw (reports, e) refl
  | inr e ↦ rw (reports, e) refl
]

run_sink-silent : (msgs : List LogMsg) → run_sink false msgs ≡ []
unfolding run_sink
run_sink-silent [] = refl
run_sink-silent (msg ∷ msgs) =
    rw ((sink_it-reports msg.level msg.time msg.payload).1, run_sink-silent msgs) refl

run_sink-available : (msgs : List LogMsg) → run_sink true msgs ≡ reports msgs
unfolding run_sink
run_sink-available [] = refl
run_sink-available (msg ∷ msgs) =
    rw ((sink_it-reports msg.level msg.time msg.payload).0, run_sink-available msgs)
      (reports-one msg msgs)

-- With an address the sink sends, in their order, one event for each message of the levels from warn to
-- critical, and for no other, at Sentry's level for it; without one it sends nothing at all, and neither
-- does its construction.
pub run_sink-reports :
    (site : Site) (address : Bytes) (msgs : List LogMsg)
    → let r = sentry_api_sink site address in
      (address ≢ [] → run_sink r.0 msgs ≡ reports msgs)
      × (address ≡ [] → (run_sink r.0 msgs ≡ []) × (r.1 ≡ []))
unfolding sentry_api_sink
run_sink-reports site [] msgs = ((λ h. absurd (h refl)), (λ e. (run_sink-silent msgs, refl)))
run_sink-reports site (c ∷ address) msgs = ((λ h. run_sink-available msgs), (λ e. cc))

-- The value that an interface has for a key: none if it is not running, is the loopback, has no address
-- or has one under another key.
abbrev pub kind_of : Address → Bytes
kind_of (inet a) = codes ".ipv4"
kind_of (inet6 a) = codes ".ipv6"
kind_of (packet a) = codes ".mac"
kind_of unknown = []

abbrev pub text_of : Site → Address → Option Bytes
text_of site (inet a) = some (c_str (site.inet_ntop false a))
text_of site (inet6 a) = some (c_str (site.inet_ntop true a))
text_of site (packet a) = some (mac_text a)
text_of site unknown = none

abbrev pub value_at : Site → Bytes → Interface → Option Bytes
value_at site key i = elim i.addr [
  | none ↦ none
  | some a ↦
      if i.running && not i.loopback && str_eq (i.name ++ kind_of a) key
      then text_of site a
      else none
]

abbrev pub or_value : Option Bytes → Bytes → Bytes
or_value none v = v
or_value (some w) v = w

-- The last of the interfaces that has a value for the key.
abbrev pub last_value : Site → Bytes → List Interface → Bytes → Bytes
last_value site key [] v = v
last_value site key (i ∷ is) v = last_value site key is (or_value (value_at site key i) v)

lookup-set_address :
    (site : Site) (key name : Bytes) (a : Address) (v : SentryValue)
    → lookup key (set_address site name a v) ≡ (
        if str_eq (name ++ kind_of a) key
        then or_value (text_of site a) (lookup key v)
        else lookup key v)
lookup-set_address site key name (inet a) v = lookup-insert_or_assign _ key _ v
lookup-set_address site key name (inet6 a) v = lookup-insert_or_assign _ key _ v
lookup-set_address site key name (packet a) v = lookup-insert_or_assign _ key _ v
lookup-set_address site key name unknown v = elim (Bool-cases (str_eq (name ++ []) key)) [
  | inl e ↦ rw e refl
  | inr e ↦ rw e refl
]

lookup-set_interface :
    (site : Site) (key : Bytes) (i : Interface) (v : SentryValue)
    → lookup key (set_interface site i v) ≡ or_value (value_at site key i) (lookup key v)
lookup-set_interface site key i v = elim (Option-cases i.addr) [
  | inl e ↦ rw (set_interface, value_at, e) refl
  | inr (a, e) ↦
      rw (set_interface, value_at, e) (ground (arith, lookup-set_address site key i.name a v))
]

set_interfaces-last_value :
    (site : Site) (key : Bytes) (is : List Interface) (v : SentryValue)
    → lookup key (set_interfaces site is v) ≡ last_value site key is (lookup key v)
unfolding set_interfaces
set_interfaces-last_value site key [] v = refl
set_interfaces-last_value site key (i ∷ is) v =
    set_interfaces-last_value site key is (set_interface site i v)
    ∙ ap (last_value site key is) (lookup-set_interface site key i v)

-- The network context has for each key the value of the last interface that has one for it: one that is
-- running, is not the loopback, and has an address of the key's kind; it has no other value. If the
-- interfaces cannot be listed no network context is set.
pub set_network_context-last_value :
    (site : Site) (key : Bytes)
    → (site.interfaces ≡ none → set_network_context site ≡ [])
      × ((is : List Interface)
          → site.interfaces ≡ some is
          → (v : SentryValue) × (set_network_context site ≡ set_context (codes "Network") v ∷ [])
            × (lookup key v ≡ last_value site key is []))
unfolding set_network_context lookup
set_network_context-last_value site key = (
  (λ e. rw e refl),
  (λ is e. (set_interfaces site is [], rw e refl, set_interfaces-last_value site key is [])),
)
