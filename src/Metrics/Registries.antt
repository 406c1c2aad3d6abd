-- ===== src/Metrics/Registries.antt =====
-- src/metrics/PrometheusServer.cpp: the registries and their identifiers.
use repo_init.Base.{
  [], ℕ, suc, ◌-◌, ◌≤◌, ◌<◌, ◌≡◌, refl, sym, ◌≢◌, ◌↔◌, inl, inr, Bool, true, false, Option, none,
  some, List, ◌∷◌, ◌++◌, arith, ◌==◌, if◌then◌else◌, Bool-cases, size_mod, add_size,
}

-- A registry is a number of its own; `collectables` is what the exposer was given.
pub record PrometheusServer : Type 0 where
  pub registries : List (ℕ × ℕ)
  pub collectables : List ℕ

abbrev pub id_max : ℕ
id_max = size_mod - 1

-- The constructor, with the registry that it makes.
unfoldable pub prometheus_server : ℕ → PrometheusServer
prometheus_server reg = record { registries = (id_max, reg) ∷ []; collectables = reg ∷ [] }

unfoldable pub find_registry : ℕ → List (ℕ × ℕ) → Option ℕ
find_registry reg_id [] = none
find_registry reg_id ((id, reg) ∷ rs) = if reg_id == id then some reg else find_registry reg_id rs

unfoldable pub get_registry : ℕ → PrometheusServer → Option ℕ
unfolding find_registry
get_registry reg_id v = find_registry reg_id v.registries

-- `back().first`, and `d` where there is none.
unfoldable pub back_id : ℕ → List (ℕ × ℕ) → ℕ
back_id d [] = d
back_id d ((id, reg) ∷ rs) = back_id id rs

-- createNewRegistry with the registry that it makes: the server and the identifier.
unfoldable pub create_new_registry : ℕ → PrometheusServer → PrometheusServer × ℕ
unfolding back_id
create_new_registry reg v =
    let reg_id = add_size (back_id 0 v.registries) 1 in
    (
      record v {
        registries = v.registries ++ (reg_id, reg) ∷ [];
        collectables = v.collectables ++ reg ∷ [];
      },
      reg_id,
    )

-- std::erase_if
unfoldable pub erase_registry : ℕ → List (ℕ × ℕ) → List (ℕ × ℕ)
erase_registry reg_id [] = []
erase_registry reg_id ((id, reg) ∷ rs) =
    if reg_id == id then erase_registry reg_id rs else (id, reg) ∷ erase_registry reg_id rs

unfoldable pub delete_registry : ℕ → PrometheusServer → PrometheusServer × Bool
unfolding erase_registry
delete_registry reg_id v =
    if reg_id == id_max
    then (v, false)
    else (record v { registries = erase_registry reg_id v.registries }, true)

-- The identifiers behind the server's own rise, from `low` on, and stay below it.
abbrev pub Rises : ℕ → List (ℕ × ℕ) → Type 0
Rises low [] = Unit
Rises low ((id, reg) ∷ rs) = (low ≤ id) × (id < id_max) × Rises (suc id) rs

pub record IsPrometheusServer (v : PrometheusServer) : Type 0 where
  pub own : ℕ
  pub made : List (ℕ × ℕ)
  pub all_registries : v.registries ≡ (id_max, own) ∷ made
  pub rise : Rises 0 made

pub prometheus_server-IsPrometheusServer : (reg : ℕ) → IsPrometheusServer (prometheus_server reg)
unfolding prometheus_server
prometheus_server-IsPrometheusServer reg = record {
  own = reg;
  made = [];
  all_registries = refl;
  rise = tt;
}

find_registry-append :
    (reg_id id reg : ℕ) (rs : List (ℕ × ℕ))
    → (reg_id ≢ id → find_registry reg_id (rs ++ (id, reg) ∷ []) ≡ find_registry reg_id rs)
      × (find_registry id rs ≡ none → find_registry id (rs ++ (id, reg) ∷ []) ≡ some reg)
unfolding find_registry
find_registry-append reg_id id reg [] = (λ d. ground arith, λ e. ground arith)
find_registry-append reg_id id reg ((i, r) ∷ rs) =
    let h = find_registry-append reg_id id reg rs in (λ d. ground arith, λ e. ground arith)

back_id-le : (d : ℕ) (rs : List (ℕ × ℕ)) → Rises (suc d) rs → d ≤ back_id d rs
unfolding back_id
back_id-le d [] h = omega arith
back_id-le d ((i, r) ∷ rs) h = omega (arith, h.0, back_id-le i rs h.2)

back_id-lt : (d : ℕ) (rs : List (ℕ × ℕ)) → d < id_max → Rises (suc d) rs → back_id d rs < id_max
unfolding back_id
back_id-lt d [] below h = below
back_id-lt d ((i, r) ∷ rs) below h = back_id-lt i rs h.1 h.2

find_registry-above :
    (reg_id d : ℕ) (rs : List (ℕ × ℕ))
    → Rises (suc d) rs
    → back_id d rs < reg_id
    → find_registry reg_id rs ≡ none
unfolding find_registry back_id
find_registry-above reg_id d [] h above = refl
find_registry-above reg_id d ((i, r) ∷ rs) h above =
    let le = back_id-le i rs h.2 in
    let rest = find_registry-above reg_id i rs h.2 above in ground (arith, le, rest)

Rises-snoc :
    (d id reg : ℕ) (rs : List (ℕ × ℕ))
    → Rises (suc d) rs
    → back_id d rs < id
    → id < id_max
    → Rises (suc d) (rs ++ (id, reg) ∷ [])
unfolding back_id
Rises-snoc d id reg [] h above below = (omega arith, below, tt)
Rises-snoc d id reg ((i, r) ∷ rs) h above below = (h.0, h.1, Rises-snoc i id reg rs h.2 above below)

erase_registry-find :
    (reg_id other_id : ℕ) (rs : List (ℕ × ℕ))
    → (find_registry reg_id (erase_registry reg_id rs) ≡ none)
      × (reg_id ≢ other_id
          → find_registry other_id (erase_registry reg_id rs) ≡ find_registry other_id rs)
unfolding find_registry erase_registry
erase_registry-find reg_id other_id [] = (refl, λ d. refl)
erase_registry-find reg_id other_id ((i, r) ∷ rs) =
    let h = erase_registry-find reg_id other_id rs in (ground arith, λ d. ground arith)

Rises-low : (low high : ℕ) (rs : List (ℕ × ℕ)) → low ≤ high → Rises high rs → Rises low rs
Rises-low low high [] l h = tt
Rises-low low high ((i, r) ∷ rs) l h = (omega (arith, h.0), h.1, h.2)

erase_registry-Rises :
    (reg_id low : ℕ) (rs : List (ℕ × ℕ)) → Rises low rs → Rises low (erase_registry reg_id rs)
unfolding erase_registry
erase_registry-Rises reg_id low [] h = tt
erase_registry-Rises reg_id low ((i, r) ∷ rs) h = elim (Bool-cases (reg_id == i)) [
  | inl y ↦
      rw y (erase_registry-Rises reg_id low rs (Rises-low low (suc i) rs (omega (arith, h.0)) h.2))
  | inr n ↦ rw n (h.0, h.1, erase_registry-Rises reg_id (suc i) rs h.2)
]

-- The identifier that comes next is new, and follows those in use.
next_id :
    (own reg : ℕ) (made : List (ℕ × ℕ))
    → let id = add_size (back_id 0 ((id_max, own) ∷ made)) 1 in
      Rises 0 made
      → id ≢ id_max
      → Rises 0 (made ++ (id, reg) ∷ []) × (find_registry id ((id_max, own) ∷ made) ≡ none)
unfolding back_id find_registry
next_id own reg [] h n = ((omega arith, omega arith, tt), refl)
next_id own reg ((i, r) ∷ made) h n =
    let low = back_id-le i made h.2 in
    let high = back_id-lt i made h.1 h.2 in
    let id = add_size (back_id i made) 1 in
    let e : id ≡ suc (back_id i made) = omega (arith, high) in
    let none_there = find_registry-above id i made h.2 (omega (arith, e)) in
    (
      (h.0, h.1, Rises-snoc i id reg made h.2 (omega (arith, e)) (omega (arith, e, high, n))),
      ground (arith, n, none_there, low, e),
    )

-- A new registry gets an identifier that no registry has, unless all of them are used up, and is found
-- by it from then on; the others are found as before.
pub create_new_registry-fresh :
    (reg other_id : ℕ) (v : PrometheusServer)
    → IsPrometheusServer v
    → (create_new_registry reg v).1 ≢ id_max
    → let (v', id) = create_new_registry reg v in
      IsPrometheusServer v'
      × (get_registry id v ≡ none)
      × (get_registry id v' ≡ some reg)
      × (id ≢ other_id → get_registry other_id v' ≡ get_registry other_id v)
unfolding create_new_registry get_registry
create_new_registry-fresh reg other_id v ok n =
    let id = add_size (back_id 0 v.registries) 1 in
    let (rises, absent) = next_id ok.own reg ok.made ok.rise (rw ok.all_registries at n) in
    let absent' : find_registry id v.registries ≡ none = rw ok.all_registries absent in
    (
      record {
        own = ok.own;
        made = ok.made ++ (id, reg) ∷ [];
        all_registries = rw ok.all_registries refl;
        rise = rw ok.all_registries rises;
      },
      absent',
      (find_registry-append id id reg v.registries).1 absent',
      λ d. (find_registry-append other_id id reg v.registries).0 (λ q. d (sym q)),
    )

-- The server's own registry cannot be deleted. A call with any other identifier says true, whether
-- there is such a registry or not; after it there is none, and the others are found as before.
pub delete_registry-gone :
    (reg_id other_id : ℕ) (v : PrometheusServer)
    → IsPrometheusServer v
    → let (v', result) = delete_registry reg_id v in
      IsPrometheusServer v'
      × ((result ≡ true) ↔ (reg_id ≢ id_max))
      × (reg_id ≡ id_max → v' ≡ v)
      × (reg_id ≢ id_max → get_registry reg_id v' ≡ none)
      × (reg_id ≢ other_id → get_registry other_id v' ≡ get_registry other_id v)
unfolding delete_registry get_registry
delete_registry-gone reg_id other_id v ok = elim (Bool-cases (reg_id == id_max)) [
  | inl y ↦ rw y (ok, ground (arith, y), λ e. refl, λ d. ground (arith, y), λ d. refl)
  | inr n ↦
      let found = erase_registry-find reg_id other_id v.registries in
      rw n (
        record {
          own = ok.own;
          made = erase_registry reg_id ok.made;
          all_registries = rw ok.all_registries (rw n refl);
          rise = erase_registry-Rises reg_id 0 ok.made ok.rise;
        },
        ground (arith, n),
        λ e. ground (arith, n),
        λ d. found.0,
        λ d. found.1 d,
      )
]
