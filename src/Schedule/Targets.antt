-- ===== src/Schedule/Targets.antt =====
-- pkg/postgresdb/connect.go: the `[postgres]` section and the targets that it names.
use ciscollector_v.Common.{
  ℕ, ◌≡◌, refl, inl, inr, Bool, true, false, not, Option, none, some, List, [], ◌∷◌, ◌++◌, Text,
  lit, beq, trim_space, split, join, keep, map, is_nil, All, if◌then◌else◌, Bool-cases,
}

-- `Postgres`; the two limits on the number of connections may be negative in the source, and
-- nothing here reads them
pub record Postgres : Type 0 where
  pub host : Text
  pub port : Text
  pub user : Text
  pub password : Text
  pub db_name : Text
  pub ssl_mode : Text
  pub ssl_cert : Text
  pub ssl_key : Text
  pub ssl_root_cert : Text
  pub ping_check : Bool
  pub max_idle_conn : ℕ
  pub max_open_conn : ℕ

abbrev pub is_text : Text → Bool
is_text t = not (beq t [])

-- `SplitDBNames`
unfoldable pub split_db_names : Text → List Text
unfolding split keep trim_space beq
split_db_names raw = keep is_text (map trim_space (split b',' raw))

unfoldable pub missing_if_blank : Text → Text → List Text
unfolding trim_space beq
missing_if_blank value key = if beq (trim_space value) [] then key ∷ [] else []

-- `MissingRequiredFields`
unfoldable pub missing_required_fields : Option Postgres → List Text
unfolding missing_if_blank split_db_names
missing_required_fields none =
    lit "host" ∷ lit "port" ∷ lit "user" ∷ lit "password" ∷ lit "dbname" ∷ []
missing_required_fields (some p) =
    missing_if_blank p.host (lit "host")
    ++ missing_if_blank p.port (lit "port")
    ++ missing_if_blank p.user (lit "user")
    ++ missing_if_blank p.password (lit "password")
    ++ (if is_nil (split_db_names p.db_name) then lit "dbname" ∷ [] else [])

-- `Validate`: whether it returns nil
unfoldable pub validates : Option Postgres → Bool
unfolding missing_required_fields
validates p = is_nil (missing_required_fields p)

abbrev pub first_or : Text → List Text → Text
first_or t [] = t
first_or t (n ∷ ns) = n

-- `PrimaryDBName`
unfoldable pub primary_db_name : Option Postgres → Text
unfolding split_db_names trim_space
primary_db_name none = []
primary_db_name (some p) = first_or (trim_space p.db_name) (split_db_names p.db_name)

abbrev pub targets_of : Postgres → List Text → List Postgres
targets_of p [] = []
targets_of p (db ∷ names) = record p { db_name = db } ∷ targets_of p names

-- `ExpandTargets`
unfoldable pub expand_targets : Option Postgres → List Postgres
unfolding split_db_names
expand_targets none = []
expand_targets (some p) = targets_of p (split_db_names p.db_name)

unfoldable pub part_if : Text → Text → List Text
unfolding beq
part_if key value = if beq value [] then [] else (key ++ value) ∷ []

-- `BuildConnectionString`
unfoldable pub build_connection_string : Postgres → Text
unfolding part_if beq join
build_connection_string conf = join (lit " ") (
    (lit "host=" ++ conf.host)
    ∷ (lit "port=" ++ conf.port)
    ∷ (lit "user=" ++ conf.user)
    ∷ (lit "password=" ++ conf.password)
    ∷ (lit "dbname=" ++ conf.db_name)
    ∷ (if beq conf.ssl_mode [] then lit "sslmode=disable" else lit "sslmode=" ++ conf.ssl_mode)
    ∷ (part_if (lit "sslcert=") conf.ssl_cert
        ++ part_if (lit "sslkey=") conf.ssl_key
        ++ part_if (lit "sslrootcert=") conf.ssl_root_cert))

is_nil-last :
    {A : Type 0} (bs cs ds fs es : List A)
    → is_nil (bs ++ cs ++ ds ++ fs ++ es) ≡ true
    → is_nil es ≡ true
is_nil-last [] [] [] [] es h = h
is_nil-last [] [] [] (x ∷ fs) es h = cc
is_nil-last [] [] (x ∷ ds) fs es h = cc
is_nil-last [] (x ∷ cs) ds fs es h = cc
is_nil-last (x ∷ bs) cs ds fs es h = cc

has_names :
    (ns : List Text)
    → is_nil (if is_nil ns then lit "dbname" ∷ [] else []) ≡ true
    → is_nil ns ≡ false
has_names [] h = cc
has_names (n ∷ ns) h = refl

-- A target of the configuration: it differs from it in its database, which is given and is one
-- of the names.
targets_of-fields :
    (p : Postgres) (names : List Text)
    → All (λ n. beq n [] ≡ false) names
    → All
        (λ t. (t ≡ record p { db_name = t.db_name }) × (beq t.db_name [] ≡ false))
        (targets_of p names)
targets_of-fields p [] h = tt
targets_of-fields p (n ∷ names) (h, hs) = ((refl, h), targets_of-fields p names hs)

keep-is_text : (ts : List Text) → All (λ t. beq t [] ≡ false) (keep is_text ts)
unfolding keep
keep-is_text [] = tt
keep-is_text (t ∷ ts) = elim (Bool-cases (beq t [])) [
  | inl e ↦ rw e (keep-is_text ts)
  | inr e ↦ rw e (e, keep-is_text ts)
]

map-targets_of :
    (p : Postgres) (names : List Text) → map (λ t. t.db_name) (targets_of p names) ≡ names
map-targets_of p [] = refl
map-targets_of p (n ∷ names) = cc (map-targets_of p names)

is_nil-targets_of : (p : Postgres) (names : List Text) → is_nil (targets_of p names) ≡ is_nil names
is_nil-targets_of p [] = refl
is_nil-targets_of p (n ∷ names) = refl

names-validates :
    (p : Postgres) → validates (some p) ≡ true → is_nil (split_db_names p.db_name) ≡ false
unfolding validates missing_required_fields
names-validates p h = has_names (split_db_names p.db_name) (
    is_nil-last (missing_if_blank p.host (lit "host")) (missing_if_blank p.port (lit "port"))
      (missing_if_blank p.user (lit "user")) (missing_if_blank p.password (lit "password"))
      (if is_nil (split_db_names p.db_name) then lit "dbname" ∷ [] else []) h)

names-is_text : (p : Postgres) → All (λ t. beq t [] ≡ false) (split_db_names p.db_name)
unfolding split_db_names
names-is_text p = keep-is_text (map trim_space (split b',' p.db_name))

-- A configuration that validates has at least one target; the targets have its databases, in
-- order and each with a name, and agree with it in everything else.
pub expand_targets-validates :
    (p : Postgres)
    → validates (some p) ≡ true
    → (is_nil (expand_targets (some p)) ≡ false)
      × (map (λ t. t.db_name) (expand_targets (some p)) ≡ split_db_names p.db_name)
      × All
          (λ t. (t ≡ record p { db_name = t.db_name }) × (beq t.db_name [] ≡ false))
          (expand_targets (some p))
unfolding validates missing_required_fields expand_targets
expand_targets-validates p h = (
  rw (is_nil-targets_of p (split_db_names p.db_name)) (names-validates p h),
  map-targets_of p (split_db_names p.db_name),
  targets_of-fields p (split_db_names p.db_name) (names-is_text p),
)
