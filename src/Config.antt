-- ===== src/Config.antt =====
-- src/config.rs: the configuration of a process, from the command line or a file, and its validation.
-- clap's parser gives the arguments, and the parser of TOML files, with the reading of the
-- file, is a parameter; so is the change to lower case.
pub mod Valid
use Prim.Native.String.{◌++◌ as append}
use ari.Base.{
  ℕ, String, Bool, true, false, not, Option, none, some, List, [], ◌∷◌, ◌++◌, map, if◌then◌else◌,
  is_some, ◌==◌, nat_key, string_key, Result, ok, err, ◌>>=◌, ok_or,
}
use ari.Text.{decimal}

pub data IpcpMode : Type 0 where
  bootstrap member demo : IpcpMode

-- `Display` of the mode.
unfoldable pub display : IpcpMode → String
display bootstrap = "bootstrap"
display member = "member"
display demo = "demo"

-- `from_str`, which shows the text in its error.
unfoldable pub from_str : (String → String) → String → Result String IpcpMode
from_str to_lowercase text =
    if to_lowercase text == "bootstrap"
    then ok bootstrap
    else if to_lowercase text == "member"
    then ok member
    else if to_lowercase text == "demo"
    then ok demo
    else err (append "Invalid mode: " (append text ". Use 'bootstrap', 'member', or 'demo'"))

pub record CliArgs : Type 0 where
  pub config : Option String
  pub name : Option String
  pub mode : IpcpMode
  pub dif_name : Option String
  pub address : Option ℕ
  pub bind : Option String
  pub bootstrap_peers : Option (List String)
  pub address_pool_start : ℕ
  pub address_pool_end : ℕ

pub record BootstrapPeer : Type 0 where
  pub address : String
  pub rina_addr : Option ℕ

pub record StaticRoute : Type 0 where
  pub destination : ℕ
  pub next_hop_address : String
  pub next_hop_rina_addr : ℕ

pub record IpcpConfig : Type 0 where
  pub name : String
  pub ipcp_type : String
  pub mode : IpcpMode

pub record DifConfig : Type 0 where
  pub name : String
  pub address : Option ℕ
  pub address_pool_start : Option ℕ
  pub address_pool_end : Option ℕ

pub record ShimConfig : Type 0 where
  pub bind_address : String
  pub bind_port : ℕ

pub record EnrollmentConfig : Type 0 where
  pub bootstrap_peers : List BootstrapPeer
  pub timeout_secs : ℕ
  pub max_retries : ℕ
  pub initial_backoff_ms : ℕ

abbrev pub default_enrollment_timeout : ℕ
default_enrollment_timeout = 5

abbrev pub default_max_retries : ℕ
default_max_retries = 3

abbrev pub default_initial_backoff_ms : ℕ
default_initial_backoff_ms = 1000

-- `EnrollmentConfig::default`.
abbrev pub default_enrollment : EnrollmentConfig
default_enrollment = record {
  bootstrap_peers = [];
  timeout_secs = default_enrollment_timeout;
  max_retries = default_max_retries;
  initial_backoff_ms = default_initial_backoff_ms;
}

pub record RoutingConfig : Type 0 where
  pub static_routes : List StaticRoute
  pub enable_route_persistence : Bool
  pub route_snapshot_path : String
  pub route_ttl_seconds : ℕ
  pub route_snapshot_interval_seconds : ℕ

-- `RoutingConfig::default`, which is derived: what a file without the section has.
abbrev pub derived_routing : RoutingConfig
derived_routing = record {
  static_routes = [];
  enable_route_persistence = false;
  route_snapshot_path = "";
  route_ttl_seconds = 0;
  route_snapshot_interval_seconds = 0;
}

abbrev pub default_route_snapshot_path : String
default_route_snapshot_path = "dynamic-routes.toml"

abbrev pub default_route_ttl_seconds : ℕ
default_route_ttl_seconds = 3600

abbrev pub default_snapshot_interval_seconds : ℕ
default_snapshot_interval_seconds = 300

pub record RibConfig : Type 0 where
  pub enable_rib_persistence : Bool
  pub rib_snapshot_path : String
  pub rib_snapshot_interval_seconds : ℕ
  pub change_log_size : ℕ
  pub rib_sync_interval_secs : ℕ

-- `RibConfig::default`, of the functions for its fields.
abbrev pub default_rib : RibConfig
default_rib = record {
  enable_rib_persistence = false;
  rib_snapshot_path = "rib-snapshot.bin";
  rib_snapshot_interval_seconds = 300;
  change_log_size = 1000;
  rib_sync_interval_secs = 30;
}

pub record TomlConfig : Type 0 where
  pub ipcp : IpcpConfig
  pub dif : DifConfig
  pub shim : ShimConfig
  pub enrollment : EnrollmentConfig
  pub routing : RoutingConfig
  pub rib : RibConfig

pub record IpcpConfiguration : Type 0 where
  pub name : String
  pub mode : IpcpMode
  pub dif_name : String
  pub address : Option ℕ
  pub bind_address : String
  pub bootstrap_peers : List String
  pub address_pool_start : ℕ
  pub address_pool_end : ℕ
  pub enrollment_timeout_secs : ℕ
  pub enrollment_max_retries : ℕ
  pub enrollment_initial_backoff_ms : ℕ
  pub static_routes : List StaticRoute
  pub enable_route_persistence : Bool
  pub route_snapshot_path : String
  pub route_ttl_seconds : ℕ
  pub route_snapshot_interval_seconds : ℕ
  pub enable_rib_persistence : Bool
  pub rib_snapshot_path : String
  pub rib_snapshot_interval_seconds : ℕ
  pub change_log_size : ℕ
  pub rib_sync_interval_secs : ℕ

-- What the three modes have in common on the command line: the defaults of all else.
abbrev pub from_arguments :
    String → IpcpMode → String → Option ℕ → String → List String → ℕ → ℕ → IpcpConfiguration
from_arguments name mode dif address bind peers start end = record {
  name = name;
  mode = mode;
  dif_name = dif;
  address = address;
  bind_address = bind;
  bootstrap_peers = peers;
  address_pool_start = start;
  address_pool_end = end;
  enrollment_timeout_secs = default_enrollment_timeout;
  enrollment_max_retries = default_max_retries;
  enrollment_initial_backoff_ms = default_initial_backoff_ms;
  static_routes = [];
  enable_route_persistence = false;
  route_snapshot_path = default_route_snapshot_path;
  route_ttl_seconds = default_route_ttl_seconds;
  route_snapshot_interval_seconds = default_snapshot_interval_seconds;
  enable_rib_persistence = default_rib.enable_rib_persistence;
  rib_snapshot_path = default_rib.rib_snapshot_path;
  rib_snapshot_interval_seconds = default_rib.rib_snapshot_interval_seconds;
  change_log_size = default_rib.change_log_size;
  rib_sync_interval_secs = default_rib.rib_sync_interval_secs;
}

abbrev pub get_or {ℓ} : {A : Type ℓ} → Option A → A → A
get_or none a = a
get_or (some b) a = b

abbrev pub of_bootstrap :
    Option String
    → Option String
    → Option ℕ
    → Option String
    → ℕ
    → ℕ
    → Result String IpcpConfiguration
of_bootstrap name dif_name address bind start end = do
  n ← ok_or name "--name is required for bootstrap mode"
  dif ← ok_or dif_name "--dif-name is required for bootstrap mode"
  addr ← ok_or address "--address is required for bootstrap mode"
  b ← ok_or bind "--bind is required for bootstrap mode"
  ok (from_arguments n bootstrap dif (some addr) b [] start end)

abbrev pub of_member :
    Option String
    → Option String
    → Option String
    → Option (List String)
    → ℕ
    → ℕ
    → Result String IpcpConfiguration
of_member name dif_name bind bootstrap_peers start end = do
  n ← ok_or name "--name is required for member mode"
  dif ← ok_or dif_name "--dif-name is required for member mode"
  b ← ok_or bind "--bind is required for member mode"
  peers ← ok_or bootstrap_peers "--bootstrap-peers is required for member mode"
  ok (from_arguments n member dif none b peers start end)

abbrev pub of_mode : CliArgs → IpcpMode → Result String IpcpConfiguration
of_mode args demo =
    ok (from_arguments (get_or args.name "demo-ipcp") demo "demo-dif" none "" [] 1002 1999)
of_mode args bootstrap =
    of_bootstrap args.name args.dif_name args.address args.bind args.address_pool_start
      args.address_pool_end
of_mode args member =
    of_member args.name args.dif_name args.bind args.bootstrap_peers args.address_pool_start
      args.address_pool_end

abbrev pub of_toml : TomlConfig → IpcpConfiguration
of_toml config = record {
  name = config.ipcp.name;
  mode = config.ipcp.mode;
  dif_name = config.dif.name;
  address = config.dif.address;
  bind_address = append config.shim.bind_address (append ":" (decimal config.shim.bind_port));
  bootstrap_peers = map (λ peer. peer.address) config.enrollment.bootstrap_peers;
  address_pool_start = get_or config.dif.address_pool_start 1002;
  address_pool_end = get_or config.dif.address_pool_end 1999;
  enrollment_timeout_secs = config.enrollment.timeout_secs;
  enrollment_max_retries = config.enrollment.max_retries;
  enrollment_initial_backoff_ms = config.enrollment.initial_backoff_ms;
  static_routes = config.routing.static_routes;
  enable_route_persistence = config.routing.enable_route_persistence;
  route_snapshot_path = config.routing.route_snapshot_path;
  route_ttl_seconds = config.routing.route_ttl_seconds;
  route_snapshot_interval_seconds = config.routing.route_snapshot_interval_seconds;
  enable_rib_persistence = config.rib.enable_rib_persistence;
  rib_snapshot_path = config.rib.rib_snapshot_path;
  rib_snapshot_interval_seconds = config.rib.rib_snapshot_interval_seconds;
  change_log_size = config.rib.change_log_size;
  rib_sync_interval_secs = config.rib.rib_sync_interval_secs;
}

-- `load` reads and parses the file of a path, or says why it cannot.
unfoldable pub from_file :
    (String → Result String TomlConfig) → String → Result String IpcpConfiguration
from_file load path = load path >>= λ config. ok (of_toml config)

unfoldable pub from_cli :
    (String → Result String TomlConfig) → CliArgs → Result String IpcpConfiguration
unfolding from_file
from_cli load args = elim args.config [
  | some path ↦ from_file load path
  | none ↦ of_mode args args.mode
]

abbrev pub is_empty {ℓ} : {A : Type ℓ} → List A → Bool
is_empty [] = true
is_empty (x ∷ xs) = false

abbrev pub valid_as : IpcpMode → IpcpConfiguration → Result String (Unit {0})
valid_as bootstrap c =
    if not (is_some c.address)
    then err "Bootstrap mode requires an address"
    else if c.bind_address == ""
    then err "Bootstrap mode requires a bind address"
    else ok tt
valid_as member c =
    if is_empty c.bootstrap_peers
    then err "Member mode requires at least one bootstrap peer"
    else if c.bind_address == ""
    then err "Member mode requires a bind address"
    else ok tt
valid_as demo c = ok tt

unfoldable pub validate : IpcpConfiguration → Result String (Unit {0})
validate c = valid_as c.mode c
