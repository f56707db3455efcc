-- ===== src/Routing.antt =====
-- src/routing.rs: static and dynamic routes in the RIB, with a lifetime for each dynamic one. A socket
-- address is a parameter `A`, with its text and its parser. Times are seconds, an argument `now`. The
-- snapshot file, which `add_dynamic_route` writes when persistence is on, is not modelled: a failure
-- to write it is only printed.
pub mod Objects
pub mod Lifetime
pub mod Lookup
pub mod Persistence
use Prim.Native.String.{◌++◌ as append}
use ari.Base.{
  ℕ, ◌-◌, String, Bool, false, not, Option, none, some, List, [], ◌++◌, ltb, eqb, if◌then◌else◌,
  is_some, u64_mod, length, retain, nat_key, string_key, Result, ok, err, ok_or,
}
use ari.Map.{Map, get, insert, remove, values}
use ari.Text.{decimal}
use ari.Rib.Value.{
  RibObject, RibValue, Fields, string, integer, struct, no_fields, get_field, insert_field,
  as_string, as_i64, RibError,
}
use ari.Rib.Store.{Rib, Outcome, read, create, update, delete}

pub record RouteMetadata : Type 0 where
  pub destination : ℕ
  pub next_hop_address : String
  pub created_at : ℕ
  pub ttl_seconds : ℕ

-- A lifetime of 0 never ends.
unfoldable pub is_expired : RouteMetadata → ℕ → Bool
is_expired m now = if eqb m.ttl_seconds 0 then false else ltb m.ttl_seconds (now - m.created_at)

unfoldable pub remaining_ttl : RouteMetadata → ℕ → ℕ
remaining_ttl m now =
    if eqb m.ttl_seconds 0 then u64_mod - 1 else m.ttl_seconds - (now - m.created_at)

pub record RouteSnapshot : Type 0 where
  pub version : ℕ
  pub snapshot_time : ℕ
  pub routes : List RouteMetadata

-- `RouteSnapshot::new`.
abbrev pub new_snapshot : List RouteMetadata → ℕ → RouteSnapshot
new_snapshot routes now = record { version = 1; snapshot_time = now; routes = routes }

unfoldable pub filter_valid : RouteSnapshot → ℕ → List RouteMetadata
unfolding is_expired
filter_valid s now = retain (λ m. not (is_expired m now)) s.routes

pub record RouteResolverConfig : Type 0 where
  pub enable_persistence : Bool
  pub snapshot_path : String
  pub default_ttl_seconds : ℕ
  pub snapshot_interval_seconds : ℕ

-- `RouteResolverConfig::default`.
abbrev pub default_config : RouteResolverConfig
default_config = record {
  enable_persistence = false;
  snapshot_path = "dynamic-routes.toml";
  default_ttl_seconds = 3600;
  snapshot_interval_seconds = 300;
}

pub data RouteError : Type 0 where
  invalid_socket_address : String → RouteError
  route_not_found : ℕ → RouteError
  rib_failed : RibError → RouteError

pub record RouteResolver : Type 0 where
  pub rib : Rib
  pub config : RouteResolverConfig
  pub metadata_cache : Map ℕ RouteMetadata

abbrev pub new : Rib → RouteResolverConfig → RouteResolver
new rib config = record { rib = rib; config = config; metadata_cache = [] }

abbrev pub static_name : ℕ → String
static_name dst = append "/routing/static/" (decimal dst)

abbrev pub dynamic_name : ℕ → String
dynamic_name dst = append "/routing/dynamic/" (decimal dst)

abbrev pub struct_of : RibValue → Option Fields
struct_of (struct fields) = some fields
struct_of _ = none

-- The structure that an object holds, if it holds one.
abbrev pub fields_of : Option RibObject → Option Fields
fields_of none = none
fields_of (some obj) = struct_of obj.value

abbrev pub address_in : Option Fields → Option String
address_in none = none
address_in (some fields) = elim (get_field fields "next_hop_address") [
  | none ↦ none
  | some v ↦ as_string v
]

abbrev pub expired_at : Option RouteMetadata → ℕ → Bool
expired_at none now = false
expired_at (some m) now = is_expired m now

-- The state after `remove_dynamic_route`, and its answer.
abbrev pub removed :
    RouteResolver → ℕ → Outcome (Unit {0}) → RouteResolver × Result RouteError (Unit {0})
removed r dst (rib, ok done) =
    (record r { rib = rib; metadata_cache = remove r.metadata_cache dst }, ok tt)
removed r dst (rib, err e) = (record r { rib = rib }, err (rib_failed e))

unfoldable pub remove_dynamic_route :
    RouteResolver → ℕ → ℕ → RouteResolver × Result RouteError (Unit {0})
remove_dynamic_route r dst now = removed r dst (delete r.rib (dynamic_name dst) now)

abbrev pub then_not_found :
    {A : Type 0}
    → ℕ
    → RouteResolver × Result RouteError (Unit {0})
    → RouteResolver × Result RouteError A
then_not_found dst (r, ok done) = (r, err (route_not_found dst))
then_not_found dst (r, err e) = (r, err e)

abbrev pub parsed : {A : Type 0} → (String → Option A) → String → Result RouteError A
parsed parse text = ok_or (parse text) (invalid_socket_address text)

abbrev pub address_or_not_found :
    {A : Type 0} → (String → Option A) → ℕ → Option String → Result RouteError A
address_or_not_found parse dst none = err (route_not_found dst)
address_or_not_found parse dst (some text) = parsed parse text

-- The dynamic part of `resolve_next_hop`, for the structure of the dynamic route.
abbrev pub resolve_dynamic :
    {A : Type 0}
    → (String → Option A)
    → RouteResolver
    → ℕ
    → ℕ
    → Option Fields
    → RouteResolver × Result RouteError A
resolve_dynamic parse r dst now none = (r, err (route_not_found dst))
resolve_dynamic parse r dst now (some fields) =
    if expired_at (get r.metadata_cache dst) now
    then then_not_found dst (remove_dynamic_route r dst now)
    else (r, address_or_not_found parse dst (address_in (some fields)))

abbrev pub resolve_with :
    {A : Type 0}
    → (String → Option A)
    → RouteResolver
    → ℕ
    → ℕ
    → Option String
    → RouteResolver × Result RouteError A
resolve_with parse r dst now (some text) = (r, parsed parse text)
resolve_with parse r dst now none =
    resolve_dynamic parse r dst now (fields_of (read r.rib (dynamic_name dst)))

-- Static routes first.
unfoldable pub resolve_next_hop :
    {A : Type 0} → (String → Option A) → RouteResolver → ℕ → ℕ → RouteResolver × Result RouteError A
resolve_next_hop parse r dst now =
    resolve_with parse r dst now (address_in (fields_of (read r.rib (static_name dst))))

abbrev pub get_or : Option ℕ → ℕ → ℕ
get_or none d = d
get_or (some n) d = n

-- What the RIB holds for a route.
unfoldable pub route_fields : String → ℕ → Fields
route_fields text dst =
    insert_field (insert_field no_fields "next_hop_address" (string text)) "next_hop_rina_addr"
      (integer (as_i64 dst))

abbrev pub route_data : String → ℕ → RibValue
route_data text dst = struct (route_fields text dst)

abbrev pub cached :
    RouteResolver
    → RouteMetadata
    → Outcome (Unit {0})
    → RouteResolver × Result RouteError (Unit {0})
cached r m (rib, ok done) =
    (record r { rib = rib; metadata_cache = insert r.metadata_cache m.destination m }, ok tt)
cached r m (rib, err e) = (record r { rib = rib }, err (rib_failed e))

unfoldable pub put_route : Rib → ℕ → String → ℕ → Outcome (Unit {0})
put_route rib dst text now =
    if is_some (read rib (dynamic_name dst))
    then update rib (dynamic_name dst) (route_data text dst) now
    else create rib (dynamic_name dst) "route" (route_data text dst) now

unfoldable pub add_dynamic_route :
    {A : Type 0}
    → (A → String)
    → RouteResolver
    → ℕ
    → A
    → Option ℕ
    → ℕ
    → RouteResolver × Result RouteError (Unit {0})
unfolding put_route
add_dynamic_route show r dst hop ttl now =
    cached r
      (record {
        destination = dst;
        next_hop_address = show hop;
        created_at = now;
        ttl_seconds = get_or ttl r.config.default_ttl_seconds;
      })
      (put_route r.rib dst (show hop) now)

pub record RouteStats : Type 0 where
  pub total_dynamic_routes : ℕ
  pub expired_routes : ℕ
  pub valid_routes : ℕ

unfoldable pub get_stats : RouteResolver → ℕ → RouteStats
unfolding is_expired
get_stats r now =
    let expired = length (retain (λ m. is_expired m now) (values r.metadata_cache)) in
    record {
      total_dynamic_routes = length r.metadata_cache;
      expired_routes = expired;
      valid_routes = length r.metadata_cache - expired;
    }
