-- ===== src/Routing/Persistence.antt =====
-- src/routing.rs: the snapshot of the dynamic routes. The file is an argument: `none` where there is
-- none, an error where it cannot be read or parsed, and else the snapshot in it.
pub mod Restored
pub mod Stale
use ari.Base.{
  ℕ, ◌+◌, String, not, Option, none, some, List, [], ◌∷◌, ltb, eqb, if◌then◌else◌, length, nat_key,
  string_key, Result, ok, err,
}
use ari.Map.{values}
use ari.Routing.{
  RouteMetadata, RouteSnapshot, RouteResolver, RouteError, remaining_ttl, filter_valid,
  new_snapshot, add_dynamic_route,
}

pub data LoadError : Type 0 where
  unreadable invalid_address : String → LoadError
  not_added : RouteError → LoadError

abbrev pub Loaded : Type 0
Loaded = RouteResolver × Result LoadError ℕ

module _ {A : Type 0} (parse : String → Option A) (show : A → String) (now : ℕ) where
  -- A route was added; the loop goes on, unless that failed.
  abbrev pub after_add :
      (RouteResolver → Loaded) → RouteResolver × Result RouteError (Unit {0}) → Loaded
  after_add rest (r, ok done) = rest r
  after_add rest (r, err e) = (r, err (not_added e))

  abbrev pub load_one :
      RouteMetadata
      → RouteResolver
      → (RouteResolver → Loaded)
      → (RouteResolver → Loaded)
      → Option A
      → Loaded
  load_one m r added skipped none = (r, err (invalid_address m.next_hop_address))
  load_one m r added skipped (some hop) =
      if ltb 0 (remaining_ttl m now)
      then after_add added
          (add_dynamic_route show r m.destination hop (some (remaining_ttl m now)) now)
      else skipped r

  -- The `for` loop, with the number of the routes loaded so far.
  unfoldable pub load_routes : List RouteMetadata → ℕ → RouteResolver → Loaded
  load_routes [] count r = (r, ok count)
  load_routes (m ∷ ms) count r =
      load_one m r (λ r'. load_routes ms (count + 1) r') (λ r'. load_routes ms count r')
        (parse m.next_hop_address)

  abbrev pub load_file : RouteResolver → Option (Result String RouteSnapshot) → Loaded
  load_file r none = (r, ok 0)
  load_file r (some (err why)) = (r, err (unreadable why))
  load_file r (some (ok snapshot)) = load_routes (filter_valid snapshot now) 0 r

  unfoldable pub load_snapshot : RouteResolver → Option (Result String RouteSnapshot) → Loaded
  unfolding load_routes
  load_snapshot r file = if r.config.enable_persistence then load_file r file else (r, ok 0)

-- What is written to the file; nothing if the cache is empty.
unfoldable pub save_snapshot : RouteResolver → ℕ → Option RouteSnapshot
save_snapshot r now =
    if not r.config.enable_persistence
    then none
    else if eqb (length (values r.metadata_cache)) 0
    then none
    else some (new_snapshot (values r.metadata_cache) now)

-- The file: none where there is none, an error where it cannot be read or parsed.
abbrev pub SnapshotFile : Type 0
SnapshotFile = Option (Result String RouteSnapshot)

-- Why a snapshot cannot be written, and what is left of the file then.
abbrev pub Writer : Type 0
Writer = RouteSnapshot → Option (String × SnapshotFile)

abbrev pub written : RouteSnapshot → Option (String × SnapshotFile) → SnapshotFile
written snapshot none = some (ok snapshot)
written snapshot (some (why, left)) = left

abbrev pub kept_or_written : Writer → SnapshotFile → Option RouteSnapshot → SnapshotFile
kept_or_written write file none = file
kept_or_written write file (some snapshot) = written snapshot (write snapshot)

-- The resolver, the time and the file system at a tick of the task.
abbrev pub Tick : Type 0
Tick = RouteResolver × ℕ × Writer

-- The loop; a failure is only printed.
unfoldable pub snapshot_ticks : List Tick → SnapshotFile → SnapshotFile
snapshot_ticks [] file = file
snapshot_ticks ((r, now, write) ∷ ticks) file =
    snapshot_ticks ticks (kept_or_written write file (save_snapshot r now))

unfoldable pub start_snapshot_task : RouteResolver → List Tick → SnapshotFile → SnapshotFile
unfolding snapshot_ticks
start_snapshot_task r ticks file =
    if not r.config.enable_persistence
    then file
    else if eqb r.config.snapshot_interval_seconds 0
    then file
    else snapshot_ticks ticks file
