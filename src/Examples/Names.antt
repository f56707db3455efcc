-- ===== src/Examples/Names.antt =====
-- Concrete directories, pools of addresses and flow requests.
use ari.Base.{ℕ, ◌≡◌, ◌≢◌, true, none, some, arith, if◌then◌else◌, ◌==◌, nat_key, string_key}
use ari.Map.{get, contains_key}
use ari.Directory.Pool
use ari.Directory.Pool.{AddressPool, allocate, release, is_allocated, first_free}
use ari.Directory.Pool.Allocation.{
  IsPool, Allocates, Releases, allocate-Allocates, release-Releases,
}
use ari.Efcp.{default_config}
use ari.Fal
use ari.Fal.{FlowAllocator, allocated, get_flow, deallocate_flow}
use ari.Fal.Handshake.{IsAllocator, handshake, handshake_lem}

abbrev pool : AddressPool
pool = Pool.new 1000 1001

unassigned : (a : ℕ) → is_allocated pool a ≢ true
unfolding is_allocated Pool.new contains_key
unassigned a h = cc

pool-IsPool : IsPool pool
unfolding Pool.new
pool-IsPool = record { distinct = tt; in_range = λ a h. absurd (unassigned a h) }

allocate-Allocates_example : Allocates pool (allocate pool)
allocate-Allocates_example = allocate-Allocates pool pool-IsPool

abbrev used_pool : AddressPool
used_pool = (allocate pool).0

used_pool-IsPool : IsPool used_pool
unfolding allocate first_free Pool.new contains_key
used_pool-IsPool = (allocate-Allocates pool pool-IsPool).6

release-Releases_example : Releases used_pool 1000 (release used_pool 1000)
release-Releases_example = release-Releases used_pool 1000 used_pool-IsPool

new-IsAllocator : IsAllocator Fal.new
unfolding get
new-IsAllocator = record {
  distinct_flows = tt;
  distinct_requests = tt;
  flow_ids = λ id f h. absurd (cc);
  request_ids = λ id q h. absurd (cc);
}

abbrev served : FlowAllocator
served = (handshake Fal.new "client" "server" 1 2 default_config).0

handshake_lem_example :
    ((handshake Fal.new "client" "server" 1 2 default_config).1.flow_id ≡ some 1)
    × (get_flow Fal.new 1 ≡ none)
    × ((j : ℕ)
        → get_flow served j ≡ (
            if 1 == j
            then some (record {
              flow_id = 1;
              src_app_name = "client";
              dst_app_name = "server";
              src_addr = 1;
              dst_addr = 2;
              config = default_config;
              state = allocated;
            })
            else get_flow Fal.new j))
    × ((j : ℕ) → get served.pending_requests j ≡ get Fal.new.pending_requests j)
    × IsAllocator served
handshake_lem_example =
    handshake_lem Fal.new "client" "server" 1 2 default_config new-IsAllocator (omega arith)
      (omega arith)
