-- ===== src/Fal/Handshake.antt =====
-- src/fal.rs: what the flow allocator's operations do together.
use ari.Base.{
  ℕ, ◌+◌, ◌<◌, String, ◌≡◌, refl, sym, ◌∙◌, inl, inr, Option, none, some, arith, if◌then◌else◌,
  Bool-cases, Option-cases, is_some, u32_mod, u64_mod, inc32, ◌==◌, nat_key, string_key, ==_iff,
  is_ok,
}
use ari.Map.{Map, get, insert, remove}
use ari.Map.Laws.{get-insert, get-remove, Distinct, insert-Distinct, remove-Distinct}
use mathlib.Core.Option.{some-injective}
use ari.Efcp.{FlowConfig}
use ari.Fal.{
  FlowAllocator, FlowAllocRequest, FlowAllocResponse, AllocatedFlow, allocated, deallocated,
  create_request, process_request, complete_request, set_allocated, deallocate_flow, get_flow,
  flow_for,
}

-- Identifiers that are in use were given out; every flow is allocated and bears its identifier.
pub record IsAllocator (a : FlowAllocator) : Type 0 where
  pub distinct_flows : Distinct a.flows
  pub distinct_requests : Distinct a.pending_requests
  pub flow_ids :
      (id : ℕ) (f : AllocatedFlow)
      → get a.flows id ≡ some f
      → (id < a.next_flow_id) × (f.flow_id ≡ id) × (f.state ≡ allocated)
  pub request_ids :
      (id : ℕ) (q : FlowAllocRequest)
      → get a.pending_requests id ≡ some q
      → (id < a.next_request_id) × (q.request_id ≡ id)

absent_flow : (a : FlowAllocator) → IsAllocator a → get a.flows a.next_flow_id ≡ none
absent_flow a v = elim (Option-cases (get a.flows a.next_flow_id)) [
  | inl missing ↦ missing
  | inr (f, found) ↦ absurd (omega (arith, v.flow_ids a.next_flow_id f found))
]

absent_request :
    (a : FlowAllocator) → IsAllocator a → get a.pending_requests a.next_request_id ≡ none
absent_request a v = elim (Option-cases (get a.pending_requests a.next_request_id)) [
  | inl missing ↦ missing
  | inr (q, found) ↦ absurd (omega (arith, v.request_ids a.next_request_id q found))
]

-- A flow that is allocated already is put back as it was.
get-set_allocated :
    (flows : Map ℕ AllocatedFlow) (q : FlowAllocRequest) (id j : ℕ)
    → get (set_allocated (insert flows id (flow_for q id)) (some id)) j
      ≡ (if id == j then some (flow_for q id) else get flows j)
unfolding set_allocated
get-set_allocated flows q id j =
    let f : AllocatedFlow = flow_for q id in
    let there : get (insert flows id f) id ≡ some f =
      ground (arith, get-insert flows id id f, ==_iff id id) in
    rw (there, set_allocated)
      (ground (arith, get-insert (insert flows id f) id j f, get-insert flows id j f))

set_allocated-Distinct :
    (flows : Map ℕ AllocatedFlow) (id : Option ℕ)
    → Distinct flows
    → Distinct (set_allocated flows id)
unfolding set_allocated
set_allocated-Distinct flows none d = d
set_allocated-Distinct flows (some id) d = elim (Option-cases (get flows id)) [
  | inl missing ↦ rw (missing, set_allocated) d
  | inr (f, found) ↦
      rw (found, set_allocated) (insert-Distinct flows id (record f { state = allocated }) d)
]

-- A request that is answered is as if it had not been made.
get-answered :
    (a : FlowAllocator) (q : FlowAllocRequest) (j : ℕ)
    → IsAllocator a
    → get (remove (insert a.pending_requests a.next_request_id q) a.next_request_id) j
      ≡ get a.pending_requests j
get-answered a q j v =
    let id : ℕ = a.next_request_id in
    ground (
      arith,
      get-remove (insert a.pending_requests id q) id j,
      get-insert a.pending_requests id j q,
      absent_request a v,
      ==_iff id j,
    )

-- A flow of the table with one flow more, is that flow or was there.
flow_ids-more :
    (a : FlowAllocator) (q : FlowAllocRequest) (j : ℕ) (f : AllocatedFlow)
    (r : Option AllocatedFlow)
    → IsAllocator a
    → a.next_flow_id + 1 < u32_mod
    → r ≡ (if a.next_flow_id == j then some (flow_for q a.next_flow_id) else get a.flows j)
    → r ≡ some f
    → (j < inc32 a.next_flow_id) × (f.flow_id ≡ j) × (f.state ≡ allocated)
flow_ids-more a q j f r v room left h = elim (Bool-cases (a.next_flow_id == j)) [
  | inl here ↦
      let same : a.next_flow_id ≡ j = (==_iff a.next_flow_id j).0 here in
      let it : some (flow_for q a.next_flow_id) ≡ some f = cc in
      let e : f ≡ flow_for q a.next_flow_id = sym (some-injective _ _ it) in
      rw e (ground arith, same, refl)
  | inr other ↦
      let old : get a.flows j ≡ some f = cc in
      let (low, own, there) = v.flow_ids j f old in (ground arith, own, there)
]

-- What a request, its answer and the completion leave behind: one flow more, the requested one,
-- under an identifier that was not in use, and the pending requests of before.
abbrev pub handshake :
    FlowAllocator → String → String → ℕ → ℕ → FlowConfig → FlowAllocator × FlowAllocResponse
handshake a src_app dst_app src dst qos =
    let (a', request) = create_request a src_app dst_app src dst qos in
    let (a'', response) = process_request a' request in
    ((complete_request a'' response).0, response)

-- A request, its processing and its completion allocate one flow, the requested one, under an
-- identifier that was free, leave every other flow and every pending request of a well-formed
-- allocator as they were, and keep it well formed, if neither identifier wraps.
pub handshake_lem :
    (a : FlowAllocator) (src_app dst_app : String) (src dst : ℕ) (qos : FlowConfig)
    → IsAllocator a
    → a.next_flow_id + 1 < u32_mod
    → a.next_request_id + 1 < u64_mod
    → let (a', response) = handshake a src_app dst_app src dst qos in
      (response.flow_id ≡ some a.next_flow_id)
      × (get_flow a a.next_flow_id ≡ none)
      × ((j : ℕ)
          → get_flow a' j ≡ (
              if a.next_flow_id == j
              then some (record {
                flow_id = a.next_flow_id;
                src_app_name = src_app;
                dst_app_name = dst_app;
                src_addr = src;
                dst_addr = dst;
                config = qos;
                state = allocated;
              })
              else get_flow a j))
      × ((j : ℕ) → get a'.pending_requests j ≡ get a.pending_requests j)
      × IsAllocator a'
unfolding create_request process_request complete_request get_flow
handshake_lem a src_app dst_app src dst qos v room room' =
    let q : FlowAllocRequest = (create_request a src_app dst_app src dst qos).1 in
    let id : ℕ = a.next_flow_id in
    (
      refl,
      absent_flow a v,
      λ j. get-set_allocated a.flows q id j,
      λ j. get-answered a q j v,
      record {
        distinct_flows =
            set_allocated-Distinct (insert a.flows id (flow_for q id)) (some id)
              (insert-Distinct a.flows id (flow_for q id) v.distinct_flows);
        distinct_requests =
            remove-Distinct (insert a.pending_requests a.next_request_id q) a.next_request_id
              (insert-Distinct a.pending_requests a.next_request_id q v.distinct_requests);
        flow_ids = λ j f h. flow_ids-more a q j f _ v room (get-set_allocated a.flows q id j) h;
        request_ids = λ j r h.
            let old : get a.pending_requests j ≡ some r = sym (get-answered a q j v) ∙ h in
            let (low, own) = v.request_ids j r old in (ground arith, own);
      },
    )

-- In a well-formed allocator, deallocation removes the flow of the identifier and no other, succeeds
-- just when there is one, and keeps the allocator well formed.
pub deallocate_flow_removes :
    (a : FlowAllocator) (id : ℕ)
    → IsAllocator a
    → ((j : ℕ) → get_flow (deallocate_flow a id).0 j ≡ (if id == j then none else get_flow a j))
      × (is_ok (deallocate_flow a id).1 ≡ is_some (get_flow a id))
      × IsAllocator (deallocate_flow a id).0
unfolding deallocate_flow get_flow
deallocate_flow_removes a id v = elim (Option-cases (get a.flows id)) [
  | inl missing ↦ rw (missing, deallocate_flow) (λ j. ground (arith, missing, ==_iff id j), refl, v)
  | inr (f, found) ↦
      let g : AllocatedFlow = record f { state = deallocated } in
      let left : (j : ℕ)
          → get (remove (insert a.flows id g) id) j ≡ (if id == j then none else get a.flows j) =
        λ j. ground (arith, get-remove (insert a.flows id g) id j, get-insert a.flows id j g) in
      rw (found, deallocate_flow)
        (
          left,
          refl,
          record {
            distinct_flows =
                remove-Distinct (insert a.flows id g) id
                  (insert-Distinct a.flows id g v.distinct_flows);
            distinct_requests = v.distinct_requests;
            flow_ids = λ j h e. ground (arith, left j, v.flow_ids j h);
            request_ids = v.request_ids;
          },
        )
]
