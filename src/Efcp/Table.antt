-- ===== src/Efcp/Table.antt =====
-- The table of flows: identifiers are fresh, and a flow is there until it is deallocated.
use ari.Base.{
  ℕ, ◌+◌, ◌<◌, ◌≡◌, refl, inl, inr, true, false, none, some, arith, if◌then◌else◌, Option-cases,
  u32_mod, ◌==◌, nat_key, string_key, ==_iff, ok, err,
}
use ari.Map.{get, contains_key}
use ari.Map.Laws.{
  Distinct, get-insert, get-remove, insert-Distinct, remove-Distinct, length-insert, length-remove,
  contains_key_lem,
}
use ari.Efcp.{
  Efcp, Flow, FlowConfig, flow_not_found, new_flow, allocate_flow, get_flow, deallocate_flow,
  flow_count,
}

-- Every flow has an identifier that was given out, its own.
pub record IsTable (e : Efcp) : Type 0 where
  pub distinct : Distinct e.flows
  pub given : (id : ℕ) (f : Flow) → get e.flows id ≡ some f → id < e.next_flow_id

unused : (e : Efcp) → IsTable e → get e.flows e.next_flow_id ≡ none
unused e v = elim (Option-cases (get e.flows e.next_flow_id)) [
  | inl missing ↦ missing
  | inr (f, found) ↦ absurd (omega (arith, v.given e.next_flow_id f found))
]

-- In a well-formed table, until the 32-bit identifiers wrap, allocation gives an identifier that
-- was free, leaves every other flow alone, counts one flow more and keeps the table well formed.
allocate_flow_fresh :
    (e : Efcp) (local remote : ℕ) (config : FlowConfig)
    → IsTable e
    → e.next_flow_id + 1 < u32_mod
    → let (e', id) = allocate_flow e local remote config in
      (get_flow e id ≡ none)
      × ((j : ℕ)
          → get_flow e' j
            ≡ (if id == j then some (new_flow id id 0 local remote config) else get_flow e j))
      × (flow_count e' ≡ flow_count e + 1)
      × IsTable e'
unfolding allocate_flow get_flow flow_count
allocate_flow_fresh e local remote config v room =
    let id : ℕ = e.next_flow_id in
    let f : Flow = new_flow id id 0 local remote config in
    let fresh : get e.flows id ≡ none = unused e v in
    (
      fresh,
      λ j. get-insert e.flows id j f,
      ground (arith, fresh, length-insert e.flows id f, contains_key_lem e.flows id),
      record {
        distinct = insert-Distinct e.flows id f v.distinct;
        given = λ j g h. ground (arith, get-insert e.flows id j f, v.given j g);
      },
    )

-- Deallocation takes the one flow away, or answers that it is not there and changes nothing.
deallocate_flow_lem :
    (e : Efcp) (id : ℕ)
    → IsTable e
    → let (e', answer) = deallocate_flow e id in
      ((j : ℕ) → get_flow e' j ≡ (if id == j then none else get_flow e j))
      × (answer ≡ (if contains_key e.flows id then ok tt else err (flow_not_found id)))
      × (flow_count e ≡ (if contains_key e.flows id then flow_count e' + 1 else flow_count e'))
      × IsTable e'
unfolding deallocate_flow get_flow flow_count
deallocate_flow_lem e id v = elim (Option-cases (get e.flows id)) [
  | inl missing ↦
      let absent : contains_key e.flows id ≡ false = ground (arith, contains_key_lem e.flows id) in
      rw (missing, absent, deallocate_flow) (λ j. ground (arith, ==_iff id j), refl, refl, v)
  | inr (f, found) ↦
      let there : contains_key e.flows id ≡ true = ground (arith, contains_key_lem e.flows id) in
      rw (found, there, deallocate_flow)
        (
          λ j. get-remove e.flows id j,
          refl,
          ground (arith, there, length-remove e.flows id v.distinct),
          record {
            distinct = remove-Distinct e.flows id v.distinct;
            given = λ j g h. ground (arith, get-remove e.flows id j, v.given j g);
          },
        )
]
