-- ===== src/InterIpcpFal/Mapped.antt =====
-- The socket address of a flow and the one that the shim has for its neighbour: each method keeps
-- them the same, but others register peers with the shim too.
use mathlib.Core.Path.{subst}
use mathlib.Core.Option.{some-injective}
use ari.Base.{
  ℕ, String, ◌≡◌, refl, sym, ap, ◌∙◌, ◌⊎◌, inl, inr, true, Option, some, List, arith, Bool-cases,
  Option-cases, Key, ◌==◌, nat_key, string_key, ==_iff, Result, ok, err, elem,
}
use ari.Map.{get, insert}
use ari.Map.Laws.{get-insert, Distinct, insert-Distinct}
use ari.InterIpcpFal.{
  InterIpcpFlow, InterIpcpFlowAllocator, InterIpcpError, put_flow, new_flow, change_flow, concluded,
  created, lookup_route, get_or_create_flow, update_peer_address, record_received_from,
  record_send_error, record_receive, update_address, has_active,
}

-- Each flow stands under its neighbour's address, and its socket address is the shim's for that,
-- unless others have registered this address with the shim.
pub record IsMapped {A : Type 0} (others : List ℕ) (a : InterIpcpFlowAllocator A) : Type 0 where
  pub distinct : Distinct a.flows
  pub mapped :
      (k : ℕ) (f : InterIpcpFlow A)
      → get a.flows k ≡ some f
      → (f.remote_addr ≡ k) × ((elem k others ≡ true) ⊎ (get a.peers k ≡ some f.socket_addr))

either-map : {P Q R : Type 0} → (Q → R) → P ⊎ Q → P ⊎ R
either-map f (inl p) = inl p
either-map f (inr q) = inr (f q)

module _ {A : Type 0} ⦃key : Key A⦄ (others : List ℕ) where
  pub put_flow-IsMapped :
      (a : InterIpcpFlowAllocator A) (remote : ℕ) (f : InterIpcpFlow A)
      → f.remote_addr ≡ remote
      → IsMapped others a
      → IsMapped others (put_flow a remote f)
  unfolding put_flow
  put_flow-IsMapped a remote f own v = record {
    distinct = insert-Distinct a.flows remote f v.distinct;
    mapped = λ k g h. elim (Bool-cases (remote == k)) [
      | inl here ↦
          let same : remote ≡ k = (==_iff remote k).0 here in
          let it : f ≡ g =
            some-injective _ _ (ground (arith, here, get-insert a.flows remote k f)) in
          rw (sym it)
            (own ∙ same, inr (ground (arith, here, get-insert a.peers remote k f.socket_addr)))
      | inr other ↦
          let there : get a.flows k ≡ some g =
            ground (arith, other, get-insert a.flows remote k f) in
          let same : get (insert a.peers remote f.socket_addr) k ≡ get a.peers k =
            ground (arith, other, get-insert a.peers remote k f.socket_addr) in
          let (own', known) = v.mapped k g there in (own', either-map (λ e. same ∙ e) known)
    ];
  }

  -- A flow that keeps its neighbour and its socket address can be put in its place.
  pub insert-IsMapped :
      (a : InterIpcpFlowAllocator A) (remote : ℕ) (f g : InterIpcpFlow A)
      → get a.flows remote ≡ some f
      → g.remote_addr ≡ f.remote_addr
      → g.socket_addr ≡ f.socket_addr
      → IsMapped others a
      → IsMapped others (record a { flows = insert a.flows remote g })
  insert-IsMapped a remote f g found same_remote same_addr v = record {
    distinct = insert-Distinct a.flows remote g v.distinct;
    mapped = λ k h e. elim (Bool-cases (remote == k)) [
      | inl here ↦
          let same : remote ≡ k = (==_iff remote k).0 here in
          let it : g ≡ h =
            some-injective _ _ (ground (arith, here, get-insert a.flows remote k g)) in
          let (own, known) = v.mapped remote f found in
          rw (sym it) (
            same_remote ∙ own ∙ same,
            subst (λ (j : ℕ). (elem j others ≡ true) ⊎ (get a.peers j ≡ some g.socket_addr)) same
                (either-map (λ e. e ∙ ap some (sym same_addr)) known),
          )
      | inr other ↦ v.mapped k h (ground (arith, other, get-insert a.flows remote k g))
    ];
  }

  pub change_flow-IsMapped :
      (a : InterIpcpFlowAllocator A) (remote : ℕ) (change : InterIpcpFlow A → InterIpcpFlow A)
      → ((f : InterIpcpFlow A)
          → ((change f).remote_addr ≡ f.remote_addr) × ((change f).socket_addr ≡ f.socket_addr))
      → IsMapped others a
      → IsMapped others (record a { flows = change_flow a.flows remote change })
  unfolding change_flow
  change_flow-IsMapped a remote change keeps v = elim (Option-cases (get a.flows remote)) [
    | inl missing ↦ rw (missing, change_flow) v
    | inr (f, found) ↦
        rw (found, change_flow)
          (insert-IsMapped a remote f (change f) found (keeps f).0 (keeps f).1 v)
  ]

  pub created-IsMapped :
      (a : InterIpcpFlowAllocator A) (remote now : ℕ) (route : Result InterIpcpError A)
      → IsMapped others a
      → IsMapped others (created a remote now route).0
  created-IsMapped a remote now (ok addr) v =
      put_flow-IsMapped a remote (new_flow remote addr now) refl v
  created-IsMapped a remote now (err e) v = v

  pub concluded-IsMapped :
      (a : InterIpcpFlowAllocator A) (hop : ℕ) (r : Result String A)
      → IsMapped others a
      → IsMapped others (concluded a hop r).0
  concluded-IsMapped a hop (ok addr) v = v
  concluded-IsMapped a hop (err e) v =
      change_flow-IsMapped a hop record_send_error (λ f. (refl, refl)) v

  pub get_or_create_flow-IsMapped :
      (parse : String → Option A) (a : InterIpcpFlowAllocator A) (remote now : ℕ)
      → IsMapped others a
      → IsMapped others (get_or_create_flow parse a remote now).0
  unfolding get_or_create_flow
  get_or_create_flow-IsMapped parse a remote now v =
      elim (Bool-cases (has_active (get a.flows remote))) [
        | inl there ↦ rw there v
        | inr absent ↦ rw absent (created-IsMapped a remote now (lookup_route parse a.rib remote) v)
      ]

  pub update_peer_address-IsMapped :
      (a : InterIpcpFlowAllocator A) (remote : ℕ) (addr : A) (now : ℕ)
      → IsMapped others a
      → IsMapped others (update_peer_address a remote addr now)
  unfolding update_peer_address
  update_peer_address-IsMapped a remote addr now v = elim (Option-cases (get a.flows remote)) [
    | inl missing ↦
        rw (missing, update_peer_address)
          (put_flow-IsMapped a remote (new_flow remote addr now) refl v)
    | inr (f, found) ↦
        rw (found, update_peer_address)
          (put_flow-IsMapped a remote (update_address f addr now) (v.mapped remote f found).0 v)
  ]

  pub record_received_from-IsMapped :
      (a : InterIpcpFlowAllocator A) (remote : ℕ) (addr : A) (now : ℕ)
      → IsMapped others a
      → IsMapped others (record_received_from a remote addr now)
  unfolding record_received_from
  record_received_from-IsMapped a remote addr now v = elim (Option-cases (get a.flows remote)) [
    | inl missing ↦
        rw (missing, record_received_from)
          (put_flow-IsMapped a remote (record_receive (new_flow remote addr now) now) refl v)
    | inr (f, found) ↦ elim (Bool-cases (f.socket_addr == addr)) [
      | inl same ↦
          rw (found, record_received_from)
            (rw same (insert-IsMapped a remote f (record_receive f now) found refl refl v))
      | inr other ↦
          rw (found, record_received_from)
            (rw other (
              put_flow-IsMapped a remote (update_address (record_receive f now) addr now)
                (v.mapped remote f found).0 v))
    ]
  ]
