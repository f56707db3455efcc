-- ===== src/InterIpcpFal/Reach.antt =====
-- Every state that an inter-IPCP flow allocator comes to.
use ari.Base.{
  ℕ, String, ◌≡◌, refl, ◌⊎◌, inl, inr, Bool, true, not, Option, some, List, [], ◌∷◌, arith,
  Bool-cases, Key, ◌==◌, nat_key, string_key, elem,
}
use ari.Map.{Map, get}
use ari.Map.Laws.{get-insert, get-remove, get-retain, remove-Distinct, retain-Distinct}
use ari.Pdu.{Pdu}
use ari.Rib.Store.{Rib}
use ari.InterIpcpFal.{
  InterIpcpFlow, InterIpcpFlowAllocator, new, set_stale_timeout, change_flow, get_or_create_flow,
  send_pdu, shim_send, update_peer_address, record_received_from, cleanup_stale_flows, close_flow,
  record_send, is_stale, peer_registered,
}
use ari.InterIpcpFal.Mapped.{
  IsMapped, get_or_create_flow-IsMapped, update_peer_address-IsMapped,
  record_received_from-IsMapped, concluded-IsMapped, change_flow-IsMapped,
}

module _ {A : Type 0} ⦃key : Key A⦄ where
  -- One call of a method that changes the allocator, or a change of what it shares with others: the
  -- RIB and the peers of the shim. The list has the addresses that others have registered.
  pub data Step (parse : String → Option A) (transmit : A → Pdu → Option String)
      : List ℕ → InterIpcpFlowAllocator A → List ℕ → InterIpcpFlowAllocator A → Type 0 where
    -- Others change the RIB.
    informs :
        {os : List ℕ} {a : InterIpcpFlowAllocator A}
        → (rib : Rib) → Step parse transmit os a os (record a { rib = rib })
    registers :
        {os : List ℕ} {a : InterIpcpFlowAllocator A}
        → (remote : ℕ) → (addr : A)
        → Step parse transmit os a (remote ∷ os) (peer_registered a remote addr)
    times_out :
        {os : List ℕ} {a : InterIpcpFlowAllocator A}
        → (timeout : ℕ) → Step parse transmit os a os (set_stale_timeout a timeout)
    connects :
        {os : List ℕ} {a : InterIpcpFlowAllocator A}
        → (remote now : ℕ) → Step parse transmit os a os (get_or_create_flow parse a remote now).0
    sends :
        {os : List ℕ} {a : InterIpcpFlowAllocator A}
        → (hop : ℕ) → (pdu : Pdu) → (now : ℕ)
        → Step parse transmit os a os (send_pdu transmit a hop pdu now).0
    moves :
        {os : List ℕ} {a : InterIpcpFlowAllocator A}
        → (remote : ℕ) → (addr : A) → (now : ℕ)
        → Step parse transmit os a os (update_peer_address a remote addr now)
    receives :
        {os : List ℕ} {a : InterIpcpFlowAllocator A}
        → (remote : ℕ) → (addr : A) → (now : ℕ)
        → Step parse transmit os a os (record_received_from a remote addr now)
    cleans :
        {os : List ℕ} {a : InterIpcpFlowAllocator A}
        → (now : ℕ) → Step parse transmit os a os (cleanup_stale_flows a now).0
    closes :
        {os : List ℕ} {a : InterIpcpFlowAllocator A}
        → (remote : ℕ) → Step parse transmit os a os (close_flow a remote).0

  -- What a new allocator over a RIB and a table of peers comes to.
  pub data Reachable (parse : String → Option A) (transmit : A → Pdu → Option String)
      : List ℕ → InterIpcpFlowAllocator A → Type 0 where
    start : (rib : Rib) → (peers : Map ℕ A) → Reachable parse transmit [] (new rib peers)
    then_step :
        {os os' : List ℕ} {a a' : InterIpcpFlowAllocator A}
        → Reachable parse transmit os a
        → Step parse transmit os a os' a'
        → Reachable parse transmit os' a'

  -- The registration of an address leaves the others.
  registered-known :
      (os : List ℕ) (a : InterIpcpFlowAllocator A) (remote : ℕ) (addr : A) (k : ℕ)
      (f : InterIpcpFlow A)
      → (elem k os ≡ true) ⊎ (get a.peers k ≡ some f.socket_addr)
      → (elem k (remote ∷ os) ≡ true)
        ⊎ (get (peer_registered a remote addr).peers k ≡ some f.socket_addr)
  unfolding peer_registered
  registered-known os a remote addr k f (inl told) = inl (ground (arith, told))
  registered-known os a remote addr k f (inr known) = elim (Bool-cases (remote == k)) [
    | inl here ↦ inl (ground (arith, here))
    | inr other ↦ inr (ground (arith, other, known, get-insert a.peers remote k addr))
  ]

  Step-IsMapped :
      (parse : String → Option A) (transmit : A → Pdu → Option String) (os : List ℕ)
      (a : InterIpcpFlowAllocator A) (os' : List ℕ) (a' : InterIpcpFlowAllocator A)
      → IsMapped os a
      → Step parse transmit os a os' a'
      → IsMapped os' a'
  unfolding set_stale_timeout send_pdu cleanup_stale_flows close_flow peer_registered
  Step-IsMapped parse transmit os a _ _ v (informs rib) = record {
    distinct = v.distinct;
    mapped = v.mapped;
  }
  Step-IsMapped parse transmit os a _ _ v (registers remote addr) = record {
    distinct = v.distinct;
    mapped = λ k f h.
        let (own, known) = v.mapped k f h in (own, registered-known os a remote addr k f known);
  }
  Step-IsMapped parse transmit os a _ _ v (times_out timeout) = record {
    distinct = v.distinct;
    mapped = v.mapped;
  }
  Step-IsMapped parse transmit os a _ _ v (connects remote now) =
      get_or_create_flow-IsMapped os parse a remote now v
  Step-IsMapped parse transmit os a _ _ v (sends hop pdu now) =
      concluded-IsMapped os (record a { flows = change_flow a.flows hop (λ f. record_send f now) })
        hop (shim_send transmit a.peers pdu)
        (change_flow-IsMapped os a hop (λ f. record_send f now) (λ f. (refl, refl)) v)
  Step-IsMapped parse transmit os a _ _ v (moves remote addr now) =
      update_peer_address-IsMapped os a remote addr now v
  Step-IsMapped parse transmit os a _ _ v (receives remote addr now) =
      record_received_from-IsMapped os a remote addr now v
  Step-IsMapped parse transmit os a _ _ v (cleans now) =
      let fresh : ℕ → InterIpcpFlow A → Bool = λ _ f. not (is_stale f a.stale_timeout now) in
      record {
        distinct = retain-Distinct fresh a.flows v.distinct;
        mapped = λ k f h. v.mapped k f (ground (arith, get-retain fresh a.flows k v.distinct));
      }
  Step-IsMapped parse transmit os a _ _ v (closes remote) = record {
    distinct = remove-Distinct a.flows remote v.distinct;
    mapped = λ k f h. v.mapped k f (ground (arith, get-remove a.flows remote k));
  }

  -- In every state that the methods of a new inter-IPCP flow allocator lead to, whatever becomes
  -- of its RIB, and whatever peers others register with its shim, each flow stands under its
  -- neighbour's address, once, and its socket address is the one that the shim has for that,
  -- unless others have registered that address.
  pub Reachable-IsMapped :
      (parse : String → Option A) (transmit : A → Pdu → Option String) (others : List ℕ)
      (a : InterIpcpFlowAllocator A)
      → Reachable parse transmit others a
      → IsMapped others a
  unfolding new get
  Reachable-IsMapped parse transmit _ _ (start rib peers) = record {
    distinct = tt;
    mapped = λ k f h. absurd (cc);
  }
  Reachable-IsMapped parse transmit os' a' (then_step {os = os} {a = a} reach step) =
      Step-IsMapped parse transmit os a os' a' (Reachable-IsMapped parse transmit os a reach) step
