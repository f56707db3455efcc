-- ===== src/Shim/Carriage.antt =====
-- What two shims do to a PDU that one sends and the other receives.
use ari.Base.{ℕ, String, ◌≡◌, refl, none, some, List, nat_key, string_key, ok, err}
use ari.Pdu.{Pdu}
use ari.Map.Laws.{get-insert_self}
use ari.Rib.Receive.{Codec}
use ari.Shim.{
  UdpShim, Network, datagram, not_bound, send_to, send_pdu, recv_from, receive_pdu, register_peer,
  lookup_peer,
}

module _ {A : Type 0} (here there : Network A) (codec : Codec Pdu) (reason : String) where
  -- A PDU for a registered peer is sent as its encoding, to the peer's socket address, and a shim that
  -- gets this encoding as a datagram hands up the PDU with the address that it came from. Both
  -- shims are bound, the PDU is decoded from its encoding and the socket address from its text.
  receive_pdu-send_pdu :
      (u v : UdpShim A) (pdu : Pdu) (mine yours : A) (bs : List ℕ) (n : ℕ)
      → u.socket ≡ some mine
      → v.socket ≡ some yours
      → codec.encode pdu ≡ some bs
      → codec.decode bs ≡ some pdu
      → here.parse (here.show yours) ≡ ok yours
      → here.send bs yours ≡ ok n
      → there.receive v.max_buffer_size ≡ datagram bs mine
      → (send_pdu here codec reason (register_peer u pdu.dst_addr yours) pdu ≡ ok n)
        × (receive_pdu there codec reason v ≡ ok (some (pdu, mine)))
  unfolding send_pdu send_to lookup_peer register_peer receive_pdu recv_from
  receive_pdu-send_pdu u v pdu mine yours bs n bound bound' encodes decodes reads goes comes = (
    rw encodes (
        rw (get-insert_self u.address_mapper pdu.dst_addr yours)
          (rw bound (rw reads (rw goes refl)))),
    rw bound' (rw comes (rw decodes refl)),
  )

  -- Before it is bound, a shim neither sends to a registered peer nor receives.
  unbound :
      (u : UdpShim A) (pdu : Pdu) (yours : A) (bs : List ℕ)
      → u.socket ≡ none
      → codec.encode pdu ≡ some bs
      → (send_pdu here codec reason (register_peer u pdu.dst_addr yours) pdu ≡ err not_bound)
        × (receive_pdu here codec reason u ≡ err not_bound)
  unfolding send_pdu send_to lookup_peer register_peer receive_pdu recv_from
  unbound u pdu yours bs closed encodes = (
    rw encodes (rw (get-insert_self u.address_mapper pdu.dst_addr yours) (rw closed refl)),
    rw closed refl,
  )
