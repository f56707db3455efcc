-- ===== src/Shim.antt =====
-- src/shim.rs: the UDP shim and the address mapper. The socket is a parameter: what binding, sending
-- and receiving answer. A socket address is a parameter `A`.
pub mod Carriage
use ari.Base.{
  ℕ, String, Option, none, some, List, [], ◌++◌, length, nat_key, string_key, Result, ok, err,
  ◌>>=◌, ok_or, map_err,
}
use Prim.Native.String.{◌++◌ as append}
use ari.Map.{Map, get, insert, remove}
use ari.Text.{decimal}
use ari.Pdu.{Pdu}
use ari.Rib.Receive.{Codec}

pub data ShimError : Type 0 where
  bind_error send_error receive_error address_error : String → ShimError
  not_bound : ShimError

-- The socket is known by the address that it is bound to.
pub record UdpShim (A : Type 0) : Type 0 where
  pub socket : Option A
  pub local_rina_addr : ℕ
  pub max_buffer_size : ℕ
  pub address_mapper : Map ℕ A

-- What a socket that waits for a datagram has: none, an error, or what fits into the buffer.
pub data Arrival (A : Type 0) : Type 0 where
  would_block : Arrival A
  failure : String → Arrival A
  datagram : List ℕ → A → Arrival A

-- The socket address that binding a text gives, why its timeout cannot be set, if it cannot, the texts
-- of socket addresses, and what sending and receiving answer.
pub record Network (A : Type 0) : Type 0 where
  pub bind_to : String → Result String A
  pub set_read_timeout : A → Option String
  pub parse : String → Result String A
  pub show : A → String
  pub send : List ℕ → A → Result String ℕ
  pub receive : ℕ → Arrival A

module _ {A : Type 0} where
  unfoldable pub new : ℕ → UdpShim A
  new local = record {
    socket = none;
    local_rina_addr = local;
    max_buffer_size = 65536;
    address_mapper = [];
  }

  unfoldable pub set_max_buffer_size : UdpShim A → ℕ → UdpShim A
  set_max_buffer_size u size = record u { max_buffer_size = size }

  unfoldable pub register_peer : UdpShim A → ℕ → A → UdpShim A
  register_peer u rina_addr socket_addr = record u {
    address_mapper = insert u.address_mapper rina_addr socket_addr;
  }

  unfoldable pub lookup_peer : UdpShim A → ℕ → Option A
  lookup_peer u rina_addr = get u.address_mapper rina_addr

  unfoldable pub local_addr : UdpShim A → Result ShimError A
  local_addr u = ok_or u.socket not_bound

module _ {A : Type 0} (net : Network A) where
  abbrev pub timeout_set : UdpShim A → A → Option String → UdpShim A × Result ShimError (Unit {0})
  timeout_set u socket none = (record u { socket = some socket }, ok tt)
  timeout_set u socket (some e) = (u, err (bind_error (append "Failed to set read timeout: " e)))

  abbrev pub bound_to :
      UdpShim A → String → Result String A → UdpShim A × Result ShimError (Unit {0})
  bound_to u addr (ok socket) = timeout_set u socket (net.set_read_timeout socket)
  bound_to u addr (err e) =
      (u, err (bind_error (append "Failed to bind to " (append addr (append ": " e)))))

  unfoldable pub bind : UdpShim A → String → UdpShim A × Result ShimError (Unit {0})
  bind u addr = bound_to u addr (net.bind_to addr)

  unfoldable pub send_to : UdpShim A → List ℕ → String → Result ShimError ℕ
  send_to u bs dest_addr = do
    socket ← ok_or u.socket not_bound
    dest ←
        map_err (λ e. address_error (append "Invalid address " (append dest_addr (append ": " e))))
          (net.parse dest_addr)
    map_err (λ e. send_error (append "Failed to send: " e)) (net.send bs dest)

  abbrev pub arrived : Arrival A → Result ShimError (Option (List ℕ × A))
  arrived would_block = ok none
  arrived (failure e) = err (receive_error (append "Failed to receive: " e))
  arrived (datagram bs src) = ok (some (bs, src))

  unfoldable pub recv_from : UdpShim A → Result ShimError (Option (List ℕ × A))
  recv_from u = do socket ← ok_or u.socket not_bound; arrived (net.receive u.max_buffer_size)

  module _ (codec : Codec Pdu) (reason : String) where
    unfoldable pub send_pdu : UdpShim A → Pdu → Result ShimError ℕ
    unfolding lookup_peer send_to
    send_pdu u pdu = do
      bs ← ok_or (codec.encode pdu) (send_error (append "PDU serialization failed: " reason))
      dest ←
          ok_or (lookup_peer u pdu.dst_addr)
            (send_error (append "No mapping found for RINA address " (decimal pdu.dst_addr)))
      send_to u bs (net.show dest)

    abbrev pub decoded : Option (List ℕ × A) → Result ShimError (Option (Pdu × A))
    decoded none = ok none
    decoded (some (bs, src)) = do
      pdu ← ok_or (codec.decode bs) (receive_error (append "PDU deserialization failed: " reason))
      ok (some (pdu, src))

    unfoldable pub receive_pdu : UdpShim A → Result ShimError (Option (Pdu × A))
    unfolding recv_from
    receive_pdu u = do got ← recv_from u; decoded got

pub record AddressMapper (A : Type 0) : Type 0 where
  pub mappings : Map ℕ A

module _ {A : Type 0} where
  unfoldable pub new_mapper : AddressMapper A
  new_mapper = record { mappings = [] }

  unfoldable pub add_mapping : AddressMapper A → ℕ → A → AddressMapper A
  add_mapping m rina_addr socket_addr = record {
    mappings = insert m.mappings rina_addr socket_addr;
  }

  unfoldable pub lookup : AddressMapper A → ℕ → Option A
  lookup m rina_addr = get m.mappings rina_addr

  unfoldable pub remove_mapping : AddressMapper A → ℕ → AddressMapper A
  remove_mapping m rina_addr = record { mappings = remove m.mappings rina_addr }

  unfoldable pub mapping_count : AddressMapper A → ℕ
  mapping_count m = length m.mappings
