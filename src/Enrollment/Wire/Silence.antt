-- ===== src/Enrollment/Wire/Silence.antt =====
-- Synchronisation when no response arrives, and when one arrives among other PDUs.
use ari.Base.{
  ℕ, ◌≡◌, refl, sym, ap, ◌∙◌, true, false, none, some, List, [], ◌∷◌, ◌++◌, append-nil, is_some,
  All, Key, nat_key, string_key, ok, err,
}
use ari.Map.{Map}
use ari.Pdu.{Pdu}
use ari.Rib.Receive.{Codec}
use ari.Cdap.{CdapMessage, new_sync_request}
use ari.Enrollment.{EnrollmentManager, timeout, name_or_empty, answered, process_sync_response}
use ari.Enrollment.Joining.{Services}
use ari.Enrollment.Member.{Poll, ask}
use ari.Enrollment.Wire.{
  carries_response, receive_sync_response, exchanged, asked, sync_rib_over_shim,
}

-- A poll that gives nothing, an error, or a PDU without a response to a synchronisation.
abbrev pub IsNoise : Codec CdapMessage → Poll → Type 0
IsNoise codec (err e) = Unit
IsNoise codec (ok none) = Unit
IsNoise codec (ok (some pdu)) = carries_response (codec.decode pdu.payload) ≡ false

-- Noise is passed over.
receive_sync_response_noise :
    (codec : Codec CdapMessage) (noise rest : List Poll)
    → All (IsNoise codec) noise
    → receive_sync_response codec (noise ++ rest) ≡ receive_sync_response codec rest
unfolding receive_sync_response
receive_sync_response_noise codec [] rest quiet = refl
receive_sync_response_noise codec (err e ∷ noise) rest (here, quiet) =
    receive_sync_response_noise codec noise rest quiet
receive_sync_response_noise codec (ok none ∷ noise) rest (here, quiet) =
    receive_sync_response_noise codec noise rest quiet
receive_sync_response_noise codec (ok (some pdu) ∷ noise) rest (here, quiet) =
    rw here (receive_sync_response_noise codec noise rest quiet)

module _ {A : Type 0} ⦃key : Key A⦄ (s : Services A) (peers : Map ℕ A) (now : ℕ)
    (m : EnrollmentManager) (addr : ℕ) (at : m.bootstrap_addr ≡ some addr) where
  abbrev pub sync_request : CdapMessage
  sync_request = new_sync_request 1 m.last_synced_version (name_or_empty m.ipcp_name)

  -- When the request is sent and none of the PDUs that arrive until the deadline can be decoded
  -- as a message with a response to a synchronisation, synchronisation answers the timeout and
  -- changes nothing. The member knows the bootstrap's address.
  pub sync_rib_over_shim_silent :
      (noise : List Poll) (to : A)
      → ask s peers now m addr sync_request ≡ ok to
      → All (IsNoise s.message) noise
      → sync_rib_over_shim s peers now m noise ≡ (m, err (timeout 1))
  unfolding sync_rib_over_shim exchanged receive_sync_response
  sync_rib_over_shim_silent noise to sends quiet =
      let ends : receive_sync_response s.message noise ≡ err (timeout 1) =
        ap (receive_sync_response s.message) (sym (append-nil noise))
        ∙ receive_sync_response_noise s.message noise [] quiet in
      let fails : exchanged s peers now m noise addr sync_request ≡ err (timeout 1) =
        rw sends (rw ends refl) in
      ap (asked s peers now m noise) at ∙ ap (answered s.objects m now) fails

  -- What comes after the noise and carries a response is taken in.
  sync_rib_over_shim_answered :
      (noise rest : List Poll) (to : A) (pdu : Pdu) (response : CdapMessage)
      → ask s peers now m addr sync_request ≡ ok to
      → All (IsNoise s.message) noise
      → s.message.decode pdu.payload ≡ some response
      → is_some response.sync_response ≡ true
      → sync_rib_over_shim s peers now m (noise ++ ok (some pdu) ∷ rest)
        ≡ process_sync_response s.objects m response now
  unfolding sync_rib_over_shim exchanged receive_sync_response
  sync_rib_over_shim_answered noise rest to pdu response sends quiet decodes carries =
      let polls : List Poll = noise ++ ok (some pdu) ∷ rest in
      let found : receive_sync_response s.message (ok (some pdu) ∷ rest) ≡ ok pdu =
        rw decodes (rw carries refl) in
      let ends : receive_sync_response s.message polls ≡ ok pdu =
        receive_sync_response_noise s.message noise (ok (some pdu) ∷ rest) quiet ∙ found in
      let comes : exchanged s peers now m polls addr sync_request ≡ ok response =
        rw sends (rw ends (rw decodes refl)) in
      ap (asked s peers now m polls) at ∙ ap (answered s.objects m now) comes
