-- ===== src/Ipcp/Lifecycle.antt =====
-- The life of a process: what it can come to, and that it is not started again.
use ari.Base.{ℕ, String, ◌≡◌, refl, true, List, [], ◌∷◌, arith, nat_key, string_key, err}
use ari.Ipcp.{IpcProcess, set_address, set_dif_name, start, shutdown, is_shut_down}

-- The methods that the process is used by, other than `set_state`.
pub data Use : Type 0 where
  starts shuts_down : Use
  addressed : ℕ → Use
  named_dif : String → Use

module _ {A : Type 0} where
  abbrev pub used : IpcProcess A → Use → IpcProcess A
  used p starts = (start p).0
  used p shuts_down = (shutdown p).0
  used p (addressed address) = set_address p address
  used p (named_dif dif) = set_dif_name p dif

  abbrev pub used_all : IpcProcess A → List Use → IpcProcess A
  used_all p [] = p
  used_all p (u ∷ us) = used_all (used p u) us

  started-shut_down :
      (p : IpcProcess A) → is_shut_down p.state ≡ true → is_shut_down (start p).0.state ≡ true
  unfolding start
  started-shut_down p h = ground (arith, h)

  used-shut_down :
      (p : IpcProcess A) (u : Use)
      → is_shut_down p.state ≡ true
      → is_shut_down (used p u).state ≡ true
  unfolding start shutdown set_address set_dif_name
  used-shut_down p starts h = started-shut_down p h
  used-shut_down p shuts_down h = refl
  used-shut_down p (addressed address) h = h
  used-shut_down p (named_dif dif) h = h

  -- A process that is shut down cannot be started, whatever else is done with it.
  start-shutdown :
      (us : List Use) (p : IpcProcess A)
      → is_shut_down p.state ≡ true
      → start (used_all p us) ≡ (used_all p us, err "Cannot start a shutdown IPCP")
  unfolding start
  start-shutdown [] p h = rw h refl
  start-shutdown (u ∷ us) p h = start-shutdown us (used p u) (used-shut_down p u h)
