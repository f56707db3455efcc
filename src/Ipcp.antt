-- ===== src/Ipcp.antt =====
-- src/ipcp.rs: a process with all its components, and its operational state. The clones of a RIB share
-- one store, so the RIB is a field of the process and of its enrollment manager.
pub mod Lifecycle
use ari.Base.{
  ℕ, String, Bool, true, false, not, Option, none, some, if◌then◌else◌, nat_key, string_key, Result,
  ok, err,
}
use ari.Map.{Map}
use ari.Rib.Store
use ari.Rib.Store.{Rib}
use ari.Cdap.Session
use ari.Cdap.Session.{CdapSession}
use ari.Efcp
use ari.Efcp.{Efcp}
use ari.Rmt
use ari.Rmt.{Rmt}
use ari.Fal
use ari.Fal.{FlowAllocator}
use ari.Directory
use ari.Directory.{Directory}
use ari.Enrollment
use ari.Shim
use ari.Shim.{UdpShim}
use ari.Enrollment.{EnrollmentManager}

pub data IpcpState : Type 0 where
  initializing ready enrolling operational shutting_down shut_down : IpcpState
  failed : String → IpcpState

abbrev pub is_operational_state : IpcpState → Bool
is_operational_state operational = true
is_operational_state _ = false

abbrev pub is_shut_down : IpcpState → Bool
is_shut_down shut_down = true
is_shut_down _ = false

pub record IpcProcess (A : Type 0) : Type 0 where
  pub name : Option String
  pub address : Option ℕ
  pub dif_name : Option String
  pub state : IpcpState
  pub rib : Rib
  pub cdap : CdapSession
  pub efcp : Efcp
  pub rmt : Rmt
  pub shim : UdpShim A
  pub fal : FlowAllocator
  pub directory : Directory
  pub enrollment : EnrollmentManager

module _ {A : Type 0} where
  unfoldable pub new : IpcProcess A
  new = record {
    name = none;
    address = none;
    dif_name = none;
    state = initializing;
    rib = Store.new;
    cdap = Session.new;
    efcp = Efcp.new;
    rmt = Rmt.new 0;
    shim = Shim.new 0;
    fal = Fal.new;
    directory = Directory.new;
    enrollment = Enrollment.new Store.new 0;
  }

  unfoldable pub with_name_and_address : String → ℕ → IpcProcess A
  with_name_and_address name address = record {
    name = some name;
    address = some address;
    dif_name = none;
    state = ready;
    rib = Store.new;
    cdap = Session.new;
    efcp = Efcp.new;
    rmt = Rmt.new address;
    shim = Shim.new address;
    fal = Fal.new;
    directory = Directory.new;
    enrollment = Enrollment.new Store.new address;
  }

  unfoldable pub with_name : String → IpcProcess A
  unfolding with_name_and_address
  with_name name = with_name_and_address name 0

  unfoldable pub set_address : IpcProcess A → ℕ → IpcProcess A
  set_address p address = record p {
    address = some address;
    rmt = Rmt.new address;
    shim = Shim.new address;
  }

  unfoldable pub set_dif_name : IpcProcess A → String → IpcProcess A
  set_dif_name p dif = record p { dif_name = some dif }

  unfoldable pub set_state : IpcProcess A → IpcpState → IpcProcess A
  set_state p state = record p { state = state }

  unfoldable pub is_operational : IpcProcess A → Bool
  is_operational p = is_operational_state p.state

  unfoldable pub is_enrolled : IpcProcess A → Bool
  is_enrolled p = Enrollment.is_enrolled p.enrollment

  unfoldable pub start : IpcProcess A → IpcProcess A × Result String (Unit {0})
  start p =
      if is_shut_down p.state
      then (p, err "Cannot start a shutdown IPCP")
      else (record p { state = ready }, ok tt)

  -- The state in between is not seen: the method has `&mut self`.
  unfoldable pub shutdown : IpcProcess A → IpcProcess A × Result String (Unit {0})
  shutdown p = (record p { state = shut_down }, ok tt)
