-- ===== src/Enrollment/Member/Attempts.antt =====
-- What an attempt to enroll leaves of the manager, and what a successful one has established.
use ari.Base.{
  ℕ, String, ◌≡◌, refl, sym, ap, ◌∙◌, inl, inr, Bool, true, false, Option, none, some, List, arith,
  Bool-cases, is_some, Key, nat_key, string_key, Result, ok, err,
}
use ari.Map.{Map, contains_key}
use Prim.Native.String.{◌++◌ as append}
use ari.Map.Laws.{get-insert, get-insert_self, contains_key_lem}
use ari.Rib.Value.{
  RibObject, RibValue, string, integer, boolean, bytes, struct, Fields, no_fields, field,
}
use ari.Rib.Store.{Rib, Outcome, create, read, add, new_object}
use ari.Rib.Receive.{Codec, deserialize}
use ari.Enrollment.{EnrollmentManager, EnrollmentError, enrolled}
use ari.Enrollment.Joining.{EnrollmentResponse, Services}
use ari.Enrollment.Member.{
  Poll, Received, message, refusal, cut_off, receive_cdap_response, max_polls, response_in,
  with_address, with_snapshot, snapshot_noted, joining, put_routes, routes_in, Attempt, joined,
  refused, timed_out, ask, routes_taken, routes_asked, sync_routes_from_bootstrap, decided, judged,
  heard, requested, awaited, try_enrol, routes_read,
}

-- What an attempt does not touch.
pub record Frame (m m' : EnrollmentManager) : Type 0 where
  pub name : m'.ipcp_name ≡ m.ipcp_name
  pub config : m'.config ≡ m.config
  pub pool : m'.address_pool ≡ m.address_pool
  pub bootstrap : m'.bootstrap_addr ≡ m.bootstrap_addr
  pub heartbeat : m'.last_heartbeat ≡ m.last_heartbeat

pub Frame-refl : (m : EnrollmentManager) → Frame m m
Frame-refl m = record {
  name = refl;
  config = refl;
  pool = refl;
  bootstrap = refl;
  heartbeat = refl;
}

pub Frame-trans : (a b c : EnrollmentManager) → Frame a b → Frame b c → Frame a c
Frame-trans a b c f g = record {
  name = g.name ∙ f.name;
  config = g.config ∙ f.config;
  pool = g.pool ∙ f.pool;
  bootstrap = g.bootstrap ∙ f.bootstrap;
  heartbeat = g.heartbeat ∙ f.heartbeat;
}

-- Whether the RIB has an object of a name.
abbrev has : Rib → String → Bool
has r name = is_some (read r name)

create-has :
    (r : Rib) (name class : String) (value : RibValue) (now : ℕ)
    → has (create r name class value now).0 name ≡ true
unfolding create read add
create-has r name class value now = elim (Bool-cases (contains_key r.objects name)) [
  | inl there ↦ rw there (sym (contains_key_lem r.objects name) ∙ there)
  | inr fresh ↦ rw fresh (ap is_some (get-insert_self r.objects name _))
]

create-keeps :
    (r : Rib) (name class : String) (value : RibValue) (now : ℕ) (other : String)
    → has r other ≡ true
    → has (create r name class value now).0 other ≡ true
unfolding create read add
create-keeps r name class value now other h = elim (Bool-cases (contains_key r.objects name)) [
  | inl there ↦ rw there h
  | inr fresh ↦
      let obj : RibObject = new_object r name class value now in
      rw fresh (ground (arith, get-insert r.objects name other obj))
]

put_routes-keeps :
    (routes : Fields) (r : Rib) (now : ℕ) (other : String)
    → has r other ≡ true
    → has (put_routes r routes now) other ≡ true
unfolding put_routes
put_routes-keeps no_fields r now other h = h
put_routes-keeps (field dest route rest) r now other h =
    let name : String = append "/routing/static/" dest in
    put_routes-keeps rest (create r name "static_route" route now).0 now other
      (create-keeps r name "static_route" route now other h)

routes_in-keeps :
    (r : Rib) (v : Option RibValue) (now : ℕ) (other : String)
    → has r other ≡ true
    → has (routes_in r v now) other ≡ true
routes_in-keeps r none now other h = h
routes_in-keeps r (some (string x)) now other h = h
routes_in-keeps r (some (integer x)) now other h = h
routes_in-keeps r (some (boolean x)) now other h = h
routes_in-keeps r (some (bytes x)) now other h = h
routes_in-keeps r (some (struct routes)) now other h = put_routes-keeps routes r now other h

-- A manager that has joined a DIF.
pub record HasJoined (m : EnrollmentManager) : Type 0 where
  pub enrolled_state : m.state ≡ enrolled
  pub dif_known : is_some (read m.rib "/dif/name") ≡ true

abbrev pub Tried : EnrollmentManager → EnrollmentManager × Attempt → Type 0
Tried m (m', joined dif) = Frame m m' × HasJoined m'
Tried m (m', refused e) = Frame m m'
Tried m (m', timed_out) = Frame m m'

with_address-Frame :
    (m : EnrollmentManager) (a : Option ℕ) (now : ℕ) → Frame m (with_address m a now)
unfolding with_address
with_address-Frame m none now = Frame-refl m
with_address-Frame m (some addr) now = record {
  name = refl;
  config = refl;
  pool = refl;
  bootstrap = refl;
  heartbeat = refl;
}

snapshot_noted-Frame : (m : EnrollmentManager) (o : Outcome ℕ) → Frame m (snapshot_noted m o)
snapshot_noted-Frame m (r, ok n) = record {
  name = refl;
  config = refl;
  pool = refl;
  bootstrap = refl;
  heartbeat = refl;
}
snapshot_noted-Frame m (r, err e) = record {
  name = refl;
  config = refl;
  pool = refl;
  bootstrap = refl;
  heartbeat = refl;
}

with_snapshot-Frame :
    (codec : Codec (List RibObject)) (m : EnrollmentManager) (b : Option (List ℕ)) (now : ℕ)
    → Frame m (with_snapshot codec m b now)
unfolding with_snapshot
with_snapshot-Frame codec m none now = Frame-refl m
with_snapshot-Frame codec m (some bs) now = snapshot_noted-Frame m (deserialize codec m.rib bs now)

module _ (codec : Codec (List RibObject)) (m : EnrollmentManager) (response : EnrollmentResponse)
    (now : ℕ) where
  abbrev synced : EnrollmentManager
  synced =
      with_snapshot codec (with_address m response.assigned_address now) response.rib_snapshot now

  synced-Frame : Frame m synced
  synced-Frame =
      let addressed : EnrollmentManager = with_address m response.assigned_address now in
      Frame-trans m addressed synced (with_address-Frame m response.assigned_address now)
        (with_snapshot-Frame codec addressed response.rib_snapshot now)

  pub joining-Tried :
      Frame m (joining codec m response now) × HasJoined (joining codec m response now)
  unfolding joining
  joining-Tried =
      let f = synced-Frame in
      (
        record {
          name = f.name;
          config = f.config;
          pool = f.pool;
          bootstrap = f.bootstrap;
          heartbeat = f.heartbeat;
        },
        record {
          enrolled_state = refl;
          dif_known = create-has synced.rib "/dif/name" "dif_info" (string response.dif_name) now;
        },
      )

module _ {A : Type 0} ⦃key : Key A⦄ (s : Services A) (peers : Map ℕ A) (now : ℕ) where
  routes_taken-Tried :
      (m m' : EnrollmentManager) (dif : String) (r : Received)
      → Frame m m'
      → HasJoined m'
      → Tried m (routes_taken s peers now m' dif r)
  routes_taken-Tried m m' dif (message msg rest) f h = (
    record {
      name = f.name;
      config = f.config;
      pool = f.pool;
      bootstrap = f.bootstrap;
      heartbeat = f.heartbeat;
    },
    record {
      enrolled_state = h.enrolled_state;
      dif_known = routes_in-keeps m'.rib msg.obj_value now "/dif/name" h.dif_known;
    },
  )
  routes_taken-Tried m m' dif (refusal e rest) f h = (f, h)
  routes_taken-Tried m m' dif cut_off f h = f

  routes_asked-Tried :
      (m m' : EnrollmentManager) (dif : String) (polls : List Poll) (o : Result EnrollmentError A)
      → Frame m m'
      → HasJoined m'
      → Tried m (routes_asked s peers now m' dif polls o)
  routes_asked-Tried m m' dif polls (ok a) f h =
      routes_taken-Tried m m' dif (receive_cdap_response s.message none (max_polls m'.config) polls)
        f h
  routes_asked-Tried m m' dif polls (err e) f h = (f, h)

  decided-Tried :
      (m : EnrollmentManager) (addr : ℕ) (polls : List Poll) (response : EnrollmentResponse)
      (accepted : Bool)
      → Tried m (decided s peers now m addr polls response accepted)
  unfolding sync_routes_from_bootstrap
  decided-Tried m addr polls response true =
      let m' : EnrollmentManager = joining s.objects m response now in
      let (f, h) = joining-Tried s.objects m response now in
      routes_asked-Tried m m' response.dif_name polls
        (ask s peers now m' addr (routes_read s peers now)) f h
  decided-Tried m addr polls response false = Frame-refl m

  judged-Tried :
      (m : EnrollmentManager) (addr : ℕ) (polls : List Poll)
      (o : Result EnrollmentError EnrollmentResponse)
      → Tried m (judged s peers now m addr polls o)
  judged-Tried m addr polls (err e) = Frame-refl m
  judged-Tried m addr polls (ok response) = decided-Tried m addr polls response response.accepted

  heard-Tried :
      (m : EnrollmentManager) (addr : ℕ) (r : Received) → Tried m (heard s peers now m addr r)
  heard-Tried m addr (message msg rest) =
      judged-Tried m addr rest (response_in s.response msg.obj_value)
  heard-Tried m addr (refusal e rest) = Frame-refl m
  heard-Tried m addr cut_off = Frame-refl m

  awaited-Tried :
      (m : EnrollmentManager) (addr : ℕ) (polls : List Poll) (o : Result EnrollmentError A)
      → Tried m (awaited s peers now m addr polls o)
  awaited-Tried m addr polls (err e) = Frame-refl m
  awaited-Tried m addr polls (ok a) =
      heard-Tried m addr
        (receive_cdap_response s.message (some "enrollment") (max_polls m.config) polls)

  pub try_enrol-Tried :
      (m : EnrollmentManager) (addr : ℕ) (polls : List Poll)
      → Tried m (try_enrol s peers now m addr polls)
  unfolding try_enrol
  try_enrol-Tried m addr polls =
      awaited-Tried m addr polls (requested s peers now m addr m.ipcp_name)
