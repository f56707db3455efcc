-- ===== src/Cdap/Remote.antt =====
-- Operations on a remote RIB through messages are the operations of that RIB.
use ari.Base.{
  ℕ, ◌+◌, ◌<◌, String, ◌≡◌, refl, inl, inr, true, false, Option, none, some, Option-cases, u64_mod,
  nat_key, string_key, ok, err, is_ok,
}
use ari.Rib.Value.{RibValue, RibObject}
use ari.Rib.Store.{Rib, create, read, update, delete, Outcome}
use ari.Rib.History.{IsCoherent, creates, updates, deletes, step, step-Stepped, Stepped-IsCoherent}
use ari.Cdap.{
  CdapMessage, CdapOpCode, create_op, read_op, write_op, delete_op, start_op, stop_op, acknowledged,
  is_success, process_message, handle_create, handle_read, handle_write, handle_delete,
}
use ari.Cdap.Session.{
  CdapSession, create_request, read_request, write_request, delete_request, next_invoke_id,
}

-- A response carries the number of its request and says whether the operation succeeded; the RIB is
-- what the operation leaves.
abbrev pub Answers : ℕ → Outcome (Unit {0}) → Rib × CdapMessage → Type 0
Answers id done (r', m) = (r' ≡ done.0) × (m.invoke_id ≡ id) × (is_success m ≡ is_ok done.1)

acknowledged-Answers : (id : ℕ) (done : Outcome (Unit {0})) → Answers id done (acknowledged id done)
unfolding is_success
acknowledged-Answers id (r, ok u) = (refl, refl, refl)
acknowledged-Answers id (r, err e) = (refl, refl, refl)

-- A create, write or delete request that a session makes, processed at a RIB, does to it what
-- create, update or delete does, and its response carries the request's number and says whether
-- that succeeded.
pub process_message-Answers :
    (s : CdapSession) (r : Rib) (name class : String) (value : RibValue) (now : ℕ)
    → Answers s.next_invoke_id
        (create r name class value now)
        (process_message r (create_request s name class value).1 now)
      × Answers s.next_invoke_id
          (update r name value now)
          (process_message r (write_request s name value).1 now)
      × Answers s.next_invoke_id
          (delete r name now)
          (process_message r (delete_request s name).1 now)
unfolding process_message handle_create handle_write handle_delete create_request write_request
    delete_request next_invoke_id
process_message-Answers s r name class value now = (
  acknowledged-Answers s.next_invoke_id (create r name class value now),
  acknowledged-Answers s.next_invoke_id (update r name value now),
  acknowledged-Answers s.next_invoke_id (delete r name now),
)

-- What a read request brings back.
abbrev pub Reads : ℕ → Option RibObject → CdapMessage → Type 0
Reads id none m = (m.invoke_id ≡ id) × (is_success m ≡ false) × (m.obj_value ≡ none)
Reads id (some obj) m =
    (m.invoke_id ≡ id)
    × (is_success m ≡ true)
    × (m.obj_value ≡ some obj.value)
    × (m.obj_class ≡ some obj.class)

-- A read request brings back the value and the class of the object of that name, or fails if there
-- is none; it changes nothing.
process_message-Reads :
    (s : CdapSession) (r : Rib) (name : String) (now : ℕ)
    → ((process_message r (read_request s name).1 now).0 ≡ r)
      × Reads s.next_invoke_id (read r name) (process_message r (read_request s name).1 now).1
unfolding process_message handle_read read_request next_invoke_id is_success
process_message-Reads s r name now = elim (Option-cases (read r name)) [
  | inl missing ↦ rw (missing, handle_read) (refl, (refl, refl, refl))
  | inr (obj, found) ↦ rw (found, handle_read) (refl, (refl, refl, refl, refl))
]

acknowledged_rib : (id : ℕ) (done : Outcome (Unit {0})) → (acknowledged id done).0 ≡ done.0
acknowledged_rib id (r, ok u) = refl
acknowledged_rib id (r, err e) = refl

module _ (r : Rib) (msg : CdapMessage) (now : ℕ) (v : IsCoherent r)
    (room : r.version_counter + 1 < u64_mod) where
  create-IsCoherent :
      (class : Option String) (value : Option RibValue)
      → IsCoherent (handle_create r (record msg { obj_class = class; obj_value = value }) now).0
  unfolding handle_create
  create-IsCoherent none value = v
  create-IsCoherent (some class) none = v
  create-IsCoherent (some class) (some value) =
      rw (acknowledged_rib msg.invoke_id (create r msg.obj_name class value now)) (
        unfold step in
        Stepped-IsCoherent r v room _
          (step-Stepped r v room (creates msg.obj_name class value now)))

  write-IsCoherent :
      (value : Option RibValue)
      → IsCoherent (handle_write r (record msg { obj_value = value }) now).0
  unfolding handle_write
  write-IsCoherent none = v
  write-IsCoherent (some value) =
      rw (acknowledged_rib msg.invoke_id (update r msg.obj_name value now)) (
        unfold step in
        Stepped-IsCoherent r v room _ (step-Stepped r v room (updates msg.obj_name value now)))

  delete-IsCoherent : IsCoherent (handle_delete r msg now).0
  unfolding handle_delete
  delete-IsCoherent = rw (acknowledged_rib msg.invoke_id (delete r msg.obj_name now)) (
      unfold step in
      Stepped-IsCoherent r v room _ (step-Stepped r v room (deletes msg.obj_name now)))

  read-IsCoherent : IsCoherent (handle_read r msg).0
  unfolding handle_read
  read-IsCoherent = elim (Option-cases (read r msg.obj_name)) [
    | inl missing ↦ rw (missing, handle_read) v
    | inr (obj, found) ↦ rw (found, handle_read) v
  ]

  processed : (op : CdapOpCode) → IsCoherent (process_message r (record msg { op_code = op }) now).0
  unfolding process_message
  processed create_op = create-IsCoherent msg.obj_class msg.obj_value
  processed read_op = read-IsCoherent
  processed write_op = write-IsCoherent msg.obj_value
  processed delete_op = delete-IsCoherent
  processed start_op = v
  processed stop_op = v

-- Any message, also one that no session makes, leaves a coherent RIB coherent, while the version
-- counter does not wrap.
process_message-IsCoherent :
    (r : Rib) (msg : CdapMessage) (now : ℕ)
    → IsCoherent r
    → r.version_counter + 1 < u64_mod
    → IsCoherent (process_message r msg now).0
process_message-IsCoherent r msg now v room = processed r msg now v room msg.op_code
