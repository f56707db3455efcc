-- ===== src/Enrollment/Wire/Postcard.antt =====
-- src/cdap.rs: the form that serde gives to `CdapMessage`: a struct is its fields in turn, with those
-- that are skipped left out, and a reader takes all of them in turn. How postcard writes and reads
-- numbers, texts, options, sequences, changes, and the fields of a message before `sync_response`,
-- is a parameter.
use ari.Base.{ℕ, String, Option, none, some, List, [], ◌++◌, nat_key, string_key}
use ari.Rib.Value.{RibChange}
use ari.Rib.Receive.{Codec}
use ari.Cdap.{CdapMessage, SyncResponse}

-- A reader answers what it has read and the input that is left.
abbrev pub Reader : Type 0 → Type 0
Reader A = List ℕ → Option (A × List ℕ)

pub record Format (A : Type 0) : Type 0 where
  pub write : A → List ℕ
  pub read : Reader A

pub record Postcard : Type 1 where
  pub number : Format ℕ
  pub byte : Format ℕ
  pub text : Format String
  pub change : Format RibChange
  -- The fields before `sync_response`, which a reader leaves none.
  pub head : Format CdapMessage
  pub write_option : {A : Type 0} → (A → List ℕ) → Option A → List ℕ
  pub read_option : {A : Type 0} → Reader A → Reader (Option A)
  pub write_seq : {A : Type 0} → (A → List ℕ) → List A → List ℕ
  pub read_seq : {A : Type 0} → Reader A → Reader (List A)

abbrev pub read_some : {A : Type 0} → Option (A × List ℕ) → Option (Option A × List ℕ)
read_some none = none
read_some (some (x, rest)) = some (some x, rest)

abbrev pub and_then : {A B : Type 0} → Option (A × List ℕ) → (A → Reader B) → Option (B × List ℕ)
and_then none f = none
and_then (some (x, rest)) f = f x rest

abbrev pub done : {A : Type 0} → A → Reader A
done x rest = some (x, rest)

module _ (pc : Postcard) where
  -- `skip_serializing_if = "Option::is_none"`.
  unfoldable pub write_skipping : {A : Type 0} → (A → List ℕ) → Option A → List ℕ
  write_skipping write none = []
  write_skipping write (some x) = pc.write_option write (some x)

  unfoldable pub write_response : SyncResponse → List ℕ
  unfolding write_skipping
  write_response r =
      pc.number.write r.current_version
      ++ (write_skipping (pc.write_seq pc.change.write) r.changes
          ++ (write_skipping (pc.write_seq pc.byte.write) r.full_snapshot
              ++ write_skipping pc.text.write r.error))

  -- The fields after the version, one after the other.
  abbrev pub read_error : ℕ → Option (List RibChange) → Option (List ℕ) → Reader SyncResponse
  read_error v cs snapshot bs =
      and_then (pc.read_option pc.text.read bs) λ e.
        done (record { current_version = v; changes = cs; full_snapshot = snapshot; error = e })

  abbrev pub read_snapshot : ℕ → Option (List RibChange) → Reader SyncResponse
  read_snapshot v cs bs = and_then (pc.read_option (pc.read_seq pc.byte.read) bs) (read_error v cs)

  abbrev pub read_changes : ℕ → Reader SyncResponse
  read_changes v bs = and_then (pc.read_option (pc.read_seq pc.change.read) bs) (read_snapshot v)

  unfoldable pub read_response : Reader SyncResponse
  read_response bs = and_then (pc.number.read bs) read_changes

  unfoldable pub write_message : CdapMessage → List ℕ
  unfolding write_response
  write_message msg = pc.head.write msg ++ pc.write_option write_response msg.sync_response

  abbrev pub whole : Option (CdapMessage × List ℕ) → Option CdapMessage
  whole none = none
  whole (some (msg, rest)) = some msg

  abbrev pub with_response : CdapMessage → Option SyncResponse → Reader CdapMessage
  with_response msg r = done (record msg { sync_response = r })

  abbrev pub read_sync_response : CdapMessage → Reader CdapMessage
  read_sync_response msg bs = and_then (pc.read_option read_response bs) (with_response msg)

  unfoldable pub read_message : List ℕ → Option CdapMessage
  unfolding read_response
  read_message bs = whole (and_then (pc.head.read bs) read_sync_response)

  -- `postcard::to_allocvec` and `postcard::from_bytes`.
  abbrev pub postcard : Codec CdapMessage
  postcard = record { encode = λ msg. some (write_message msg); decode = read_message }
