-- ===== src/Enrollment/Wire/Unread.antt =====
-- No member can read the response to a synchronisation: its fields that are none are skipped when it is
-- written, and missed when it is read.
use mathlib.Core.Option.{some-injective}
use ari.Base.{
  ℕ, zero, suc, ◌+◌, ◌≤◌, ◌<◌, String, ◌≡◌, refl, sym, ap, ◌∙◌, ◌⊎◌, inl, inr, Option, none, some,
  List, [], ◌∷◌, ◌++◌, append_assoc, append-nil, arith, Option-cases, length, All, All-append, Key,
  nat_key, string_key, Result, ok, err,
}
use ari.Map.{Map}
use ari.Pdu.{Pdu}
use ari.Rib.Value.{RibObject, RibChange}
use ari.Rib.Store.{Rib, get_changes_since, current_version}
use ari.Rib.Receive.{Codec, serialize}
use ari.Cdap.{CdapMessage, SyncResponse, new_sync_request, new_sync_response}
use ari.Enrollment.{
  EnrollmentManager, EnrollmentError, timeout, sync_response_for, handle_sync_request,
}
use ari.Enrollment.Joining.{Services, Node, Handled, concluded, send_back}
use ari.Enrollment.Joined.Answer.{send_back-encode}
use ari.Enrollment.Bootstrap.{handle_cdap_message, dispatched_if}
use ari.Enrollment.Member.{Poll, ask}
use ari.Enrollment.Wire.{carries_response, sync_rib_over_shim}
use ari.Enrollment.Wire.Postcard.{
  Reader, Postcard, write_skipping, read_some, and_then, done, write_response, read_response,
  write_message, read_message, whole, postcard, read_changes, read_snapshot, read_error,
  read_sync_response, with_response,
}
use ari.Enrollment.Wire.Silence.{IsNoise, sync_request, sync_rib_over_shim_silent}

-- A sequence of elements, without its length.
unfoldable pub write_all : {A : Type 0} → (A → List ℕ) → List A → List ℕ
write_all write [] = []
write_all write (x ∷ xs) = write x ++ write_all write xs

unfoldable pub read_times : {A : Type 0} → Reader A → ℕ → Reader (List A)
read_times read zero bs = some ([], bs)
read_times read (suc n) bs =
    and_then (read bs) λ x rest. and_then (read_times read n rest) λ xs. done (x ∷ xs)

-- What is documented of postcard. An option is 0, or 1 and the value, and cannot be read at the end of
-- the input; a sequence is its length and its elements; a byte is one byte, and a change takes one at
-- least; a reader ends where the writer did, and reads the number that was written.
pub record IsPostcard (pc : Postcard) : Type 1 where
  pub number_exact :
      (n : ℕ) (rest : List ℕ) → pc.number.read (pc.number.write n ++ rest) ≡ some (n, rest)
  pub one_byte : (b : ℕ) → pc.byte.write b ≡ b ∷ []
  pub change_framed :
      (c : RibChange) (rest : List ℕ)
      → (x : RibChange) × (pc.change.read (pc.change.write c ++ rest) ≡ some (x, rest))
  pub change_consumes :
      (bs : List ℕ) (x : RibChange) (rest : List ℕ)
      → pc.change.read bs ≡ some (x, rest)
      → length rest < length bs
  pub head_framed :
      (msg : CdapMessage) (rest : List ℕ)
      → (x : CdapMessage) × (pc.head.read (pc.head.write msg ++ rest) ≡ some (x, rest))
  pub option_written :
      {A : Type 0} (write : A → List ℕ) (x : A) → pc.write_option write (some x) ≡ 1 ∷ write x
  pub option_read :
      {A : Type 0} (read : Reader A) (rest : List ℕ)
      → pc.read_option read (1 ∷ rest) ≡ read_some (read rest)
  pub option_missing : {A : Type 0} (read : Reader A) → pc.read_option read [] ≡ none
  pub seq_written :
      {A : Type 0} (write : A → List ℕ) (xs : List A)
      → pc.write_seq write xs ≡ pc.number.write (length xs) ++ write_all write xs
  pub seq_read :
      {A : Type 0} (read : Reader A) (bs : List ℕ)
      → pc.read_seq read bs ≡ and_then (pc.number.read bs) (read_times read)

outcome_of : {A B : Type 0} (o : Result A B) → ((x : B) × (o ≡ ok x)) ⊎ ((e : A) × (o ≡ err e))
outcome_of (ok x) = inl (x, refl)
outcome_of (err e) = inr (e, refl)

nothing_left : (bs : List ℕ) → length bs ≡ 0 → bs ≡ []
nothing_left [] e = refl
nothing_left (b ∷ bs) e = absurd (omega (arith, e))

module _ (pc : Postcard) (laws : IsPostcard pc) where
  times_framed :
      (cs : List RibChange) (rest : List ℕ)
      → (xs : List RibChange) × (read_times pc.change.read
            (length cs)
            (write_all pc.change.write cs ++ rest)
          ≡ some (xs, rest))
  unfolding read_times write_all
  times_framed [] rest = ([], refl)
  times_framed (c ∷ cs) rest =
      let later : List ℕ = write_all pc.change.write cs ++ rest in
      let (x, first) = laws.change_framed c later in
      let (xs, others) = times_framed cs rest in
      let split : write_all pc.change.write (c ∷ cs) ++ rest ≡ pc.change.write c ++ later =
        append_assoc (pc.change.write c) (write_all pc.change.write cs) rest in
      (x ∷ xs, rw split (rw first (rw others refl)))

  times_short :
      (n : ℕ) (bs : List ℕ) (xs : List RibChange) (rest : List ℕ)
      → read_times pc.change.read n bs ≡ some (xs, rest)
      → length rest + n ≤ length bs
  unfolding read_times
  times_short zero bs xs rest e =
      let same = ap (λ (o : List RibChange × List ℕ). length o.1) (some-injective _ _ e) in
      omega (arith, same)
  times_short (suc n) bs xs rest e = elim (Option-cases (pc.change.read bs)) [
    | inl missing ↦ absurd (ground (arith, rw missing at e))
    | inr ((x, left), first) ↦ elim (Option-cases (read_times pc.change.read n left)) [
      | inl missing ↦ absurd (ground (arith, rw missing at rw first at e))
      | inr ((ys, end), others) ↦
          let same =
            ap (λ (o : List RibChange × List ℕ). length o.1)
              (some-injective _ _ (rw others at rw first at e)) in
          omega
            (arith, same, times_short n left ys end others, laws.change_consumes bs x left first)
    ]
  ]

  -- An option that is there.
  option_framed :
      {A : Type 0} (write : A → List ℕ) (read : Reader A) (x : A) (rest : List ℕ)
      → pc.read_option read (pc.write_option write (some x) ++ rest)
        ≡ read_some (read (write x ++ rest))
  option_framed write read x rest =
      ap (λ (bs : List ℕ). pc.read_option read (bs ++ rest)) (laws.option_written write x)
      ∙ laws.option_read read (write x ++ rest)

  -- A sequence of anything, read as one of changes.
  seq_as_changes :
      {A : Type 0} (write : A → List ℕ) (xs : List A) (rest : List ℕ)
      → pc.read_seq pc.change.read (pc.write_seq write xs ++ rest)
        ≡ read_times pc.change.read (length xs) (write_all write xs ++ rest)
  seq_as_changes write xs rest =
      let later : List ℕ = write_all write xs ++ rest in
      laws.seq_read pc.change.read (pc.write_seq write xs ++ rest)
      ∙ ap (λ (bs : List ℕ). and_then (pc.number.read (bs ++ rest)) (read_times pc.change.read))
          (laws.seq_written write xs)
      ∙ ap (λ (bs : List ℕ). and_then (pc.number.read bs) (read_times pc.change.read))
          (append_assoc (pc.number.write (length xs)) (write_all write xs) rest)
      ∙ ap (λ (o : Option (ℕ × List ℕ)). and_then o (read_times pc.change.read))
          (laws.number_exact (length xs) later)

  length-bytes : (bs : List ℕ) → length (write_all pc.byte.write bs) ≡ length bs
  unfolding write_all
  length-bytes [] = refl
  length-bytes (b ∷ bs) =
      ap (λ (w : List ℕ). length (w ++ write_all pc.byte.write bs)) (laws.one_byte b)
      ∙ ap (λ (n : ℕ). suc n) (length-bytes bs)

  -- As many changes as there are bytes leave none.
  bytes_exhausted :
      (bs : List ℕ) (xs : List RibChange) (rest : List ℕ)
      → pc.read_seq pc.change.read (pc.write_seq pc.byte.write bs ++ []) ≡ some (xs, rest)
      → rest ≡ []
  bytes_exhausted bs xs rest e =
      let body : List ℕ = write_all pc.byte.write bs in
      let all = sym (seq_as_changes pc.byte.write bs []) ∙ e in
      let whole = ap length (append-nil body) in
      nothing_left rest
        (omega (arith, times_short (length bs) (body ++ []) xs rest all, whole, length-bytes bs))

  abbrev after_changes : ℕ → Option (List RibChange × List ℕ) → Option (SyncResponse × List ℕ)
  after_changes v o = and_then (read_some o) (read_snapshot pc v)

  snapshot_missing : (v : ℕ) (cs : Option (List RibChange)) → read_snapshot pc v cs [] ≡ none
  snapshot_missing v cs =
      ap (λ (o : Option (Option (List ℕ) × List ℕ)). and_then o (read_error pc v cs))
        (laws.option_missing (pc.read_seq pc.byte.read))

  changes_unread :
      (v : ℕ) (cs : List RibChange)
      → read_response pc (
          write_response pc
            (record { current_version = v; changes = some cs; full_snapshot = none; error = none }))
        ≡ none
  unfolding read_response write_response write_skipping
  changes_unread v cs =
      let write = pc.write_seq pc.change.write in
      let (xs, all) = times_framed cs [] in
      ap (λ (o : Option (ℕ × List ℕ)). and_then o (read_changes pc))
        (laws.number_exact v (pc.write_option write (some cs) ++ []))
      ∙ ap (λ (o : Option (Option (List RibChange) × List ℕ)). and_then o (read_snapshot pc v))
          (option_framed write (pc.read_seq pc.change.read) cs [])
      ∙ ap (after_changes v) (seq_as_changes pc.change.write cs [] ∙ all)
      ∙ snapshot_missing v (some xs)

  snapshot_unread :
      (v : ℕ) (bs : List ℕ)
      → read_response pc (
          write_response pc
            (record { current_version = v; changes = none; full_snapshot = some bs; error = none }))
        ≡ none
  unfolding read_response write_response write_skipping
  snapshot_unread v bs =
      let write = pc.write_seq pc.byte.write in
      ap (λ (o : Option (ℕ × List ℕ)). and_then o (read_changes pc))
        (laws.number_exact v (pc.write_option write (some bs) ++ []))
      ∙ ap (λ (o : Option (Option (List RibChange) × List ℕ)). and_then o (read_snapshot pc v))
          (ap (λ (w : List ℕ). pc.read_option (pc.read_seq pc.change.read) (w ++ []))
              (laws.option_written write bs)
            ∙ laws.option_read (pc.read_seq pc.change.read) (write bs ++ []))
      ∙ elim (Option-cases (pc.read_seq pc.change.read (write bs ++ []))) [
        | inl missing ↦ ap (after_changes v) missing
        | inr ((xs, rest), found) ↦
            ap (after_changes v) found
            ∙ ap (read_snapshot pc v (some xs)) (bytes_exhausted bs xs rest found)
            ∙ snapshot_missing v (some xs)
      ]

  message_unread :
      (msg : CdapMessage) (r : SyncResponse)
      → msg.sync_response ≡ some r
      → read_response pc (write_response pc r) ≡ none
      → read_message pc (write_message pc msg) ≡ none
  unfolding read_message write_message
  message_unread msg r carries unread =
      let tail : List ℕ = pc.write_option (write_response pc) (some r) in
      let (x, first) = laws.head_framed msg tail in
      ap
        (λ (o : Option SyncResponse). whole pc (
          and_then (pc.head.read (pc.head.write msg ++ pc.write_option (write_response pc) o))
            (read_sync_response pc)))
        carries
      ∙ ap (λ (o : Option (CdapMessage × List ℕ)). whole pc (and_then o (read_sync_response pc)))
          first
      ∙ ap
          (λ (o : Option (Option SyncResponse × List ℕ)).
            whole pc (and_then o (with_response pc x)))
          (ap (pc.read_option (read_response pc)) (laws.option_written (write_response pc) r)
            ∙ laws.option_read (read_response pc) (write_response pc r)
            ∙ ap read_some unread)

  response_unread :
      (codec : Codec (List RibObject)) (r : Rib) (id since : ℕ)
      → read_message pc (write_message pc (sync_response_for codec r id since)) ≡ none
  unfolding sync_response_for
  response_unread codec r id since = elim (outcome_of (get_changes_since r since)) [
    | inl (cs, found) ↦
        let v : ℕ = current_version r in
        rw (found, sync_response_for)
          (message_unread (new_sync_response id v (some cs) none none) _ refl (changes_unread v cs))
    | inr (e, failed) ↦
        let v : ℕ = current_version r in
        rw (failed, sync_response_for)
          (message_unread (new_sync_response id v none (some (serialize codec r)) none) _ refl
            (snapshot_unread v (serialize codec r)))
  ]

-- The services with messages in postcard's form.
abbrev pub over_postcard : {A : Type 0} → Services A → Postcard → Services A
over_postcard s pc = record s { message = postcard pc }

module _ {A : Type 0} ⦃key : Key A⦄ (services : Services A) (pc : Postcard)
    (laws : IsPostcard pc) where
  abbrev s : Services A
  s = over_postcard services pc

  concluded-sent :
      (n : Node A) (o : Result EnrollmentError (A × Pdu)) (x : A × Pdu)
      → (concluded s n o).sent ≡ some x
      → o ≡ ok x
  concluded-sent n (ok y) x e = ap (λ (z : A × Pdu). ok z) (some-injective _ _ e)
  concluded-sent n (err why) x e = absurd (ground (arith, e))

  handled_sync_request :
      (n : Node A) (pdu : Pdu) (socket : A) (later id since : ℕ) (name : String)
      → read_message pc pdu.payload ≡ some (new_sync_request id since name)
      → handle_cdap_message s n pdu socket later
        ≡ concluded s n (send_back s n pdu (sync_response_for s.objects n.manager.rib id since))
  unfolding handle_cdap_message handle_sync_request
  handled_sync_request n pdu socket later id since name reads =
      ap (dispatched_if s n pdu socket later) reads

  sent-IsNoise :
      (n : Node A) (pdu : Pdu) (socket : A) (later id since : ℕ) (name : String) (to : A)
      (out : Pdu)
      → read_message pc pdu.payload ≡ some (new_sync_request id since name)
      → (handle_cdap_message s n pdu socket later).sent ≡ some (to, out)
      → IsNoise s.message (ok (some out))
  sent-IsNoise n pdu socket later id since name to out reads sent =
      let response : CdapMessage = sync_response_for s.objects n.manager.rib id since in
      let back : send_back s n pdu response ≡ ok (to, out) =
        concluded-sent n (send_back s n pdu response) (to, out)
          (ap (λ (h : Handled A). h.sent)
              (sym (handled_sync_request n pdu socket later id since name reads))
            ∙ sent) in
      let written : write_message pc response ≡ out.payload =
        some-injective _ _ (send_back-encode s n pdu out to response back) in
      ap (λ (bs : List ℕ). carries_response (read_message pc bs)) (sym written)
      ∙ ap carries_response (response_unread pc laws s.objects n.manager.rib id since)

  module _ (peers : Map ℕ A) (now : ℕ) (m : EnrollmentManager) (addr : ℕ) where
    -- When a bootstrap process has handled a request for synchronisation and its response
    -- arrives at the member, among other PDUs without a response, the member does not read it:
    -- its synchronisation answers the timeout and changes nothing. Numbers, options, sequences,
    -- bytes, changes and the fields before the response are written and read as postcard
    -- documents it. The member knows the bootstrap's address, and its own request is sent.
    pub sync_rib_over_shim-handle_cdap_message :
        (n : Node A) (pdu : Pdu) (socket : A) (later id since : ℕ) (name : String) (to to' : A)
        (out : Pdu) (before after : List Poll)
        → read_message pc pdu.payload ≡ some (new_sync_request id since name)
        → (handle_cdap_message s n pdu socket later).sent ≡ some (to, out)
        → (at : m.bootstrap_addr ≡ some addr)
        → ask s peers now m addr (sync_request s peers now m addr at) ≡ ok to'
        → All (IsNoise s.message) before
        → All (IsNoise s.message) after
        → sync_rib_over_shim s peers now m (before ++ ok (some out) ∷ after) ≡ (m, err (timeout 1))
    sync_rib_over_shim-handle_cdap_message n pdu socket later id since name to to' out before after
          reads sent at asked quiet quiet' =
        sync_rib_over_shim_silent s peers now m addr at (before ++ ok (some out) ∷ after) to' asked
          (All-append (IsNoise s.message) before (ok (some out) ∷ after) quiet
            (sent-IsNoise n pdu socket later id since name to out reads sent, quiet'))
