-- ===== src/Examples/Processes.antt =====
-- Runs of the retries, the monitoring, the actors, a process and its configuration.
use ari.Base.{
  ℕ, zero, suc, ◌+◌, ◌*◌, ◌^◌, ◌<◌, String, ◌≡◌, refl, ap, ◌≢◌, true, Option, none, some, List, [],
  ◌∷◌, ◌++◌, arith, length, nat_key, string_key, ==_iff, ok, err,
}
use mathlib.Core.Option.{some-injective}
use ari.Map.{get, insert}
use ari.Pdu.{Pdu, new_data}
use ari.Rib.Store
use ari.Rib.Store.{Rib}
use ari.Efcp
use ari.Rmt
use ari.Rmt.{Rmt, PduQueue, add_forwarding_entry, queue_full, lookup, ensure_queue}
use ari.Routing.{
  RouteMetadata, RouteSnapshot, RouteResolver, default_config, filter_valid, new_snapshot,
  is_expired,
}
use ari.Routing
use ari.Routing.Persistence.{load_snapshot}
use ari.Routing.Persistence.Restored.{Restores, load_snapshot-Restores}
use ari.Enrollment
use ari.Enrollment.{
  EnrollmentManager, EnrollmentError, timeout, sync_response_for, handle_sync_request,
}
use ari.Enrollment.Joining.{Services, Node, send_back}
use ari.Enrollment.Bootstrap.{handle_cdap_message}
use ari.Enrollment.Member.{try_enrol, ask}
use ari.InterIpcpFal.{shim_send}
use ari.Enrollment.Wire.{sync_rib_over_shim}
use ari.Enrollment.Wire.Postcard.{
  Reader, Postcard, write_message, read_message, read_some, and_then,
}
use ari.Enrollment.Wire.Unread.{
  write_all, read_times, IsPostcard, over_postcard, sync_rib_over_shim-handle_cdap_message,
}
use ari.Rib.Value.{RibChange, deleted}
use ari.Cdap.{new_sync_request}
use ari.Enrollment.Wire.Silence.{sync_rib_over_shim_silent}
use ari.Enrollment.Retry.{
  Inbox, Monitor, enrol_with_bootstrap, attempts, monitor_step, start_connection_monitoring,
}
use ari.Enrollment.Retry.Failure.{
  Concludes, delays, total, enrol_with_bootstrap_ends, total-enrol_with_bootstrap,
}
use ari.Enrollment.Retry.Monitoring.{beaten, Watched, monitor_step-Watched, monitor_step_stuck}
use ari.Actors.{Stack, RmtActor, receive_packet, rmt_step, process_outgoing, outgoing, rmt_failed}
use ari.Actors.Receiving.{receive_packet_local}
use ari.Actors.Queueing.{send_times, rmt_step-send_times}
use ari.Config.{bootstrap, CliArgs, from_cli, from_arguments, validate}
use ari.Config.Valid.{validate-from_cli}

-- Nothing can be encoded, and nothing arrives.
abbrev silent : Services ℕ
silent = record {
  message = record { encode = λ msg. none; decode = λ bs. none };
  request = record { encode = λ req. none; decode = λ bs. none };
  response = record { encode = λ resp. none; decode = λ bs. none };
  objects = record { encode = λ objs. none; decode = λ bs. none };
  transmit = λ addr pdu. none;
  show = λ port. "7000";
}

abbrev empty_inbox : Inbox
empty_inbox attempt = []

abbrev nobody : EnrollmentManager
nobody = Enrollment.new Store.new 0

enrol_with_bootstrap_ends_example :
    Concludes 1 9 nobody
      (delays nobody.config 1 2)
      (enrol_with_bootstrap silent [] 1 9 empty_inbox nobody)
      (enrol_with_bootstrap silent [] 1 9 empty_inbox nobody).answer
unfolding Enrollment.new Enrollment.with_config
enrol_with_bootstrap_ends_example = enrol_with_bootstrap_ends silent [] 1 9 empty_inbox nobody

total-enrol_with_bootstrap_example :
    total (enrol_with_bootstrap silent [] 1 9 empty_inbox nobody).slept + 1000 ≡ 4000
unfolding Enrollment.new Enrollment.with_config enrol_with_bootstrap attempts try_enrol
total-enrol_with_bootstrap_example =
    total-enrol_with_bootstrap silent [] 1 9 empty_inbox nobody (timeout 3) refl (omega arith)
      (omega arith)

-- What is encoded cannot be decoded.
abbrev deaf : Services ℕ
deaf = record silent { message = record { encode = λ msg. some (1 ∷ []); decode = λ bs. none } }

abbrev late : EnrollmentManager
late = record nobody { bootstrap_addr = some 1 }

sync_rib_over_shim_silent_example :
    sync_rib_over_shim deaf
      ((1, 7001) ∷ [])
      9
      late
      (ok none ∷ ok (some (new_data 1 0 0 0 0 (2 ∷ []))) ∷ err "" ∷ [])
    ≡ (late, err (timeout 1))
unfolding ask shim_send get Enrollment.new Enrollment.with_config
sync_rib_over_shim_silent_example =
    sync_rib_over_shim_silent deaf ((1, 7001) ∷ []) 9 late 1 refl
      (ok none ∷ ok (some (new_data 1 0 0 0 0 (2 ∷ []))) ∷ err "" ∷ []) 7001 refl
      (tt, (refl, (tt, tt)))

abbrev watcher : Monitor
watcher = record {
  bootstrap_addr = none;
  ipcp_name = none;
  local_addr = 1;
  config = Enrollment.default_config;
}

abbrev alone : EnrollmentManager
alone = Enrollment.new_bootstrap Store.new 1 1001 1002 0

monitor_step-Watched_example :
    Watched alone (monitor_step silent [] (100 * 10 ^ 9) empty_inbox watcher alone)
monitor_step-Watched_example =
    monitor_step-Watched silent [] (100 * 10 ^ 9) empty_inbox watcher alone

monitor_step_stuck_example :
    ((monitor_step silent [] (100 * 10 ^ 9) empty_inbox watcher alone).re_enrollment_in_progress
      ≡ true)
    × ((w : Monitor) (now : ℕ) (inbox : Inbox) (heartbeat : Option ℕ)
        → monitor_step silent [] now inbox w
            (beaten heartbeat (monitor_step silent [] (100 * 10 ^ 9) empty_inbox watcher alone))
          ≡ beaten heartbeat (monitor_step silent [] (100 * 10 ^ 9) empty_inbox watcher alone))
unfolding Enrollment.new_bootstrap start_connection_monitoring
monitor_step_stuck_example =
    monitor_step_stuck silent [] alone watcher (100 * 10 ^ 9) empty_inbox refl refl refl

-- A form in which a number and a change are one element, and the head of a message none.
abbrev first_number : Reader ℕ
first_number [] = none
first_number (n ∷ rest) = some (n, rest)

abbrev some_change : RibChange
some_change = deleted "/a" 1 2

abbrev first_change : Reader RibChange
first_change [] = none
first_change (b ∷ rest) = some (some_change, rest)

abbrev with_tag : {A : Type 0} → (A → List ℕ) → Option A → List ℕ
with_tag write none = 0 ∷ []
with_tag write (some x) = 1 ∷ write x

abbrev by_tag : {A : Type 0} → Reader A → Reader (Option A)
by_tag read [] = none
by_tag read (zero ∷ rest) = some (none, rest)
by_tag read (suc n ∷ rest) = read_some (read rest)

abbrev plain_form : Postcard
plain_form = record {
  number = record { write = λ n. n ∷ []; read = first_number };
  byte = record { write = λ n. n ∷ []; read = first_number };
  text = record { write = λ t. []; read = λ bs. some ("", bs) };
  change = record { write = λ c. 7 ∷ []; read = first_change };
  head = record { write = λ msg. []; read = λ bs. some (new_sync_request 1 0 "m", bs) };
  write_option = with_tag;
  read_option = by_tag;
  write_seq = λ write xs. length xs ∷ write_all write xs;
  read_seq = λ read bs. and_then (first_number bs) (read_times read);
}

first_change_consumes :
    (bs : List ℕ) (x : RibChange) (rest : List ℕ)
    → first_change bs ≡ some (x, rest)
    → length rest < length bs
first_change_consumes [] x rest e = absurd (ground arith)
first_change_consumes (b ∷ bs) x rest e =
    omega (arith, ap (λ (o : RibChange × List ℕ). length o.1) (some-injective _ _ e))

plain_form-IsPostcard : IsPostcard plain_form
plain_form-IsPostcard = record {
  number_exact = λ n rest. refl;
  change_framed = λ c rest. (some_change, refl);
  change_consumes = first_change_consumes;
  head_framed = λ msg rest. (new_sync_request 1 0 "m", refl);
  one_byte = λ b. refl;
  option_written = λ write x. refl;
  option_read = λ read rest. refl;
  option_missing = λ read. refl;
  seq_written = λ write xs. refl;
  seq_read = λ read bs. refl;
}

abbrev asked_node : Node ℕ
asked_node = record { manager = alone; peers = (5, 7005) ∷ [] }

abbrev sync_response : Pdu
sync_response =
    new_data 1 5 0 0 0 (write_message plain_form (sync_response_for silent.objects alone.rib 1 0))

sync_rib_over_shim-handle_cdap_message_example :
    sync_rib_over_shim
      (over_postcard silent plain_form)
      ((1, 7001) ∷ [])
      9
      late
      ([] ++ ok (some sync_response) ∷ [])
    ≡ (late, err (timeout 1))
unfolding ask shim_send get Enrollment.new Enrollment.with_config Enrollment.new_bootstrap
    read_message handle_cdap_message handle_sync_request send_back
sync_rib_over_shim-handle_cdap_message_example =
    sync_rib_over_shim-handle_cdap_message silent plain_form plain_form-IsPostcard ((1, 7001) ∷ [])
      9 late 1 asked_node (new_data 5 1 0 0 0 (0 ∷ [])) 7005 8 1 0 "m" 7005 7001 sync_response [] []
      refl refl refl refl tt tt

abbrev to_two : Rmt
to_two =
    add_forwarding_entry (Rmt.set_default_queue_size (Rmt.new 1) 2)
      (record { dst_addr = 5; next_hop = 2; cost = 1 })

abbrev actor : RmtActor ℕ
actor = record { rmt = to_two; flow_allocator = none }

abbrev stack : Stack ℕ
stack = record { efcp = Efcp.new; rmt_actor = actor; has_rmt_handle = true }

abbrev for_us : Pdu
for_us = new_data 5 1 3 4 0 (6 ∷ [])

receive_packet_local_example :
    receive_packet silent.transmit
      (λ bs. some for_us)
      stack.rmt_actor.rmt.local_addr
      stack
      (1 ∷ [])
      9
    ≡ stack
unfolding add_forwarding_entry Rmt.set_default_queue_size Rmt.new
receive_packet_local_example =
    receive_packet_local silent.transmit (λ bs. some for_us) stack (1 ∷ []) for_us 9 refl refl

abbrev for_five : Pdu
for_five = new_data 1 5 3 4 0 (6 ∷ [])

rmt_step-send_times_example :
    rmt_step silent.transmit
      (send_times silent.transmit 2 actor for_five 9)
      (process_outgoing for_five)
      9
    ≡ (send_times silent.transmit 2 actor for_five 9, outgoing (err (rmt_failed queue_full)))
unfolding add_forwarding_entry Rmt.set_default_queue_size Rmt.new lookup ensure_queue get insert
rmt_step-send_times_example =
    rmt_step-send_times silent.transmit 2 actor for_five 9 2 (record { queue = []; max_size = 2 })
      (record { elsewhere = refl; routed = refl; queued = refl }) refl

abbrev options : CliArgs
options = record {
  config = none;
  name = some "p";
  mode = bootstrap;
  dif_name = some "net";
  address = some 1;
  bind = some "0.0.0.0:7000";
  bootstrap_peers = none;
  address_pool_start = 1002;
  address_pool_end = 1999;
}

bind_given : options.bind ≢ some ""
bind_given e =
    let same = (==_iff {K = String} "0.0.0.0:7000" "").1 (some-injective _ _ e) in
    absurd (cc (same))

validate-from_cli_example :
    validate (from_arguments "p" bootstrap "net" (some 1) "0.0.0.0:7000" [] 1002 1999) ≡ ok tt
unfolding from_cli
validate-from_cli_example =
    validate-from_cli (λ path. err "") options
      (from_arguments "p" bootstrap "net" (some 1) "0.0.0.0:7000" [] 1002 1999) refl bind_given
      (λ e. absurd (ground (arith, e))) refl

abbrev old_route : RouteMetadata
old_route = record {
  destination = 5;
  next_hop_address = "10.0.0.5:7000";
  created_at = 100;
  ttl_seconds = 60;
}

abbrev snapshot : RouteSnapshot
snapshot = new_snapshot (old_route ∷ []) 110

abbrev keeper : RouteResolver
keeper = Routing.new Store.new (record default_config { enable_persistence = true })

load_snapshot-Restores_example :
    Restores
      (λ text. some 7000)
      silent.show
      120
      (old_route ∷ [])
      ((7000, refl), tt)
      0
      keeper
      (load_snapshot (λ text. some 7000) silent.show 120 keeper (some (ok snapshot)))
unfolding filter_valid is_expired
load_snapshot-Restores_example =
    load_snapshot-Restores (λ text. some 7000) silent.show 120 keeper snapshot ((7000, refl), tt)
      refl
