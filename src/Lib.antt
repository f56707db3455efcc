-- ===== src/Lib.antt =====
-- Verification of ARI, an implementation of the Recursive Internetwork Architecture (RINA) in Rust.
--
-- An IPC process (src/ipcp.rs, set up by src/config.rs) keeps its state in a Resource Information
-- Base (RIB), which a bootstrap process gives to its members, first as a snapshot and then as
-- incremental changes (src/rib.rs, carried by the messages of src/cdap.rs). A member enrolls with
-- its bootstrap process, which gives it an address and the RIB, and asks it for changes by
-- synchronisation (src/enrollment.rs). PDUs (src/pdu.rs) go from a flow of the error and flow
-- control protocol (src/efcp.rs) to the relaying and multiplexing task (src/rmt.rs), which queues
-- them for the next hop; actors (src/actors.rs) pass the messages between the two. Routing,
-- scheduling and QoS policies are src/policies. A next hop is reached through a flow to a neighbour
-- (src/inter_ipcp_fal.rs), by routes in the RIB (src/routing.rs), over UDP (src/shim.rs). Names and
-- addresses are given out by src/directory.rs, flows by src/fal.rs.
--
-- Which file models which part:
-- - Pdu: src/pdu.rs.
-- - Rib: src/rib.rs. Rib/Value has the objects and the changes, Rib/ChangeLog the bounded log
--   (`RibChangeLog`), Rib/Store the methods that create, update and delete, Rib/Receive the methods
--   that take in what another process sent (`merge_objects`, `apply_changes`, `deserialize`),
--   Rib/File the snapshot files and the task that saves them. Rib/History, Rib/Sync, Rib/Retention,
--   Rib/Intake, Rib/Merge, Rib/Snapshot and Rib/Restart are proofs about them.
-- - Cdap: src/cdap.rs, with Cdap/Session for the numbering of requests and Cdap/Remote for what a
--   request does at the other end.
-- - Efcp: src/efcp.rs. Efcp/Window, Efcp/Delivery and Efcp/Table are about the send window, the
--   delivery of data and the table of flows.
-- - Rmt: src/rmt.rs. Rmt/Queues and Rmt/Processing are about one call, Rmt/Reach about all states.
-- - Policies: src/policies/scheduling.rs (Policies/Fifo, Policies/Priority) and src/policies/qos.rs
--   (Policies/Qos), src/policies/routing.rs (Policies/ShortestPath: Walks says what a route is,
--   Steps and Rounds are about the search, Traces and Tables about the table, Correct about the
--   policy).
-- - Directory: src/directory.rs, with Directory/Pool for `AddressPool`; Directory/Names and
--   Directory/Pool/Allocation are about them.
-- - Fal: src/fal.rs, with Fal/Handshake about its operations together.
-- - Enrollment: src/enrollment.rs. Enrollment itself has the manager, `handle_sync_request` and
--   what `sync_rib` does with its response; Enrollment/Joining the messages, the address and the
--   response, Enrollment/Bootstrap the handlers of a bootstrap process, Enrollment/Member an
--   attempt (`try_enrol`) and `sync_routes_from_bootstrap`, Enrollment/Wire `sync_rib` with
--   `receive_sync_response` and `start_sync_task`, Enrollment/Wire/Postcard the form in which a
--   message is sent, Enrollment/Retry the retries, the heartbeat and a round of the connection
--   monitoring. Enrollment/Rounds and Enrollment/Full are about the handlers at both ends alone,
--   without the messages between them; Enrollment/Wire/Silence and Enrollment/Wire/Unread are about
--   synchronisation as the program does it, over the shim; Enrollment/Joined about a member and a
--   bootstrap process together; each file's children are about its operations.
-- - Routing: src/routing.rs, with Routing/Persistence for its snapshot file. Routing/Objects,
--   Routing/Lifetime and Routing/Lookup are about routes that are added and then looked up.
-- - Actors: src/actors.rs, the loop bodies of the RIB, EFCP and RMT actors and the receiver task.
-- - Ipcp: src/ipcp.rs. Config: src/config.rs. Shim: src/shim.rs.
-- - InterIpcpFal: src/inter_ipcp_fal.rs, with the peer table and `send_pdu` of src/shim.rs as it
--   uses them. InterIpcpFal/Mapped and InterIpcpFal/Reach are about all states,
--   InterIpcpFal/Sending about one PDU.
-- - Base, Map and Text hold what the parts share: tests into Bool, results, lists, hash maps as
--   association lists, decimal numbers. Examples has a concrete run for each result with
--   conditions.
--
-- How the code is read. A method on a shared structure is a function from the state to the state
-- and its answer, so each method runs alone; locks and the order in which tasks take them are not
-- modelled. The clock is an argument `now`. Unsigned integers are natural numbers, and an addition
-- that may pass 2^32 or 2^64 wraps, as in the release profile. A hash map is an association list,
-- and nothing that is said depends on the order of its entries. An error is a value of a data type
-- in place of the source's text, save in Cdap, Ipcp and Config. The postcard encoding of what is
-- sent is a parameter, and so are socket addresses, their texts, the UDP socket, and what file
-- operations do. Clones of a RIB share one store, so a bootstrap process's route resolver is given
-- its manager's RIB; the shim of the inter-IPCP flow allocator is shared too, so in
-- InterIpcpFal/Reach others register peers with it between two calls. An attempt to enroll polls a
-- list of what the socket gives until the deadline; where the list is used up, the deadline has cut
-- the attempt off. An actor takes one message at a time, so a message is a step.
--
-- Loops are structural, over the list, the number of addresses, the polls or the attempts that they
-- go through, with three exceptions. The search of Policies/ShortestPath has the number of nodes as
-- fuel, which is enough as every round takes one node out; its trace back has one step more than
-- that, which is enough as the nodes on it are all visited and differ. The decimal digits of a
-- number use the number itself as fuel.
--
-- Not modelled: the sockets and the file system, which are arguments, and so the shim's actor,
-- which only calls the shim; the channels and tasks of src/actors.rs; the task that repeats the
-- connection monitoring (src/enrollment.rs); the parsing of arguments and TOML by the libraries
-- that do it (src/config.rs, src/routing.rs); the wiring of src/main.rs; the error texts of
-- src/error.rs.
mod Base
pub mod Map
pub mod Text
pub mod Pdu
pub mod Rib
pub mod Efcp
pub mod Rmt
pub mod Shim
pub mod Policies
pub mod Directory
pub mod Fal
pub mod Cdap
pub mod Enrollment
pub mod InterIpcpFal
pub mod Routing
pub mod Actors
pub mod Ipcp
pub mod Config
mod Examples
