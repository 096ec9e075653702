-- ===== src/Lib.antt =====
-- The control plane of the OpenAirInterface S/PGW: models of its transaction layers, with the timers,
-- the identifiers and the address pools that they and the sessions stand on.
--
-- The parts, and the files that model them:
--
-- - UidGenerator: `uint_generator` and `uint_uid_generator` of src/common/utils/uint_generator.hpp,
--   with `get_uid` and `free_uid`. Child Search.
-- - Timers: the timers of `itti_mw` in src/itti/itti.cpp, with `timer_setup`, `timer_remove` and the
--   sections of `timer_manager_task`. Threads has the calls of several threads with the parts that
--   the lock does not cover. Children Order, Arming and Removal, and Numbers and Removed of Threads.
-- - Tasks: the tasks and message queues of `itti_mw` in src/itti/itti.cpp. Child Queues.
-- - Pfcp: `pfcp_l4_stack` of src/pfcp/pfcp.cpp and src/pfcp/pfcp.hpp, and the message header of
--   src/pfcp/3gpp_29.244.hpp. MessageType has `check_request_type` and `check_response_type`; Header
--   the header with `dump_to` and `load_from`; State the state of the class and its timers; Send
--   and its children `send_request` and `send_response`; Receive has `handle_receive_message_cb`
--   and `time_out_event`. Consistency with its children is the invariant of the four maps; Exchange,
--   Retries, Unanswered, Transactions and Overloads follow a message through the stack.
-- - Gtpv2c: `gtpv2c_stack` of src/gtpv2c/gtpv2c.cpp and src/gtpv2c/gtpv2c.hpp, and the message header
--   of src/gtpv2c/3gpp_29.274.hpp, in modules of the same names. Faults, Retries, Answers and
--   Transactions follow a message through the stack.
-- - Paa: the pools of src/oai_spgwc/pgw_paa_dynamic.hpp: Ipv4Pool (`ipv4_pool`), Ipv6Pool
--   (`ipv6_pool`) and PaaDynamic (`apn_dynamic_pools` and `paa_dynamic`).
-- - UpNodes: the user-plane nodes of src/oai_spgwc/PfcpUpNodes.cpp and their associations in
--   src/oai_spgwc/pgw_pfcp_association.cpp, as one state. NodeId and Fseid are the identifiers of
--   src/common/3gpp_29.244.h; Node is `PfcpUpNode`; Associations the data, and the restoration of
--   sessions of src/oai_spgwc/pgwc_procedure.cpp; Registry `pfcp_associations`; Nodes `PfcpUpNodes`;
--   Heartbeats the calls of the timers and of the messages. Invariant with its children is about
--   every sequence of calls, Rounds about one heartbeat, Faults about what goes wrong.
-- - Pgw: the sessions of the packet gateway. Bearers has the bearers of a PDN connection of
--   src/oai_spgwc/pgw_context.hpp; State the objects, and the tunnel endpoints of
--   src/oai_spgwc/pgw_app.cpp; Contexts the operations of `apn_context` and `pgw_context` in
--   src/oai_spgwc/pgw_context.cpp; Requests what a create session request asks for, and CreateSession
--   its handler with `session_establishment_procedure::run` of src/oai_spgwc/pgwc_procedure.cpp.
--   Lookups, Teids, Freeing, Deletion, Entering, Unasked, Entry, Rejection and
--   Acceptance hold the proofs.
-- - Prelude: tests on numbers, lists, `std::map` as an association list (StdMap), words of fixed
--   width (Words), `std::bitset<32>` (Bitset), references from one map into another (Links), and the
--   interface of `folly::AtomicHashMap` (AtomicHashMap), which lies outside the repository: the parts
--   that use it take it as a parameter.
-- - Examples: the theorems at concrete states.
--
-- The parts meet as in the code: a stack holds the timers of the middleware and the generator of
-- identifiers, and calls `timer_setup`, `timer_remove`, `get_uid` and `free_uid` on them. A stack is a
-- record that each operation takes and gives back. What leaves through a socket or through
-- `notify_ul_error` is recorded in the lists `sent` and `notified`, newest first. The readings of the
-- clock are arguments. Integers wrap at their width where the code lets them; the counter of
-- retries is a byte. A read through a null pointer or through an iterator at the end, and a search
-- that does not end, are the value `none`.
--
-- The packet gateway takes addresses from the pools of Paa, asks UpNodes for a user-plane node, and
-- keeps its objects in one store, where a shared pointer is a number. The places of new objects and
-- the result of `send_msg` are arguments.
--
-- The loops that need fuel are the search of `get_uid`, whose fuel is one more than the number of
-- identifiers in use, and the same search of `generate_s5s8_cp_teid`, which also passes over 0 and has
-- one round more. Both are shown to be enough while an identifier is left. The loop of `alloc_free_bit`
-- runs over the words of the pool, and the loop over the bits of a word has 32 rounds.
--
-- Not modelled: the codecs of the information elements, which are carried along as bytes; sockets,
-- threads and logging; the shutdown of the middleware; the serving gateway, and of the packet gateway
-- the handlers of other messages than the create session request; the configuration. Two increments
-- of the counter of timers that overlap, which the code allows, are left out. A difference of two
-- `int` in `in_pool` wraps here, where C++ leaves it open; the theorems on addresses below the start
-- stay away from that case. A header that ends too early has no value, where the code goes on with the
-- members as they were.
-- The hashes of the standard library are parameters. A `std::set` of sessions is a list, as if its
-- order were one; where it is none is a result.
pub mod Prelude
pub mod UidGenerator
pub mod Timers
pub mod Tasks
pub mod Pfcp
pub mod Gtpv2c
pub mod Paa
pub mod UpNodes
pub mod Pgw
pub mod Examples
