-- ===== src/Lib.antt =====
-- A model of the Reliable Service Framework: clients send requests to a broker, the broker forwards
-- each to the redundant copies of a server, votes on their replies, and answers with the majority.
-- Health checkers ping the broker and the servers and restart a process that is silent.
--
-- The parts, by file (paths of the repository):
-- Prelude: numbers, lists, maps and outcomes that all parts share. An outcome is a result, the exit
-- of the process, undefined behaviour of C++, or a loop that does not end.
-- Wire: include/communication.hpp, include/rsf_api.hpp, include/service.hpp, the messages and the
-- constants. A word travels as a number; `htonl` and its like are the parameter `ByteOrder`.
-- Time: src/utilities/util.cpp, `time_add_ms`, `time_add_ns`, `time_cmp`. Time.Laws reads times as
-- nanoseconds, and Time.Wait is `busy_wait`.
-- Database: src/broker/service_database_class.cpp. A record for each service, in an association
-- list for `std::unordered_map`. Database.Queue has the loops over pending requests, Database.Copies
-- that over the copies, Database.Table `print_htable`; Queue.Delete, Queue.Results, Pong,
-- Registration and Redundancy the proofs.
-- Vote: `RSF_Broker::vote` of src/broker/broker_class.cpp, with its `uint8_t` counters.
-- Broker: `RSF_Broker`. Request, Registration, Response, Heartbeat and Pending are its handlers,
-- Step is `step` and a run of it. A handler maps what it receives, the readings of the clock and
-- the contents of variables that are not set to the new state and the messages that it sends.
-- Response.Collect and Response.Masking follow one request through all its replies.
-- Broker.Ballots is what the broker promises for requests and replies, as ballots with no queues or
-- copies; Ballots.Events has the messages, Ballots.Refinement relates it to the handlers, and
-- Ballots.Late is about replies that come in behind an answer.
-- Broker.Steady is the broker once its services are available: Registering, Replies, Heartbeats and
-- Sweeping take the handlers one by one, Tally and Accounts keep the books of the clients, and
-- Rounds and Runs put them together to rounds of `step`. Steady.Startup leads there from the
-- constructor: the registrations alone, and Startup.Quiet, Loop and Rounds as rounds of `step` in
-- which no other message comes in and no timeout is over. Steady.Lifetime is the loop through both.
-- Startup.Partial is about a service some copies of which have not registered yet.
-- Service: src/server/service.cpp. Params: `serialize` and `deserialize`, with what they use of
-- `std::to_string` and of streams. Client: `request_service` of include/rsf_api.hpp.
-- Registrator: src/server/registrator_class.cpp and `register_service` of
-- src/framework/rsf_api.cpp. Server: src/server/server_class.cpp, with Server.Task for the thread
-- of a request; Server.Sequence and Server.Liveness have the proofs.
-- System: calls of `request_service` through the client, the broker and the copies, and back, and
-- the loop of src/client/client_test.cpp. The copies are connected to the dealer of their service,
-- and the broker handles all replies to a call before the next request comes in.
-- HealthChecker: both health checkers, src/health_checker_broker and src/health_checker_server.
-- Sockets, Arguments and Log: `add_socket`, `send_multi_msg`, `get_arg` and `write_log` of
-- src/utilities/util.cpp. Deployment: src/deployment_unit/deployment_unit.cpp, and the main program
-- src/health_checker_server/health_checker_server.cpp; Deployment.Programs has the other main
-- programs, and the sockets of the constructors, up to the loop that each program enters.
-- Tests: runs of the theorems on concrete data, with a little-endian `ByteOrder`.
--
-- Fuel: `delete_loop` runs for as many rounds as there are records, as the index goes up in each.
-- `digits` writes at most ten digits, as many as an `int32_t` has. `deployment_loop` has 256 rounds,
-- one more than its byte counts. `busy_wait` runs for as many rounds as it is given; it is shown how
-- many it needs. The endless loops of `step` are runs over the rounds that are given.
--
-- Integers that wrap have `% 2 ^ w` written out. Overflow of an `int32_t`, an index out of bounds and
-- a text with no end are undefined. Votes need `nmr` and the number of results to be at most 128, so
-- that the index of the winner fits the `int8_t`; the framework allows `MAX_NMR` = 5.
--
-- A local variable that is read before it is set (`result` in `get_response` and in
-- `check_pending_requests`, and parts of messages) holds an arbitrary value, which a handler takes as
-- an argument, although C++ leaves such a read undefined; only the unset function pointer of
-- `get_service_body` is undefined. The client number is a field of `IdFrame`, which the source reads
-- through a pointer that is not aligned.
--
-- Sends succeed: the option ROUTER_MANDATORY, by which a send to a client that is gone throws, is
-- left out. Not modelled: what ZeroMQ does behind `bind`, `connect`, `send` and `poll`; threads;
-- `getopt`, `localtime` and `mkdir`; failures of `fork`, of `execlp` and of allocation; and
-- destructors, which release what an object holds.
pub mod Prelude
pub mod Wire
pub mod Time
pub mod Database
pub mod Vote
pub mod Broker
pub mod Service
pub mod Params
pub mod Client
pub mod Registrator
pub mod Server
pub mod HealthChecker
pub mod Tests
pub mod Sockets
pub mod Arguments
pub mod Deployment
pub mod Log
pub mod System
