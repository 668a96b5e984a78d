-- ===== src/Lib.antt =====
-- TurboCore--DistAiClusher: a model of the cluster's protocol and services.
--
-- The program has three layers. Base (Base/) holds logging, configuration and a thread pool. Net
-- (Net/) is a reactor: buffers, channels over a poller, connections, an
-- event loop with tasks and timers, a server and a client. AiDist (AiDist/) is the cluster:
-- workers register with a registry server and send heartbeats; a scheduler asks the registry for the
-- nodes of a model, cuts jobs into slices and keeps their results; a gateway takes HTTP requests and
-- forwards them; all of them exchange packets, which are a transport header with a checksum and a JSON
-- text, over TCP connections that may cut the bytes anywhere.
--
-- The files, and the code that they model:
--   Prelude       shared names, lists, maps (std::unordered_map as an association list), exceptions
--                 (Result), size_t arithmetic (Size), bits and signed integers.
--   Protocol      AiDist/1 protocol.h. Words: big-endian words; Crc: crc32; Header: TransportHeader;
--                 Types: the enumerations; Json: the JSON library as a parameter; Messages: the
--                 structs with to_json and from_json; Packet: BasePacket and AiSchedulePacket.
--   Parser        AiDist/2 packet_parser.h and AiDist/2.  Packet_Parser.cpp: PacketParser, with the
--                 part of RegistryServer::OnMessage that feeds it.
--   Buffer        Net/Buffer.h and Net/Buffer.cpp: Buffer, the Linux branch of its socket calls.
--   Net           Channel: Net/Channel.h and Net/Chanenel.cpp; Poller: Net/EPollPoller.cpp, with the
--                 kernel's interest list; Connection: Net/TcpConnection.cpp, from its establishment to
--                 its destruction, with the output that waits in its buffer; Loop: the queue of tasks
--                 and the timers of Net/Eventloop.cpp; Server: Net/TcpServer.cpp, its table of
--                 connections and the choice of a loop; Client: Net/TcpClient.cpp, which connects again;
--                 Acceptor: Net/Acceptor.cpp.
--   Registry      NodeInfo: AiDist/3 Registry_NofeInfo.h; Manager: AiDist/4 Registry_Manager.h and
--                 AiDist/4. Registry_Manager.cpp; Server: the handlers of
--                 AiDist/5. Registry_Server.cpp, which call Manager and answer with packets, and in
--                 Messages the loop of OnMessage over the packets that arrive.
--   JobInfo       the records of AiDist/6 JobInfo.h; Slice: the JSON of TaskSlice.
--   JobManager    AiDist/7 JobManager.h and AiDist/7.  JobManager.cpp.
--   Gateway       AiDist/9 Gateway.h and AiDist/9. Gateway.cpp: the pending requests, with
--                 ForwardToBackend and OnBackendResponse; Routes: the handlers of the HTTP routes; Backends:
--                 the connections to the backends and the bytes that come from them.
--   Worker        AiDist/8 WorkerNode.h and AiDist/8. WorkerNode.cpp: registration, heartbeat and the
--                 execution of tasks.
--   Config        Base/Config.h and Base/Config.cpp: the tree of values, merge, lookup and reload.
--   Tests         runs of the definitions and the theorems at concrete inputs.
--
-- State is a record that a member function takes and returns; a byte is a number, a byte string a list
-- of numbers; an operation has the name of the source in snake case. A std::string that holds a name
-- is a String. Where a mutex guards a class, each call is one step and a history is a list of calls.
-- The clock is an argument of the calls that read it. int32_t fields are integers, with their range as
-- a condition where it matters; size_t and uint32_t arithmetic wraps where the source's does. The
-- assertions of Buffer are on, and undefined behaviour is a result of its own.
--
-- nlohmann::json is not part of the repository: it is the record JsonLib, a parameter, and what the
-- theorems need of it is JsonLaws. Tests/JsonText.antt has a library for which the laws hold. The
-- system calls are parameters of Buffer and Connection by their results. The floating point numbers,
-- the YAML reader, std::rand, the work that a task stands for and the HTTP library are parameters too,
-- of the modules that use them. A callback that the source stores is a field of the state or an
-- argument of the call that runs it, and what an object hands to its owner is a list of events.
-- Shutdown, ForceClose and Send of another thread test the unlocked state of a connection before they
-- go on; Net/Connection/Steps has the rest of such a call as a step of its own, at any later time. What
-- other threads ask of a loop comes in between what the running callback asks.
--
-- The loop of ParseAll runs on fuel, one more than the number of buffered bytes; each round shortens
-- the buffer, so the fuel is never used up. std::to_string of a clock reading makes at most 19 digits,
-- which hold every count of a 64-bit signed clock.
--
-- The times of Loop are counts of the steady clock. Its priority queue is a list, of which an earliest
-- timer is taken; timers of the same time come in the order in which they were added.
--
-- Not modelled: the thread pool and the logging of Base; the wrappers of sockets and addresses (except
-- the close of a socket), the thread and the wakeup socket of EventLoop, the destructor of TcpServer,
-- the poller and the other branches for Windows; the thread of the gateway's HTTP server.
pub mod Prelude
pub mod Protocol
pub mod Parser
pub mod Buffer
pub mod Registry
pub mod JobInfo
pub mod JobManager
pub mod Gateway
pub mod Net
pub mod Worker
pub mod Config
mod Tests
