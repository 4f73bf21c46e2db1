-- ===== src/Lib.antt =====
-- The Meerkat ping-pong repository, written in Rust: the network layer meerkat-net-v2, its
-- first version meerkat-net, and the demo programs that exchange pings and pongs.
--
-- The program's parts and their files here. meerkat-net-v2/src/types.rs and messages.rs (the
-- data that clients and nodes exchange) are NetV2/Types and NetV2/Messages; protocol.rs (a
-- message on a stream, behind a length of four bytes) is NetV2/Protocol. actor.rs is four
-- parts: the addresses (`translate_address`, `extract_peer_id`) are NetV2/Address; the task
-- that owns the swarm (`event_loop`, `do_send`, `send_to_peer`, `handle_incoming`,
-- `handle_swarm_event`) is NetV2/EventLoop, with the commands and events that wake it in
-- NetV2/EventLoop/Signals; the actor that clients talk to (`new`, `handle_command`,
-- `local_peer_id`, `try_recv_event`) is NetV2/Actor; and `MeerkatBehaviour` and `build_swarm`
-- are NetV2/Swarm. mock.rs, the network in memory, is NetV2/Mock, and network_layer.rs, the
-- trait that both implement, is NetV2/NetworkLayer. A client gives a command to the actor; the
-- actor numbers messages, translates the address and hands a `SwarmCommand` to the loop; the
-- loop queues messages for peers that are not connected, sends them when a connection is
-- established, and reports events, which the client takes with `try_recv_event`.
-- NetV2/EventLoop/Cost counts what becomes of a message, NetV2/Actor/Failures puts the actor
-- and the loop together, and NetV2/Actor/Delivery two actors with their loops and the stream
-- between them, and NetV2/Actor/Relaying a node and its relay.
--
-- The first version, meerkat-net: types.rs and interface.rs are NetV1/Types; protocol.rs is
-- NetV1/Protocol; libp2p_net.rs is two parts, the task that owns the swarm (`event_loop`, `handle_send`, `send_to_peer`,
-- `handle_incoming_stream`, `handle_swarm_event`) in NetV1/EventLoop and the methods of
-- `LibP2PNetwork` in NetV1/Network. It calls the manager back where the second version sends
-- events: a call is a value, and `calls` lists them. mock.rs is NetV1/Mock: its nodes share one
-- map of listeners, and each send is delivered by a thread of its own, which wakes at any later
-- time. NetV1/Mock/Runs has the step relation of nodes and threads. The trait `NetworkLayer` of
-- interface.rs is NetV1/NetworkLayer, which NetV1/Network/Contract and NetV1/Mock/Contract
-- implement; in NetV1/Network/Contract the loop runs while `listen` waits for its answer.
-- NetV1/Network/Failures puts the network and its loop together, NetV1/Network/Delivery two
-- nodes with the stream between them, and Queues has the counting of waiting messages that both
-- versions use.
--
-- The demo: shared/src/lib.rs is Demo; server/src/main.rs (`main`, `handle_ping`) is
-- Demo/Server; client/src/main.rs (`main`, `send_pings`, `send_ping`) is Demo/Client;
-- wasm-client/src/lib.rs (`connect_to_server`, `send_ping`, `extract_peer_id`, with its statics
-- as a state) is Demo/Browser. Demo/Peers compares how all programs read the peer of an
-- address, and as they frame their messages alike, Frame/Exchange has what holds of a frame
-- whoever reads or writes it. The server's tasks are stepped from `await` to `await`:
-- Demo/Server/Tasks is about one task alone, Demo/Server/Isolation and Demo/Server/Beside about
-- what it leaves of the others' streams, Demo/Server/Stages and Demo/Server/Progress about one
-- task among others, Demo/Server/Runs about a whole run of `main`, and Demo/Server/Main and
-- Demo/Server/Rejects about what becomes of a ping and of anything else. Demo/Client/Rounds and
-- Demo/Client/Main are about the rounds of the client, and Demo/Client/Served about the client
-- and the server together.
--
-- How state and effects are modelled. The state of the actor, of the loop and of a mock node is
-- a record; a handler is a function from state to state. One turn of `select!` is `step`; a
-- spawned task that reads one stream is one step too, at the moment that it ends (the demo's
-- server has a list of its tasks, and a turn of one, up to its next `await`, is a step); and a
-- run of the loop is `event_loop` on the list of what woke it, in any order. What is sent on a
-- channel that the sender never reads is a list, oldest first (`event_tx`, `command_tx`,
-- `replies`). What a handler waits for on a oneshot channel is an argument of it. A u64 counter
-- wraps at 2 ^ 64, as it does without overflow checks.
--
-- Parameters. libp2p (the swarm, multiaddrs, peers, streams), serde_json and the channels of
-- tokio are not of this repository: Deps declares them as records of operations, and beside
-- them the documented laws that theorems rely on, which appear there as hypotheses;
-- Witnesses/Toy and Witnesses/Pipes have small instances that meet the laws. Rust's own
-- `String`, `HashMap`, `Result` and `u32` are Text, Base/Assoc, Io and Frame. Base has the
-- shared names and lemmas on lists, tests and options.
--
-- Bounds and fuel. The loops of the code that run over a collection are recursion on a list,
-- and so is a run of `event_loop`, of any finite length, and the wait for a connection, over
-- the events of the swarm. `send_pings`, and so the client's `main`, takes fuel, one for each
-- round; it has no bound of its own, and the theorem on it says which round ends it and that
-- fuel for that round is enough. `digits` takes fuel for each digit; `decimal` gives one more
-- than the number, which Text/Decimal shows to be enough.
--
-- Not modelled: driving a swarm between the calls of it; handing tasks to an executor
-- (`spawn_event_loop`); printing and logs; and the buffers that readers allocate. The two `new`
-- take what their `build_swarm` gave, a swarm or an error, as an argument; the demo's programs
-- call theirs.
pub mod Base
pub mod Demo
pub mod Deps
pub mod Frame
pub mod Io
pub mod NetV1
pub mod NetV2
pub mod Queues
pub mod Text
pub mod Witnesses
