-- ===== src/Witnesses/Journeys.antt =====
-- A message on its way between two concrete nodes, and the loop in longer runs.
use ping_pong_libp2p.Io.{Result, ok}
use ping_pong_libp2p.NetV2.Actor.Relaying.{handle_command-listen_via_relay}
use mathlib.Core.List.{Sublist}
use ping_pong_libp2p.NetV2.EventLoop.Order.{waiting-Sublist}
use ping_pong_libp2p.Base.{
  ℕ, ◌≡◌, refl, Bool, true, false, Bool-cases, none, some, inl, inr, List, [], ◌∷◌, ◌++◌, arith,
}
use ping_pong_libp2p.Text.{Text, text, text_eq, text_beq, split, contains}
use ping_pong_libp2p.Frame.{to_be_bytes}
use ping_pong_libp2p.Frame.Exchange.{frame}
use ping_pong_libp2p.NetV2.Types.{Address, server, ping}
use ping_pong_libp2p.NetV2.Messages.{
  listen_via_relay, listen_success, NetworkEvent, send_message, message_sent, message_received,
}
use ping_pong_libp2p.NetV2.Protocol
use ping_pong_libp2p.NetV2.Address.{extract_peer_id}
use ping_pong_libp2p.NetV2.EventLoop.{
  send_messages, entry, start, Loop, send_to_peer, step, event_loop,
}
use ping_pong_libp2p.NetV2.EventLoop.Signals.{
  SwarmCommand, Wake, command, incoming, swarm_event, connection_established, new_listen_addr,
}
use ping_pong_libp2p.NetV2.Actor.{NetworkActor, handle_command, try_recv_event}
use ping_pong_libp2p.NetV2.Actor.Delivery.{
  woken, receive, ready, asked, try_recv_event-handle_command,
}
use ping_pong_libp2p.Witnesses.Toy.{
  Net, wire_net, wire_laws, wire_close, wire-Takes, tagged, tagged_laws, list_channel,
  list_channel_laws, other_part, circuit_part, p2p_part, Part,
}

abbrev offline : Net
offline = record { wire = []; peer = none; refuses = false; listens = [] }

abbrev quiet : Loop wire_net
quiet = record {
  net = offline;
  pending_sends = [];
  pending_listen = none;
  pending_relay = none;
  event_tx = [];
  replies = [];
}

abbrev sender : NetworkActor wire_net list_channel
sender = record {
  next_message_id = 4;
  local_peer_id = text "A";
  local_addrs = [];
  node_type = server;
  command_tx = [];
  event_rx = [];
  next_reply = 0;
}

abbrev addr_s : Address
addr_s = text "/ws/p2p/S"

abbrev multi_s : List Part
multi_s = other_part (text "ws") ∷ p2p_part (text "S") ∷ []

abbrev hello : List ℕ
hello = 0 ∷ text "hello"

-- The stream of the receiver, on which the message is to arrive.
abbrev receiving : Loop wire_net
receiving = record quiet { net = record offline { wire = frame hello } }

-- While the dial is under way, an address is bound and another peer connects.
abbrev meanwhile : List (Wake wire_net)
meanwhile =
    swarm_event (new_listen_addr (other_part (text "ws") ∷ []))
    ∷ swarm_event (connection_established (text "T"))
    ∷ []

try_recv_event-handle_command_example :
    let turns =
      command (SwarmCommand.send 4 addr_s (ping (text "hello"))) ∷ meanwhile
      ++ (swarm_event (connection_established (text "S")) ∷ []) in
    ((handle_command none (send_message addr_s (ping (text "hello"))) sender).0 ≡ message_sent 4)
    × ((event_loop wire_net tagged turns quiet).event_tx
        ≡ (ready tagged
            (text "S")
            (asked none addr_s (ping (text "hello")) sender ++ meanwhile)
            quiet).event_tx)
    × ((event_loop wire_net tagged turns quiet).net.wire ≡ frame hello)
    × ((es : List NetworkEvent) × ((step wire_net tagged
            (incoming (text "A") tt)
            receiving).event_tx
          ≡ [] ++ es)
        × ((try_recv_event (record sender { event_rx = receive list_channel [] es })).0
            ≡ some (message_received (text "A") (ping (text "hello")))))
unfolding split text_beq contains extract_peer_id wire_laws Protocol.send_message to_be_bytes
    list_channel_laws handle_command event_loop ping_pong_libp2p.NetV2.EventLoop.send_messages
    ping_pong_libp2p.NetV2.EventLoop.entry ping_pong_libp2p.NetV2.EventLoop.forget
    ping_pong_libp2p.NetV2.EventLoop.listen_on_relay ping_pong_libp2p.Base.Assoc.get
    ping_pong_libp2p.Base.Assoc.insert ping_pong_libp2p.Base.Assoc.remove
try_recv_event-handle_command_example =
    try_recv_event-handle_command wire_laws wire_close list_channel_laws tagged tagged_laws none
      addr_s (ping (text "hello")) sender sender quiet receiving multi_s (text "S") (text "A")
      meanwhile hello tt tt offline refl refl refl refl refl (tt, ((ground arith), tt)) refl
      wire-Takes refl (ground arith) refl refl

-- Messages wait for two peers.
abbrev crowded : Loop wire_net
crowded = record quiet {
  pending_sends =
      (text "S", (1, ping (text "a")) ∷ []) ∷ (text "T", (2, ping (text "b")) ∷ []) ∷ [];
}

-- Of three sends the second is to another peer, and a connection comes before the third.
abbrev sending : List (Wake wire_net)
sending =
    command (SwarmCommand.send 1 addr_s (ping (text "a")))
    ∷ command (SwarmCommand.send 2 (text "/ws/p2p/T") (ping (text "b")))
    ∷ swarm_event (connection_established (text "S"))
    ∷ command (SwarmCommand.send 3 addr_s (ping (text "c")))
    ∷ []

waiting-Sublist_example :
    Sublist
      (entry (event_loop wire_net tagged sending (start wire_net tagged offline)) (text "S"))
      ((1, ping (text "a")) ∷ (3, ping (text "c")) ∷ [])
unfolding split text_beq contains extract_peer_id
waiting-Sublist_example = waiting-Sublist (text "S") tagged sending offline

abbrev relay_addr : Address
relay_addr = text "/ws/p2p/R"

abbrev relay_multi : List Part
relay_multi = other_part (text "ws") ∷ p2p_part (text "R") ∷ []

abbrev circuit : List Part
circuit = other_part (text "ws") ∷ p2p_part (text "R") ∷ circuit_part ∷ p2p_part (text "A") ∷ []

handle_command-listen_via_relay_example :
    let answer : Result Address Text = ok (text "/ws/p2p/R/p2p-circuit/p2p/A") in
    let (reply, self') = handle_command (some answer) (listen_via_relay relay_addr) sender in
    let up = swarm_event (connection_established (text "R")) in
    let bound = swarm_event (new_listen_addr circuit) in
    let l1 = event_loop wire_net tagged (woken self'.command_tx ++ (up ∷ [])) crowded in
    let l2 = event_loop wire_net tagged (woken self'.command_tx ++ (up ∷ bound ∷ [])) crowded in
    ((ready : Loop wire_net) × (ready.net
        ≡ record offline { listens = text "/ws/p2p/R/p2p-circuit" ∷ [] })
      × (l1 ≡ send_messages wire_net tagged (text "R") (entry crowded (text "R")) ready))
    × (l2.replies ≡ (0, answer) ∷ [])
    × (l2.pending_relay ≡ none)
    × (l2.pending_listen ≡ none)
    × (reply ≡ listen_success (text "/ws/p2p/R/p2p-circuit/p2p/A"))
    × (self'.local_addrs ≡ text "/ws/p2p/R/p2p-circuit/p2p/A" ∷ [])
unfolding split text_beq contains extract_peer_id
handle_command-listen_via_relay_example =
    handle_command-listen_via_relay tagged relay_addr relay_multi circuit (text "R") sender crowded
      refl refl refl refl refl
