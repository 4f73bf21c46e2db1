-- ===== src/Witnesses/FirstNetworks.antt =====
-- The theorems of NetV1/Network on sessions and on the way of a message, at concrete calls.
use ping_pong_libp2p.Base.{ℕ, ◌+◌, ◌≤◌, ◌≡◌, refl, false, none, some, List, [], ◌∷◌, arith}
use ping_pong_libp2p.Queues.{waiting}
use ping_pong_libp2p.Base.Assoc.{get}
use ping_pong_libp2p.Base.Iterators.{find_map}
use ping_pong_libp2p.Io.{ok}
use ping_pong_libp2p.Text.{text, text_beq, split, contains}
use ping_pong_libp2p.Frame.{to_be_bytes}
use ping_pong_libp2p.Frame.Exchange.{frame}
use ping_pong_libp2p.NetV1.Protocol
use ping_pong_libp2p.NetV1.Network.Delivery.{on_message-send}
use ping_pong_libp2p.NetV1.EventLoop.Waiting.{commands}
use ping_pong_libp2p.NetV1.Types.{GlobalAddress, NetworkCallbacks, on_message, ping, pong}
use ping_pong_libp2p.NetV1.NetworkLayer.Ids.{Request, Session, run}
use ping_pong_libp2p.NetV1.EventLoop.{
  Loop, NetworkCommand, Wake, command, swarm_event, incoming, connection_closed, new_listen_addr,
  extract_peer_id, step, event_loop, start,
}
use ping_pong_libp2p.NetV1.EventLoop.Cost.{failures}
use ping_pong_libp2p.NetV1.Network.{LibP2PNetwork, new, send, listen}
use ping_pong_libp2p.NetV1.Network.Contract.{network_layer, takes}
use ping_pong_libp2p.NetV1.Network.Failures.{send_errors_at_most_once}
use ping_pong_libp2p.Witnesses.Toy.{
  Net, wire_net, wire_laws, wire_close, wire-Takes, Part, other_part, p2p_part,
}
use ping_pong_libp2p.Witnesses.Pipes.{tagged_first, tagged_first_laws}

abbrev offline : Net
offline = record { wire = []; peer = none; refuses = false; listens = [] }

abbrev silent : NetworkCallbacks
silent = record { on_peer_connected = false; on_peer_disconnected = false }

abbrev idle : Loop wire_net
idle = start wire_net tagged_first offline silent

abbrev multi_s : List Part
multi_s = other_part (text "ws") ∷ p2p_part (text "S") ∷ []

abbrev far : GlobalAddress
far = text "/ws/p2p/S"

-- The loop binds an address.
abbrev bound : Wake wire_net
bound = swarm_event (new_listen_addr (other_part (text "ws") ∷ []))

-- The second address names no peer.
abbrev calls : Session (network_layer wire_net tagged_first)
calls =
    (idle, Request.send far (ping (text "a")))
    ∷ (idle, Request.listen (takes [] (bound ∷ [])) (text "/ws"))
    ∷ (idle, Request.send (text "/ws") (pong (text "b")))
    ∷ []

-- The loop has taken the first two commands.
abbrev turns : List (Wake wire_net)
turns =
    command (NetworkCommand.send 1 far (ping (text "a")))
    ∷ swarm_event (connection_closed (text "T"))
    ∷ command (NetworkCommand.listen (text "/ws") 0)
    ∷ []

abbrev manager : LibP2PNetwork wire_net
manager = record {
  next_message_id = 1;
  local_peer_id = text "A";
  command_tx = [];
  next_response = 0;
}

send_errors_at_most_once_example :
    let l = event_loop wire_net tagged_first turns idle in
    ((run (network_layer wire_net tagged_first) calls manager).0 ≡ 1 ∷ 2 ∷ [])
    × (failures 1 l.calls + waiting 1 l.pending_sends ≤ 1)
unfolding new send listen get event_loop contains
send_errors_at_most_once_example =
    send_errors_at_most_once 1 tagged_first (ok (offline, text "A")) silent manager idle calls turns
      (NetworkCommand.send 2 (text "/ws") (pong (text "b")) ∷ []) refl (omega arith) refl

-- A loop that is connected to `S`, and a node to which the bytes have come.
abbrev linked : Loop wire_net
linked = record idle { net = record offline { peer = some (text "S") } }

abbrev hello : List ℕ
hello = 0 ∷ text "hello"

abbrev hearing : Loop wire_net
hearing = record idle { net = record offline { wire = frame hello } }

on_message-send_example :
    let (id, self') = send far (ping (text "hello")) manager in
    let sent = event_loop wire_net tagged_first (commands self'.command_tx) linked in
    (id ≡ 1)
    × (sent.calls ≡ [])
    × (sent.net.wire ≡ frame hello)
    × ((step wire_net tagged_first (incoming (text "A") tt) hearing).calls
        ≡ on_message (text "A") (ping (text "hello")) ∷ [])
unfolding send split text_beq contains extract_peer_id find_map wire_laws Protocol.send_message
    to_be_bytes event_loop
on_message-send_example =
    on_message-send wire_laws wire_close tagged_first tagged_first_laws far (ping (text "hello"))
      manager linked hearing multi_s (text "S") (text "A") hello tt tt linked.net refl refl refl
      refl refl wire-Takes refl (ground arith) refl
