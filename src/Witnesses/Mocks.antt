-- ===== src/Witnesses/Mocks.antt =====
-- The theorems of NetV2/Mock, and those of NetV2/NetworkLayer for the mock, at concrete nodes.
use ping_pong_libp2p.Base.{◌≡◌, ◌≢◌, refl, some, [], ◌∷◌, arith, nat_beq, if◌then◌else◌}
use ping_pong_libp2p.Base.Assoc.{get}
use ping_pong_libp2p.Text.{text, text_eq, text_beq, split}
use ping_pong_libp2p.NetV2.Types.{Address, ping}
use ping_pong_libp2p.NetV2.Messages.{send_message, message_sent, message_received}
use ping_pong_libp2p.NetV2.Mock.{
  MockNetwork, Registry, new_registry, new_with_registry, handle_command,
}
use ping_pong_libp2p.NetV2.Mock.Delivery.{IsAttached, events, handle_command-one_event}
use ping_pong_libp2p.NetV2.Mock.Registration.{new_with_registry_twice}
use ping_pong_libp2p.NetV2.Mock.Contract.{network_layer, mock_network-Contract}
use ping_pong_libp2p.NetV2.NetworkLayer.{Contract}
use ping_pong_libp2p.Witnesses.Toy.{list_channel, list_channel_laws}

abbrev host : MockNetwork
host = record { peer_id = text "h"; local_addrs = []; next_message_id = 1; event_rx = 0 }

abbrev client : MockNetwork
client = record { peer_id = text "c"; local_addrs = []; next_message_id = 1; event_rx = 1 }

-- Both nodes are attached, and nothing waits.
abbrev registry : Registry list_channel
registry = record {
  senders = (text "h", 0) ∷ (text "c", 1) ∷ [];
  queues = λ _. [];
  next_channel = 2;
}

abbrev home : Address
home = text "/ip4/1/p2p/h"

handle_command-one_event_example :
    let (reply, self', r') = handle_command (send_message home (ping (text "x"))) client registry in
    (reply ≡ message_sent 1)
    × (self' ≡ record client { next_message_id = 2 })
    × (events list_channel_laws r' 0 ≡ message_received (text "c") (ping (text "x")) ∷ [])
unfolding handle_command list_channel_laws get text_beq split
handle_command-one_event_example =
    handle_command-one_event list_channel_laws client home (ping (text "x")) registry 0 refl

new_with_registry_twice_example :
    let (first, r1) = new_with_registry 5 (new_registry list_channel) in
    let (second, r2) = new_with_registry 5 r1 in
    (first.event_rx ≢ second.event_rx)
    × IsAttached second r2
    × (get r2.senders first.peer_id
        ≡ some (if nat_beq 5 5 then second.event_rx else first.event_rx))
new_with_registry_twice_example =
    new_with_registry_twice 5 5 (new_registry list_channel) (omega arith) (omega arith)

mock_network-Contract_example :
    Contract (network_layer list_channel) (λ s. s.0.next_message_id) (λ s. s.0.local_addrs)
mock_network-Contract_example = mock_network-Contract list_channel
