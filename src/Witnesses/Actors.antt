-- ===== src/Witnesses/Actors.antt =====
-- The theorems of NetV2/Actor at a concrete node.
use ping_pong_libp2p.Base.{◌≤◌, ◌+◌, List, arith, ◌≡◌, refl, none, false, [], ◌∷◌, ◌++◌}
use ping_pong_libp2p.Io.{ok}
use ping_pong_libp2p.Text.{text, text_beq, starts_with, contains}
use ping_pong_libp2p.NetV2.Types.{server, Address, ping, browser_client, unreachable_address}
use ping_pong_libp2p.NetV2.Messages.{send_message, message_sent, send_failed}
use ping_pong_libp2p.NetV2.Address.Translation.{hop}
use ping_pong_libp2p.NetV2.EventLoop.{Loop, emit, step}
use ping_pong_libp2p.NetV2.EventLoop.Signals.{SwarmCommand, command}
use ping_pong_libp2p.NetV2.Actor.{NetworkActor, new, handle_command}
use ping_pong_libp2p.NetV2.Actor.Contract.{network_layer, network_actor-Contract}
use ping_pong_libp2p.NetV2.Actor.Browser.{browser_send_unreachable}
use ping_pong_libp2p.NetV2.NetworkLayer.{Contract}
use ping_pong_libp2p.NetV2.NetworkLayer.Ids.{Session, ids, run}
use ping_pong_libp2p.NetV2.EventLoop.{event_loop, start}
use ping_pong_libp2p.NetV2.EventLoop.Signals.{Wake}
use ping_pong_libp2p.NetV2.EventLoop.Cost.{failures}
use ping_pong_libp2p.Queues.{waiting}
use ping_pong_libp2p.NetV2.Actor.Failures.{failures_at_most_once}
use ping_pong_libp2p.Witnesses.Toy.{list_channel, wire_net, wire_net_laws, tagged}

abbrev our_relay : Address
our_relay = text "/ip4/9.9.9.9/tcp/9001/ws/p2p/R"

abbrev far : Address
far = text "/ip4/8.8.8.8/tcp/9000/p2p/S"

abbrev browser : NetworkActor wire_net list_channel
browser = record {
  next_message_id = 4;
  local_peer_id = text "B";
  local_addrs = [];
  node_type = browser_client our_relay;
  command_tx = [];
  event_rx = [];
  next_reply = 0;
}

abbrev idle : Loop wire_net
idle = record {
  net = record { wire = []; peer = none; refuses = false; listens = [] };
  pending_sends = [];
  pending_listen = none;
  pending_relay = none;
  event_tx = [];
  replies = [];
}

network_actor-Contract_example :
    Contract
      (network_layer wire_net list_channel)
      (λ self. self.next_message_id)
      (λ self. self.local_addrs)
network_actor-Contract_example = network_actor-Contract wire_net list_channel

browser_send_unreachable_example :
    let (reply, self') = handle_command none (send_message far (ping (text "x"))) browser in
    let cmd = SwarmCommand.send 4 (hop our_relay ++ far) (ping (text "x")) in
    (reply ≡ message_sent 4)
    × (self'.command_tx ≡ cmd ∷ [])
    × (step wire_net tagged (command cmd) idle
        ≡ emit idle (send_failed 4 (unreachable_address (hop our_relay ++ far))))
unfolding wire_net_laws starts_with contains text_beq
browser_send_unreachable_example =
    browser_send_unreachable tagged wire_net_laws none our_relay far (ping (text "x")) browser idle
      refl refl refl

abbrev two_sends : Session (network_layer wire_net list_channel)
two_sends =
    (none, send_message far (ping (text "a")))
    ∷ (none, send_message (text "nowhere") (ping (text "b")))
    ∷ []

-- The loop has taken the first of the two commands.
abbrev woken : List (Wake wire_net)
woken = command (SwarmCommand.send 1 far (ping (text "a"))) ∷ []

abbrev fresh : NetworkActor wire_net list_channel
fresh = record {
  next_message_id = 1;
  local_peer_id = text "S";
  local_addrs = [];
  node_type = server;
  command_tx = [];
  event_rx = [];
  next_reply = 0;
}

failures_at_most_once_example :
    let l = event_loop wire_net tagged woken (start wire_net tagged idle.net) in
    (ids (run (network_layer wire_net list_channel) two_sends fresh).0 ≡ 1 ∷ 2 ∷ [])
    × (failures 1 l.event_tx + waiting 1 l.pending_sends ≤ 1)
unfolding handle_command new
failures_at_most_once_example =
    failures_at_most_once 1 list_channel tagged (ok (idle.net, text "S")) server fresh
      (start wire_net tagged idle.net) two_sends woken
      (SwarmCommand.send 2 (text "nowhere") (ping (text "b")) ∷ []) refl (omega arith) refl
