-- ===== src/Witnesses/FirstLoops.antt =====
-- The theorems of NetV1 at concrete states of its loop.
use mathlib.Core.List.{foldl}
use ping_pong_libp2p.Base.Iterators.{find_map}
use ping_pong_libp2p.Base.{◌≡◌, refl, true, false, none, some, List, [], ◌∷◌, ◌++◌, arith, ap}
use ping_pong_libp2p.Base.Assoc.{get}
use ping_pong_libp2p.Io.{ok}
use ping_pong_libp2p.Text.{text, text_beq, split, contains}
use ping_pong_libp2p.NetV1.Types.{
  MessageId, MeerkatMessage, ping, pong, protocol_error, on_send_error,
}
use ping_pong_libp2p.NetV1.EventLoop.{
  Loop, NetworkCommand, Wake, command, incoming, swarm_event, new_listen_addr, connection_closed,
  connection_established, handle_swarm_event, send_messages, entry, extract_peer_id, handle_send,
  event_loop, send_to_peer,
}
use ping_pong_libp2p.NetV1.EventLoop.Delivery.{event_loop-sends_queued}
use ping_pong_libp2p.NetV1.EventLoop.Sends.{handle_send_lem}
use ping_pong_libp2p.NetV1.EventLoop.Waiting.{commands, connected}
use ping_pong_libp2p.NetV1.Network
use ping_pong_libp2p.NetV1.Network.{LibP2PNetwork}
use ping_pong_libp2p.NetV1.Network.Listening.{listen-event_loop}
use ping_pong_libp2p.NetV1.Network.Sending.{send_all, send_all-event_loop}
use ping_pong_libp2p.NetV1.EventLoop.Peers.{extract_peer_id-circuit_first}
use ping_pong_libp2p.NetV2.Address as Second
use ping_pong_libp2p.Witnesses.Toy.{Net, wire_net, Part, other_part, p2p_part, circuit_part}
use ping_pong_libp2p.Witnesses.Pipes.{tagged_first}

-- No peer is connected, and dials are refused.
abbrev refusing : Net
refusing = record { wire = []; peer = none; refuses = true; listens = [] }

-- A loop in which one message waits for the peer `S`.
abbrev busy : Loop wire_net
busy = record {
  net = refusing;
  callbacks = record { on_peer_connected = true; on_peer_disconnected = false };
  pending_sends = (text "S", (1, ping (text "a")) ∷ []) ∷ [];
  pending_listen = none;
  local_addrs = [];
  calls = [];
  responses = [];
}

-- The dial is refused: the message that waited is dropped as well.
handle_send_lem_example :
    let l' = handle_send wire_net tagged_first 2 (text "/ws/p2p/S") (ping (text "b")) busy in
    (l'.calls ≡ on_send_error 2 (protocol_error (text "Dial failed: refused")) ∷ [])
    × (entry l' (text "S") ≡ [])
    × (l'.pending_listen ≡ none)
    × (l'.local_addrs ≡ [])
    × (l'.responses ≡ [])
unfolding split text_beq contains find_map
handle_send_lem_example =
    handle_send_lem tagged_first 2 (text "/ws/p2p/S") (ping (text "b")) busy (text "S")

abbrev bound : List Part
bound = other_part (text "ws") ∷ []

abbrev meanwhile : List (Wake wire_net)
meanwhile = swarm_event (connection_closed (text "S")) ∷ incoming (text "S") tt ∷ []

abbrev direct : List Part
direct = other_part (text "ws") ∷ p2p_part (text "S") ∷ []

abbrev relayed : List Part
relayed = other_part (text "ws") ∷ p2p_part (text "R") ∷ circuit_part ∷ p2p_part (text "S") ∷ []

extract_peer_id-circuit_first_example :
    (extract_peer_id wire_net relayed ≡ some (text "R"))
    × (Second.extract_peer_id wire_net relayed ≡ some (text "S"))
extract_peer_id-circuit_first_example =
    extract_peer_id-circuit_first wire_net relayed (other_part (text "ws") ∷ []) (circuit_part ∷ [])
      [] (p2p_part (text "R")) (p2p_part (text "S")) (text "R") (text "S") refl (refl, tt) refl refl
      tt

abbrev quiet : Net
quiet = record refusing { refuses = false }

-- A network that has sent message 1, and no peer connected; no dial is refused.
abbrev node : LibP2PNetwork wire_net
node = record { next_message_id = 2; local_peer_id = text "me"; command_tx = []; next_response = 0 }

abbrev dialling : Loop wire_net
dialling = record busy { net = quiet }

-- No peer is connected, and no dial is refused.
abbrev IsOpen : Net → Type 0
IsOpen w = (w.peer ≡ none) × (w.refuses ≡ false)

IsOpen-stays :
    (w : Net)
    → IsOpen w
    → (wire_net.is_connected w (text "S") ≡ false)
      × ((wire_net.dial direct w).0 ≡ ok tt)
      × IsOpen (wire_net.dial direct w).1
IsOpen-stays w (p, r) = (
  ap (λ o. wire_net.is_connected (record w { peer = o }) (text "S")) p,
  ap (λ b. (wire_net.dial direct (record w { refuses = b })).0) r,
  (ground (arith, p), ground (arith, r)),
)

abbrev two_messages : List MeerkatMessage
two_messages = ping (text "b") ∷ pong (text "c") ∷ []

abbrev queue : List (MessageId × MeerkatMessage)
queue = (1, ping (text "a")) ∷ (2, ping (text "b")) ∷ (3, pong (text "c")) ∷ []

send_all-event_loop_example :
    let sent = send_all (text "/ws/p2p/S") two_messages node in
    let l' = event_loop wire_net tagged_first (commands sent.1.command_tx) dialling in
    (sent.0 ≡ 2 ∷ 3 ∷ [])
    × (entry l' (text "S") ≡ queue)
    × (handle_swarm_event wire_net tagged_first (connection_established (text "S")) l'
        ≡ foldl
            (λ l x. send_to_peer wire_net tagged_first (text "S") x.0 x.1 l)
            (connected tagged_first (text "S") l')
            queue)
unfolding Network.send entry text_beq split contains find_map extract_peer_id event_loop get
send_all-event_loop_example =
    send_all-event_loop tagged_first (text "/ws/p2p/S") direct (text "S") IsOpen IsOpen-stays
      two_messages node dialling refl (omega arith) refl refl (refl, refl)

listen-event_loop_example :
    let asked = Network.listen (Network.answered (ok (text "/ws"))) (text "/ws") node in
    let turns = meanwhile ++ (swarm_event (new_listen_addr bound) ∷ []) in
    let l' = event_loop wire_net tagged_first (commands asked.1.command_tx ++ turns) busy in
    (l'.responses ≡ (0, ok (text "/ws")) ∷ [])
    × (l'.pending_listen ≡ none)
    × (asked.0 ≡ ok tt)
    × (Network.local_addresses l' ≡ text "/ws" ∷ [])
unfolding Network.listen Network.local_addresses split text_beq contains
listen-event_loop_example =
    listen-event_loop tagged_first (text "/ws") bound bound meanwhile node busy refl refl refl
      (tt, (tt, tt))

-- The same loop where dials start, and what it meets while one is under way: another peer is heard
-- and connected, an address is bound and another asked for.
abbrev calm : Loop wire_net
calm = record busy { net = record { wire = []; peer = none; refuses = false; listens = [] } }

abbrev elsewhere : List (Wake wire_net)
elsewhere =
    incoming (text "T") tt
    ∷ swarm_event (new_listen_addr bound)
    ∷ command (NetworkCommand.listen (text "/ws") 0)
    ∷ swarm_event (connection_established (text "T"))
    ∷ []

event_loop-sends_queued_example :
    let ask : Wake wire_net =
      command (NetworkCommand.send 2 (text "/ws/p2p/S") (ping (text "b"))) in
    let l' = event_loop wire_net tagged_first (ask ∷ elsewhere) calm in
    let l2 =
      event_loop wire_net tagged_first
        (ask ∷ (elsewhere ++ (swarm_event (connection_established (text "S")) ∷ [])))
        calm in
    (l2
      ≡ send_to_peer wire_net tagged_first (text "S") 2 (ping (text "b")) (
          send_messages wire_net tagged_first
            (text "S")
            (entry calm (text "S"))
            (connected tagged_first (text "S") l')))
    × (entry l2 (text "S") ≡ [])
unfolding split text_beq contains extract_peer_id
event_loop-sends_queued_example =
    event_loop-sends_queued tagged_first 2 (text "/ws/p2p/S") (ping (text "b"))
      (other_part (text "ws") ∷ p2p_part (text "S") ∷ []) (text "S") elsewhere calm refl refl refl
      refl (tt, (tt, (tt, ((ground arith), tt))))
