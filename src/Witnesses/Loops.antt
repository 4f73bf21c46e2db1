-- ===== src/Witnesses/Loops.antt =====
-- The theorems of NetV2/EventLoop at concrete states of the loop.
use ping_pong_libp2p.Base.{
  ℕ, zero, suc, ◌≡◌, refl, Bool, true, false, none, List, [], ◌∷◌, ◌++◌, arith, All, ap,
}
use mathlib.Core.List.{foldl}
use ping_pong_libp2p.Io.{ok}
use ping_pong_libp2p.Text.{text, text_eq, text_beq, split, contains}
use ping_pong_libp2p.Frame.{to_be_bytes}
use ping_pong_libp2p.Frame.Exchange.{frame}
use ping_pong_libp2p.NetV2.Types.{MessageId, Address, MeerkatMessage, ping, pong, protocol_error}
use ping_pong_libp2p.NetV2.Messages.{message_received, send_failed}
use ping_pong_libp2p.NetV2.Protocol.{send_message}
use ping_pong_libp2p.NetV2.Address.{extract_peer_id}
use ping_pong_libp2p.NetV2.EventLoop.{
  Loop, entry, do_send, send_to_peer, handle_incoming, handle_swarm_event, send_messages,
  event_loop, start,
}
use ping_pong_libp2p.NetV2.EventLoop.Signals.{
  SwarmCommand, Wake, command, incoming, swarm_event, connection_established, connection_closed,
  new_listen_addr,
}
use ping_pong_libp2p.NetV2.EventLoop.Events.{do_send_reports}
use ping_pong_libp2p.NetV2.EventLoop.Pending.{entry-do_send}
use ping_pong_libp2p.NetV2.EventLoop.Flush.{connected}
use ping_pong_libp2p.NetV2.EventLoop.Waiting.{sends, event_loop-waits, event_loop-sends_in_order}
use ping_pong_libp2p.NetV2.EventLoop.Listening.{IsHonest, replies-IsHonest}
use ping_pong_libp2p.NetV2.EventLoop.Incoming.{handle_incoming-send_to_peer}
use ping_pong_libp2p.NetV2.EventLoop.Delivery.{event_loop-delivers}
use ping_pong_libp2p.Witnesses.Toy.{
  Net, wire_net, wire_laws, wire_close, wire-Takes, tagged, tagged_laws, other_part, p2p_part,
  circuit_part, Part,
}

abbrev offline : Net
offline = record { wire = []; peer = none; refuses = false; listens = [] }

-- A loop in which one message waits for the peer `S`.
abbrev busy : Loop wire_net
busy = record {
  net = offline;
  pending_sends = (text "S", (1, ping (text "a")) ∷ []) ∷ [];
  pending_listen = none;
  pending_relay = none;
  event_tx = [];
  replies = [];
}

abbrev addr_s : Address
addr_s = text "/ws/p2p/S"

abbrev multi_s : List Part
multi_s = other_part (text "ws") ∷ p2p_part (text "S") ∷ []

abbrev more : List (MessageId × MeerkatMessage)
more = (2, ping (text "b")) ∷ (3, pong (text "c")) ∷ []

-- No peer is connected, and no dial is refused.
abbrev IsOpen : Net → Type 0
IsOpen w = (w.peer ≡ none) × (w.refuses ≡ false)

IsOpen-stays :
    (w : Net)
    → IsOpen w
    → (wire_net.is_connected w (text "S") ≡ false)
      × ((wire_net.dial multi_s w).0 ≡ ok tt)
      × IsOpen (wire_net.dial multi_s w).1
IsOpen-stays w (p, r) = (
  ap (λ o. wire_net.is_connected (record w { peer = o }) (text "S")) p,
  ap (λ b. (wire_net.dial multi_s (record w { refuses = b })).0) r,
  (ground (arith, p), ground (arith, r)),
)

event_loop-sends_in_order_example :
    let l' = event_loop wire_net tagged (sends wire_net addr_s more) busy in
    (entry l' (text "S") ≡ entry busy (text "S") ++ more)
    × (handle_swarm_event wire_net tagged (connection_established (text "S")) l'
        ≡ foldl
            (λ l x. send_to_peer wire_net tagged (text "S") x.0 x.1 l)
            (connected tagged (text "S") l')
            (entry busy (text "S") ++ more))
unfolding split text_beq contains extract_peer_id
event_loop-sends_in_order_example =
    event_loop-sends_in_order tagged addr_s multi_s (text "S") IsOpen IsOpen-stays more busy refl
      refl (refl, refl)

abbrev hello : List ℕ
hello = 0 ∷ text "hello"

abbrev linked : Loop wire_net
linked = record busy { net = record offline { wire = frame hello } }

handle_incoming-send_to_peer_example :
    let l = send_to_peer wire_net tagged (text "S") 9 (ping (text "hello")) busy in
    (l.event_tx ≡ [])
    × (l.net.wire ≡ frame hello)
    × ((handle_incoming wire_net tagged (text "B") tt linked).event_tx
        ≡ message_received (text "B") (ping (text "hello")) ∷ [])
unfolding wire_laws send_message to_be_bytes send_to_peer
handle_incoming-send_to_peer_example =
    handle_incoming-send_to_peer wire_laws tagged wire_close tagged_laws (text "S") (text "B") 9
      (ping (text "hello")) hello busy linked tt tt offline refl wire-Takes refl (omega arith) refl

-- The dial is refused: the message that waited is dropped as well.
abbrev refusing : Loop wire_net
refusing = record busy { net = record offline { refuses = true } }

entry-do_send_example :
    entry (do_send wire_net tagged 2 addr_s (ping (text "b")) refusing) (text "S") ≡ []
unfolding split text_beq contains extract_peer_id
entry-do_send_example =
    entry-do_send tagged 2 addr_s (ping (text "b")) refusing (text "S") multi_s (text "S") refl refl

-- Only the second message is reported as failed.
do_send_reports_example :
    let l' = do_send wire_net tagged 2 addr_s (ping (text "b")) refusing in
    (l'.event_tx ≡ send_failed 2 (protocol_error (text "Dial failed: refused")) ∷ [])
    × (l'.pending_listen ≡ none)
    × (l'.pending_relay ≡ none)
    × (l'.replies ≡ [])
unfolding split text_beq contains extract_peer_id
do_send_reports_example = do_send_reports tagged 2 addr_s (ping (text "b")) refusing

abbrev relay_addr : Address
relay_addr = text "/ws/p2p/R"

abbrev relay_multi : List Part
relay_multi = other_part (text "ws") ∷ p2p_part (text "R") ∷ []

abbrev circuit : List Part
circuit = other_part (text "ws") ∷ p2p_part (text "R") ∷ circuit_part ∷ p2p_part (text "S") ∷ []

-- Request 0 came with `Listen`, request 1 with `ListenViaRelay`.
abbrev over_relay : ℕ → Bool
over_relay zero = false
over_relay (suc k) = true

abbrev requests : List (Wake wire_net)
requests =
    command (SwarmCommand.listen_via_relay relay_addr 1)
    ∷ command (SwarmCommand.listen (text "/ws") 0)
    ∷ swarm_event (new_listen_addr (other_part (text "ws") ∷ []))
    ∷ swarm_event (new_listen_addr circuit)
    ∷ []

replies-IsHonest_example :
    All
      (IsHonest over_relay)
      (event_loop wire_net tagged requests (start wire_net tagged offline)).replies
replies-IsHonest_example =
    replies-IsHonest over_relay tagged requests offline (refl, (refl, (tt, (tt, tt))))

event_loop-waits_example :
    entry
      (event_loop wire_net tagged
        (swarm_event (connection_closed (text "S"))
          ∷ command (SwarmCommand.listen (text "/ws") 0)
          ∷ incoming (text "S") tt
          ∷ [])
        busy)
      (text "S")
    ≡ entry busy (text "S")
event_loop-waits_example =
    event_loop-waits tagged (text "S")
      (swarm_event (connection_closed (text "S"))
        ∷ command (SwarmCommand.listen (text "/ws") 0)
        ∷ incoming (text "S") tt
        ∷ [])
      busy (tt, (tt, (tt, tt)))

-- While the dial of the message to `S` is under way, another peer is heard and an address bound.
abbrev elsewhere : List (Wake wire_net)
elsewhere =
    incoming (text "T") tt
    ∷ swarm_event (new_listen_addr (other_part (text "ws") ∷ []))
    ∷ swarm_event (connection_established (text "T"))
    ∷ []

event_loop-delivers_example :
    let ask = command (SwarmCommand.send 2 addr_s (ping (text "b"))) in
    let l' = event_loop wire_net tagged (ask ∷ elsewhere) busy in
    let l2 =
      event_loop wire_net tagged
        (ask ∷ (elsewhere ++ (swarm_event (connection_established (text "S")) ∷ [])))
        busy in
    (l2
      ≡ send_to_peer wire_net tagged (text "S") 2 (ping (text "b")) (
          send_messages wire_net tagged
            (text "S")
            (entry busy (text "S"))
            (connected tagged (text "S") l')))
    × (entry l2 (text "S") ≡ [])
unfolding split text_beq contains extract_peer_id
event_loop-delivers_example =
    event_loop-delivers tagged 2 addr_s (ping (text "b")) multi_s (text "S") elsewhere busy refl
      refl refl refl (tt, (tt, ((ground arith), tt)))
