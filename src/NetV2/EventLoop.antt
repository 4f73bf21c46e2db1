-- ===== src/NetV2/EventLoop.antt =====
-- The task that owns the swarm: `NetworkActor::event_loop` of meerkat-net-v2/src/actor.rs and what
-- it calls. `replies` and `event_tx` record what the task has sent, oldest first; a oneshot sender
-- is named by a number. A branch of `select!` runs to its end before the next one is chosen; a
-- spawned task (`handle_incoming`) is one step of its own, at the moment that it ends.
pub mod Signals
pub mod State
pub mod Events
pub mod Pending
pub mod Flush
pub mod Waiting
pub mod Listening
pub mod Relaying
pub mod Incoming
pub mod Cost
pub mod AtMostOnce
pub mod Delivery
pub mod Order
use ping_pong_libp2p.Base.{
  ℕ, Bool, true, false, Option, none, some, List, [], ◌∷◌, ◌++◌, ◌==◌, if◌then◌else◌,
}
use ping_pong_libp2p.Base.Assoc.{Map, get, insert, remove}
use ping_pong_libp2p.Io.{Result, ok, err}
use ping_pong_libp2p.Text.{Text, text, contains}
use ping_pong_libp2p.Deps.Json.{Json}
use ping_pong_libp2p.Deps.Libp2p.{Libp2p}
use ping_pong_libp2p.NetV2.Types.{
  MessageId, Address, MeerkatMessage, unreachable_address, protocol_error,
}
use ping_pong_libp2p.NetV2.Messages.{
  NetworkEvent, message_received, send_failed, peer_connected, peer_disconnected,
}
use ping_pong_libp2p.NetV2.Protocol
use ping_pong_libp2p.NetV2.Address.{extract_peer_id}
pub use State.{Loop}
unfoldable pub use State.{emit, reply, entry, push, forget}
use Signals.{
  ReplyTx, SwarmCommand, Wake, SwarmEvent, command, incoming, swarm_event, new_listen_addr,
  connection_established, connection_closed, relay_client, relay, identify_received, identify_other,
  other,
}

module _ (n : Libp2p) (j : Json MeerkatMessage) where
  -- What `send_to_peer` does with the stream that it opened, and without one.
  unfoldable pub on_open : MessageId → MeerkatMessage → Result n.Stream Text → Loop n → Loop n
  unfolding emit
  on_open id msg (err e) l = emit l (send_failed id (protocol_error (text "Stream open: " ++ e)))
  on_open id msg (ok stream) l =
      let (sent, w) = Protocol.send_message n.streams j stream msg l.net in
      let l' : Loop n = record l { net = w } in
      let l2 : Loop n = elim sent [
        | ok _ ↦ l'
        | err e ↦ emit l' (send_failed id (protocol_error (text "Send failed: " ++ e)))
      ] in
      record l2 { net = (n.close stream l2.net).1 }

  unfoldable pub send_to_peer : n.PeerId → MessageId → MeerkatMessage → Loop n → Loop n
  unfolding on_open
  send_to_peer peer id msg l =
      let (opened, w) = n.open_stream peer l.net in on_open id msg opened (record l { net = w })

  -- The `dial` of `do_send`, with the message queued.
  unfoldable pub dial_for : n.Multiaddr → n.PeerId → MessageId → Loop n → Loop n
  unfolding emit forget
  dial_for addr peer id l =
      let (dialled, w) = n.dial addr l.net in
      let l' : Loop n = record l { net = w } in
      elim dialled [
        | ok _ ↦ l'
        | err e ↦
            forget (emit l' (send_failed id (protocol_error (text "Dial failed: " ++ e)))) peer
      ]

  unfoldable pub send_known : n.Multiaddr → n.PeerId → MessageId → MeerkatMessage → Loop n → Loop n
  unfolding send_to_peer dial_for push
  send_known addr peer id msg l =
      if n.is_connected l.net peer
      then send_to_peer peer id msg l
      else dial_for addr peer id (push l peer (id, msg))

  unfoldable pub do_send : MessageId → Address → MeerkatMessage → Loop n → Loop n
  unfolding send_known emit extract_peer_id
  do_send id addr msg l = elim (n.parse addr) [
    | err _ ↦ emit l (send_failed id (unreachable_address addr))
    | ok multiaddr ↦ elim (extract_peer_id n multiaddr) [
      | none ↦ emit l (send_failed id (protocol_error (text "No peer ID in address")))
      | some peer ↦ send_known multiaddr peer id msg l
    ]
  ]

  -- `SwarmCommand::Listen`
  unfoldable pub do_listen : Address → ReplyTx → Loop n → Loop n
  unfolding reply
  do_listen addr tx l = elim (n.parse addr) [
    | err e ↦ reply l tx (err (text "Invalid address: " ++ e))
    | ok multiaddr ↦
        (let (bound, w) = n.listen_on multiaddr l.net in
          let l' : Loop n = record l { net = w } in
          elim bound [
            | err e ↦ reply l' tx (err e)
            | ok _ ↦ record l' { pending_listen = some tx }
          ])
  ]

  -- `SwarmCommand::ListenViaRelay`
  unfoldable pub do_listen_via_relay : Address → ReplyTx → Loop n → Loop n
  unfolding reply
  do_listen_via_relay relay_addr tx l = elim (n.parse relay_addr) [
    | err e ↦ reply l tx (err (text "Invalid relay address: " ++ e))
    | ok relay_multiaddr ↦
        (let (dialled, w) = n.dial relay_multiaddr l.net in
          let l' : Loop n = record l { net = w } in
          elim dialled [
            | err e ↦ reply l' tx (err (text "Failed to dial relay: " ++ e))
            | ok _ ↦ record l' { pending_relay = some (relay_addr, tx) }
          ])
  ]

  unfoldable pub handle_swarm_command : SwarmCommand → Loop n → Loop n
  unfolding do_send do_listen do_listen_via_relay
  handle_swarm_command (SwarmCommand.send id addr msg) l = do_send id addr msg l
  handle_swarm_command (SwarmCommand.listen addr tx) l = do_listen addr tx l
  handle_swarm_command (SwarmCommand.listen_via_relay addr tx) l = do_listen_via_relay addr tx l

  unfoldable pub handle_incoming : n.PeerId → n.Stream → Loop n → Loop n
  unfolding emit
  handle_incoming peer stream l =
      let (received, w) = Protocol.recv_message n.streams j stream l.net in
      let l' : Loop n = record l { net = w } in
      let l2 : Loop n = elim received [
        | ok msg ↦ emit l' (message_received (n.show_peer peer) msg)
        | err _ ↦ l'
      ] in
      record l2 { net = (n.close stream l2.net).1 }

  -- `if let Some(tx) = pending_listen.take() { … }`
  unfoldable pub answer_listen : Address → Loop n → Loop n
  unfolding reply
  answer_listen addr l = elim l.pending_listen [
    | none ↦ l
    | some tx ↦ reply (record l { pending_listen = none }) tx (ok addr)
  ]

  -- `SwarmEvent::NewListenAddr`
  unfoldable pub on_new_listen_addr : n.Multiaddr → Loop n → Loop n
  unfolding answer_listen reply
  on_new_listen_addr address l =
      let addr : Address = n.show_addr address in
      let plain : Loop n = answer_listen addr l in
      if contains addr (text "/p2p-circuit")
      then elim l.pending_relay [
        | none ↦ plain
        | some (_, tx) ↦ reply (record l { pending_relay = none }) tx (ok addr)
      ]
      else plain

  -- The look at `pending_relay` when a connection is there: the listen on the circuit.
  unfoldable pub listen_on_relay : n.PeerId → Loop n → Loop n
  unfolding extract_peer_id
  listen_on_relay peer l = elim l.pending_relay [
    | none ↦ l
    | some (relay_addr, _) ↦ elim (n.parse relay_addr) [
      | err _ ↦ l
      | ok relay_multiaddr ↦ elim (extract_peer_id n relay_multiaddr) [
        | none ↦ l
        | some relay_peer ↦
            if (n.peer_eq).beq relay_peer peer
            then record l {
              net = (n.listen_on (n.with_protocol relay_multiaddr n.p2p_circuit) l.net).1;
            }
            else l
      ]
    ]
  ]

  -- The loop over the messages of a peer.
  unfoldable pub send_messages : n.PeerId → List (MessageId × MeerkatMessage) → Loop n → Loop n
  unfolding send_to_peer
  send_messages peer [] l = l
  send_messages peer ((id, msg) ∷ ms) l = send_messages peer ms (send_to_peer peer id msg l)

  -- `if let Some(messages) = pending_sends.remove(&peer_id) { … }`
  unfoldable pub flush_pending : n.PeerId → Loop n → Loop n
  unfolding send_messages forget
  flush_pending peer l = elim (get ⦃test = n.peer_eq⦄ l.pending_sends peer) [
    | none ↦ l
    | some messages ↦ send_messages peer messages (forget l peer)
  ]

  unfoldable pub handle_swarm_event : SwarmEvent n → Loop n → Loop n
  unfolding on_new_listen_addr listen_on_relay flush_pending emit
  handle_swarm_event (new_listen_addr address) l = on_new_listen_addr address l
  handle_swarm_event (connection_established peer) l =
      flush_pending peer (listen_on_relay peer (emit l (peer_connected (n.show_peer peer))))
  handle_swarm_event (connection_closed peer) l = emit l (peer_disconnected (n.show_peer peer))
  handle_swarm_event (identify_received observed_addr) l = record l {
    net = n.add_external_address l.net observed_addr;
  }
  handle_swarm_event relay_client l = l
  handle_swarm_event relay l = l
  handle_swarm_event identify_other l = l
  handle_swarm_event other l = l

  -- One turn of `event_loop`, and a run of it.
  unfoldable pub step : Wake n → Loop n → Loop n
  unfolding handle_swarm_command handle_incoming handle_swarm_event
  step (command cmd) l = handle_swarm_command cmd l
  step (incoming peer stream) l = handle_incoming peer stream l
  step (swarm_event event) l = handle_swarm_event event l

  unfoldable pub event_loop : List (Wake n) → Loop n → Loop n
  unfolding step
  event_loop [] l = l
  event_loop (w ∷ ws) l = event_loop ws (step w l)

  -- The state in which `event_loop` starts.
  abbrev pub start : n.World → Loop n
  start w = record {
    net = w;
    pending_sends = [];
    pending_listen = none;
    pending_relay = none;
    event_tx = [];
    replies = [];
  }
