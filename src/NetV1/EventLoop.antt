-- ===== src/NetV1/EventLoop.antt =====
-- The task that owns the swarm in the first version: `LibP2PNetwork::event_loop` of
-- meerkat-net/src/libp2p_net.rs and what it calls. `calls` records the calls of the manager's
-- callbacks, and `responses` what was sent on the oneshot channels, oldest first; a channel is
-- named by a number. `local_addrs` is shared with the network's own methods, which only read it. A
-- branch of `select!` runs to its end before the next one is chosen; a spawned task
-- (`handle_incoming_stream`) is one step of its own, at the moment that it ends.
pub mod State
pub mod Outcome
pub mod Sends
pub mod Waiting
pub mod Delivery
pub mod Listening
pub mod Addresses
pub mod Peers
pub mod Cost
pub mod AtMostOnce
use ping_pong_libp2p.Base.{
  ℕ, Bool, true, false, Option, none, some, List, [], ◌∷◌, ◌++◌, if◌then◌else◌,
}
use ping_pong_libp2p.Base.Assoc.{Map, get, insert, remove}
use ping_pong_libp2p.Base.Iterators.{find_map}
use ping_pong_libp2p.Io.{Result, ok, err}
use ping_pong_libp2p.Text.{Text, text}
use ping_pong_libp2p.Deps.Json.{Json}
use ping_pong_libp2p.Deps.Libp2p.{Libp2p}
use ping_pong_libp2p.NetV1.Types.{
  MessageId, GlobalAddress, MeerkatMessage, SendError, unreachable_address, protocol_error,
  NetworkError, invalid_address, bind_failed, NetworkCallbacks, Call, on_message, on_send_error,
}
use ping_pong_libp2p.NetV1.Protocol
pub use State.{
  ResponseTx, NetworkCommand, send, listen, SwarmEvent, new_listen_addr, connection_established,
  connection_closed, other, Wake, command, incoming, swarm_event, Loop,
}
unfoldable pub use State.{call, respond, entry, push, forget}

module _ (n : Libp2p) where
  unfoldable pub parse_global_address : GlobalAddress → Result n.Multiaddr NetworkError
  parse_global_address addr = elim (n.parse addr) [
    | ok multiaddr ↦ ok multiaddr
    | err _ ↦ err (invalid_address addr)
  ]

  unfoldable pub extract_peer_id : n.Multiaddr → Option n.PeerId
  unfolding find_map
  extract_peer_id addr = find_map n.p2p (n.iter addr)

module _ (n : Libp2p) (j : Json MeerkatMessage) where
  -- What `send_to_peer` does with the stream that it opened, and without one. A stream on which the
  -- send failed is not closed.
  unfoldable pub on_open : MessageId → MeerkatMessage → Result n.Stream Text → Loop n → Loop n
  unfolding call
  on_open id msg (err e) l =
      call l (on_send_error id (protocol_error (text "Stream open failed: " ++ e)))
  on_open id msg (ok stream) l =
      let (sent, w) = Protocol.send_message n.streams j stream msg l.net in
      elim sent [
        | err e ↦
            call (record l { net = w })
              (on_send_error id (protocol_error (text "Send failed: " ++ e)))
        | ok _ ↦ record l { net = (n.close stream w).1 }
      ]

  unfoldable pub send_to_peer : n.PeerId → MessageId → MeerkatMessage → Loop n → Loop n
  unfolding on_open
  send_to_peer peer id msg l =
      let (opened, w) = n.open_stream peer l.net in on_open id msg opened (record l { net = w })

  -- The `dial` of `handle_send`, with the message queued.
  unfoldable pub dial_for : n.Multiaddr → n.PeerId → MessageId → Loop n → Loop n
  unfolding call forget
  dial_for addr peer id l =
      let (dialled, w) = n.dial addr l.net in
      let l' : Loop n = record l { net = w } in
      elim dialled [
        | ok _ ↦ l'
        | err e ↦
            forget (call l' (on_send_error id (protocol_error (text "Dial failed: " ++ e)))) peer
      ]

  unfoldable pub send_known : n.Multiaddr → n.PeerId → MessageId → MeerkatMessage → Loop n → Loop n
  unfolding send_to_peer dial_for push
  send_known addr peer id msg l =
      if n.is_connected l.net peer
      then send_to_peer peer id msg l
      else dial_for addr peer id (push l peer (id, msg))

  unfoldable pub handle_send : MessageId → GlobalAddress → MeerkatMessage → Loop n → Loop n
  unfolding send_known call extract_peer_id parse_global_address
  handle_send id addr msg l = elim (parse_global_address n addr) [
    | err _ ↦ call l (on_send_error id (unreachable_address addr))
    | ok multiaddr ↦ elim (extract_peer_id n multiaddr) [
      | none ↦ call l (on_send_error id (protocol_error (text "No peer ID in address")))
      | some peer ↦ send_known multiaddr peer id msg l
    ]
  ]

  -- `NetworkCommand::Listen`
  unfoldable pub do_listen : GlobalAddress → ResponseTx → Loop n → Loop n
  unfolding respond parse_global_address
  do_listen addr tx l = elim (parse_global_address n addr) [
    | err e ↦ respond l tx (err e)
    | ok multiaddr ↦
        (let (bound, w) = n.listen_on multiaddr l.net in
          let l' : Loop n = record l { net = w } in
          elim bound [
            | err e ↦ respond l' tx (err (bind_failed e))
            | ok _ ↦ record l' { pending_listen = some tx }
          ])
  ]

  unfoldable pub handle_command : NetworkCommand → Loop n → Loop n
  unfolding handle_send do_listen
  handle_command (send id addr msg) l = handle_send id addr msg l
  handle_command (listen addr tx) l = do_listen addr tx l

  unfoldable pub handle_incoming_stream : n.PeerId → n.Stream → Loop n → Loop n
  unfolding call
  handle_incoming_stream peer stream l =
      let (received, w) = Protocol.recv_message n.streams j stream l.net in
      let l' : Loop n = record l { net = w } in
      let l2 : Loop n = elim received [
        | ok msg ↦ call l' (on_message (n.show_peer peer) msg)
        | err _ ↦ l'
      ] in
      record l2 { net = (n.close stream l2.net).1 }

  -- `SwarmEvent::NewListenAddr`
  unfoldable pub on_new_listen_addr : n.Multiaddr → Loop n → Loop n
  unfolding respond
  on_new_listen_addr address l =
      let global_addr : GlobalAddress = n.show_addr address in
      let l' : Loop n = record l { local_addrs = l.local_addrs ++ (global_addr ∷ []) } in
      elim l.pending_listen [
        | none ↦ l'
        | some tx ↦ respond (record l' { pending_listen = none }) tx (ok global_addr)
      ]

  -- The loop over the messages of a peer.
  unfoldable pub send_messages : n.PeerId → List (MessageId × MeerkatMessage) → Loop n → Loop n
  unfolding send_to_peer
  send_messages peer [] l = l
  send_messages peer ((id, msg) ∷ ms) l = send_messages peer ms (send_to_peer peer id msg l)

  -- `if let Some(messages) = pending_sends.remove(&peer_id) { … }`
  unfoldable pub flush_pending : n.PeerId → Loop n → Loop n
  unfolding send_messages forget
  flush_pending peer l = elim (get ⦃test = n.peer_eq⦄ l.pending_sends peer) [
    | none ↦ l
    | some messages ↦ send_messages peer messages (forget l peer)
  ]

  unfoldable pub handle_swarm_event : SwarmEvent n → Loop n → Loop n
  unfolding on_new_listen_addr flush_pending call
  handle_swarm_event (new_listen_addr address) l = on_new_listen_addr address l
  handle_swarm_event (connection_established peer) l = flush_pending peer (
      if l.callbacks.on_peer_connected
      then call l (Call.on_peer_connected (n.show_peer peer))
      else l)
  handle_swarm_event (connection_closed peer) l =
      if l.callbacks.on_peer_disconnected
      then call l (Call.on_peer_disconnected (n.show_peer peer))
      else l
  handle_swarm_event other l = l

  -- One turn of `event_loop`, and a run of it.
  unfoldable pub step : Wake n → Loop n → Loop n
  unfolding handle_command handle_incoming_stream handle_swarm_event
  step (command cmd) l = handle_command cmd l
  step (incoming peer stream) l = handle_incoming_stream peer stream l
  step (swarm_event event) l = handle_swarm_event event l

  unfoldable pub event_loop : List (Wake n) → Loop n → Loop n
  unfolding step
  event_loop [] l = l
  event_loop (w ∷ ws) l = event_loop ws (step w l)

  -- The state in which `event_loop` starts.
  abbrev pub start : n.World → NetworkCallbacks → Loop n
  start w callbacks = record {
    net = w;
    callbacks = callbacks;
    pending_sends = [];
    pending_listen = none;
    local_addrs = [];
    calls = [];
    responses = [];
  }
