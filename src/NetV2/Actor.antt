-- ===== src/NetV2/Actor.antt =====
-- `NetworkActor` of meerkat-net-v2/src/actor.rs as its client sees it: the commands it takes and
-- what it hands on to the event loop.
pub mod Contract
pub mod Browser
pub mod Failures
pub mod Delivery
pub mod Relaying
use ping_pong_libp2p.Base.{ℕ, suc, ◌+◌, ◌%◌, ◌^◌, Option, none, some, List, [], ◌∷◌, ◌++◌}
use ping_pong_libp2p.Io.{Result, ok, err}
use ping_pong_libp2p.Text.{Text, text}
use ping_pong_libp2p.Deps.Channel.{Channel}
use ping_pong_libp2p.Deps.Json.{Json}
use ping_pong_libp2p.Deps.Libp2p.{Libp2p}
use ping_pong_libp2p.NetV2.Types.{MessageId, Address, MeerkatMessage, NodeType}
use ping_pong_libp2p.NetV2.Messages.{
  NetworkCommand, send_message, listen, get_local_addresses, listen_via_relay, NetworkReply,
  message_sent, listen_success, local_addresses, failure, NetworkEvent,
}
use ping_pong_libp2p.NetV2.Address.{translate_address}
use ping_pong_libp2p.NetV2.EventLoop.{Loop, start}
use ping_pong_libp2p.NetV2.EventLoop.Signals.{ReplyTx, SwarmCommand}

-- `command_tx` records the commands that were sent to the event loop, oldest first; `next_reply`
-- numbers the oneshot channels.
pub record NetworkActor (n : Libp2p) (c : Channel NetworkEvent) : Type 0 where
  pub next_message_id : ℕ
  pub local_peer_id : n.PeerId
  pub local_addrs : List Address
  pub node_type : NodeType
  pub command_tx : List SwarmCommand
  pub event_rx : c.Queue
  pub next_reply : ReplyTx

-- What `reply_rx.await` gives: the loop's answer, or `none` if the sender was dropped.
abbrev pub Answer : Type 0
Answer = Option (Result Address Text)

module _ {n : Libp2p} {c : Channel NetworkEvent} where
  -- `NetworkActor::new`, with what `build_swarm` gave: the actor, and the state in which the event
  -- loop that it spawns starts.
  unfoldable pub new :
      Json MeerkatMessage
      → Result (n.World × n.PeerId) Text
      → NodeType
      → Result (NetworkActor n c × Loop n) Text
  new j (err e) node_type = err e
  new j (ok (swarm, local_peer_id)) node_type = ok (
    record {
      next_message_id = 1;
      local_peer_id = local_peer_id;
      local_addrs = [];
      node_type = node_type;
      command_tx = [];
      event_rx = c.unbounded_channel;
      next_reply = 0;
    },
    start n j swarm,
  )

  abbrev sent : NetworkActor n c → SwarmCommand → NetworkActor n c
  sent self cmd = record self { command_tx = self.command_tx ++ (cmd ∷ []) }

  -- The `match reply_rx.await` of both kinds of listening.
  unfoldable pub finish_listen : Answer → NetworkActor n c → NetworkReply × NetworkActor n c
  finish_listen none self = (failure (text "Event loop dropped"), self)
  finish_listen (some (err e)) self = (failure e, self)
  finish_listen (some (ok addr)) self =
      (listen_success addr, record self { local_addrs = self.local_addrs ++ (addr ∷ []) })

  -- The branch on `translate_address` in `SendMessage`.
  unfoldable pub send_translated :
      MessageId
      → MeerkatMessage
      → Result Address Text
      → NetworkActor n c
      → NetworkReply × NetworkActor n c
  send_translated msg_id msg (err e) self = (failure e, self)
  send_translated msg_id msg (ok local_addr) self =
      (message_sent msg_id, sent self (SwarmCommand.send msg_id local_addr msg))

  -- `answer` is what the wait for the event loop gives, where the command waits.
  unfoldable pub handle_command :
      Answer → NetworkCommand → NetworkActor n c → NetworkReply × NetworkActor n c
  unfolding finish_listen send_translated translate_address
  handle_command answer (send_message addr msg) self =
      let msg_id : MessageId = self.next_message_id in
      let self' : NetworkActor n c = record self { next_message_id = (msg_id + 1) % 2 ^ 64 } in
      send_translated msg_id msg (translate_address self.node_type addr) self'
  handle_command answer (listen addr) self =
      let tx : ReplyTx = self.next_reply in
      finish_listen answer
        (sent (record self { next_reply = suc tx }) (SwarmCommand.listen addr tx))
  handle_command answer get_local_addresses self = (local_addresses self.local_addrs, self)
  handle_command answer (listen_via_relay relay_addr) self =
      let tx : ReplyTx = self.next_reply in
      finish_listen answer
        (sent (record self { next_reply = suc tx }) (SwarmCommand.listen_via_relay relay_addr tx))

  -- `Message::handle`: what the actor does with a command that it is sent.
  unfoldable pub handle :
      Answer → NetworkCommand → NetworkActor n c → NetworkReply × NetworkActor n c
  unfolding handle_command
  handle answer msg self = handle_command answer msg self

  -- `local_peer_id()`
  unfoldable pub show_local_peer_id : NetworkActor n c → Text
  show_local_peer_id self = n.show_peer self.local_peer_id

  unfoldable pub try_recv_event : NetworkActor n c → Option NetworkEvent × NetworkActor n c
  try_recv_event self =
      let (event, rest) = c.try_recv self.event_rx in (event, record self { event_rx = rest })
