-- ===== src/NetV2/Mock.antt =====
-- meerkat-net-v2/src/mock.rs: the network in memory. A `Registry` of the model is the shared map
-- together with the channels whose senders it holds; a node's `event_rx` names its channel there.
-- The `Mutex` makes each access to the map one step.
pub mod PeerName
pub mod Extract
pub mod Delivery
pub mod Exchange
pub mod Registration
pub mod Contract
use ping_pong_libp2p.Base.{
  ℕ, suc, ◌+◌, ◌%◌, ◌^◌, Option, none, some, List, [], ◌∷◌, ◌++◌, ◌==◌, if◌then◌else◌, nat_beq,
}
use ping_pong_libp2p.Base.Assoc.{Map, get, insert}
use ping_pong_libp2p.Text.{Text, text, text_eq, split, slash}
use ping_pong_libp2p.Deps.Channel.{Channel}
use ping_pong_libp2p.NetV2.Types.{
  MessageId, Address, MeerkatMessage, unreachable_address, protocol_error,
}
use ping_pong_libp2p.NetV2.Messages.{
  NetworkCommand, send_message, listen, get_local_addresses, listen_via_relay, NetworkReply,
  message_sent, listen_success, local_addresses, failure, NetworkEvent, message_received,
  send_failed,
}
use PeerName.{mock_peer}

-- The loop of `extract_peer_id_from_addr` over the parts.
unfoldable pub find_p2p : List Text → Option Text
find_p2p [] = none
find_p2p (p ∷ []) = none
find_p2p (p ∷ q ∷ rest) = if p == text "p2p" then some q else find_p2p (q ∷ rest)

unfoldable pub extract_peer_id_from_addr : Text → Option Text
unfolding find_p2p
extract_peer_id_from_addr addr = find_p2p (split slash addr)

pub record MockNetwork : Type 0 where
  pub peer_id : Text
  pub local_addrs : List Address
  pub next_message_id : ℕ
  pub event_rx : ℕ

module _ (c : Channel NetworkEvent) where
  pub record Registry : Type 0 where
    pub senders : Map Text ℕ
    pub queues : ℕ → c.Queue
    pub next_channel : ℕ

module _ {c : Channel NetworkEvent} where
  -- `tx.send(event)`
  unfoldable pub send : Registry c → ℕ → NetworkEvent → Registry c
  send r tx event = record r {
    queues = λ k. if nat_beq k tx then c.send (r.queues tx) event else r.queues k;
  }

  -- `registry.get(peer)`, and a send to the channel found; `none` if there is none.
  unfoldable pub send_to : Registry c → Text → NetworkEvent → Option (Registry c)
  unfolding send
  send_to r peer event = elim (get r.senders peer) [
    | none ↦ none
    | some tx ↦ some (send r tx event)
  ]

  abbrev or_same : Registry c → Option (Registry c) → Registry c
  or_same r none = r
  or_same r (some r') = r'

  -- The branch on `target_peer` in `handle_command`.
  unfoldable pub deliver :
      MockNetwork → MessageId → Address → MeerkatMessage → Option Text → Registry c → Registry c
  unfolding send_to
  deliver self msg_id addr msg none r =
      or_same r (
        send_to r self.peer_id (send_failed msg_id (protocol_error (text "No peer ID in address"))))
  deliver self msg_id addr msg (some peer) r =
      elim (send_to r peer (message_received self.peer_id msg)) [
        | some r' ↦ r'
        | none ↦ or_same r (send_to r self.peer_id (send_failed msg_id (unreachable_address addr)))
      ]

  unfoldable pub handle_command :
      NetworkCommand → MockNetwork → Registry c → NetworkReply × MockNetwork × Registry c
  unfolding deliver extract_peer_id_from_addr
  handle_command (listen addr) self r =
      let bound : Address = addr ++ (text "/p2p/" ++ self.peer_id) in
      (listen_success bound, record self { local_addrs = self.local_addrs ++ (bound ∷ []) }, r)
  handle_command (send_message addr msg) self r =
      let msg_id : MessageId = self.next_message_id in
      let self' : MockNetwork = record self { next_message_id = (msg_id + 1) % 2 ^ 64 } in
      (message_sent msg_id, self', deliver self' msg_id addr msg (extract_peer_id_from_addr addr) r)
  handle_command (listen_via_relay relay_addr) self r =
      (failure (text "Mock does not support relay"), self, r)
  handle_command get_local_addresses self r = (local_addresses self.local_addrs, self, r)

  unfoldable pub try_recv_event : MockNetwork → Registry c → Option NetworkEvent × Registry c
  try_recv_event self r =
      let (event, rest) = c.try_recv (r.queues self.event_rx) in
      (event, record r { queues = λ k. if nat_beq k self.event_rx then rest else r.queues k })

-- `local_peer_id`
unfoldable pub local_peer_id : MockNetwork → Text
local_peer_id self = self.peer_id

module _ (c : Channel NetworkEvent) where
  unfoldable pub new_registry : Registry c
  new_registry = record { senders = []; queues = λ _. c.unbounded_channel; next_channel = 0 }

module _ {c : Channel NetworkEvent} where
  -- `nanos` is the part of a second of the system clock, which `uuid_simple` reads.
  unfoldable pub new_with_registry : ℕ → Registry c → MockNetwork × Registry c
  unfolding mock_peer
  new_with_registry nanos r =
      let peer_id : Text = mock_peer nanos in
      let event_rx : ℕ = r.next_channel in
      (
        record { peer_id = peer_id; local_addrs = []; next_message_id = 1; event_rx = event_rx },
        record {
          senders = insert r.senders peer_id event_rx;
          queues = λ k. if nat_beq k event_rx then c.unbounded_channel else r.queues k;
          next_channel = suc event_rx;
        },
      )

module _ (c : Channel NetworkEvent) where
  unfoldable pub new : ℕ → MockNetwork × Registry c
  unfolding new_with_registry new_registry
  new nanos = new_with_registry nanos (new_registry c)
