-- ===== src/NetV2/Mock/Exchange.antt =====
-- Two mock nodes that share a registry: one listens, the other sends to the address it got.
use ping_pong_libp2p.Base.{
  ℕ, ◌+◌, ◌%◌, ◌^◌, ◌≡◌, refl, sym, ap, ◌∙◌, some, List, [], ◌∷◌, ◌++◌, arith, map, append-nil,
  append_assoc,
}
use ping_pong_libp2p.Base.Assoc.{get}
use ping_pong_libp2p.Text.{Text, text_eq}
use ping_pong_libp2p.Deps.Channel.{Channel, ChannelLaws}
use ping_pong_libp2p.NetV2.Types.{Address, MeerkatMessage}
use ping_pong_libp2p.NetV2.Messages.{
  send_message, NetworkReply, message_sent, NetworkEvent, message_received,
}
use ping_pong_libp2p.NetV2.Mock.{
  MockNetwork, Registry, send, handle_command, extract_peer_id_from_addr,
}
use ping_pong_libp2p.NetV2.Mock.Delivery.{events, events-send_self}

-- The client's sends, one after the other.
abbrev pub send_all :
    {c : Channel NetworkEvent}
    → Address
    → List MeerkatMessage
    → MockNetwork
    → Registry c
    → MockNetwork × Registry c
send_all addr [] self r = (self, r)
send_all addr (m ∷ ms) self r =
    let (_, self', r') = handle_command (send_message addr m) self r in send_all addr ms self' r'

module _ {c : Channel NetworkEvent} where
  -- A send to an address that leads to a registered peer is a send on that peer's channel.
  handle_command-found :
      (self : MockNetwork) (addr : Address) (msg : MeerkatMessage) (peer : Text) (tx : ℕ)
      (r : Registry c)
      → extract_peer_id_from_addr addr ≡ some peer
      → get r.senders peer ≡ some tx
      → handle_command (send_message addr msg) self r ≡ (
        message_sent self.next_message_id,
        record self { next_message_id = (self.next_message_id + 1) % 2 ^ 64 },
        send r tx (message_received self.peer_id msg),
      )
  unfolding handle_command
  handle_command-found self addr msg peer tx r e h = ground (arith, e, h)

  senders-send :
      (peer : Text) (r : Registry c) (tx : ℕ) (e : NetworkEvent)
      → get (send r tx e).senders peer ≡ get r.senders peer
  unfolding send
  senders-send peer r tx e = refl

module _ {c : Channel NetworkEvent} (laws : ChannelLaws c) where
  -- All messages sent to a registered peer arrive at its channel, in the order of the sends and
  -- behind what waited there.
  send_all-events :
      (addr : Address) (peer : Text) (tx : ℕ) (ms : List MeerkatMessage) (self : MockNetwork)
      (r : Registry c)
      → extract_peer_id_from_addr addr ≡ some peer
      → get r.senders peer ≡ some tx
      → events laws (send_all addr ms self r).1 tx
        ≡ events laws r tx ++ map (message_received self.peer_id) ms
  send_all-events addr peer tx [] self r e h = sym (append-nil (events laws r tx))
  send_all-events addr peer tx (m ∷ ms) self r e h =
      let self' : MockNetwork = record self {
        next_message_id = (self.next_message_id + 1) % 2 ^ 64;
      } in
      let event : NetworkEvent = message_received self.peer_id m in
      ap
        (λ (x : NetworkReply × MockNetwork × Registry c).
          events laws (send_all addr ms x.1 x.2).1 tx)
        (handle_command-found self addr m peer tx r e h)
      ∙ send_all-events addr peer tx ms self' (send r tx event) e (senders-send peer r tx event ∙ h)
      ∙ ap (λ l. l ++ map (message_received self.peer_id) ms) (events-send_self laws r tx event)
      ∙ append_assoc (events laws r tx) (event ∷ []) (map (message_received self.peer_id) ms)
