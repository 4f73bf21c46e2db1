-- ===== src/NetV2/Mock/Delivery.antt =====
-- What a mock node's commands do to the channels.
use ping_pong_libp2p.Base.{
  ℕ, ◌+◌, ◌%◌, ◌^◌, ◌≡◌, refl, sym, ap, ◌∙◌, Bool, true, false, Option, none, some, List, [], ◌∷◌,
  ◌++◌, arith, append-nil, nat_beq, nat_beq_iff, if◌then◌else◌,
}
use ping_pong_libp2p.Base.Assoc.{get}
use ping_pong_libp2p.Text.{Text, text, text_eq}
use ping_pong_libp2p.Deps.Channel.{Channel, ChannelLaws}
use ping_pong_libp2p.NetV2.Types.{Address, MeerkatMessage, unreachable_address, protocol_error}
use ping_pong_libp2p.NetV2.Messages.{
  send_message, message_sent, NetworkEvent, message_received, send_failed,
}
use ping_pong_libp2p.NetV2.Mock.{
  MockNetwork, Registry, send, deliver, handle_command, extract_peer_id_from_addr,
}

-- `e` on channel `tx`, as it shows on channel `k`.
abbrev pub only_on : ℕ → NetworkEvent → ℕ → List NetworkEvent
only_on tx e k = if nat_beq k tx then e ∷ [] else []

module _ {c : Channel NetworkEvent} where
  -- The registry has the node's own channel under its name.
  abbrev pub IsAttached : MockNetwork → Registry c → Type 0
  IsAttached self r = get r.senders self.peer_id ≡ some self.event_rx

  -- The channel on which a send ends up, and the event that it carries there.
  abbrev pub outcome :
      MockNetwork → Address → MeerkatMessage → Option Text → Registry c → ℕ × NetworkEvent
  outcome self addr msg none r = (
    self.event_rx,
    send_failed self.next_message_id (protocol_error (text "No peer ID in address")),
  )
  outcome self addr msg (some peer) r = elim (get r.senders peer) [
    | some tx ↦ (tx, message_received self.peer_id msg)
    | none ↦ (self.event_rx, send_failed self.next_message_id (unreachable_address addr))
  ]

  deliver-outcome :
      (self : MockNetwork) (next : ℕ) (addr : Address) (msg : MeerkatMessage) (target : Option Text)
      (r : Registry c)
      → IsAttached self r
      → let (tx, e) = outcome self addr msg target r in
        deliver (record self { next_message_id = next }) self.next_message_id addr msg target r
        ≡ send r tx e
  unfolding deliver
  deliver-outcome self next addr msg none r h = ground (arith, h)
  deliver-outcome self next addr msg (some peer) r h = ground (arith, h)

module _ {c : Channel NetworkEvent} (laws : ChannelLaws c) where
  -- The events that wait on a channel.
  abbrev pub events : Registry c → ℕ → List NetworkEvent
  events r k = laws.contents (r.queues k)

  send_cases :
      (queues : ℕ → c.Queue) (tx k : ℕ) (e : NetworkEvent) (b : Bool)
      → (b ≡ true → k ≡ tx)
      → laws.contents (if b then c.send (queues tx) e else queues k)
        ≡ laws.contents (queues k) ++ (if b then e ∷ [] else [])
  send_cases queues tx k e true h =
      laws.contents-send (queues tx) e
      ∙ ap (λ n. laws.contents (queues n) ++ (e ∷ [])) (sym (h refl))
  send_cases queues tx k e false h = sym (append-nil (laws.contents (queues k)))

  events-send :
      (r : Registry c) (tx : ℕ) (e : NetworkEvent) (k : ℕ)
      → events (send r tx e) k ≡ events r k ++ only_on tx e k
  unfolding send
  events-send r tx e k = send_cases r.queues tx k e (nat_beq k tx) (nat_beq_iff k tx).0

  pub events-send_self :
      (r : Registry c) (tx : ℕ) (e : NetworkEvent)
      → events (send r tx e) tx ≡ events r tx ++ (e ∷ [])
  events-send_self r tx e =
      let same : nat_beq tx tx ≡ true = (nat_beq_iff tx tx).1 refl in
      events-send r tx e tx ∙ ap (λ b. events r tx ++ (if b then e ∷ [] else [])) same

  -- A send of an attached node is answered at once with the next message id, and puts exactly one
  -- event on exactly one channel: the message on the target's, or else a failure with that id on
  -- the node's own. Every other channel is left as it was.
  pub handle_command-one_event :
      (self : MockNetwork) (addr : Address) (msg : MeerkatMessage) (r : Registry c) (k : ℕ)
      → IsAttached self r
      → let (reply, self', r') = handle_command (send_message addr msg) self r in
        let (tx, e) = outcome self addr msg (extract_peer_id_from_addr addr) r in
        (reply ≡ message_sent self.next_message_id)
        × (self' ≡ record self { next_message_id = (self.next_message_id + 1) % 2 ^ 64 })
        × (events r' k ≡ events r k ++ only_on tx e k)
  unfolding handle_command
  handle_command-one_event self addr msg r k h =
      let target : Option Text = extract_peer_id_from_addr addr in
      let (tx, e) = outcome self addr msg target r in
      (
        refl,
        refl,
        ap (λ (r' : Registry c). events r' k)
              (deliver-outcome self ((self.next_message_id + 1) % 2 ^ 64) addr msg target r h)
            ∙ events-send r tx e k,
      )
