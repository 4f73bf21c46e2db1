-- ===== src/NetV2/EventLoop/Events.antt =====
-- What the loop reports of the messages that it sends, and what a send leaves alone.
use ping_pong_libp2p.Base.{
  ◌≡◌, ap, ◌∙◌, inl, inr, Option, none, some, List, [], ◌∷◌, ◌++◌, arith, append-nil, if◌then◌else◌,
  Bool-cases, Option-cases,
}
use ping_pong_libp2p.Io.{ok, err, Result-cases}
use ping_pong_libp2p.Text.{text}
use ping_pong_libp2p.Deps.Json.{Json}
use ping_pong_libp2p.Deps.Libp2p.{Libp2p}
use ping_pong_libp2p.NetV2.Types.{
  MessageId, Address, MeerkatMessage, SendError, unreachable_address, protocol_error,
}
use ping_pong_libp2p.NetV2.Messages.{NetworkEvent, send_failed}
use ping_pong_libp2p.NetV2.Protocol
use ping_pong_libp2p.NetV2.Address.{extract_peer_id}
use ping_pong_libp2p.NetV2.EventLoop.{Loop, send_to_peer, send_known, do_send}

-- All but the network and the reported events is as it was.
pub record SameBooks {n : Libp2p} (l l' : Loop n) : Type 0 where
  pub sends : l'.pending_sends ≡ l.pending_sends
  pub listens : l'.pending_listen ≡ l.pending_listen
  pub relays : l'.pending_relay ≡ l.pending_relay
  pub answers : l'.replies ≡ l.replies

-- What the loop reports of one message: nothing, or one failure under the message's id.
abbrev pub report : MessageId → Option SendError → List NetworkEvent
report id none = []
report id (some e) = send_failed id e ∷ []

module _ (n : Libp2p) (j : Json MeerkatMessage) where
  -- Why a send on a connection fails, if it does.
  abbrev pub stream_failure : n.PeerId → MeerkatMessage → n.World → Option SendError
  stream_failure peer msg w = elim (n.open_stream peer w).0 [
    | err e ↦ some (protocol_error (text "Stream open: " ++ e))
    | ok stream ↦ elim (Protocol.send_message n.streams j stream msg (n.open_stream peer w).1).0 [
      | ok _ ↦ none
      | err e ↦ some (protocol_error (text "Send failed: " ++ e))
    ]
  ]

  -- Why a `Send` command fails before the loop goes on, if it does.
  abbrev pub send_failure : Address → MeerkatMessage → n.World → Option SendError
  send_failure addr msg w = elim (n.parse addr) [
    | err _ ↦ some (unreachable_address addr)
    | ok multiaddr ↦ elim (extract_peer_id n multiaddr) [
      | none ↦ some (protocol_error (text "No peer ID in address"))
      | some peer ↦
          if n.is_connected w peer then stream_failure peer msg w else elim (n.dial multiaddr w).0 [
            | ok _ ↦ none
            | err e ↦ some (protocol_error (text "Dial failed: " ++ e))
          ]
    ]
  ]

  -- The failure of a send to a known peer.
  send_failure-found :
      (addr : Address) (msg : MeerkatMessage) (w : n.World) (m : n.Multiaddr) (peer : n.PeerId)
      → n.parse addr ≡ ok m
      → extract_peer_id n m ≡ some peer
      → (if n.is_connected w peer then stream_failure peer msg w else elim (n.dial m w).0 [
        | ok _ ↦ none
        | err e ↦ some (protocol_error (text "Dial failed: " ++ e))
      ])
        ≡ send_failure addr msg w
  send_failure-found addr msg w m peer p q = ground arith

module _ {n : Libp2p} (j : Json MeerkatMessage) where
  pub send_to_peer-SameBooks :
      (peer : n.PeerId) (id : MessageId) (msg : MeerkatMessage) (l : Loop n)
      → SameBooks l (send_to_peer n j peer id msg l)
  unfolding send_to_peer
  send_to_peer-SameBooks peer id msg l = ground arith

  pub event_tx-send_to_peer :
      (peer : n.PeerId) (id : MessageId) (msg : MeerkatMessage) (l : Loop n)
      → (send_to_peer n j peer id msg l).event_tx
        ≡ l.event_tx ++ report id (stream_failure n j peer msg l.net)
  unfolding send_to_peer
  event_tx-send_to_peer peer id msg l = ground (arith, append-nil l.event_tx)

  event_tx-send_known :
      (addr : n.Multiaddr) (peer : n.PeerId) (id : MessageId) (msg : MeerkatMessage) (l : Loop n)
      → (send_known n j addr peer id msg l).event_tx
        ≡ l.event_tx
          ++ report id (
              if n.is_connected l.net peer
              then stream_failure n j peer msg l.net
              else elim (n.dial addr l.net).0 [
                | ok _ ↦ none
                | err e ↦ some (protocol_error (text "Dial failed: " ++ e))
              ])
  unfolding send_known
  event_tx-send_known addr peer id msg l = elim (Bool-cases (n.is_connected l.net peer)) [
    | inl up ↦ rw (up, send_known) (event_tx-send_to_peer peer id msg l)
    | inr down ↦ rw (down, send_known) (ground (arith, append-nil l.event_tx))
  ]

  event_tx-do_send :
      (id : MessageId) (addr : Address) (msg : MeerkatMessage) (l : Loop n)
      → (do_send n j id addr msg l).event_tx
        ≡ l.event_tx ++ report id (send_failure n j addr msg l.net)
  unfolding do_send
  event_tx-do_send id addr msg l = elim (Result-cases (n.parse addr)) [
    | inr (e, p) ↦ ground arith
    | inl (m, p) ↦ elim (Option-cases (extract_peer_id n m)) [
      | inl lost ↦ ground arith
      | inr (peer, q) ↦
          rw (p, do_send, q)
            (event_tx-send_known m peer id msg l
              ∙ ap (λ o. l.event_tx ++ report id o)
                  (send_failure-found n j addr msg l.net m peer p q))
    ]
  ]

  do_send-SameBooks :
      (id : MessageId) (addr : Address) (msg : MeerkatMessage) (l : Loop n)
      → ((do_send n j id addr msg l).pending_listen ≡ l.pending_listen)
        × ((do_send n j id addr msg l).pending_relay ≡ l.pending_relay)
        × ((do_send n j id addr msg l).replies ≡ l.replies)
  unfolding do_send
  do_send-SameBooks id addr msg l = (ground arith, ground arith, ground arith)

  -- A `Send` command is answered by exactly the failure that `send_failure` names, under the
  -- message's own id, and by no event if there is none; no request to listen is touched.
  pub do_send_reports :
      (id : MessageId) (addr : Address) (msg : MeerkatMessage) (l : Loop n)
      → ((do_send n j id addr msg l).event_tx
          ≡ l.event_tx ++ report id (send_failure n j addr msg l.net))
        × ((do_send n j id addr msg l).pending_listen ≡ l.pending_listen)
        × ((do_send n j id addr msg l).pending_relay ≡ l.pending_relay)
        × ((do_send n j id addr msg l).replies ≡ l.replies)
  do_send_reports id addr msg l =
      let (listens, relays, answers) = do_send-SameBooks id addr msg l in
      (event_tx-do_send id addr msg l, listens, relays, answers)
