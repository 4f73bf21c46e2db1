-- ===== src/NetV1/EventLoop/Outcome.antt =====
-- What a message to send comes to in the first version, described apart from the loop.
use ping_pong_libp2p.Base.Iterators.{find_map}
use ping_pong_libp2p.Base.{◌≡◌, Bool, Option, none, some, List, [], ◌∷◌, ◌++◌, if◌then◌else◌}
use ping_pong_libp2p.Io.{ok, err}
use ping_pong_libp2p.Text.{text}
use ping_pong_libp2p.Deps.Json.{Json}
use ping_pong_libp2p.Deps.Libp2p.{Libp2p}
use ping_pong_libp2p.NetV1.Types.{
  MessageId, GlobalAddress, MeerkatMessage, SendError, unreachable_address, protocol_error, Call,
  on_send_error,
}
use ping_pong_libp2p.NetV1.Protocol
use ping_pong_libp2p.NetV1.EventLoop.{Loop}

-- The calls of one message: none, or one of `on_send_error` under the message's id.
abbrev pub report : MessageId → Option SendError → List Call
report id none = []
report id (some e) = on_send_error id e ∷ []

abbrev pub same_peer : (n : Libp2p) → n.PeerId → n.PeerId → Bool
same_peer n = (n.peer_eq).beq

-- All but the network and the calls is as it was.
pub record SameBooks {n : Libp2p} (l l' : Loop n) : Type 0 where
  pub sends : l'.pending_sends ≡ l.pending_sends
  pub listens : l'.pending_listen ≡ l.pending_listen
  pub addrs : l'.local_addrs ≡ l.local_addrs
  pub answers : l'.responses ≡ l.responses

module _ (n : Libp2p) where
  -- What a `Send` command comes to, as far as the loop can tell at once: a failure, if there is one,
  -- and the peer for which the message then waits, if it does.
  pub data Outcome : Type 0 where
    failed : SendError → Outcome
    lost_queue : n.PeerId → SendError → Outcome
    waits : n.PeerId → Outcome
    sent : Outcome

  abbrev pub failure : Outcome → Option SendError
  failure (failed e) = some e
  failure (lost_queue peer e) = some e
  failure (waits peer) = none
  failure sent = none

  -- The queue of `q` afterwards.
  abbrev pub queue_after :
      Outcome
      → MessageId × MeerkatMessage
      → n.PeerId
      → List (MessageId × MeerkatMessage)
      → List (MessageId × MeerkatMessage)
  queue_after (failed e) m q ms = ms
  queue_after (lost_queue peer e) m q ms = if same_peer n peer q then [] else ms
  queue_after (waits peer) m q ms = if same_peer n peer q then ms ++ (m ∷ []) else ms
  queue_after sent m q ms = ms

module _ (n : Libp2p) (j : Json MeerkatMessage) where
  -- Why a send on a connection fails, if it does.
  abbrev pub stream_failure : n.PeerId → MeerkatMessage → n.World → Option SendError
  stream_failure peer msg w = elim (n.open_stream peer w).0 [
    | err e ↦ some (protocol_error (text "Stream open failed: " ++ e))
    | ok stream ↦ elim (Protocol.send_message n.streams j stream msg (n.open_stream peer w).1).0 [
      | ok _ ↦ none
      | err e ↦ some (protocol_error (text "Send failed: " ++ e))
    ]
  ]

  abbrev pub outcome : GlobalAddress → MeerkatMessage → n.World → Outcome n
  outcome addr msg w = elim (n.parse addr) [
    | err _ ↦ failed (unreachable_address addr)
    | ok m ↦ elim (find_map n.p2p (n.iter m)) [
      | none ↦ failed (protocol_error (text "No peer ID in address"))
      | some peer ↦
          if n.is_connected w peer
          then elim (stream_failure peer msg w) [ none ↦ sent | some e ↦ failed e ]
          else elim (n.dial m w).0 [
            | ok _ ↦ waits peer
            | err e ↦ lost_queue peer (protocol_error (text "Dial failed: " ++ e))
          ]
    ]
  ]
