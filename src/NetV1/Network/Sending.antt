-- ===== src/NetV1/Network/Sending.antt =====
-- The first version from end to end on the sending side: the ids that `send` gives out, the commands
-- that reach the loop, and the messages that the loop keeps for a peer and sends to it.
use ping_pong_libp2p.Base.{
  ℕ, ◌+◌, ◌%◌, ◌^◌, ◌<◌, ◌≡◌, refl, sym, ap, ◌∙◌, false, some, List, [], ◌∷◌, ◌++◌, arith, length,
  append-nil, append_assoc,
}
use mathlib.Core.List.{foldl}
use ping_pong_libp2p.Queues.{count_up}
use ping_pong_libp2p.Io.{ok}
use ping_pong_libp2p.Deps.Json.{Json}
use ping_pong_libp2p.Deps.Libp2p.{Libp2p}
use ping_pong_libp2p.NetV1.Types.{MessageId, GlobalAddress, MeerkatMessage}
use ping_pong_libp2p.NetV1.EventLoop.{
  connection_established, Loop, NetworkCommand, entry, extract_peer_id, send_messages, send_to_peer,
  handle_swarm_event, event_loop,
}
use ping_pong_libp2p.NetV1.EventLoop.Waiting.{
  sends, commands, connected, connection_established-sends, entry-sends,
}
use ping_pong_libp2p.NetV1.Network.{LibP2PNetwork, send}

-- Messages sent to one address one after the other, and the ids that come back.
abbrev pub send_all :
    {n : Libp2p}
    → GlobalAddress
    → List MeerkatMessage
    → LibP2PNetwork n
    → List MessageId × LibP2PNetwork n
send_all addr [] self = ([], self)
send_all addr (m ∷ ms) self =
    let (id, self') = send addr m self in
    let (ids, self2) = send_all addr ms self' in (id ∷ ids, self2)

abbrev pub zip {ℓ κ} : {A : Type ℓ} {B : Type κ} → List A → List B → List (A × B)
zip [] ys = []
zip (x ∷ xs) [] = []
zip (x ∷ xs) (y ∷ ys) = (x, y) ∷ zip xs ys

module _ {n : Libp2p} where
  ids-send_all :
      (addr : GlobalAddress) (ms : List MeerkatMessage) (self : LibP2PNetwork n)
      → self.next_message_id + length ms < 2 ^ 64
      → (send_all addr ms self).0 ≡ count_up self.next_message_id (length ms)
  unfolding send
  ids-send_all addr [] self h = refl
  ids-send_all addr (m ∷ ms) self h =
      let k : ℕ = self.next_message_id in
      let next : (k + 1) % 2 ^ 64 ≡ k + 1 = omega arith in
      let more : (k + 1) % 2 ^ 64 + length ms < 2 ^ 64 = omega arith in
      ap (λ ids. k ∷ ids)
        (ids-send_all addr ms (send addr m self).1 more ∙ ap (λ c. count_up c (length ms)) next)

  command_tx-send_all :
      (addr : GlobalAddress) (ms : List MeerkatMessage) (self : LibP2PNetwork n)
      → (send_all addr ms self).1.command_tx
        ≡ self.command_tx ++ sends n addr (zip (send_all addr ms self).0 ms)
  unfolding send
  command_tx-send_all addr [] self = sym (append-nil self.command_tx)
  command_tx-send_all addr (m ∷ ms) self =
      let self' : LibP2PNetwork n = (send addr m self).1 in
      command_tx-send_all addr ms self'
      ∙ append_assoc self.command_tx (NetworkCommand.send self.next_message_id addr m ∷ [])
          (sends n addr (zip (send_all addr ms self').0 ms))

module _ {n : Libp2p} (j : Json MeerkatMessage) where
  send_messages-foldl :
      (peer : n.PeerId) (ms : List (MessageId × MeerkatMessage)) (l : Loop n)
      → send_messages n j peer ms l ≡ foldl (λ k x. send_to_peer n j peer x.0 x.1 k) l ms
  unfolding send_messages
  send_messages-foldl peer [] l = refl
  send_messages-foldl peer ((id, msg) ∷ ms) l =
      send_messages-foldl peer ms (send_to_peer n j peer id msg l)

  -- Messages sent one after the other to a peer that is not connected, with every dial started, get
  -- consecutive ids, different as long as the counter stays below 2 ^ 64; once the loop has met
  -- their commands they wait, under these ids and in this order, behind the messages that waited
  -- before; and the connection, once established, makes of the loop what sending each of them to
  -- the peer, once and in that order, makes of it. `Down` is any
  -- condition on the network under which the peer is not connected and a dial starts, and which a
  -- dial does not end; before the first message the loop has met all commands.
  pub send_all-event_loop :
      (addr : GlobalAddress) (m : n.Multiaddr) (peer : n.PeerId) (Down : n.World → Type 0)
      (stays : (w : n.World)
        → Down w
        → (n.is_connected w peer ≡ false) × ((n.dial m w).0 ≡ ok tt) × Down (n.dial m w).1)
      (ms : List MeerkatMessage) (self : LibP2PNetwork n) (l : Loop n)
      → self.command_tx ≡ []
      → self.next_message_id + length ms < 2 ^ 64
      → n.parse addr ≡ ok m
      → extract_peer_id n m ≡ some peer
      → Down l.net
      → let sent = send_all addr ms self in
        let l' = event_loop n j (commands sent.1.command_tx) l in
        (sent.0 ≡ count_up self.next_message_id (length ms))
        × (entry l' peer ≡ entry l peer ++ zip sent.0 ms)
        × (handle_swarm_event n j (connection_established peer) l'
            ≡ foldl
                (λ k x. send_to_peer n j peer x.0 x.1 k)
                (connected j peer l')
                (entry l peer ++ zip sent.0 ms))
  send_all-event_loop addr m peer Down stays ms self l idle fits p e down =
      let sent : List MessageId × LibP2PNetwork n = send_all addr ms self in
      let l' : Loop n = event_loop n j (commands sent.1.command_tx) l in
      let all : sent.1.command_tx ≡ sends n addr (zip sent.0 ms) =
        command_tx-send_all addr ms self ∙ ap (λ cs. cs ++ sends n addr (zip sent.0 ms)) idle in
      let queue : entry l' peer ≡ entry l peer ++ zip sent.0 ms =
        ap (λ cs. entry (event_loop n j (commands cs) l) peer) all
        ∙ entry-sends j addr m peer Down stays (zip sent.0 ms) l p e down in
      (
        ids-send_all addr ms self fits,
        queue,
        connection_established-sends j peer l'
            ∙ ap (λ q. send_messages n j peer q (connected j peer l')) queue
            ∙ send_messages-foldl peer (entry l peer ++ zip sent.0 ms) (connected j peer l'),
      )
