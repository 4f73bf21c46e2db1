-- ===== src/NetV2/Actor/Delivery.antt =====
-- A message on its whole way: from the command that a client gives to its actor, over the two event
-- loops and the stream between them, to the event that the client of the other node takes.
use ping_pong_libp2p.Base.{
  ℕ, ◌^◌, ◌<◌, ◌≡◌, sym, ap, ◌∙◌, false, some, List, [], ◌∷◌, ◌++◌, All, length, drop,
}
use ping_pong_libp2p.Io.{ok}
use ping_pong_libp2p.Deps.Channel.{Channel, ChannelLaws}
use ping_pong_libp2p.Deps.Json.{Json, JsonLaws}
use ping_pong_libp2p.Deps.Streams.{StreamLaws, CloseLaws, Takes}
use ping_pong_libp2p.Frame.Exchange.{frame}
use ping_pong_libp2p.Deps.Libp2p.{Libp2p}
use ping_pong_libp2p.NetV2.Types.{Address, MeerkatMessage}
use ping_pong_libp2p.NetV2.Messages.{NetworkEvent, send_message, message_sent, message_received}
use ping_pong_libp2p.NetV2.Address.{extract_peer_id}
use ping_pong_libp2p.NetV2.Address.Translation.{dialled}
use ping_pong_libp2p.NetV2.EventLoop.{Loop, entry, send_messages, send_to_peer, step, event_loop}
use ping_pong_libp2p.NetV2.EventLoop.Signals.{
  SwarmCommand, Wake, command, incoming, swarm_event, connection_established,
}
use ping_pong_libp2p.NetV2.EventLoop.Flush.{connected}
use ping_pong_libp2p.NetV2.EventLoop.Waiting.{Leaves}
use ping_pong_libp2p.NetV2.EventLoop.Delivery.{event_loop-delivers}
use ping_pong_libp2p.NetV2.EventLoop.Incoming.{handle_incoming-send_to_peer}
use ping_pong_libp2p.NetV2.Actor.{NetworkActor, Answer, handle_command, try_recv_event}
use ping_pong_libp2p.NetV2.Actor.Contract.{handle_command-send_message}

-- The loop takes these commands.
abbrev pub woken : {n : Libp2p} → List SwarmCommand → List (Wake n)
woken [] = []
woken (cmd ∷ cmds) = command cmd ∷ woken cmds

-- The actor's channel takes these events.
abbrev pub receive : (c : Channel NetworkEvent) → c.Queue → List NetworkEvent → c.Queue
receive c q [] = q
receive c q (e ∷ es) = receive c (c.send q e) es

-- The state in which the loop, after these turns and the connection with the peer, has sent what
-- waited before.
abbrev pub ready : {n : Libp2p} → Json MeerkatMessage → n.PeerId → List (Wake n) → Loop n → Loop n
ready {n = n} j peer ws l =
    send_messages n j peer (entry l peer) (connected j peer (event_loop n j ws l))

module _ {n : Libp2p} {c : Channel NetworkEvent} where
  -- What the loop takes after a send.
  abbrev pub asked : Answer → Address → MeerkatMessage → NetworkActor n c → List (Wake n)
  asked answer addr msg self =
      woken (handle_command answer (send_message addr msg) self).1.command_tx

  -- The turns after a send, those of `ws` and the connection with the peer.
  abbrev pub connecting :
      n.PeerId
      → Answer
      → Address
      → MeerkatMessage
      → NetworkActor n c
      → List (Wake n)
      → List (Wake n)
  connecting peer answer addr msg self ws =
      asked answer addr msg self ++ (ws ++ (swarm_event (connection_established peer) ∷ []))

  try_recv_event-received :
      (laws : ChannelLaws c) (e : NetworkEvent) (self : NetworkActor n c)
      → laws.contents self.event_rx ≡ []
      → (try_recv_event (record self { event_rx = receive c self.event_rx (e ∷ []) })).0 ≡ some e
  unfolding try_recv_event
  try_recv_event-received laws e self h =
      (laws.try_recv_some (c.send self.event_rx e) e []
        (laws.contents-send self.event_rx e ∙ ap (λ l. l ++ (e ∷ [])) h)).0

module _ {n : Libp2p} (laws : StreamLaws n.streams) (close : CloseLaws n.streams laws)
    {c : Channel NetworkEvent} (channel_laws : ChannelLaws c) (j : Json MeerkatMessage)
    (json : JsonLaws j) where
  -- A message that a client hands to its actor is the event that the client of the other node takes
  -- next. The sender is answered with the message's id; its loop, once the connection with the peer
  -- is there, has written exactly the frame of the message to the stream that it opens, and sending
  -- it adds nothing to the sender's events, which are those of the turns before and of the messages
  -- that waited before; and the other node, on whose incoming stream arrives what the sender's loop
  -- has written, adds events of which its client takes the message first. The conditions: the
  -- loop has met all earlier commands; the address to dial parses, names a peer that is not
  -- connected and can be dialled; until the connection with the peer is there, the loop meets no
  -- other connection to the peer or send to it; then the stream opens and takes what is written to
  -- it; the message has less than 2 ^ 32 bytes; and the other client has taken all earlier events.
  pub try_recv_event-handle_command :
      (answer : Answer) (addr : Address) (msg : MeerkatMessage) (self other : NetworkActor n c)
      (l l' : Loop n) (m : n.Multiaddr) (peer from : n.PeerId) (ws : List (Wake n)) (bytes : List ℕ)
      (st st' : n.Stream) (w : n.World)
      → self.command_tx ≡ []
      → n.parse (dialled self.node_type addr) ≡ ok m
      → extract_peer_id n m ≡ some peer
      → n.is_connected l.net peer ≡ false
      → (n.dial m l.net).0 ≡ ok tt
      → All (Leaves n peer) ws
      → n.open_stream peer (ready j peer (asked answer addr msg self ++ ws) l).net ≡ (ok st, w)
      → Takes n.streams st
      → j.to_vec msg ≡ ok bytes
      → length bytes < 2 ^ 32
      → laws.unread l'.net st'
        ≡ drop
            (length (laws.written w st))
            (laws.written (event_loop n j (connecting peer answer addr msg self ws) l).net st)
      → channel_laws.contents other.event_rx ≡ []
      → let sent = event_loop n j (connecting peer answer addr msg self ws) l in
        ((handle_command answer (send_message addr msg) self).0 ≡ message_sent self.next_message_id)
        × (sent.event_tx ≡ (ready j peer (asked answer addr msg self ++ ws) l).event_tx)
        × (laws.written sent.net st ≡ laws.written w st ++ frame bytes)
        × ((es : List NetworkEvent) × ((step n j (incoming from st') l').event_tx
              ≡ l'.event_tx ++ es)
            × ((try_recv_event (record other { event_rx = receive c other.event_rx es })).0
                ≡ some (message_received (n.show_peer from) msg)))
  unfolding step
  try_recv_event-handle_command answer addr msg self other l l' m peer from ws bytes st st' w idle p
        e down dials leaves opened takes to_vec small arrived empty =
      let (answered, handed, _, _, _) = handle_command-send_message answer addr msg self in
      let id : ℕ = self.next_message_id in
      let cmd : SwarmCommand = SwarmCommand.send id (dialled self.node_type addr) msg in
      let one : (handle_command answer (send_message addr msg) self).1.command_tx ≡ cmd ∷ [] =
        handed ∙ ap (λ cs. cs ++ (cmd ∷ [])) idle in
      let (delivers, _) =
        event_loop-delivers j id (dialled self.node_type addr) msg m peer ws l p e down dials
          leaves in
      let event : NetworkEvent = message_received (n.show_peer from) msg in
      let same : asked answer addr msg self ++ ws ≡ command cmd ∷ ws =
        ap (λ cs. woken cs ++ ws) one in
      let before : Loop n = ready j peer (command cmd ∷ ws) l in
      let sent : event_loop n j (connecting peer answer addr msg self ws) l
          ≡ send_to_peer n j peer id msg before =
        ap
          (λ cs.
            event_loop n j (woken cs ++ (ws ++ (swarm_event (connection_established peer) ∷ []))) l)
          one
        ∙ delivers in
      let (quiet, wrote, shown) =
        handle_incoming-send_to_peer laws j close json peer from id msg bytes before l' st st' w
          (ap (λ vs. n.open_stream peer (ready j peer vs l).net) (sym same) ∙ opened) takes to_vec
          small
          (arrived
            ∙ ap (λ (k : Loop n). drop (length (laws.written w st)) (laws.written k.net st))
                sent) in
      (
        answered,
        ap (λ (k : Loop n). k.event_tx) sent
            ∙ quiet
            ∙ ap (λ vs. (ready j peer vs l).event_tx) (sym same),
        ap (λ (k : Loop n). laws.written k.net st) sent ∙ wrote,
        (event ∷ [], shown, try_recv_event-received channel_laws event other empty),
      )
