-- ===== src/NetV2/Actor/Relaying.antt =====
-- `ListenViaRelay` on its whole way: the actor's request, what the loop makes of it, and the reply.
use ping_pong_libp2p.Base.{◌≡◌, refl, ap, ◌∙◌, true, some, none, List, [], ◌∷◌, ◌++◌}
use ping_pong_libp2p.Io.{Result, ok}
use ping_pong_libp2p.Text.{Text, text, contains}
use ping_pong_libp2p.Deps.Channel.{Channel}
use ping_pong_libp2p.Deps.Json.{Json}
use ping_pong_libp2p.Deps.Libp2p.{Libp2p}
use ping_pong_libp2p.NetV2.Types.{Address, MeerkatMessage}
use ping_pong_libp2p.NetV2.Messages.{NetworkEvent, listen_via_relay, listen_success}
use ping_pong_libp2p.NetV2.Address.{extract_peer_id}
use ping_pong_libp2p.NetV2.EventLoop.{Loop, entry, send_messages, event_loop}
use ping_pong_libp2p.NetV2.EventLoop.Signals.{
  SwarmCommand, Wake, swarm_event, connection_established, new_listen_addr,
}
use ping_pong_libp2p.NetV2.EventLoop.Relaying.{event_loop-listen_via_relay}
use ping_pong_libp2p.NetV2.Actor.{NetworkActor, handle_command, finish_listen}
use ping_pong_libp2p.NetV2.Actor.Delivery.{woken}

module _ {n : Libp2p} {c : Channel NetworkEvent} (j : Json MeerkatMessage) where
  -- A node that asks to listen via a relay gets there: if the loop has met all earlier commands,
  -- the relay's address parses and names a peer and the dial starts, then the connection with the
  -- relay makes the loop listen on the relay's address with `/p2p-circuit` at its end, before any
  -- waiting message is sent; the circuit address that is reported next answers exactly this request
  -- and closes it, with requests of the other kind as they were; and the command that gets this
  -- answer replies with the circuit address, which is then the last of the node's addresses.
  pub handle_command-listen_via_relay :
      (relay_addr : Address) (m circuit : n.Multiaddr) (peer : n.PeerId) (self : NetworkActor n c)
      (l : Loop n)
      → self.command_tx ≡ []
      → n.parse relay_addr ≡ ok m
      → extract_peer_id n m ≡ some peer
      → (n.dial m l.net).0 ≡ ok tt
      → contains (n.show_addr circuit) (text "/p2p-circuit") ≡ true
      → let answer : Result Address Text = ok (n.show_addr circuit) in
        let (reply, self') = handle_command (some answer) (listen_via_relay relay_addr) self in
        let up = swarm_event (connection_established peer) in
        let bound = swarm_event (new_listen_addr circuit) in
        let l1 = event_loop n j (woken self'.command_tx ++ (up ∷ [])) l in
        let l2 = event_loop n j (woken self'.command_tx ++ (up ∷ bound ∷ [])) l in
        ((ready : Loop n) × (ready.net
            ≡ (n.listen_on (n.with_protocol m n.p2p_circuit) (n.dial m l.net).1).1)
          × (l1 ≡ send_messages n j peer (entry l peer) ready))
        × (l2.replies ≡ l.replies ++ ((self.next_reply, answer) ∷ []))
        × (l2.pending_relay ≡ none)
        × (l2.pending_listen ≡ l.pending_listen)
        × (reply ≡ listen_success (n.show_addr circuit))
        × (self'.local_addrs ≡ self.local_addrs ++ (n.show_addr circuit ∷ []))
  unfolding handle_command finish_listen
  handle_command-listen_via_relay relay_addr m circuit peer self l idle p found dials over =
      let cmd : SwarmCommand = SwarmCommand.listen_via_relay relay_addr self.next_reply in
      let run : List (Wake n) → Loop n → Loop n = event_loop n j in
      let same = λ (ws : List (Wake n)). ap (λ cs. run (woken (cs ++ (cmd ∷ [])) ++ ws) l) idle in
      let up : Wake n = swarm_event (connection_established peer) in
      let bound : Wake n = swarm_event (new_listen_addr circuit) in
      let ((ready, net, sends), answers, closed, kept) =
        event_loop-listen_via_relay j relay_addr self.next_reply m circuit peer l p found dials
          over in
      (
        (ready, net, same (up ∷ []) ∙ sends),
        ap (λ (k : Loop n). k.replies) (same (up ∷ bound ∷ [])) ∙ answers,
        ap (λ (k : Loop n). k.pending_relay) (same (up ∷ bound ∷ [])) ∙ closed,
        ap (λ (k : Loop n). k.pending_listen) (same (up ∷ bound ∷ [])) ∙ kept,
        refl,
        refl,
      )
