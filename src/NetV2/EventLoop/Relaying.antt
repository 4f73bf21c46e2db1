-- ===== src/NetV2/EventLoop/Relaying.antt =====
-- A request to listen over a relay, from its command to its answer.
use ping_pong_libp2p.Base.{◌≡◌, refl, ap, ◌∙◌, true, none, some, [], ◌∷◌, ◌++◌, arith}
use ping_pong_libp2p.Io.{ok}
use ping_pong_libp2p.Text.{text, contains}
use ping_pong_libp2p.Deps.Json.{Json}
use ping_pong_libp2p.Deps.Libp2p.{Libp2p}
use ping_pong_libp2p.NetV2.Types.{Address, MeerkatMessage}
use ping_pong_libp2p.NetV2.Address.{extract_peer_id}
use ping_pong_libp2p.NetV2.EventLoop.{
  Loop, emit, entry, forget, listen_on_relay, send_messages, handle_swarm_event, event_loop,
  do_listen_via_relay, on_new_listen_addr,
}
use ping_pong_libp2p.NetV2.EventLoop.Signals.{
  ReplyTx, SwarmCommand, command, swarm_event, connection_established, new_listen_addr,
}
use ping_pong_libp2p.NetV2.EventLoop.Flush.{
  connected, connection_established-books, connection_established-sends,
}

module _ {n : Libp2p} (j : Json MeerkatMessage) where
  -- The state while a relay request waits for its connection.
  abbrev pub asked : Address → ReplyTx → n.Multiaddr → Loop n → Loop n
  asked relay_addr tx m l = record l {
    net = (n.dial m l.net).1;
    pending_relay = some (relay_addr, tx);
  }

  do_listen_via_relay-asked :
      (relay_addr : Address) (tx : ReplyTx) (m : n.Multiaddr) (l : Loop n)
      → n.parse relay_addr ≡ ok m
      → (n.dial m l.net).0 ≡ ok tt
      → do_listen_via_relay n j relay_addr tx l ≡ asked relay_addr tx m l
  unfolding do_listen_via_relay
  do_listen_via_relay-asked relay_addr tx m l p d = rw (p, do_listen_via_relay, d)

  net-connected :
      (relay_addr : Address) (tx : ReplyTx) (m : n.Multiaddr) (peer : n.PeerId) (l : Loop n)
      → n.parse relay_addr ≡ ok m
      → extract_peer_id n m ≡ some peer
      → (connected j peer (asked relay_addr tx m l)).net
        ≡ (n.listen_on (n.with_protocol m n.p2p_circuit) (n.dial m l.net).1).1
  unfolding listen_on_relay forget emit
  net-connected relay_addr tx m peer l p e =
      rw (p, listen_on_relay, e) (ground (arith, (n.peer_eq).beq_iff peer peer))

  on_new_listen_addr-relay :
      (c : n.Multiaddr) (relay_addr : Address) (tx : ReplyTx) (l : Loop n)
      → l.pending_relay ≡ some (relay_addr, tx)
      → contains (n.show_addr c) (text "/p2p-circuit") ≡ true
      → ((on_new_listen_addr n j c l).replies ≡ l.replies ++ ((tx, ok (n.show_addr c)) ∷ []))
        × ((on_new_listen_addr n j c l).pending_relay ≡ none)
        × ((on_new_listen_addr n j c l).pending_listen ≡ l.pending_listen)
  unfolding on_new_listen_addr
  on_new_listen_addr-relay c relay_addr tx l e k = rw (k, on_new_listen_addr, e) (refl, refl, refl)

  entry-asked :
      (relay_addr : Address) (tx : ReplyTx) (m : n.Multiaddr) (peer : n.PeerId) (l : Loop n)
      → entry (asked relay_addr tx m l) peer ≡ entry l peer
  unfolding entry
  entry-asked relay_addr tx m peer l = refl

  two_turns :
      (relay_addr : Address) (tx : ReplyTx) (peer : n.PeerId) (l : Loop n)
      → event_loop n j
          (command (SwarmCommand.listen_via_relay relay_addr tx)
            ∷ swarm_event (connection_established peer)
            ∷ [])
          l
        ≡ handle_swarm_event n j
            (connection_established peer)
            (do_listen_via_relay n j relay_addr tx l)
  unfolding event_loop
  two_turns relay_addr tx peer l = refl

  three_turns :
      (relay_addr : Address) (tx : ReplyTx) (peer : n.PeerId) (c : n.Multiaddr) (l : Loop n)
      → event_loop n j
          (command (SwarmCommand.listen_via_relay relay_addr tx)
            ∷ swarm_event (connection_established peer)
            ∷ swarm_event (new_listen_addr c)
            ∷ [])
          l
        ≡ on_new_listen_addr n j c (
            handle_swarm_event n j
              (connection_established peer)
              (do_listen_via_relay n j relay_addr tx l))
  unfolding event_loop
  three_turns relay_addr tx peer c l = refl

  -- `ListenViaRelay` works: once the dial of the relay has started, the connection with the relay's
  -- peer makes the loop listen on the relay's address with `/p2p-circuit` at its end, before any
  -- waiting message is sent, and the circuit address that is then reported answers exactly this
  -- request, which is closed by it.
  pub event_loop-listen_via_relay :
      (relay_addr : Address) (tx : ReplyTx) (m c : n.Multiaddr) (peer : n.PeerId) (l : Loop n)
      → n.parse relay_addr ≡ ok m
      → extract_peer_id n m ≡ some peer
      → (n.dial m l.net).0 ≡ ok tt
      → contains (n.show_addr c) (text "/p2p-circuit") ≡ true
      → let ask = command (SwarmCommand.listen_via_relay relay_addr tx) in
        let up = swarm_event (connection_established peer) in
        let bound = swarm_event (new_listen_addr c) in
        let l1 = event_loop n j (ask ∷ up ∷ []) l in
        let l2 = event_loop n j (ask ∷ up ∷ bound ∷ []) l in
        ((ready : Loop n) × (ready.net
            ≡ (n.listen_on (n.with_protocol m n.p2p_circuit) (n.dial m l.net).1).1)
          × (l1 ≡ send_messages n j peer (entry l peer) ready))
        × (l2.replies ≡ l.replies ++ ((tx, ok (n.show_addr c)) ∷ []))
        × (l2.pending_relay ≡ none)
        × (l2.pending_listen ≡ l.pending_listen)
  event_loop-listen_via_relay relay_addr tx m c peer l p e d k =
      let l' : Loop n = asked relay_addr tx m l in
      let start : do_listen_via_relay n j relay_addr tx l ≡ l' =
        do_listen_via_relay-asked relay_addr tx m l p d in
      let up : Loop n = handle_swarm_event n j (connection_established peer) l' in
      let (listens, relays, answers) = connection_established-books j peer l' in
      let (r, closed, kept) = on_new_listen_addr-relay c relay_addr tx up relays k in
      let run = two_turns relay_addr tx peer l in
      let run' = three_turns relay_addr tx peer c l in
      let after = λ (k : Loop n).
        on_new_listen_addr n j c (handle_swarm_event n j (connection_established peer) k) in
      let last = run' ∙ ap after start in
      (
        (
          connected j peer l',
          net-connected relay_addr tx m peer l p e,
          run
              ∙ ap (handle_swarm_event n j (connection_established peer)) start
              ∙ connection_established-sends j peer l'
              ∙ ap (λ ms. send_messages n j peer ms (connected j peer l'))
                  (entry-asked relay_addr tx m peer l),
        ),
        ap (λ (k : Loop n). k.replies) last
            ∙ r
            ∙ ap (λ t. t ++ ((tx, ok (n.show_addr c)) ∷ [])) answers,
        ap (λ (k : Loop n). k.pending_relay) last ∙ closed,
        ap (λ (k : Loop n). k.pending_listen) last ∙ kept ∙ listens,
      )
