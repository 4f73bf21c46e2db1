-- ===== src/NetV1/Network/Listening.antt =====
-- The first version from end to end when it listens: the request of `listen`, the loop's answer to
-- it, and the addresses that `local_addresses` then gives.
use ping_pong_libp2p.Base.{◌≡◌, refl, ap, ◌∙◌, List, [], ◌∷◌, ◌++◌, All, none}
use ping_pong_libp2p.Io.{Result, ok}
use ping_pong_libp2p.Deps.Json.{Json}
use ping_pong_libp2p.Deps.Libp2p.{Libp2p}
use ping_pong_libp2p.NetV1.Types.{GlobalAddress, MeerkatMessage, NetworkError}
use ping_pong_libp2p.NetV1.EventLoop.{
  Wake, command, swarm_event, new_listen_addr, Loop, NetworkCommand, event_loop,
}
use ping_pong_libp2p.NetV1.EventLoop.Listening.{Quiet, event_loop-listen}
use ping_pong_libp2p.NetV1.EventLoop.Waiting.{commands}
use ping_pong_libp2p.NetV1.Network.{LibP2PNetwork, answered, listen, local_addresses}

module _ {n : Libp2p} (j : Json MeerkatMessage) where
  -- Listening on an address that the swarm accepts succeeds as soon as an address is reported,
  -- whatever else the loop does in between, as long as no other request to listen comes: the loop
  -- answers the request once, with that address, and closes it, `listen` returns success for this answer, and the
  -- address is then the last of the local ones. Before, the loop has met all commands.
  pub listen-event_loop :
      (addr : GlobalAddress) (m a : n.Multiaddr) (ws : List (Wake n)) (self : LibP2PNetwork n)
      (l : Loop n)
      → self.command_tx ≡ []
      → n.parse addr ≡ ok m
      → (n.listen_on m l.net).0 ≡ ok tt
      → All Quiet ws
      → let answer : Result GlobalAddress NetworkError = ok (n.show_addr a) in
        let asked = listen (answered answer) addr self in
        let turns = ws ++ (swarm_event (new_listen_addr a) ∷ []) in
        let l' = event_loop n j (commands asked.1.command_tx ++ turns) l in
        (l'.responses ≡ l.responses ++ ((self.next_response, answer) ∷ []))
        × (l'.pending_listen ≡ none)
        × (asked.0 ≡ ok tt)
        × (local_addresses l' ≡ local_addresses l ++ (n.show_addr a ∷ []))
  unfolding listen local_addresses
  listen-event_loop addr m a ws self l idle p bound quiet =
      let tx = self.next_response in
      let turns : List (Wake n) = ws ++ (swarm_event (new_listen_addr a) ∷ []) in
      let same : event_loop n j
            (commands (self.command_tx ++ (NetworkCommand.listen addr tx ∷ [])) ++ turns) l
          ≡ event_loop n j (command (NetworkCommand.listen addr tx) ∷ turns) l =
        ap (λ cs. event_loop n j (commands (cs ++ (NetworkCommand.listen addr tx ∷ [])) ++ turns) l)
          idle in
      let (answers, closed, addrs) = event_loop-listen j addr tx m a ws l p bound quiet in
      (
        ap (λ (k : Loop n). k.responses) same ∙ answers,
        ap (λ (k : Loop n). k.pending_listen) same ∙ closed,
        refl,
        ap (λ (k : Loop n). k.local_addrs) same ∙ addrs,
      )
