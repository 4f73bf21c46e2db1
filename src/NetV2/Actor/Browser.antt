-- ===== src/NetV2/Actor/Browser.antt =====
-- A browser client's send, from the command to the event.
use ping_pong_libp2p.Base.{ℕ, ◌≡◌, ap, ◌∙◌, true, false, [], ◌∷◌, ◌++◌}
use ping_pong_libp2p.Io.{err}
use ping_pong_libp2p.Text.{Text}
use ping_pong_libp2p.Deps.Channel.{Channel}
use ping_pong_libp2p.Deps.Json.{Json}
use ping_pong_libp2p.Deps.Libp2p.{Libp2p, AddressLaws}
use ping_pong_libp2p.NetV2.Types.{Address, MeerkatMessage, browser_client, unreachable_address}
use ping_pong_libp2p.NetV2.Messages.{send_message, message_sent, NetworkEvent, send_failed}
use ping_pong_libp2p.NetV2.Address.Translation.{
  is_ip, is_relayed, hop, dialled, dialled-hop, contains-hop,
}
use ping_pong_libp2p.NetV2.EventLoop.{Loop, emit, step, do_send}
use ping_pong_libp2p.NetV2.EventLoop.Signals.{SwarmCommand, command}
use ping_pong_libp2p.NetV2.Actor.{NetworkActor, Answer, handle_command}
use ping_pong_libp2p.NetV2.Actor.Contract.{handle_command-send_message}

module _ {n : Libp2p} (j : Json MeerkatMessage) where
  step-unparsable :
      (id : ℕ) (addr : Address) (msg : MeerkatMessage) (l : Loop n) (e : Text)
      → n.parse addr ≡ err e
      → step n j (command (SwarmCommand.send id addr msg)) l
        ≡ emit l (send_failed id (unreachable_address addr))
  unfolding step
  step-unparsable id addr msg l e p = rw (p, do_send)

module _ {n : Libp2p} {c : Channel NetworkEvent} (j : Json MeerkatMessage) where
  -- A browser client that sends to an IP address which does not run over its own relay is told that
  -- the message was sent, and the send then fails: what the event loop is handed has an empty
  -- component behind the relay hop, which does not parse, and all that the loop does with it is to
  -- report the address as unreachable. No dial is made and no message waits.
  pub browser_send_unreachable :
      (laws : AddressLaws n) (answer : Answer) (relay addr : Address) (msg : MeerkatMessage)
      (self : NetworkActor n c) (l : Loop n)
      → self.node_type ≡ browser_client relay
      → is_ip addr ≡ true
      → is_relayed relay addr ≡ false
      → let (reply, self') = handle_command answer (send_message addr msg) self in
        let id = self.next_message_id in
        let cmd = SwarmCommand.send id (hop relay ++ addr) msg in
        (reply ≡ message_sent id)
        × (self'.command_tx ≡ self.command_tx ++ (cmd ∷ []))
        × (step n j (command cmd) l
            ≡ emit l (send_failed id (unreachable_address (hop relay ++ addr))))
  browser_send_unreachable laws answer relay addr msg self l t ip r =
      let (replied, handed, _, _, _) = handle_command-send_message answer addr msg self in
      let (e, p) = laws.parse_empty_component (hop relay ++ addr) (contains-hop relay addr ip) in
      (
        replied,
        handed
            ∙ ap (λ a. self.command_tx ++ (SwarmCommand.send self.next_message_id a msg ∷ []))
                (ap (λ k. dialled k addr) t ∙ dialled-hop relay addr ip r),
        step-unparsable j self.next_message_id (hop relay ++ addr) msg l e p,
      )
