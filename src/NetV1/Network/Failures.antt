-- ===== src/NetV1/Network/Failures.antt =====
-- The first version's network and its loop together: which calls of `on_send_error` a manager can
-- get. The commands that wake the loop are those of the network, in their order; everything else
-- that wakes it may come in between.
use ping_pong_libp2p.Base.{◌+◌, ◌^◌, ◌<◌, ◌≤◌, ◌≡◌, ap, subst, ◌∙◌, List, [], ◌∷◌, ◌++◌, arith}
use ping_pong_libp2p.Queues.{among, waiting, count_up}
use ping_pong_libp2p.Io.{Result, ok, err}
use ping_pong_libp2p.Text.{Text}
use ping_pong_libp2p.Deps.Json.{Json}
use ping_pong_libp2p.Deps.Libp2p.{Libp2p}
use ping_pong_libp2p.NetV1.Types.{MessageId, GlobalAddress, MeerkatMessage, NetworkCallbacks}
use ping_pong_libp2p.NetV1.NetworkLayer.Ids.{Request, Session, sends, run, ids-session}
use ping_pong_libp2p.NetV1.EventLoop.{NetworkCommand, Loop, Wake, event_loop, start}
use ping_pong_libp2p.NetV1.EventLoop.Cost.{failures, named, named-append}
use ping_pong_libp2p.NetV1.EventLoop.AtMostOnce.{taken, event_loop-bounded}
use ping_pong_libp2p.NetV1.Network.{LibP2PNetwork, Wait, new, send, listen}
use ping_pong_libp2p.NetV1.Network.Contract.{network_layer, meet, libp2p_network-Contract}

module _ (x : MessageId) {n : Libp2p} where
  -- A request to listen names no message.
  named-listen :
      (w : Wait) (addr : GlobalAddress) (self : LibP2PNetwork n)
      → (named x (listen w addr self).1.command_tx ≡ named x self.command_tx)
        × ((listen w addr self).1.next_message_id ≡ self.next_message_id)
  unfolding listen
  named-listen w addr self = (
    ground (
      arith,
      named-append x self.command_tx (NetworkCommand.listen addr self.next_response ∷ []),
    ),
    ground arith,
  )

  named-run :
      (j : Json MeerkatMessage) (cs : Session (network_layer n j)) (self : LibP2PNetwork n)
      → self.next_message_id + sends (network_layer n j) cs < 2 ^ 64
      → named x (run (network_layer n j) cs self).1.command_tx
        ≡ named x self.command_tx + among x self.next_message_id (sends (network_layer n j) cs)
  unfolding send
  named-run j [] self fits = ground arith
  named-run j ((h, Request.send addr msg) ∷ cs) self fits =
      let self' : LibP2PNetwork n = (send addr msg self).1 in
      let now =
        named-append x self.command_tx (NetworkCommand.send self.next_message_id addr msg ∷ []) in
      let next : self'.next_message_id ≡ self.next_message_id + 1 = omega arith in
      named-run j cs self' (omega (arith, next)) ∙ ground (arith, now, next)
  named-run j ((h, Request.listen w addr) ∷ cs) self fits =
      let wait : Wait = (meet n j w addr self h).0 in
      let self' : LibP2PNetwork n = (listen wait addr self).1 in
      let (now, same) = named-listen wait addr self in
      named-run j cs self' (omega (arith, same)) ∙ ground (arith, now, same)

  send_errors-started :
      (j : Json MeerkatMessage) (self : LibP2PNetwork n) (cs : Session (network_layer n j))
      (ws : List (Wake n)) (later : List NetworkCommand) (w : n.World)
      (callbacks : NetworkCallbacks)
      → self.command_tx ≡ []
      → self.next_message_id ≡ 1
      → 1 + sends (network_layer n j) cs < 2 ^ 64
      → (run (network_layer n j) cs self).1.command_tx ≡ taken ws ++ later
      → let l = event_loop n j ws (start n j w callbacks) in
        ((run (network_layer n j) cs self).0 ≡ count_up 1 (sends (network_layer n j) cs))
        × (failures x l.calls + waiting x l.pending_sends
            ≤ among x 1 (sends (network_layer n j) cs))
  send_errors-started j self cs ws later w callbacks idle first fits met =
      let fits' : self.next_message_id + sends (network_layer n j) cs < 2 ^ 64 =
        omega (arith, first) in
      (
        ids-session (network_layer n j) (libp2p_network-Contract n j) cs self fits'
            ∙ ap (λ k. count_up k (sends (network_layer n j) cs)) first,
        omega (
          arith,
          event_loop-bounded x j ws w callbacks,
          ap (named x) met ∙ named-append x (taken ws) later,
          named-run j cs self fits',
          ap (named x) idle,
          ap (λ k. among x k (sends (network_layer n j) cs)) first,
        ),
      )

  -- The system of a new network and its loop, in any session of sends and listens and any run: the
  -- sends are answered with the ids 1, 2, … in order, and if the loop has taken some of the
  -- network's commands, in their order, then for each id given out `on_send_error` was called at
  -- most once, and not while its message still waits, and never under any other id. (The session
  -- must not exhaust the ids.)
  pub send_errors_at_most_once :
      (j : Json MeerkatMessage) (built : Result (n.World × n.PeerId) Text)
      (callbacks : NetworkCallbacks) (self : LibP2PNetwork n) (l0 : Loop n)
      (cs : Session (network_layer n j)) (ws : List (Wake n)) (later : List NetworkCommand)
      → new j built callbacks ≡ ok (self, l0)
      → 1 + sends (network_layer n j) cs < 2 ^ 64
      → (run (network_layer n j) cs self).1.command_tx ≡ taken ws ++ later
      → let l = event_loop n j ws l0 in
        ((run (network_layer n j) cs self).0 ≡ count_up 1 (sends (network_layer n j) cs))
        × (failures x l.calls + waiting x l.pending_sends
            ≤ among x 1 (sends (network_layer n j) cs))
  unfolding new
  send_errors_at_most_once j (err e) callbacks self l0 cs ws later made fits met = absurd (cc made)
  send_errors_at_most_once j (ok (w, name)) callbacks self l0 cs ws later made fits met =
      let started : start n j w callbacks ≡ l0 = cc made in
      subst
        (λ l0.
          ((run (network_layer n j) cs self).0 ≡ count_up 1 (sends (network_layer n j) cs))
          × (failures x (event_loop n j ws l0).calls
                + waiting x (event_loop n j ws l0).pending_sends
              ≤ among x 1 (sends (network_layer n j) cs)))
        started (send_errors-started j self cs ws later w callbacks (cc made) (cc made) fits met)
