-- ===== src/NetV2/NetworkLayer/Ids.antt =====
-- What a client sees of any implementation over a session of commands.
use ping_pong_libp2p.Base.{
  ℕ, suc, ◌+◌, ◌^◌, ◌<◌, ◌≡◌, refl, sym, ap, ◌∙◌, ◌⊎◌, inl, inr, List, [], ◌∷◌, ◌++◌, arith,
  append-nil, append_assoc,
}
use ping_pong_libp2p.Queues.{count_up}
use ping_pong_libp2p.Text.{Text}
use ping_pong_libp2p.NetV2.Types.{MessageId, Address}
use ping_pong_libp2p.NetV2.Messages.{
  NetworkCommand, send_message, listen, get_local_addresses, listen_via_relay, NetworkReply,
  message_sent, listen_success, local_addresses, failure,
}
use ping_pong_libp2p.NetV2.NetworkLayer.{NetworkLayer, Contract, gained}

-- The message ids that replies give out.
abbrev pub ids_of : NetworkReply → List MessageId
ids_of (message_sent id) = id ∷ []
ids_of (listen_success addr) = []
ids_of (local_addresses addrs) = []
ids_of (failure e) = []

abbrev pub ids : List NetworkReply → List MessageId
ids [] = []
ids (r ∷ rs) = ids_of r ++ ids rs

abbrev pub all_gained : List NetworkReply → List Address
all_gained [] = []
all_gained (r ∷ rs) = gained r ++ all_gained rs

module _ (n : NetworkLayer) where
  -- The commands of a session, each with what it waits for.
  abbrev pub Session : Type 0
  Session = List (n.World × NetworkCommand)

  abbrev pub sends : Session → ℕ
  sends [] = 0
  sends ((w, send_message addr msg) ∷ cmds) = suc (sends cmds)
  sends ((w, listen addr) ∷ cmds) = sends cmds
  sends ((w, listen_via_relay addr) ∷ cmds) = sends cmds
  sends ((w, get_local_addresses) ∷ cmds) = sends cmds

  pub sends-cons :
      (w : n.World) (cmd : NetworkCommand) (cmds : Session)
      → sends ((w, cmd) ∷ cmds) ≡ sends ((w, cmd) ∷ []) + sends cmds
  sends-cons w (send_message addr msg) cmds = omega arith
  sends-cons w (listen addr) cmds = omega arith
  sends-cons w (listen_via_relay addr) cmds = omega arith
  sends-cons w get_local_addresses cmds = omega arith

  abbrev pub run : Session → n.Self → List NetworkReply × n.Self
  run [] s = ([], s)
  run ((w, cmd) ∷ cmds) s =
      let (reply, s') = n.handle_command w cmd s in
      let (replies, s2) = run cmds s' in (reply ∷ replies, s2)

module _ (n : NetworkLayer) {next_id : n.Self → ℕ} {addresses : n.Self → List Address}
    (c : Contract n next_id addresses) where
  ids_of-listen :
      (r : NetworkReply)
      → ((bound : Address) × (r ≡ listen_success bound)) ⊎ ((e : Text) × (r ≡ failure e))
      → ids_of r ≡ []
  ids_of-listen r (inl (bound, e)) = ap ids_of e
  ids_of-listen r (inr (x, e)) = ap ids_of e

  -- In a session of any commands the message ids given out are consecutive, one for each send, so
  -- no id names two messages; it starts from the node's next id, and must not reach 2 ^ 64.
  pub ids-run :
      (cmds : Session n) (s : n.Self)
      → next_id s + sends n cmds < 2 ^ 64
      → ids (run n cmds s).0 ≡ count_up (next_id s) (sends n cmds)
  ids-run [] s h = refl
  ids-run ((w, send_message addr msg) ∷ cmds) s h =
      let s' : n.Self = (n.handle_command w (send_message addr msg) s).1 in
      let next : next_id s' ≡ next_id s + 1 = c.next_id-send_message w addr msg s ∙ omega arith in
      ap (λ r. ids_of r ++ ids (run n cmds s').0) (c.reply-send_message w addr msg s)
      ∙ ap (λ l. next_id s ∷ l)
          (ids-run cmds s' (omega (arith, next)) ∙ ap (λ k. count_up k (sends n cmds)) next)
  ids-run ((w, listen addr) ∷ cmds) s h =
      let s' : n.Self = (n.handle_command w (listen addr) s).1 in
      let same : next_id s' ≡ next_id s = c.next_id-listen w addr s in
      ap (λ l. l ++ ids (run n cmds s').0) (ids_of-listen _ (c.reply-listen w addr s))
      ∙ ids-run cmds s' (omega (arith, same))
      ∙ ap (λ k. count_up k (sends n cmds)) same
  ids-run ((w, listen_via_relay addr) ∷ cmds) s h =
      let s' : n.Self = (n.handle_command w (listen_via_relay addr) s).1 in
      let same : next_id s' ≡ next_id s = c.next_id-listen_via_relay w addr s in
      ap (λ l. l ++ ids (run n cmds s').0) (ids_of-listen _ (c.reply-listen_via_relay w addr s))
      ∙ ids-run cmds s' (omega (arith, same))
      ∙ ap (λ k. count_up k (sends n cmds)) same
  ids-run ((w, get_local_addresses) ∷ cmds) s h =
      let s' : n.Self = (n.handle_command w get_local_addresses s).1 in
      let same : next_id s' ≡ next_id s = c.next_id-get_local_addresses w s in
      ap (λ r. ids_of r ++ ids (run n cmds s').0) (c.reply-get_local_addresses w s)
      ∙ ids-run cmds s' (omega (arith, same))
      ∙ ap (λ k. count_up k (sends n cmds)) same

  addresses-run :
      (cmds : Session n) (s : n.Self)
      → addresses (run n cmds s).1 ≡ addresses s ++ all_gained (run n cmds s).0
  addresses-run [] s = sym (append-nil (addresses s))
  addresses-run ((w, cmd) ∷ cmds) s =
      let (reply, s') = n.handle_command w cmd s in
      addresses-run cmds s'
      ∙ ap (λ l. l ++ all_gained (run n cmds s').0) (c.addresses-handle_command w cmd s)
      ∙ append_assoc (addresses s) (gained reply) (all_gained (run n cmds s').0)

  -- After any session the node reports the addresses that it had and then those with which the
  -- session's listens succeeded, in their order, and it still has the name it started with.
  get_local_addresses-run :
      (w : n.World) (cmds : Session n) (s : n.Self)
      → ((n.handle_command w get_local_addresses (run n cmds s).1).0
          ≡ local_addresses (addresses s ++ all_gained (run n cmds s).0))
        × (n.local_peer_id (run n cmds s).1 ≡ n.local_peer_id s)
  get_local_addresses-run w cmds s = (
    c.reply-get_local_addresses w (run n cmds s).1 ∙ ap local_addresses (addresses-run cmds s),
    keeps_name cmds s,
  )
    where
      keeps_name :
          (cmds : Session n) (s : n.Self) → n.local_peer_id (run n cmds s).1 ≡ n.local_peer_id s
      keeps_name [] s = refl
      keeps_name ((w, cmd) ∷ cmds) s =
          keeps_name cmds (n.handle_command w cmd s).1 ∙ c.local_peer_id-handle_command w cmd s
