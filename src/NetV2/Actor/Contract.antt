-- ===== src/NetV2/Actor/Contract.antt =====
-- `impl NetworkLayer for NetworkActor`, and that it keeps the trait's contract.
use ping_pong_libp2p.Base.{
  ◌+◌, ◌%◌, ◌^◌, ◌≡◌, refl, sym, ap, ◌⊎◌, inl, inr, none, some, [], ◌∷◌, ◌++◌, append-nil,
}
use ping_pong_libp2p.Io.{ok, err}
use ping_pong_libp2p.Text.{Text, text}
use ping_pong_libp2p.Deps.Channel.{Channel}
use ping_pong_libp2p.Deps.Libp2p.{Libp2p}
use ping_pong_libp2p.NetV2.Types.{Address, MeerkatMessage}
use ping_pong_libp2p.NetV2.Messages.{
  NetworkCommand, send_message, listen, get_local_addresses, listen_via_relay, message_sent,
  listen_success, failure, NetworkEvent,
}
use ping_pong_libp2p.NetV2.Address.Translation.{dialled, translate_address-ok}
use ping_pong_libp2p.NetV2.EventLoop.Signals.{SwarmCommand}
use ping_pong_libp2p.NetV2.NetworkLayer.{NetworkLayer, Contract, gained}
use ping_pong_libp2p.NetV2.Actor.{
  NetworkActor, Answer, handle_command, finish_listen, send_translated, show_local_peer_id,
  try_recv_event,
}

module _ (n : Libp2p) (c : Channel NetworkEvent) where
  abbrev pub network_layer : NetworkLayer
  network_layer = record {
    Self = NetworkActor n c;
    World = Answer;
    handle_command = handle_command;
    local_peer_id = show_local_peer_id;
    try_recv_event = try_recv_event;
  }

module _ {n : Libp2p} {c : Channel NetworkEvent} where
  handle_command-sent :
      (answer : Answer) (addr : Address) (msg : MeerkatMessage) (self : NetworkActor n c)
      → handle_command answer (send_message addr msg) self ≡ (
        message_sent self.next_message_id,
        record self {
          next_message_id = (self.next_message_id + 1) % 2 ^ 64;
          command_tx =
              self.command_tx
              ++ (SwarmCommand.send self.next_message_id (dialled self.node_type addr) msg ∷ []);
        },
      )
  unfolding handle_command
  handle_command-sent answer addr msg self =
      ap
        (λ r.
          send_translated self.next_message_id msg r
            (record self { next_message_id = (self.next_message_id + 1) % 2 ^ 64 }))
        (translate_address-ok self.node_type addr)

  -- A send never fails: it is answered at once with the next id, and hands the event loop exactly
  -- one command, with that id, the message and the address to dial from this node.
  pub handle_command-send_message :
      (answer : Answer) (addr : Address) (msg : MeerkatMessage) (self : NetworkActor n c)
      → let (reply, self') = handle_command answer (send_message addr msg) self in
        let id = self.next_message_id in
        (reply ≡ message_sent id)
        × (self'.command_tx
            ≡ self.command_tx ++ (SwarmCommand.send id (dialled self.node_type addr) msg ∷ []))
        × (self'.next_message_id ≡ (id + 1) % 2 ^ 64)
        × (self'.local_addrs ≡ self.local_addrs)
        × (self'.local_peer_id ≡ self.local_peer_id)
  handle_command-send_message answer addr msg self =
      rw handle_command-sent (refl, refl, refl, refl, refl)

  finish_listen-reply :
      (answer : Answer) (self : NetworkActor n c)
      → ((bound : Address) × ((finish_listen answer self).0 ≡ listen_success bound))
        ⊎ ((e : Text) × ((finish_listen answer self).0 ≡ failure e))
  unfolding finish_listen
  finish_listen-reply none self = inr (text "Event loop dropped", refl)
  finish_listen-reply (some (err e)) self = inr (e, refl)
  finish_listen-reply (some (ok addr)) self = inl (addr, refl)

  finish_listen-keeps :
      (answer : Answer) (self : NetworkActor n c)
      → let (reply, self') = finish_listen answer self in
        (self'.next_message_id ≡ self.next_message_id)
        × (self'.local_addrs ≡ self.local_addrs ++ gained reply)
        × (self'.local_peer_id ≡ self.local_peer_id)
  unfolding finish_listen
  finish_listen-keeps none self = (refl, sym (append-nil self.local_addrs), refl)
  finish_listen-keeps (some (err e)) self = (refl, sym (append-nil self.local_addrs), refl)
  finish_listen-keeps (some (ok addr)) self = (refl, refl, refl)

  handle_command-keeps :
      (answer : Answer) (cmd : NetworkCommand) (self : NetworkActor n c)
      → let (reply, self') = handle_command answer cmd self in
        (self'.local_addrs ≡ self.local_addrs ++ gained reply)
        × (self'.local_peer_id ≡ self.local_peer_id)
  handle_command-keeps answer (send_message addr msg) self =
      rw handle_command-sent (sym (append-nil self.local_addrs), refl)
  handle_command-keeps answer (listen addr) self =
      unfold handle_command in (let (_, b, d) = finish_listen-keeps answer _ in (b, d))
  handle_command-keeps answer (listen_via_relay addr) self =
      unfold handle_command in (let (_, b, d) = finish_listen-keeps answer _ in (b, d))
  handle_command-keeps answer get_local_addresses self =
      unfold handle_command in (sym (append-nil self.local_addrs), refl)

module _ (n : Libp2p) (c : Channel NetworkEvent) where
  -- The actor keeps the contract of `NetworkLayer`: a send is answered at once with the next message
  -- id, which no other command gives out or changes; a listen of either kind succeeds or fails;
  -- `GetLocalAddresses` reports the addresses of the listens that succeeded, in their order; and
  -- the node keeps its name.
  pub network_actor-Contract :
      Contract (network_layer n c) (λ self. self.next_message_id) (λ self. self.local_addrs)
  unfolding show_local_peer_id
  network_actor-Contract = record {
    reply-send_message = λ w addr msg s. (handle_command-send_message w addr msg s).0;
    next_id-send_message = λ w addr msg s. (handle_command-send_message w addr msg s).2;
    reply-listen = λ w addr s. unfold handle_command in finish_listen-reply w _;
    reply-listen_via_relay = λ w addr s. unfold handle_command in finish_listen-reply w _;
    next_id-listen = λ w addr s. unfold handle_command in (finish_listen-keeps w _).0;
    next_id-listen_via_relay = λ w addr s. unfold handle_command in (finish_listen-keeps w _).0;
    next_id-get_local_addresses = λ w s. unfold handle_command in refl;
    reply-get_local_addresses = λ w s. unfold handle_command in refl;
    addresses-handle_command = λ w cmd s. (handle_command-keeps w cmd s).0;
    local_peer_id-handle_command = λ w cmd s. ap n.show_peer (handle_command-keeps w cmd s).1;
  }
