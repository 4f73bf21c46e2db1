-- ===== src/NetV2/Mock/Contract.antt =====
-- `impl NetworkLayer for MockNetwork`, and that it keeps the trait's contract. A node of the trait
-- is a mock node with its registry.
use ping_pong_libp2p.Base.{◌≡◌, refl, sym, inl, inr, ◌++◌, append-nil}
use ping_pong_libp2p.Deps.Channel.{Channel}
use ping_pong_libp2p.NetV2.Messages.{
  NetworkCommand, send_message, listen, get_local_addresses, listen_via_relay, NetworkEvent,
}
use ping_pong_libp2p.NetV2.NetworkLayer.{NetworkLayer, Contract, gained}
use ping_pong_libp2p.NetV2.Mock.{
  MockNetwork, Registry, handle_command, try_recv_event, local_peer_id,
}

module _ (c : Channel NetworkEvent) where
  abbrev pub network_layer : NetworkLayer
  network_layer = record {
    Self = MockNetwork × Registry c;
    World = Unit {0};
    handle_command =
        λ _ cmd s. let (reply, self, r) = handle_command cmd s.0 s.1 in (reply, (self, r));
    local_peer_id = λ s. local_peer_id s.0;
    try_recv_event = λ s. let (event, r) = try_recv_event s.0 s.1 in (event, (s.0, r));
  }

  pub keeps :
      (cmd : NetworkCommand) (s : MockNetwork × Registry c)
      → let (reply, self, r) = handle_command cmd s.0 s.1 in
        (self.local_addrs ≡ s.0.local_addrs ++ gained reply) × (self.peer_id ≡ s.0.peer_id)
  unfolding handle_command
  keeps (send_message addr msg) s = (sym (append-nil s.0.local_addrs), refl)
  keeps (listen addr) s = (refl, refl)
  keeps (listen_via_relay addr) s = (sym (append-nil s.0.local_addrs), refl)
  keeps get_local_addresses s = (sym (append-nil s.0.local_addrs), refl)

  -- The mock keeps the contract of `NetworkLayer`: a send is answered at once with the next message
  -- id, which no other command gives out or changes; a listen of either kind succeeds or fails;
  -- `GetLocalAddresses` reports the addresses of the listens that succeeded, in their order; and
  -- the node keeps its name.
  pub mock_network-Contract :
      Contract network_layer (λ s. s.0.next_message_id) (λ s. s.0.local_addrs)
  unfolding local_peer_id handle_command
  mock_network-Contract = record {
    reply-send_message = λ w addr msg s. refl;
    next_id-send_message = λ w addr msg s. refl;
    reply-listen = λ w addr s. inl (_, refl);
    reply-listen_via_relay = λ w addr s. inr (_, refl);
    next_id-listen = λ w addr s. refl;
    next_id-listen_via_relay = λ w addr s. refl;
    next_id-get_local_addresses = λ w s. refl;
    reply-get_local_addresses = λ w s. refl;
    addresses-handle_command = λ w cmd s. (keeps cmd s).0;
    local_peer_id-handle_command = λ w cmd s. (keeps cmd s).1;
  }
