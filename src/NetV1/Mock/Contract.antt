-- ===== src/NetV1/Mock/Contract.antt =====
-- `impl NetworkLayer for MockNetwork` of meerkat-net/src/mock.rs, and that it keeps the trait's
-- contract.
use ping_pong_libp2p.Base.{
  ◌≡◌, refl, inl, inr, List, [], ◌∷◌, ◌++◌, append-nil, arith, Option-cases,
}
use ping_pong_libp2p.Base.Assoc.{get}
use ping_pong_libp2p.Text.{text_eq}
use ping_pong_libp2p.NetV1.Types.{GlobalAddress}
use ping_pong_libp2p.NetV1.NetworkLayer.{NetworkLayer, Contract}
use ping_pong_libp2p.NetV1.Mock.{
  MockNetwork, SharedMockState, send, listen, local_addresses, local_peer_id,
}

-- Its `listen` waits for nothing.
abbrev pub network_layer : NetworkLayer
network_layer = record {
  Self = MockNetwork;
  Shared = SharedMockState;
  World = Unit;
  send = send;
  listen = λ w addr s h. listen addr s h;
  local_addresses = λ s h. local_addresses s;
  local_peer_id = local_peer_id;
}

module _ (addr : GlobalAddress) (s : MockNetwork) (h : SharedMockState) where
  -- `listen` adds at most its address.
  local_addrs-listen :
      (es : List GlobalAddress) × ((listen addr s h).1.local_addrs ≡ s.local_addrs ++ es)
  unfolding listen
  local_addrs-listen = elim (Option-cases (get h.peers addr)) [
    | inl free ↦ (addr ∷ [], ground (arith, free))
    | inr (tx, met) ↦ ([], ground (arith, met, append-nil s.local_addrs))
  ]

  listen-keeps :
      ((listen addr s h).1.next_message_id ≡ s.next_message_id)
      × ((listen addr s h).1.local_id ≡ s.local_id)
  unfolding listen
  listen-keeps = (ground arith, ground arith)

-- The mock keeps the contract on the state that all nodes share: sends get the next id, a `listen`
-- gives none out, a send leaves the local addresses, a `listen` removes none, and the name stays.
first_mock-Contract : Contract network_layer (λ s. s.next_message_id)
unfolding send local_addresses local_peer_id
first_mock-Contract = record {
  id-send = λ addr msg s h. refl;
  next_id-send = λ addr msg s h. refl;
  next_id-listen = λ w addr s h. (listen-keeps addr s h).0;
  local_addresses-send = λ addr msg s h. refl;
  local_addresses-listen = λ w addr s h. local_addrs-listen addr s h;
  local_peer_id-send = λ addr msg s h. refl;
  local_peer_id-listen = λ w addr s h. (listen-keeps addr s h).1;
}
