-- ===== src/NetV1/Network/Contract.antt =====
-- `impl NetworkLayer for LibP2PNetwork`, with the loop that runs while `listen` waits, and that it
-- keeps the trait's contract.
use ping_pong_libp2p.Base.{
  ◌≡◌, refl, sym, none, some, Option, List, [], ◌∷◌, ◌++◌, append-nil, arith, nat_eq,
}
use ping_pong_libp2p.Base.Assoc.{get}
use ping_pong_libp2p.Io.{Result}
use ping_pong_libp2p.Deps.Json.{Json}
use ping_pong_libp2p.Deps.Libp2p.{Libp2p}
use ping_pong_libp2p.NetV1.Types.{GlobalAddress, MeerkatMessage, NetworkError}
use ping_pong_libp2p.NetV1.NetworkLayer.{NetworkLayer, Contract}
use ping_pong_libp2p.NetV1.EventLoop.{NetworkCommand, Wake, command, Loop, event_loop}
use ping_pong_libp2p.NetV1.EventLoop.Listening.{reported}
use ping_pong_libp2p.NetV1.EventLoop.Addresses.{local_addrs-reported}
use ping_pong_libp2p.NetV1.Network.{
  LibP2PNetwork, Wait, channel_closed, response_closed, answered, send, listen, local_addresses,
  local_peer_id,
}

-- What a request to listen meets: a loop that is gone; one that ends before it takes the request,
-- after these turns; or one that takes it between these turns, up to the moment at which the
-- channel of the answer is used or dropped.
pub data Meeting (n : Libp2p) : Type 0 where
  gone : Meeting n
  ends : List (Wake n) → Meeting n
  takes : List (Wake n) → List (Wake n) → Meeting n

module _ (n : Libp2p) (j : Json MeerkatMessage) where
  -- The oneshot channel, with the answer or without one.
  abbrev wait_for : Option (Result GlobalAddress NetworkError) → Wait
  wait_for none = response_closed
  wait_for (some r) = answered r

  -- What the request is answered with, and the loop at that time.
  abbrev pub meet : Meeting n → GlobalAddress → LibP2PNetwork n → Loop n → Wait × Loop n
  meet gone addr s l = (channel_closed, l)
  meet (ends ws) addr s l = (response_closed, event_loop n j ws l)
  meet (takes before after) addr s l =
      let request : Wake n = command (NetworkCommand.listen addr s.next_response) in
      let l' : Loop n = event_loop n j (before ++ (request ∷ after)) l in
      (wait_for (get l'.responses s.next_response), l')

  -- The loop is what the node shares.
  abbrev pub network_layer : NetworkLayer
  network_layer = record {
    Self = LibP2PNetwork n;
    Shared = Loop n;
    World = Meeting n;
    send = λ addr msg s l. ((send addr msg s).0, (send addr msg s).1, l);
    listen = λ w addr s l.
        let (wait, l') = meet w addr s l in ((listen wait addr s).0, (listen wait addr s).1, l');
    local_addresses = λ s l. local_addresses l;
    local_peer_id = local_peer_id;
  }

  next_id-wait :
      (wait : Wait) (addr : GlobalAddress) (s : LibP2PNetwork n)
      → (listen wait addr s).1.next_message_id ≡ s.next_message_id
  unfolding listen
  next_id-wait wait addr s = ground arith

  local_peer_id-wait :
      (wait : Wait) (addr : GlobalAddress) (s : LibP2PNetwork n)
      → local_peer_id (listen wait addr s).1 ≡ local_peer_id s
  unfolding listen local_peer_id
  local_peer_id-wait wait addr s = ground arith

  local_addresses-meet :
      (w : Meeting n) (addr : GlobalAddress) (s : LibP2PNetwork n) (l : Loop n)
      → (es : List GlobalAddress) × (local_addresses (meet w addr s l).1 ≡ local_addresses l ++ es)
  unfolding local_addresses
  local_addresses-meet gone addr s l = ([], sym (append-nil l.local_addrs))
  local_addresses-meet (ends ws) addr s l = (reported n ws, local_addrs-reported j ws l)
  local_addresses-meet (takes before after) addr s l =
      let ws : List (Wake n) =
        before ++ (command (NetworkCommand.listen addr s.next_response) ∷ after) in
      (reported n ws, local_addrs-reported j ws l)

  -- The network over libp2p keeps the contract, whatever its loop does while a request to listen
  -- waits: sends get the next id, a `listen` gives none out, no call of the network removes a local
  -- address, and sends add none; the name stays.
  pub libp2p_network-Contract : Contract network_layer (λ s. s.next_message_id)
  unfolding send listen local_peer_id
  libp2p_network-Contract = record {
    id-send = λ addr msg s h. refl;
    next_id-send = λ addr msg s h. refl;
    next_id-listen = λ w addr s h. next_id-wait (meet w addr s h).0 addr s;
    local_addresses-send = λ addr msg s h. refl;
    local_addresses-listen = local_addresses-meet;
    local_peer_id-send = λ addr msg s h. refl;
    local_peer_id-listen = λ w addr s h. local_peer_id-wait (meet w addr s h).0 addr s;
  }
