-- ===== src/NetV1/Network.antt =====
-- `LibP2PNetwork` of meerkat-net/src/libp2p_net.rs as the manager sees it. `command_tx` records the
-- commands that were sent to the event loop, oldest first; `next_response` numbers the oneshot
-- channels. The list of local addresses is shared with the loop, which alone changes it.
pub mod Sending
pub mod Listening
pub mod Contract
pub mod Failures
pub mod Delivery
use ping_pong_libp2p.Base.{ℕ, suc, ◌+◌, ◌%◌, ◌^◌, List, [], ◌∷◌, ◌++◌}
use ping_pong_libp2p.Io.{Result, ok, err, and_then}
use ping_pong_libp2p.Text.{Text, text}
use ping_pong_libp2p.Deps.Json.{Json}
use ping_pong_libp2p.Deps.Libp2p.{Libp2p}
use ping_pong_libp2p.Deps.SwarmBuilder.{SwarmBuilder, noise}
use ping_pong_libp2p.NetV1.Types.{
  MessageId, GlobalAddress, MeerkatMessage, NetworkError, bind_failed, NetworkCallbacks,
}
use ping_pong_libp2p.NetV1.EventLoop.{ResponseTx, NetworkCommand, Loop, start}

pub record LibP2PNetwork (n : Libp2p) : Type 0 where
  pub next_message_id : ℕ
  pub local_peer_id : n.PeerId
  pub command_tx : List NetworkCommand
  pub next_response : ResponseTx

-- What `listen` meets: the loop's end of the command channel is gone, the loop dropped the
-- response channel, or it answered.
pub data Wait : Type 0 where
  channel_closed : Wait
  response_closed : Wait
  answered : Result GlobalAddress NetworkError → Wait

-- The `map_err`s and the `map` of `listen`.
unfoldable pub finish_listen : Wait → Result (Unit {0}) NetworkError
finish_listen channel_closed = err (bind_failed (text "Channel closed"))
finish_listen response_closed = err (bind_failed (text "Response channel closed"))
finish_listen (answered (ok addr)) = ok tt
finish_listen (answered (err e)) = err e

module _ {n : Libp2p} where
  -- The swarm that `LibP2PNetwork::new` builds; `stream_behaviour` is `stream::Behaviour::new()`.
  unfoldable pub build_swarm :
      {PublicKey RelayClient Behaviour : Type 0}
      → SwarmBuilder n PublicKey RelayClient Behaviour
      → Behaviour
      → Result (n.World × n.PeerId) Text
  build_swarm b stream_behaviour = and_then (b.with_tcp noise b.with_new_identity) λ tcp.
      and_then (b.with_behaviour (λ _. stream_behaviour) tcp)
        λ built. ok (b.build (b.with_idle_connection_timeout 60 built))

  -- `LibP2PNetwork::new`, with what `build_swarm` gave: the network, and the state in which the
  -- event loop that it spawns starts.
  unfoldable pub new :
      Json MeerkatMessage
      → Result (n.World × n.PeerId) Text
      → NetworkCallbacks
      → Result (LibP2PNetwork n × Loop n) Text
  new j (err e) callbacks = err e
  new j (ok (swarm, local_peer_id)) callbacks = ok (
    record {
      next_message_id = 1;
      local_peer_id = local_peer_id;
      command_tx = [];
      next_response = 0;
    },
    start n j swarm callbacks,
  )

  unfoldable pub send :
      GlobalAddress → MeerkatMessage → LibP2PNetwork n → MessageId × LibP2PNetwork n
  send addr msg self =
      let id : MessageId = self.next_message_id in
      (
        id,
        record self {
          next_message_id = (id + 1) % 2 ^ 64;
          command_tx = self.command_tx ++ (NetworkCommand.send id addr msg ∷ []);
        },
      )

  abbrev asked : GlobalAddress → LibP2PNetwork n → LibP2PNetwork n
  asked addr self = record self {
    command_tx = self.command_tx ++ (NetworkCommand.listen addr self.next_response ∷ []);
    next_response = suc self.next_response;
  }

  -- `wait` is what the loop makes of the request.
  unfoldable pub listen :
      Wait → GlobalAddress → LibP2PNetwork n → Result (Unit {0}) NetworkError × LibP2PNetwork n
  unfolding finish_listen
  listen channel_closed addr self = (finish_listen channel_closed, self)
  listen response_closed addr self = (finish_listen response_closed, asked addr self)
  listen (answered r) addr self = (finish_listen (answered r), asked addr self)

  -- The loop is read under the lock that it shares.
  unfoldable pub local_addresses : Loop n → List GlobalAddress
  local_addresses l = l.local_addrs

  unfoldable pub local_peer_id : LibP2PNetwork n → Text
  local_peer_id self = n.show_peer self.local_peer_id
