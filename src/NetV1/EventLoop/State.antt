-- ===== src/NetV1/EventLoop/State.antt =====
-- The state of `LibP2PNetwork::event_loop` of meerkat-net/src/libp2p_net.rs, what wakes the task, and
-- the small steps on the state.
use ping_pong_libp2p.Base.{ℕ, Option, none, some, List, [], ◌∷◌, ◌++◌}
use ping_pong_libp2p.Base.Assoc.{Map, get, insert, remove}
use ping_pong_libp2p.Io.{Result}
use ping_pong_libp2p.Deps.Libp2p.{Libp2p}
use ping_pong_libp2p.NetV1.Types.{
  MessageId, GlobalAddress, MeerkatMessage, NetworkError, NetworkCallbacks, Call,
}

-- A `oneshot::Sender`.
abbrev pub ResponseTx : Type 0
ResponseTx = ℕ

pub data NetworkCommand : Type 0 where
  send : MessageId → GlobalAddress → MeerkatMessage → NetworkCommand
  listen : GlobalAddress → ResponseTx → NetworkCommand

pub data SwarmEvent (n : Libp2p) : Type 0 where
  new_listen_addr : n.Multiaddr → SwarmEvent n
  connection_established : n.PeerId → SwarmEvent n
  connection_closed : n.PeerId → SwarmEvent n
  -- All that `_ => {}` takes.
  other : SwarmEvent n

-- The branches of `select!`.
pub data Wake (n : Libp2p) : Type 0 where
  command : NetworkCommand → Wake n
  incoming : n.PeerId → n.Stream → Wake n
  swarm_event : SwarmEvent n → Wake n

pub record Loop (n : Libp2p) : Type 0 where
  pub net : n.World
  pub callbacks : NetworkCallbacks
  pub pending_sends : Map n.PeerId (List (MessageId × MeerkatMessage))
  pub pending_listen : Option ResponseTx
  pub local_addrs : List GlobalAddress
  pub calls : List Call
  pub responses : List (ResponseTx × Result GlobalAddress NetworkError)

module _ {n : Libp2p} where
  unfoldable pub call : Loop n → Call → Loop n
  call l c = record l { calls = l.calls ++ (c ∷ []) }

  -- `let _ = response_tx.send(result)`
  unfoldable pub respond : Loop n → ResponseTx → Result GlobalAddress NetworkError → Loop n
  respond l tx result = record l { responses = l.responses ++ ((tx, result) ∷ []) }

  -- The messages that `pending_sends` holds for a peer.
  unfoldable pub entry : Loop n → n.PeerId → List (MessageId × MeerkatMessage)
  entry l peer = elim (get ⦃test = n.peer_eq⦄ l.pending_sends peer) [ none ↦ [] | some ms ↦ ms ]

  -- `pending_sends.entry(peer_id).or_default().push(message)`
  unfoldable pub push : Loop n → n.PeerId → MessageId × MeerkatMessage → Loop n
  unfolding entry
  push l peer message = record l {
    pending_sends = insert ⦃test = n.peer_eq⦄ l.pending_sends peer (entry l peer ++ (message ∷ []));
  }

  -- `pending_sends.remove(&peer_id)`
  unfoldable pub forget : Loop n → n.PeerId → Loop n
  forget l peer = record l { pending_sends = remove ⦃test = n.peer_eq⦄ l.pending_sends peer }
