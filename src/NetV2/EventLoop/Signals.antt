-- ===== src/NetV2/EventLoop/Signals.antt =====
-- What wakes the event loop: the branches of its `select!`, with the swarm's events (as far as the
-- code tells them apart) and the commands of the actor.
use ping_pong_libp2p.Base.{ℕ}
use ping_pong_libp2p.Deps.Libp2p.{Libp2p}
use ping_pong_libp2p.NetV2.Types.{MessageId, Address, MeerkatMessage}

-- A `oneshot::Sender`.
abbrev pub ReplyTx : Type 0
ReplyTx = ℕ

pub data SwarmCommand : Type 0 where
  send : MessageId → Address → MeerkatMessage → SwarmCommand
  listen : Address → ReplyTx → SwarmCommand
  listen_via_relay : Address → ReplyTx → SwarmCommand

pub data SwarmEvent (n : Libp2p) : Type 0 where
  new_listen_addr : n.Multiaddr → SwarmEvent n
  connection_established : n.PeerId → SwarmEvent n
  connection_closed : n.PeerId → SwarmEvent n
  relay_client : SwarmEvent n
  relay : SwarmEvent n
  -- `identify::Event::Received`, with the address that the peer observed.
  identify_received : n.Multiaddr → SwarmEvent n
  identify_other : SwarmEvent n
  -- All that `_ => {}` takes.
  other : SwarmEvent n

pub data Wake (n : Libp2p) : Type 0 where
  command : SwarmCommand → Wake n
  incoming : n.PeerId → n.Stream → Wake n
  swarm_event : SwarmEvent n → Wake n
