-- ===== src/NetV2/EventLoop/State.antt =====
-- The state of `NetworkActor::event_loop` of meerkat-net-v2/src/actor.rs, and the small steps on it.
use ping_pong_libp2p.Base.{Option, none, some, List, [], ◌∷◌, ◌++◌}
use ping_pong_libp2p.Base.Assoc.{Map, get, insert, remove}
use ping_pong_libp2p.Io.{Result}
use ping_pong_libp2p.Text.{Text}
use ping_pong_libp2p.Deps.Libp2p.{Libp2p}
use ping_pong_libp2p.NetV2.Types.{MessageId, Address, MeerkatMessage}
use ping_pong_libp2p.NetV2.Messages.{NetworkEvent}
use ping_pong_libp2p.NetV2.EventLoop.Signals.{ReplyTx}

pub record Loop (n : Libp2p) : Type 0 where
  pub net : n.World
  pub pending_sends : Map n.PeerId (List (MessageId × MeerkatMessage))
  pub pending_listen : Option ReplyTx
  pub pending_relay : Option (Address × ReplyTx)
  pub event_tx : List NetworkEvent
  pub replies : List (ReplyTx × Result Address Text)

module _ {n : Libp2p} where
  -- `let _ = event_tx.send(event)`
  unfoldable pub emit : Loop n → NetworkEvent → Loop n
  emit l event = record l { event_tx = l.event_tx ++ (event ∷ []) }

  -- `let _ = reply_tx.send(result)`
  unfoldable pub reply : Loop n → ReplyTx → Result Address Text → Loop n
  reply l tx result = record l { replies = l.replies ++ ((tx, result) ∷ []) }

  -- The messages that `pending_sends` holds for a peer.
  unfoldable pub entry : Loop n → n.PeerId → List (MessageId × MeerkatMessage)
  entry l peer = elim (get ⦃test = n.peer_eq⦄ l.pending_sends peer) [ none ↦ [] | some ms ↦ ms ]

  -- `pending_sends.entry(peer).or_default().push(message)`
  unfoldable pub push : Loop n → n.PeerId → MessageId × MeerkatMessage → Loop n
  unfolding entry
  push l peer message = record l {
    pending_sends = insert ⦃test = n.peer_eq⦄ l.pending_sends peer (entry l peer ++ (message ∷ []));
  }

  -- `pending_sends.remove(&peer)`
  unfoldable pub forget : Loop n → n.PeerId → Loop n
  forget l peer = record l { pending_sends = remove ⦃test = n.peer_eq⦄ l.pending_sends peer }
