-- ===== src/Deps/Channel.antt =====
-- `tokio::sync::mpsc::unbounded_channel`. The two halves of a channel share a queue; the model
-- keeps one value for it, which `send` and `try_recv` change. The receiving half of every channel
-- of the program lives as long as its sending half, so a send to a closed channel does not arise.
use ping_pong_libp2p.Base.{◌≡◌, Option, none, some, List, [], ◌∷◌, ◌++◌}

pub record Channel (A : Type 0) : Type 1 where
  pub Queue : Type 0
  pub unbounded_channel : Queue
  pub send : Queue → A → Queue
  pub try_recv : Queue → Option A × Queue

-- First in, first out, with nothing lost or made up.
pub record ChannelLaws {A : Type 0} (c : Channel A) : Type 0 where
  pub contents : c.Queue → List A
  pub contents-unbounded_channel : contents c.unbounded_channel ≡ []
  pub contents-send : (q : c.Queue) (a : A) → contents (c.send q a) ≡ contents q ++ (a ∷ [])
  pub try_recv_empty : (q : c.Queue) → contents q ≡ [] → (c.try_recv q).0 ≡ none
  pub try_recv_some :
      (q : c.Queue) (a : A) (rest : List A)
      → contents q ≡ a ∷ rest
      → ((c.try_recv q).0 ≡ some a) × (contents (c.try_recv q).1 ≡ rest)
