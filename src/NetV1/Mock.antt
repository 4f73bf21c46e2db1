-- ===== src/NetV1/Mock.antt =====
-- meerkat-net/src/mock.rs. A node's callbacks are named by a number; `calls` records the calls of
-- `on_message`, oldest first, and `threads` the spawned threads that still sleep, with what they
-- captured. A thread that wakes takes the lock once, so it is one step.
pub mod Runs
pub mod Calls
pub mod Contract
use ping_pong_libp2p.Base.{ℕ, ◌+◌, ◌%◌, ◌^◌, Option, none, some, List, [], ◌∷◌, ◌++◌}
use ping_pong_libp2p.Base.Assoc.{Map, get, insert}
use ping_pong_libp2p.Io.{Result, ok, err}
use ping_pong_libp2p.Text.{Text, text_eq}
use ping_pong_libp2p.NetV1.Types.{
  MessageId, GlobalAddress, MeerkatMessage, NetworkError, already_listening,
}

pub record MockNetwork : Type 0 where
  pub callbacks : ℕ
  pub next_message_id : ℕ
  pub local_id : Text
  pub local_addrs : List GlobalAddress

-- What the closure of `send` captures: the sender, the address and the message.
abbrev pub Thread : Type 0
Thread = Text × GlobalAddress × MeerkatMessage

pub record SharedMockState : Type 0 where
  pub peers : Map Text ℕ
  pub threads : List Thread
  pub calls : List (ℕ × Text × MeerkatMessage)

abbrev pub default : SharedMockState
default = record { peers = []; threads = []; calls = [] }

-- `local_id` is the `mock-{}` of a random number.
unfoldable pub new : ℕ → Text → MockNetwork
new callbacks local_id = record {
  callbacks = callbacks;
  next_message_id = 1;
  local_id = local_id;
  local_addrs = [];
}

unfoldable pub send :
    GlobalAddress
    → MeerkatMessage
    → MockNetwork
    → SharedMockState
    → MessageId × MockNetwork × SharedMockState
send addr msg self s =
    let id : MessageId = self.next_message_id in
    (
      id,
      record self { next_message_id = (id + 1) % 2 ^ 64 },
      record s { threads = s.threads ++ ((self.local_id, addr, msg) ∷ []) },
    )

-- The body of the thread, after its sleep.
unfoldable pub wake : Thread → SharedMockState → SharedMockState
wake (from, addr, msg) s = elim (get s.peers addr) [
  | none ↦ s
  | some on_message ↦ record s { calls = s.calls ++ ((on_message, from, msg) ∷ []) }
]

unfoldable pub listen :
    GlobalAddress
    → MockNetwork
    → SharedMockState
    → Result (Unit {0}) NetworkError × MockNetwork × SharedMockState
listen addr self s = elim (get s.peers addr) [
  | some _ ↦ (err already_listening, self, s)
  | none ↦ (
    ok tt,
    record self { local_addrs = self.local_addrs ++ (addr ∷ []) },
    record s { peers = insert s.peers addr self.callbacks },
  )
]

unfoldable pub local_addresses : MockNetwork → List GlobalAddress
local_addresses self = self.local_addrs

unfoldable pub local_peer_id : MockNetwork → Text
local_peer_id self = self.local_id
