-- ===== src/NetV2/NetworkLayer.antt =====
-- meerkat-net-v2/src/network_layer.rs: the trait that the manager talks to, and what it may rely
-- on with either implementation.
pub mod Ids
use ping_pong_libp2p.Base.{ℕ, ◌+◌, ◌%◌, ◌^◌, ◌≡◌, ◌⊎◌, Option, List, [], ◌∷◌, ◌++◌}
use ping_pong_libp2p.Text.{Text}
use ping_pong_libp2p.NetV2.Types.{MessageId, Address, MeerkatMessage}
use ping_pong_libp2p.NetV2.Messages.{
  NetworkCommand, send_message, listen, get_local_addresses, listen_via_relay, NetworkReply,
  message_sent, listen_success, local_addresses, failure, NetworkEvent,
}

-- `World` is what an implementation waits for during a command.
pub record NetworkLayer : Type 1 where
  pub Self : Type 0
  pub World : Type 0
  pub handle_command : World → NetworkCommand → Self → NetworkReply × Self
  pub local_peer_id : Self → Text
  pub try_recv_event : Self → Option NetworkEvent × Self

-- The addresses that a reply adds to those of the node.
abbrev pub gained : NetworkReply → List Address
gained (listen_success addr) = addr ∷ []
gained (message_sent id) = []
gained (local_addresses addrs) = []
gained (failure e) = []

-- What every implementation promises, where `next_id` and `addresses` read the next message id and
-- the addresses off a node: a send is answered at once with the next message id; no other
-- command gives one out; the addresses reported are those of the successful listens, in order; and
-- the node keeps its name.
pub record Contract (n : NetworkLayer) (next_id : n.Self → ℕ) (addresses : n.Self → List Address)
    : Type 0 where
  pub reply-send_message :
      (w : n.World) (addr : Address) (msg : MeerkatMessage) (s : n.Self)
      → (n.handle_command w (send_message addr msg) s).0 ≡ message_sent (next_id s)
  pub next_id-send_message :
      (w : n.World) (addr : Address) (msg : MeerkatMessage) (s : n.Self)
      → next_id (n.handle_command w (send_message addr msg) s).1 ≡ (next_id s + 1) % 2 ^ 64
  pub reply-listen :
      (w : n.World) (addr : Address) (s : n.Self)
      → ((bound : Address) × ((n.handle_command w (listen addr) s).0 ≡ listen_success bound))
        ⊎ ((e : Text) × ((n.handle_command w (listen addr) s).0 ≡ failure e))
  pub reply-listen_via_relay :
      (w : n.World) (addr : Address) (s : n.Self)
      → ((bound : Address) × ((n.handle_command w (listen_via_relay addr) s).0
            ≡ listen_success bound))
        ⊎ ((e : Text) × ((n.handle_command w (listen_via_relay addr) s).0 ≡ failure e))
  pub next_id-listen :
      (w : n.World) (addr : Address) (s : n.Self)
      → next_id (n.handle_command w (listen addr) s).1 ≡ next_id s
  pub next_id-listen_via_relay :
      (w : n.World) (addr : Address) (s : n.Self)
      → next_id (n.handle_command w (listen_via_relay addr) s).1 ≡ next_id s
  pub next_id-get_local_addresses :
      (w : n.World) (s : n.Self) → next_id (n.handle_command w get_local_addresses s).1 ≡ next_id s
  pub reply-get_local_addresses :
      (w : n.World) (s : n.Self)
      → (n.handle_command w get_local_addresses s).0 ≡ local_addresses (addresses s)
  pub addresses-handle_command :
      (w : n.World) (cmd : NetworkCommand) (s : n.Self)
      → addresses (n.handle_command w cmd s).1 ≡ addresses s ++ gained (n.handle_command w cmd s).0
  pub local_peer_id-handle_command :
      (w : n.World) (cmd : NetworkCommand) (s : n.Self)
      → n.local_peer_id (n.handle_command w cmd s).1 ≡ n.local_peer_id s
