-- ===== src/Witnesses/FirstMocks.antt =====
-- The theorems of NetV1/Mock in a run of two nodes.
use mathlib.Core.List.{Perm, map}
use ping_pong_libp2p.Base.{◌≡◌, refl, List, [], ◌∷◌, ◌++◌, All}
use ping_pong_libp2p.Base.Assoc.{get}
use ping_pong_libp2p.Text.{text, text_eq}
use ping_pong_libp2p.NetV1.Types.{GlobalAddress, ping}
use ping_pong_libp2p.NetV1.Mock.{MockNetwork, SharedMockState, Thread, default, send, wake, listen}
use ping_pong_libp2p.NetV1.Mock.Runs.{Run, rest, next, sends, listens, wakes, wake-listen}
use ping_pong_libp2p.NetV1.Mock.Calls.{Delivery, sent, called, IsAddressed, calls-deliveries}

abbrev host : MockNetwork
host = record { callbacks = 0; next_message_id = 1; local_id = text "mock-1"; local_addrs = [] }

abbrev guest : MockNetwork
guest = record { callbacks = 1; next_message_id = 1; local_id = text "mock-2"; local_addrs = [] }

abbrev home : GlobalAddress
home = text "/home"

-- The host listens, the guest sends, and the thread has not woken.
abbrev listened : SharedMockState
listened = (listen home host default).2

abbrev asleep : SharedMockState
asleep = (send home (ping (text "x")) guest listened).2

abbrev thread : Thread
thread = (text "mock-2", home, ping (text "x"))

guest_sends : Run listened (thread ∷ []) asleep
guest_sends = next rest (sends guest home (ping (text "x")) listened)

wake-listen_example :
    wake thread asleep
    ≡ record asleep { calls = asleep.calls ++ ((0, text "mock-2", ping (text "x")) ∷ []) }
unfolding get
wake-listen_example =
    wake-listen home host default asleep (thread ∷ []) (text "mock-2") (ping (text "x")) refl
      guest_sends

abbrev delivered : SharedMockState
delivered = wake thread (record asleep { threads = [] })

delivery : Run default (thread ∷ []) delivered
unfolding send listen get
delivery =
    next
      (next (next rest (listens host home default)) (sends guest home (ping (text "x")) listened))
      (wakes [] [] thread asleep refl)

calls-deliveries_example :
    (ds : List Delivery) × (lost : List Thread) × (delivered.calls ≡ map called ds)
    × All (IsAddressed delivered) ds
    × Perm (map sent ds ++ (lost ++ delivered.threads)) (thread ∷ [])
calls-deliveries_example = calls-deliveries delivered (thread ∷ []) delivery
