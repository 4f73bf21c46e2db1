-- ===== src/Witnesses/Wires.antt =====
-- The theorems of NetV2/Protocol on the wire.
use ping_pong_libp2p.Base.{ℕ, ◌≡◌, refl, false, none, List, [], ◌∷◌, ◌++◌, arith, take}
use ping_pong_libp2p.Io.{ok, err}
use ping_pong_libp2p.Text.{Text, text}
use ping_pong_libp2p.Frame.{to_be_bytes}
use ping_pong_libp2p.Frame.Exchange.{frame}
use ping_pong_libp2p.NetV2.Types.{ping}
use ping_pong_libp2p.NetV2.Protocol.{recv_message}
use ping_pong_libp2p.NetV2.Protocol.Wire.{recv_message-frame, recv_message-cut}
use ping_pong_libp2p.Witnesses.Toy.{Net, wire_streams, wire_laws, tagged}

abbrev quiet : Net
quiet = record { wire = []; peer = none; refuses = false; listens = [] }

-- The serialised `ping`.
abbrev hello : List ℕ
hello = 0 ∷ text "hello"

abbrev after : Net
after = record quiet { wire = frame hello }

recv_message-frame_example :
    (w : Net) × (recv_message wire_streams tagged tt
        (record quiet { wire = frame hello ++ (7 ∷ []) })
      ≡ (ok (ping (text "hello")), w))
    × (w.wire ≡ 7 ∷ [])
unfolding wire_laws to_be_bytes
recv_message-frame_example =
    recv_message-frame wire_streams wire_laws tagged tt hello (7 ∷ [])
      (record quiet { wire = frame hello ++ (7 ∷ []) }) refl

recv_message-cut_example :
    (e : Text) × (w : Net) × (recv_message wire_streams tagged tt
        (record quiet { wire = take 5 (frame hello) })
      ≡ (err e, w))
unfolding wire_laws to_be_bytes
recv_message-cut_example =
    recv_message-cut wire_streams wire_laws tagged tt hello 5
      (record quiet { wire = take 5 (frame hello) }) (omega arith) (omega arith) refl
