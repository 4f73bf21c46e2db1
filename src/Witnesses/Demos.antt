-- ===== src/Witnesses/Demos.antt =====
-- The theorems of Demo at concrete inputs.
use ping_pong_libp2p.Base.Iterators.{find_map, last}
use ping_pong_libp2p.Base.{
  ℕ, zero, suc, ◌<◌, ◌≡◌, ◌≢◌, refl, false, none, some, List, [], ◌∷◌, ◌++◌, arith, length,
}
use ping_pong_libp2p.Io.{Result, ok, err}
use ping_pong_libp2p.Text.{Text, text, text_beq, split, contains}
use ping_pong_libp2p.Frame.{to_be_bytes, from_be_bytes}
use ping_pong_libp2p.Frame.Exchange.{frame}
use ping_pong_libp2p.Deps.WasmSwarm.{WasmSwarm}
use ping_pong_libp2p.Demo.Server.{pong_for, handle_ping}
use ping_pong_libp2p.Demo.Browser.{
  SwarmEvent, connection_established, outgoing_connection_error, other, Page, waiting, returned,
  extract_peer_id, build_swarm, connect_to_server, send_ping,
}
use ping_pong_libp2p.Demo.Browser.Connecting.{connect_to_server_lem}
use ping_pong_libp2p.Demo.Browser.PingPong.{send_ping-handle_ping}
use ping_pong_libp2p.Demo.Client as Client
use ping_pong_libp2p.Demo.Client.Main.{main-first_refusal}
use ping_pong_libp2p.Demo.Client.Rounds.{after, opening}
use ping_pong_libp2p.Demo.Peers.{peers-agree}
use ping_pong_libp2p.NetV1.EventLoop as First
use ping_pong_libp2p.NetV2.Address as Second
use ping_pong_libp2p.Witnesses.Builders.{noted, shared}
use ping_pong_libp2p.Witnesses.Toy.{Net, Part, other_part, p2p_part}
use ping_pong_libp2p.Witnesses.Pipes.{
  pipe_streams, pipe_laws, pipe_duplex, pipe_net, plain_ping, plain_ping_laws, plain_pong,
  plain_pong_laws,
}

abbrev pong_bytes : List ℕ
pong_bytes = text "Pong! You said: hi"

-- The client's network, in which the answer is to arrive, and the server's, where the ping has.
abbrev outside : Net × List ℕ
outside = (record { wire = frame pong_bytes; peer = none; refuses = false; listens = [] }, [])

abbrev inside : Net × List ℕ
inside = (record outside.0 { wire = frame (text "hi") }, [])

abbrev browser : WasmSwarm pipe_net (Unit {0}) (Unit {0}) (Unit {0})
browser = shared pipe_net (text "B")

abbrev fresh : Page pipe_net Text
fresh = record { control = none; peer_id = none; net = outside }

abbrev server_addr : Text
server_addr = text "/ws/p2p/S"

abbrev server_parts : List Part
server_parts = other_part (text "ws") ∷ p2p_part (text "S") ∷ []

-- Another peer connects first.
abbrev early : List (SwarmEvent pipe_net)
early = other ∷ connection_established (text "T") ∷ []

connect_to_server_lem_example :
    (connect_to_server pipe_net browser tt server_addr tt
        (early ++ (connection_established (text "S") ∷ []))
        fresh
      ≡ (
        returned (ok tt),
        record { control = some (text "B"); peer_id = some (text "S"); net = outside },
      ))
    × (connect_to_server pipe_net browser tt server_addr tt
          (early ++ (outgoing_connection_error (text "timeout") ∷ []))
          fresh
        ≡ (returned (err (text "Connection failed: timeout")), fresh))
    × (connect_to_server pipe_net browser tt server_addr tt early fresh ≡ (waiting, fresh))
unfolding split text_beq contains find_map extract_peer_id build_swarm
connect_to_server_lem_example =
    connect_to_server_lem pipe_net browser tt (text "S") server_addr server_parts tt tt (text "B")
      early [] (text "timeout") fresh outside outside refl refl refl refl refl
      (tt, ((ground arith), tt))

send_ping-handle_ping_example :
    let page =
      (connect_to_server pipe_net browser tt server_addr tt
        (early ++ (connection_established (text "S") ∷ []))
        fresh).1 in
    (send_ping pipe_net browser plain_ping plain_pong (text "hi") page).0 ≡ ok pong_bytes
unfolding split text_beq contains find_map extract_peer_id build_swarm pipe_laws pong_for
    handle_ping to_be_bytes from_be_bytes
send_ping-handle_ping_example =
    send_ping-handle_ping pipe_net browser pipe_laws pipe_duplex plain_ping plain_ping_laws
      plain_pong plain_pong_laws tt server_addr server_parts (text "S") tt tt (text "B") early []
      fresh (text "hi") (text "hi") pong_bytes [] [] tt tt outside outside outside
      (outside.0, frame (text "hi")) inside (record inside.0 { wire = [] }, frame pong_bytes) refl
      refl refl refl refl (tt, ((ground arith), tt)) refl refl (omega arith) refl refl refl
      (omega arith) refl refl

-- Each sleep is counted. The first stream is opened, the second is not, and at the third the server
-- does not speak the protocol.
abbrev rest_for : Net × List ℕ → Net × List ℕ
rest_for w = (record w.0 { listens = text "slept" ∷ w.0.listens }, w.1)

abbrev opens : ℕ → Result (Unit {0}) Client.OpenStreamError
opens zero = ok tt
opens (suc zero) = ok tt
opens (suc (suc zero)) = err (Client.other (text "timeout"))
opens (suc (suc (suc k))) = err Client.unsupported_protocol

abbrev open_control : Net × List ℕ → Result (Unit {0}) Client.OpenStreamError × (Net × List ℕ)
open_control w = (opens (length w.0.listens), w)

abbrev pinged : Net × List ℕ
pinged = after pipe_streams plain_ping plain_pong rest_for open_control outside 3

not_refused :
    (i : ℕ)
    → i < 2
    → opening pipe_streams plain_ping plain_pong rest_for open_control outside i
      ≢ err Client.unsupported_protocol
unfolding Client.round
not_refused zero h = λ e. ground (arith, e)
not_refused (suc zero) h = λ e. ground (arith, e)
not_refused (suc (suc i)) h = absurd (omega arith)

-- Ping 1 is answered, and no other.
main-first_refusal_example :
    (Client.main pipe_net
        (noted pipe_net outside (text "me"))
        tt
        plain_ping
        plain_pong
        rest_for
        (λ _. open_control)
        (ok tt)
        (some server_addr)
        10
      ≡ some (ok (1 ∷ [], pinged)))
    × (Client.main pipe_net
          (noted pipe_net outside (text "me"))
          tt
          plain_ping
          plain_pong
          rest_for
          (λ _. open_control)
          (ok tt)
          (some server_addr)
          2
        ≡ none)
unfolding Client.build_swarm Client.send_pings Client.server_peer to_be_bytes from_be_bytes split
    text_beq contains last
main-first_refusal_example =
    main-first_refusal pipe_net (noted pipe_net outside (text "me")) tt plain_ping plain_pong
      rest_for (λ _. open_control) (ok tt) server_addr server_parts (text "S") 2 10 outside outside
      refl refl refl refl refl not_refused refl (omega arith)

peers-agree_example :
    (First.extract_peer_id pipe_net server_parts ≡ some (text "S"))
    × (extract_peer_id pipe_net server_parts ≡ some (text "S"))
    × (Second.extract_peer_id pipe_net server_parts ≡ some (text "S"))
unfolding Second.extract_peer_id Client.server_peer
peers-agree_example = peers-agree pipe_net server_parts (omega arith)
