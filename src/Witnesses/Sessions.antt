-- ===== src/Witnesses/Sessions.antt =====
-- The native client with the server of the demo, over two rounds.
use ping_pong_libp2p.Base.Iterators.{last}
use ping_pong_libp2p.Base.{
  ℕ, zero, suc, ◌<◌, ◌≡◌, refl, false, none, some, List, [], ◌∷◌, ◌++◌, arith,
}
use ping_pong_libp2p.Io.{Result, ok, err}
use ping_pong_libp2p.Text.{Text, text, text_beq, split, contains}
use ping_pong_libp2p.Frame.{to_be_bytes, from_be_bytes}
use ping_pong_libp2p.Frame.Exchange.{frame}
use ping_pong_libp2p.Demo.Server.{pong_for, handle_ping}
use ping_pong_libp2p.Demo.Client.{
  OpenStreamError, unsupported_protocol, build_swarm, ping_for, send_ping, round, server_peer, main,
}
use ping_pong_libp2p.Demo.Client.Rounds.{number, after}
use ping_pong_libp2p.Demo.Client.Served.{Served, main-Served}
use ping_pong_libp2p.Witnesses.Builders.{noted}
use ping_pong_libp2p.Witnesses.Toy.{Net, Part, other_part, p2p_part}
use ping_pong_libp2p.Witnesses.Pipes.{
  pipe_streams, pipe_laws, pipe_duplex, pipe_net, plain_ping, plain_ping_laws, plain_pong,
  plain_pong_laws,
}

abbrev said : ℕ → List ℕ
said zero = text "Hello from Meerkat client (ping #1)"
said (suc k) = text "Hello from Meerkat client (ping #2)"

abbrev answer : ℕ → List ℕ
answer k = text "Pong! You said: " ++ said k

-- What is still to arrive, and what was written.
abbrev world : List ℕ → List ℕ → Net × List ℕ
world arriving sent = (record { wire = arriving; peer = none; refuses = false; listens = [] }, sent)

abbrev first : Net × List ℕ
first = world (frame (answer 0) ++ frame (answer 1)) []

-- The server speaks the protocol while there is something to arrive.
abbrev opens : List ℕ → Result (Unit {0}) OpenStreamError
opens [] = err unsupported_protocol
opens (b ∷ bs) = ok tt

abbrev open_served : Net × List ℕ → Result (Unit {0}) OpenStreamError × (Net × List ℕ)
open_served w = (opens w.0.wire, w)

abbrev server_parts : List Part
server_parts = other_part (text "ws") ∷ p2p_part (text "S") ∷ []

rounds-Served :
    (i : ℕ)
    → i < 2
    → Served pipe_streams pipe_laws plain_ping plain_pong
        (λ w. w)
        open_served
        (number i)
        (after pipe_streams plain_ping plain_pong (λ w. w) open_served first i)
unfolding pipe_laws round send_ping ping_for handle_ping pong_for to_be_bytes from_be_bytes
    ping_pong_libp2p.Text.Decimal.decimal
rounds-Served zero h = record {
  ping_bytes = said 0;
  pong_bytes = answer 0;
  stream = tt;
  server_stream = tt;
  before_ping = first;
  after_ping = world (frame (answer 0) ++ frame (answer 1)) (frame (said 0));
  server_before = world (frame (said 0)) [];
  server_after = world [] (frame (answer 0));
  behind_ping = [];
  behind_pong = frame (answer 1);
  opened = refl;
  ping_encoded = refl;
  ping_small = omega arith;
  ping_written = refl;
  ping_arrived = refl;
  pong_encoded = refl;
  pong_small = omega arith;
  handled = refl;
  pong_arrived = refl;
}
rounds-Served (suc zero) h = record {
  ping_bytes = said 1;
  pong_bytes = answer 1;
  stream = tt;
  server_stream = tt;
  before_ping = world (frame (answer 1)) (frame (said 0));
  after_ping = world (frame (answer 1)) (frame (said 0) ++ frame (said 1));
  server_before = world (frame (said 1)) [];
  server_after = world [] (frame (answer 1));
  behind_ping = [];
  behind_pong = [];
  opened = refl;
  ping_encoded = refl;
  ping_small = omega arith;
  ping_written = refl;
  ping_arrived = refl;
  pong_encoded = refl;
  pong_small = omega arith;
  handled = refl;
  pong_arrived = refl;
}
rounds-Served (suc (suc i)) h = absurd (omega arith)

main-Served_example :
    main pipe_net
      (noted pipe_net first (text "me"))
      tt
      plain_ping
      plain_pong
      (λ w. w)
      (λ _. open_served)
      (ok tt)
      (some (text "/ws/p2p/S"))
      5
    ≡ some (ok (1 ∷ 2 ∷ [], after pipe_streams plain_ping plain_pong (λ w. w) open_served first 3))
unfolding build_swarm server_peer split text_beq contains last round to_be_bytes from_be_bytes
main-Served_example =
    main-Served pipe_net pipe_laws pipe_duplex (noted pipe_net first (text "me")) tt plain_ping
      plain_ping_laws plain_pong plain_pong_laws (λ w. w) (λ _. open_served) (ok tt)
      (text "/ws/p2p/S") server_parts (text "S") 2 5 first first refl refl refl refl refl
      (λ st x. refl) (omega arith) rounds-Served refl (omega arith)
