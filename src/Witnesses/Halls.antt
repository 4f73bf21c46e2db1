-- ===== src/Witnesses/Halls.antt =====
-- Two streams that are apart, each with its own wire, and the server of the demo between them.
use ping_pong_libp2p.Base.{
  ℕ, ◌≡◌, ◌≢◌, refl, sym, ap, ◌∙◌, Bool, true, false, List, [], ◌∷◌, ◌++◌, none, some, inl, arith,
}
use ping_pong_libp2p.Io.{Result, ok, err}
use ping_pong_libp2p.Text.{Text, text, text_eq, text_beq, split, contains}
use ping_pong_libp2p.Deps.Streams.{Streams, StreamLaws, DuplexLaws, ApartLaws}
use ping_pong_libp2p.Deps.Libp2p.{Libp2p}
use ping_pong_libp2p.Frame.Exchange.{frame}
use ping_pong_libp2p.Demo.Server.{
  main, build_swarm, listen, pong_for, Wake, incoming, turn, new_listen_addr,
  connection_established, other, Server,
}
use ping_pong_libp2p.Demo.Server.Progress.{Logged}
use ping_pong_libp2p.Demo.Server.Main.{main-answers}
use ping_pong_libp2p.Demo.Server.Rejects.{main-rejects}
use ping_pong_libp2p.Witnesses.Builders.{noted}
use ping_pong_libp2p.Witnesses.Toy.{Net, wire_net}
use ping_pong_libp2p.Witnesses.Pipes.{
  pipe_streams, pipe_laws, plain_ping, plain_ping_laws, plain_pong,
}

abbrev Hall : Type 0
Hall = (Net × List ℕ) × (Net × List ℕ)

abbrev side : Bool → Hall → Net × List ℕ
side true w = w.0
side false w = w.1

abbrev enter : Bool → (Net × List ℕ) → Hall → Hall
enter true p w = (p, w.1)
enter false p w = (w.0, p)

abbrev hall_streams : Streams
hall_streams = record {
  World = Hall;
  Stream = Bool;
  write_all = λ st bs w. (
    (pipe_streams.write_all tt bs (side st w)).0,
    enter st (pipe_streams.write_all tt bs (side st w)).1 w,
  );
  flush = λ _ w. (ok tt, w);
  close = λ _ w. (ok tt, w);
  read_exact = λ st k w. (
    (pipe_streams.read_exact tt k (side st w)).0,
    enter st (pipe_streams.read_exact tt k (side st w)).1 w,
  );
}

side-enter : (st : Bool) (p : Net × List ℕ) (w : Hall) → side st (enter st p w) ≡ p
side-enter true p w = refl
side-enter false p w = refl

side-enter_other :
    (st st' : Bool) (p : Net × List ℕ) (w : Hall) → st ≢ st' → side st' (enter st p w) ≡ side st' w
side-enter_other true true p w h = absurd (h refl)
side-enter_other true false p w h = refl
side-enter_other false true p w h = refl
side-enter_other false false p w h = absurd (h refl)

unfoldable hall_laws : StreamLaws hall_streams
unfolding pipe_laws
hall_laws = record {
  written = λ w st. (side st w).1;
  unread = λ w st. (side st w).0.wire;
  write_all_ok = λ st bs w w' h.
      ap (λ (x : Result (Unit {0}) Text × Hall). (side st x.1).1) (sym h)
      ∙ ap (λ p. p.1) (side-enter st (pipe_streams.write_all tt bs (side st w)).1 w);
  flush_ok = λ st w w' h. ap (λ (x : Result (Unit {0}) Text × Hall). (side st x.1).1) (sym h);
  read_exact_ok = λ st bs rest w h.
      let (v, e, left) = pipe_laws.read_exact_ok tt bs rest (side st w) h in
      (
        enter st v w,
        ap (λ x. (x.0, enter st x.1 w)) e,
        ap (λ p. p.0.wire) (side-enter st v w) ∙ left,
      );
  read_exact_eof = λ st k w h.
      let (e, v, p) = pipe_laws.read_exact_eof tt k (side st w) h in
      (e, enter st v w, ap (λ x. (x.0, enter st x.1 w)) p);
}

hall_duplex : DuplexLaws hall_streams hall_laws
unfolding hall_laws
hall_duplex = record {
  written-read_exact =
      λ st k w. ap (λ p. p.1) (side-enter st (pipe_streams.read_exact tt k (side st w)).1 w);
}

hall_apart : ApartLaws hall_streams hall_laws
unfolding hall_laws
hall_apart = record {
  read_exact-written = λ st st' k w h.
      ap (λ p. p.1) (side-enter_other st st' (pipe_streams.read_exact tt k (side st w)).1 w h);
  read_exact-unread = λ st st' k w h.
      ap (λ p. p.0.wire) (side-enter_other st st' (pipe_streams.read_exact tt k (side st w)).1 w h);
  write_all-written = λ st st' bs w h.
      ap (λ p. p.1) (side-enter_other st st' (pipe_streams.write_all tt bs (side st w)).1 w h);
  write_all-unread = λ st st' bs w h.
      ap (λ p. p.0.wire) (side-enter_other st st' (pipe_streams.write_all tt bs (side st w)).1 w h);
}

abbrev hall_net : Libp2p
hall_net = record {
  streams = hall_streams;
  Multiaddr = wire_net.Multiaddr;
  PeerId = Text;
  Protocol = wire_net.Protocol;
  peer_eq = text_eq;
  show_peer = wire_net.show_peer;
  show_addr = wire_net.show_addr;
  parse = wire_net.parse;
  iter = wire_net.iter;
  with_protocol = wire_net.with_protocol;
  p2p = wire_net.p2p;
  p2p_circuit = wire_net.p2p_circuit;
  is_connected = λ w p. true;
  dial = λ m w. (ok tt, w);
  listen_on = λ m w. (ok tt, w);
  add_external_address = λ w m. w;
  open_stream = λ p w. (ok true, w);
}

abbrev hall_with_p2p : hall_net.Multiaddr → Text → Result hall_net.Multiaddr hall_net.Multiaddr
hall_with_p2p m p = ok m

-- A ping "hi" on the first stream, a stream that is cut off on the second.
abbrev hall : Hall
hall = (
  (record { wire = frame (text "hi"); peer = none; refuses = false; listens = [] }, []),
  (record { wire = 0 ∷ 0 ∷ []; peer = none; refuses = false; listens = [] }, []),
)

-- What comes before the ping: the stream that is cut off, and the first turn of its task, which
-- fails.
abbrev noise : List (Wake hall_net)
noise =
    connection_established (text "b") ∷ incoming (text "b") false ∷ turn 0 ∷ new_listen_addr [] ∷ []

-- The four turns of the second task, with turns of others between them.
abbrev mixed : List (Wake hall_net)
mixed =
    turn 1 ∷ turn 0 ∷ turn 1 ∷ incoming (text "c") false ∷ turn 2 ∷ turn 1 ∷ turn 5 ∷ turn 1 ∷ []

main-answers_example :
    (s' : Server hall_net) × (main hall_net
        (noted hall_net hall (text "me"))
        tt
        plain_ping
        plain_pong
        hall_with_p2p
        (ok tt)
        (noise ++ incoming (text "a") true ∷ mixed)
      ≡ ok (some s'))
    × ((side true s'.net).1 ≡ frame (text "Pong! You said: hi"))
    × Logged (text "a", ok tt) s'.log
unfolding hall_laws build_swarm listen pong_for split contains text_beq
    ping_pong_libp2p.Frame.to_be_bytes
main-answers_example =
    main-answers hall_net hall_laws hall_duplex hall_apart (noted hall_net hall (text "me")) tt
      plain_ping plain_ping_laws plain_pong hall_with_p2p (record { message = text "hi" })
      (text "hi") (text "Pong! You said: hi") [] (text "a") true noise mixed (ok tt) (text "me")
      hall hall refl refl refl (tt, ((λ e. absurd (cc e)), (tt, (([], refl), tt))))
      (tt, (tt, (tt, ((λ e. absurd (cc e)), (tt, (tt, (tt, (tt, tt)))))))) refl refl (ground arith)
      refl (λ bs x. refl) (ground arith)

-- The turns of the task of the cut stream, which is the second, between those of others.
abbrev late : List (Wake hall_net)
late = turn 1 ∷ other ∷ turn 0 ∷ turn 1 ∷ turn 0 ∷ []

main-rejects_example :
    (s' : Server hall_net) × (e : Text) × (main hall_net
        (noted hall_net hall (text "me"))
        tt
        plain_ping
        plain_pong
        hall_with_p2p
        (ok tt)
        ((incoming (text "a") true ∷ turn 0 ∷ []) ++ incoming (text "b") false ∷ late)
      ≡ ok (some s'))
    × ((side false s'.net).1 ≡ [])
    × Logged (text "b", err e) s'.log
unfolding hall_laws build_swarm listen split contains text_beq
main-rejects_example =
    main-rejects hall_net hall_laws hall_duplex hall_apart (noted hall_net hall (text "me")) tt
      plain_ping plain_pong hall_with_p2p (text "b") false (incoming (text "a") true ∷ turn 0 ∷ [])
      late (ok tt) (text "me") hall hall refl refl refl ((λ e. absurd (cc e)), (tt, tt))
      (tt, (tt, (tt, (tt, (tt, tt))))) (inl (omega arith)) (ground arith)
