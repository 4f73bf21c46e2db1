-- ===== src/Witnesses/Pipes.antt =====
-- A network in which what arrives on the one stream and what is written to it are apart, and formats
-- for the messages of the demo and of the first version.
use ping_pong_libp2p.Base.{ℕ, zero, suc, ◌≡◌, refl, sym, ap, ◌∙◌, List, [], ◌∷◌, ◌++◌}
use ping_pong_libp2p.Io.{Result, ok, err}
use ping_pong_libp2p.Text.{Text, text, text_eq}
use ping_pong_libp2p.Deps.Streams.{Streams, StreamLaws, DuplexLaws}
use ping_pong_libp2p.Deps.Json.{Json, JsonLaws}
use ping_pong_libp2p.Deps.Libp2p.{Libp2p}
use ping_pong_libp2p.NetV1.Types.{MeerkatMessage, ping, pong, announce}
use ping_pong_libp2p.NetV2.Types as Second
use ping_pong_libp2p.Demo.{PingMessage, PongMessage}
use ping_pong_libp2p.Witnesses.Toy.{Net, read, read-ok, read-eof, wire_net, encode, un_ok}

-- What arrives is the wire; beside it stands what was written.
abbrev pub pipe_streams : Streams
pipe_streams = record {
  World = Net × List ℕ;
  Stream = Unit {0};
  write_all = λ _ bs w. (ok tt, (w.0, w.1 ++ bs));
  flush = λ _ w. (ok tt, w);
  close = λ _ w. (ok tt, w);
  read_exact = λ _ k w. ((read k w.0).0, ((read k w.0).1, w.1));
}

unfoldable pub pipe_laws : StreamLaws pipe_streams
pipe_laws = record {
  written = λ w _. w.1;
  unread = λ w _. w.0.wire;
  write_all_ok =
      λ st bs w w' h. ap (λ (x : Result (Unit {0}) Text × (Net × List ℕ)). x.1.1) (sym h);
  flush_ok = λ st w w' h. ap (λ (x : Result (Unit {0}) Text × (Net × List ℕ)). x.1.1) (sym h);
  read_exact_ok = λ st bs rest w h.
      let (v, e, left) = read-ok bs rest w.0 h in ((v, w.1), ap (λ x. (x.0, (x.1, w.1))) e, left);
  read_exact_eof =
      λ st k w h. let (e, v, p) = read-eof k w.0 h in (e, (v, w.1), ap (λ x. (x.0, (x.1, w.1))) p);
}

pub pipe_duplex : DuplexLaws pipe_streams pipe_laws
unfolding pipe_laws
pipe_duplex = record { written-read_exact = λ st k w. refl }

abbrev pub pipe_net : Libp2p
pipe_net = record {
  streams = pipe_streams;
  Multiaddr = wire_net.Multiaddr;
  PeerId = Text;
  Protocol = wire_net.Protocol;
  peer_eq = text_eq;
  show_peer = wire_net.show_peer;
  show_addr = wire_net.show_addr;
  parse = wire_net.parse;
  iter = wire_net.iter;
  with_protocol = wire_net.with_protocol;
  p2p = wire_net.p2p;
  p2p_circuit = wire_net.p2p_circuit;
  is_connected = λ w p. wire_net.is_connected w.0 p;
  dial = λ m w. ((wire_net.dial m w.0).0, ((wire_net.dial m w.0).1, w.1));
  listen_on = λ m w. ((wire_net.listen_on m w.0).0, ((wire_net.listen_on m w.0).1, w.1));
  add_external_address = λ w m. w;
  open_stream = λ p w. (ok tt, w);
}

-- The message alone.
abbrev pub plain_ping : Json PingMessage
plain_ping = record { to_vec = λ p. ok p.message; from_slice = λ bs. ok (record { message = bs }) }

abbrev pub plain_pong : Json PongMessage
plain_pong = record { to_vec = λ p. ok p.message; from_slice = λ bs. ok (record { message = bs }) }

pub plain_ping_laws : JsonLaws plain_ping
plain_ping_laws = record {
  from_slice-to_vec = λ m bs h. ap (λ r. ok (record { message = un_ok [] r })) (sym h);
}

pub plain_pong_laws : JsonLaws plain_pong
plain_pong_laws = record {
  from_slice-to_vec = λ m bs h. ap (λ r. ok (record { message = un_ok [] r })) (sym h);
}

abbrev decode_first : List ℕ → Result MeerkatMessage Text
decode_first (zero ∷ s) = ok (ping s)
decode_first (suc zero ∷ s) = ok (pong s)
decode_first (suc (suc zero) ∷ s) = ok (announce s)
decode_first _ = err (text "bad message")

abbrev upgrade : MeerkatMessage → Second.MeerkatMessage
upgrade (ping content) = Second.ping content
upgrade (pong content) = Second.pong content
upgrade (announce peer_addr) = Second.announce peer_addr

-- The first version's messages in the second version's format.
abbrev pub tagged_first : Json MeerkatMessage
tagged_first = record { to_vec = λ m. ok (encode (upgrade m)); from_slice = decode_first }

decode_first-encode : (m : MeerkatMessage) → decode_first (encode (upgrade m)) ≡ ok m
decode_first-encode (ping s) = refl
decode_first-encode (pong s) = refl
decode_first-encode (announce s) = refl

pub tagged_first_laws : JsonLaws tagged_first
tagged_first_laws = record {
  from_slice-to_vec = λ m bs h. ap decode_first (sym (ap (un_ok []) h)) ∙ decode_first-encode m;
}
