-- ===== src/Witnesses/Toy.antt =====
-- Small stand-ins for the third-party code, which meet its laws: a channel that is a list, a
-- message format, and a network of one wire.
use ping_pong_libp2p.Base.{
  ℕ, ◌+◌, length-append, zero, suc, ◌<◌, ◌≡◌, refl, sym, ap, ◌∙◌, Bool, false, Option, none, some,
  List, [], ◌∷◌, ◌++◌, arith, length, take, drop, ltb, if◌then◌else◌, take-length-append,
  drop-length-append, ◌==◌,
}
use ping_pong_libp2p.Io.{Result, ok, err}
use ping_pong_libp2p.Text.{Text, text, text_eq, contains, split, slash}
use ping_pong_libp2p.Deps.Channel.{Channel, ChannelLaws}
use ping_pong_libp2p.Deps.Streams.{Streams, StreamLaws, CloseLaws, Takes}
use ping_pong_libp2p.Deps.Json.{Json, JsonLaws}
use ping_pong_libp2p.Deps.Libp2p.{Libp2p, AddressLaws}
use ping_pong_libp2p.NetV2.Types.{MeerkatMessage, ping, pong, announce, transaction, propagation}
use ping_pong_libp2p.NetV2.Messages.{NetworkEvent}

abbrev pop_front : List NetworkEvent → Option NetworkEvent × List NetworkEvent
pop_front [] = (none, [])
pop_front (e ∷ es) = (some e, es)

abbrev pub list_channel : Channel NetworkEvent
list_channel = record {
  Queue = List NetworkEvent;
  unbounded_channel = [];
  send = λ q e. q ++ (e ∷ []);
  try_recv = pop_front;
}

unfoldable pub list_channel_laws : ChannelLaws list_channel
list_channel_laws = record {
  contents = λ q. q;
  contents-unbounded_channel = refl;
  contents-send = λ q a. refl;
  try_recv_empty = λ q h. ap (λ l. (pop_front l).0) h;
  try_recv_some = λ q a rest h. (ap (λ l. (pop_front l).0) h, ap (λ l. (pop_front l).1) h);
}

-- A tag, and the content.
abbrev pub encode : MeerkatMessage → List ℕ
encode (ping s) = 0 ∷ s
encode (pong s) = 1 ∷ s
encode (announce s) = 2 ∷ s
encode (transaction id s) = 3 ∷ id ∷ s
encode (propagation id s) = 4 ∷ id ∷ s

abbrev decode : List ℕ → Result MeerkatMessage Text
decode (zero ∷ s) = ok (ping s)
decode (suc zero ∷ s) = ok (pong s)
decode (suc (suc zero) ∷ s) = ok (announce s)
decode (suc (suc (suc zero)) ∷ id ∷ s) = ok (transaction id s)
decode (suc (suc (suc (suc k))) ∷ id ∷ s) = ok (propagation id s)
decode _ = err (text "bad message")

abbrev pub tagged : Json MeerkatMessage
tagged = record { to_vec = λ m. ok (encode m); from_slice = decode }

pub decode-encode : (m : MeerkatMessage) → decode (encode m) ≡ ok m
decode-encode (ping s) = refl
decode-encode (pong s) = refl
decode-encode (announce s) = refl
decode-encode (transaction id s) = refl
decode-encode (propagation id s) = refl

abbrev pub un_ok : List ℕ → Result (List ℕ) Text → List ℕ
un_ok d (ok bs) = bs
un_ok d (err e) = d

unfoldable pub tagged_laws : JsonLaws tagged
tagged_laws = record {
  from_slice-to_vec = λ m bs h. ap decode (sym (ap (un_ok []) h)) ∙ decode-encode m;
}

-- One wire, the peer that is connected, and whether dials are refused.
pub record Net : Type 0 where
  pub wire : List ℕ
  pub peer : Option Text
  pub refuses : Bool
  pub listens : List Text

abbrev pub read : ℕ → Net → Result (List ℕ) Text × Net
read k w =
    if ltb (length w.wire) k
    then (err (text "eof"), w)
    else (ok (take k w.wire), record w { wire = drop k w.wire })

abbrev pub wire_streams : Streams
wire_streams = record {
  World = Net;
  Stream = Unit {0};
  write_all = λ _ bs w. (ok tt, record w { wire = w.wire ++ bs });
  flush = λ _ w. (ok tt, w);
  close = λ _ w. (ok tt, w);
  read_exact = λ _ k w. read k w;
}

pub read-ok :
    (bs rest : List ℕ) (w : Net)
    → w.wire ≡ bs ++ rest
    → (w' : Net) × (read (length bs) w ≡ (ok bs, w')) × (w'.wire ≡ rest)
read-ok bs rest w h =
    let size : length w.wire ≡ length bs + length rest = ap length h ∙ length-append bs rest in
    let enough : ltb (length w.wire) (length bs) ≡ false = ground (arith, size) in
    (
      record w { wire = rest },
      rw enough (
          ap (λ l. (ok (take (length bs) l), record w { wire = drop (length bs) l })) h
          ∙ ap (λ l. (ok l, record w { wire = drop (length bs) (bs ++ rest) }))
              (take-length-append bs rest)
          ∙ ap (λ l. (ok bs, record w { wire = l })) (drop-length-append bs rest)),
      refl,
    )

pub read-eof :
    (k : ℕ) (w : Net) → length w.wire < k → (e : Text) × (w' : Net) × (read k w ≡ (err e, w'))
read-eof k w h = (text "eof", w, ground arith)

unfoldable pub wire_laws : StreamLaws wire_streams
wire_laws = record {
  written = λ w _. w.wire;
  unread = λ w _. w.wire;
  write_all_ok = λ st bs w w' h. ap (λ (x : Result (Unit {0}) Text × Net). x.1.wire) (sym h);
  flush_ok = λ st w w' h. ap (λ (x : Result (Unit {0}) Text × Net). x.1.wire) (sym h);
  read_exact_ok = λ st bs rest w h. read-ok bs rest w h;
  read_exact_eof = λ st k w h. read-eof k w h;
}

pub wire_close : CloseLaws wire_streams wire_laws
unfolding wire_laws
wire_close = record { written-close = λ st w. refl }

pub wire-Takes : Takes wire_streams tt
wire-Takes = ((λ bs w. refl), (λ w. refl))

-- A component of an address.
pub data Part : Type 0 where
  p2p_part : Text → Part
  circuit_part : Part
  other_part : Text → Part

abbrev parts : List Text → List Part
parts [] = []
parts (a ∷ []) = (if a == text "p2p-circuit" then circuit_part else other_part a) ∷ []
parts (a ∷ b ∷ rest) =
    let tail = parts (b ∷ rest) in
    let skip = parts rest in
    if a == text "p2p"
    then p2p_part b ∷ skip
    else (if a == text "p2p-circuit" then circuit_part else other_part a) ∷ tail

abbrev parse_address : Text → Result (List Part) Text
parse_address s =
    if contains s (text "/p2p-circuit//")
    then err (text "empty component")
    else elim s [ [] ↦ err (text "empty address") | c ∷ rest ↦ ok (parts (split slash rest)) ]

abbrev show_part : Part → Text
show_part (p2p_part p) = text "/p2p/" ++ p
show_part circuit_part = text "/p2p-circuit"
show_part (other_part t) = text "/" ++ t

abbrev show_parts : List Part → Text
show_parts [] = []
show_parts (p ∷ ps) = show_part p ++ show_parts ps

abbrev peer_of : Part → Option Text
peer_of (p2p_part p) = some p
peer_of circuit_part = none
peer_of (other_part t) = none

abbrev is_peer : Option Text → Text → Bool
is_peer none p = false
is_peer (some q) p = q == p

abbrev pub wire_net : Libp2p
wire_net = record {
  streams = wire_streams;
  Multiaddr = List Part;
  PeerId = Text;
  Protocol = Part;
  peer_eq = text_eq;
  show_peer = λ p. p;
  show_addr = show_parts;
  parse = parse_address;
  iter = λ m. m;
  with_protocol = λ m p. m ++ (p ∷ []);
  p2p = peer_of;
  p2p_circuit = circuit_part;
  is_connected = λ w p. is_peer w.peer p;
  dial = λ m w. if w.refuses then (err (text "refused"), w) else (ok tt, w);
  listen_on = λ m w. (ok tt, record w { listens = w.listens ++ (show_parts m ∷ []) });
  add_external_address = λ w m. w;
  open_stream = λ p w. (ok tt, w);
}

unfoldable pub wire_net_laws : AddressLaws wire_net
wire_net_laws = record {
  iter-with_protocol = λ m p. refl;
  p2p-p2p_circuit = refl;
  parse_empty_component = λ s h. (text "empty component", rw h);
}
