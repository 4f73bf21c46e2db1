-- ===== src/Demo/Server/Isolation.antt =====
-- The server's tasks beside one another: what a turn of one task leaves alone, and what the server
-- does before it accepts a stream.
use ping_pong_libp2p.Base.{
  Bool-cases, nat_beq, nat_beq_iff, ℕ, suc, ◌≡◌, ◌≢◌, refl, sym, ap, ◌∙◌, subst, inl, inr, some,
  List, [], ◌∷◌, ◌++◌, length,
}
use ping_pong_libp2p.Base.Indices.{get_elem?, set, get_elem?-set, get_elem?-set_ne, get_elem?-snoc}
use ping_pong_libp2p.Io.{Result, ok}
use ping_pong_libp2p.Deps.Streams.{Streams, StreamLaws, ApartLaws}
use ping_pong_libp2p.Deps.Json.{Json}
use ping_pong_libp2p.Deps.Libp2p.{Libp2p}
use ping_pong_libp2p.Demo.{PingMessage, PongMessage}
use ping_pong_libp2p.Demo.Server.{
  Task, reading_length, reading_body, writing_length, writing_body, finished, resume, Spawned, Wake,
  incoming, turn, new_listen_addr, connection_established, other,
}

module _ (s : Streams) (laws : StreamLaws s) (apart : ApartLaws s laws) (pings : Json PingMessage)
    (pongs : Json PongMessage) where
  open laws use {written, unread}

  pub resume-written :
      (st st' : s.Stream) (t : Task) (w : s.World)
      → st ≢ st'
      → written (resume s pings pongs st t w).1 st' ≡ written w st'
  unfolding resume
  resume-written st st' reading_length w h = apart.read_exact-written st st' 4 w h
  resume-written st st' (reading_body len) w h = apart.read_exact-written st st' len w h
  resume-written st st' (writing_length d) w h = apart.write_all-written st st' _ w h
  resume-written st st' (writing_body d) w h = apart.write_all-written st st' d w h
  resume-written st st' (finished r) w h = refl

  pub resume-unread :
      (st st' : s.Stream) (t : Task) (w : s.World)
      → st ≢ st'
      → unread (resume s pings pongs st t w).1 st' ≡ unread w st'
  unfolding resume
  resume-unread st st' reading_length w h = apart.read_exact-unread st st' 4 w h
  resume-unread st st' (reading_body len) w h = apart.read_exact-unread st st' len w h
  resume-unread st st' (writing_length d) w h = apart.write_all-unread st st' _ w h
  resume-unread st st' (writing_body d) w h = apart.write_all-unread st st' d w h
  resume-unread st st' (finished r) w h = refl

-- What wakes the server is not a stream that is accepted again, and not an address that `with_p2p`
-- refuses.
abbrev pub Harmless :
    (n : Libp2p)
    → (n.Multiaddr → n.PeerId → Result n.Multiaddr n.Multiaddr)
    → n.PeerId
    → n.Stream
    → Wake n
    → Type 0
Harmless n with_p2p me st (incoming peer st') = st' ≢ st
Harmless n with_p2p me st (turn k) = Unit
Harmless n with_p2p me st (new_listen_addr address) =
    (full : n.Multiaddr) × (with_p2p address me ≡ ok full)
Harmless n with_p2p me st (connection_established peer) = Unit
Harmless n with_p2p me st other = Unit

-- How many streams are accepted.
abbrev pub accepted : {n : Libp2p} → List (Wake n) → ℕ
accepted [] = 0
accepted (incoming peer st ∷ ws) = suc (accepted ws)
accepted (turn k ∷ ws) = accepted ws
accepted (new_listen_addr address ∷ ws) = accepted ws
accepted (connection_established peer ∷ ws) = accepted ws
accepted (other ∷ ws) = accepted ws

module _ (n : Libp2p) (st : n.Stream) where
  -- None of the tasks with such a number has the stream.
  abbrev pub Foreign : (ℕ → Type 0) → List (Spawned n) → Type 0
  Foreign P ts = (j : ℕ) (t : Spawned n) → P j → get_elem? ts j ≡ some t → t.stream ≢ st

  pub Foreign-set :
      (P : ℕ → Type 0) (ts : List (Spawned n)) (k : ℕ) (t u : Spawned n)
      → Foreign P ts
      → get_elem? ts k ≡ some t
      → u.stream ≡ t.stream
      → Foreign P (set ts k u)
  Foreign-set P ts k t u h e same j x p found = elim (Bool-cases (nat_beq k j)) [
    | inl y ↦
        (let q : k ≡ j = (nat_beq_iff k j).0 y in
          let there : get_elem? (set ts k u) k ≡ some u = get_elem?-set ts k t u e in
          let is_u : x ≡ u = cc (sym found, ap (get_elem? (set ts k u)) q, there) in
          λ eq.
            h j t p (ap (get_elem? ts) (sym q) ∙ e) (sym same ∙ ap (λ z. z.stream) (sym is_u) ∙ eq))
    | inr y ↦
        (let q : k ≢ j = λ e. absurd (cc (sym y ∙ (nat_beq_iff k j).1 e)) in
          h j x p (sym (get_elem?-set_ne ts k j u q) ∙ found))
  ]

  pub Foreign-snoc :
      (P : ℕ → Type 0) (ts : List (Spawned n)) (t : Spawned n)
      → Foreign P ts
      → (P (length ts) → t.stream ≢ st)
      → Foreign P (ts ++ (t ∷ []))
  Foreign-snoc P ts t h new j x p found = elim (get_elem?-snoc ts t x j found) [
    | inl e ↦ h j x p e
    | inr (e, q) ↦ λ eq. new (subst P e p) (ap (λ z. z.stream) q ∙ eq)
  ]
