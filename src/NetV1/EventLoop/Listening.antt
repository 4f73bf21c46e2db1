-- ===== src/NetV1/EventLoop/Listening.antt =====
-- How the first version's loop answers requests to listen, and which addresses it reports.
use ping_pong_libp2p.Base.{
  ◌≡◌, refl, ap, ◌∙◌, inl, inr, Bool, none, some, List, [], ◌∷◌, ◌++◌, arith, if◌then◌else◌,
  Option-cases, All,
}
use ping_pong_libp2p.Base.Assoc.{get}
use ping_pong_libp2p.Io.{ok}
use ping_pong_libp2p.Deps.Json.{Json}
use ping_pong_libp2p.Deps.Libp2p.{Libp2p}
use ping_pong_libp2p.NetV1.Types.{MessageId, GlobalAddress, MeerkatMessage, Call}
use ping_pong_libp2p.NetV1.EventLoop.{
  ResponseTx, send, listen, new_listen_addr, connection_established, connection_closed, other, Wake,
  command, incoming, swarm_event, Loop, call, forget, send_to_peer, handle_send, do_listen,
  handle_incoming_stream, on_new_listen_addr, send_messages, flush_pending, handle_swarm_event,
  step, event_loop,
}
use ping_pong_libp2p.NetV1.EventLoop.Outcome.{SameBooks}
use ping_pong_libp2p.NetV1.EventLoop.Sends.{send_to_peer-SameBooks}

-- A turn of the loop that is neither a request to listen nor a new address.
abbrev pub Quiet : {n : Libp2p} → Wake n → Type 0
Quiet (command (listen addr tx)) = ⊥
Quiet (swarm_event (new_listen_addr a)) = ⊥
Quiet (command (send id addr msg)) = Unit
Quiet (incoming q stream) = Unit
Quiet (swarm_event (connection_established q)) = Unit
Quiet (swarm_event (connection_closed q)) = Unit
Quiet (swarm_event other) = Unit

-- The addresses that the swarm reports in a run.
abbrev pub reported : (n : Libp2p) → List (Wake n) → List GlobalAddress
reported n [] = []
reported n (swarm_event (new_listen_addr a) ∷ ws) = n.show_addr a ∷ reported n ws
reported n (command cmd ∷ ws) = reported n ws
reported n (incoming q stream ∷ ws) = reported n ws
reported n (swarm_event (connection_established q) ∷ ws) = reported n ws
reported n (swarm_event (connection_closed q) ∷ ws) = reported n ws
reported n (swarm_event other ∷ ws) = reported n ws

-- What the listening keeps.
pub record SameListening {n : Libp2p} (l l' : Loop n) : Type 0 where
  pub listens : l'.pending_listen ≡ l.pending_listen
  pub addrs : l'.local_addrs ≡ l.local_addrs
  pub answers : l'.responses ≡ l.responses

module _ {n : Libp2p} (j : Json MeerkatMessage) where
  send_messages-SameListening :
      (peer : n.PeerId) (ms : List (MessageId × MeerkatMessage)) (l : Loop n)
      → SameListening l (send_messages n j peer ms l)
  unfolding send_messages
  send_messages-SameListening peer [] l = record { listens = refl; addrs = refl; answers = refl }
  send_messages-SameListening peer ((id, msg) ∷ ms) l =
      let l' : Loop n = send_to_peer n j peer id msg l in
      let first : SameBooks l l' = send_to_peer-SameBooks j peer id msg l in
      let others = send_messages-SameListening peer ms l' in
      record {
        listens = others.listens ∙ first.listens;
        addrs = others.addrs ∙ first.addrs;
        answers = others.answers ∙ first.answers;
      }

  flush_pending-SameListening :
      (peer : n.PeerId) (l : Loop n) → SameListening l (flush_pending n j peer l)
  unfolding flush_pending forget
  flush_pending-SameListening peer l =
      elim (Option-cases (get ⦃test = n.peer_eq⦄ l.pending_sends peer)) [
        | inl e ↦ rw (e, flush_pending) (record { listens = refl; addrs = refl; answers = refl })
        | inr (ms, e) ↦
            rw (e, flush_pending)
              (let same = send_messages-SameListening peer ms (forget l peer) in
                record { listens = same.listens; addrs = same.addrs; answers = same.answers })
      ]

  handle_incoming_stream-SameListening :
      (q : n.PeerId) (stream : n.Stream) (l : Loop n)
      → SameListening l (handle_incoming_stream n j q stream l)
  unfolding handle_incoming_stream
  handle_incoming_stream-SameListening q stream l = ground arith

  announce_first :
      (q : n.PeerId) (b : Bool) (l : Loop n)
      → SameListening l (if b then call l (Call.on_peer_connected (n.show_peer q)) else l)
  unfolding call
  announce_first q b l = ground arith

  SameListening-trans : (a b c : Loop n) → SameListening a b → SameListening b c → SameListening a c
  SameListening-trans a b c h k = record {
    listens = k.listens ∙ h.listens;
    addrs = k.addrs ∙ h.addrs;
    answers = k.answers ∙ h.answers;
  }

  established-SameListening :
      (q : n.PeerId) (l : Loop n)
      → SameListening l (handle_swarm_event n j (connection_established q) l)
  unfolding handle_swarm_event
  established-SameListening q l =
      SameListening-trans l _ _ (announce_first q l.callbacks.on_peer_connected l)
        (flush_pending-SameListening q _)

  handle_send-SameListening :
      (id : MessageId) (addr : GlobalAddress) (msg : MeerkatMessage) (l : Loop n)
      → SameListening l (handle_send n j id addr msg l)
  unfolding handle_send
  handle_send-SameListening id addr msg l = ground arith

  pub step-SameListening : (w : Wake n) (l : Loop n) → Quiet w → SameListening l (step n j w l)
  unfolding step
  step-SameListening (command (send id addr msg)) l h = handle_send-SameListening id addr msg l
  step-SameListening (incoming q stream) l h = handle_incoming_stream-SameListening q stream l
  step-SameListening (swarm_event (connection_established q)) l h = established-SameListening q l
  step-SameListening (swarm_event (connection_closed q)) l h = unfold call in ground arith
  step-SameListening (swarm_event other) l h = record {
    listens = refl;
    addrs = refl;
    answers = refl;
  }
  step-SameListening (command (listen _ _)) l h = elim h [ ]
  step-SameListening (swarm_event (new_listen_addr _)) l h = elim h [ ]

  -- Quiet turns leave the listening alone.
  event_loop-SameListening :
      (ws : List (Wake n)) (l : Loop n) → All Quiet ws → SameListening l (event_loop n j ws l)
  unfolding event_loop
  event_loop-SameListening [] l h = record { listens = refl; addrs = refl; answers = refl }
  event_loop-SameListening (w ∷ ws) l h =
      SameListening-trans l (step n j w l) _ (step-SameListening w l h.0)
        (event_loop-SameListening ws (step n j w l) h.1)

  event_loop-append :
      (ws vs : List (Wake n)) (l : Loop n)
      → event_loop n j (ws ++ vs) l ≡ event_loop n j vs (event_loop n j ws l)
  unfolding event_loop
  event_loop-append [] vs l = refl
  event_loop-append (w ∷ ws) vs l = event_loop-append ws vs (step n j w l)

  do_listen-bound :
      (addr : GlobalAddress) (tx : ResponseTx) (m : n.Multiaddr) (l : Loop n)
      → n.parse addr ≡ ok m
      → (n.listen_on m l.net).0 ≡ ok tt
      → do_listen n j addr tx l
        ≡ record l { net = (n.listen_on m l.net).1; pending_listen = some tx }
  unfolding do_listen
  do_listen-bound addr tx m l p b = rw (p, do_listen, b)

  on_new_listen_addr-pending :
      (a : n.Multiaddr) (tx : ResponseTx) (l : Loop n)
      → l.pending_listen ≡ some tx
      → ((on_new_listen_addr n j a l).responses ≡ l.responses ++ ((tx, ok (n.show_addr a)) ∷ []))
        × ((on_new_listen_addr n j a l).pending_listen ≡ none)
        × ((on_new_listen_addr n j a l).local_addrs ≡ l.local_addrs ++ (n.show_addr a ∷ []))
  unfolding on_new_listen_addr
  on_new_listen_addr-pending a tx l e = rw (e, on_new_listen_addr) (refl, refl, refl)

  -- A request to listen that the swarm accepts is answered as soon as an address is reported: with
  -- the first address reported after it, exactly once, whatever else the loop does in between, as
  -- long as no other request to listen comes; and the address is then among the local ones.
  pub event_loop-listen :
      (addr : GlobalAddress) (tx : ResponseTx) (m a : n.Multiaddr) (ws : List (Wake n)) (l : Loop n)
      → n.parse addr ≡ ok m
      → (n.listen_on m l.net).0 ≡ ok tt
      → All Quiet ws
      → let turns = ws ++ (swarm_event (new_listen_addr a) ∷ []) in
        let l' = event_loop n j (command (listen addr tx) ∷ turns) l in
        (l'.responses ≡ l.responses ++ ((tx, ok (n.show_addr a)) ∷ []))
        × (l'.pending_listen ≡ none)
        × (l'.local_addrs ≡ l.local_addrs ++ (n.show_addr a ∷ []))
  unfolding event_loop
  event_loop-listen addr tx m a ws l p b quiet =
      let asked : Loop n = record l { net = (n.listen_on m l.net).1; pending_listen = some tx } in
      let waited : Loop n = event_loop n j ws asked in
      let same : SameListening asked waited = event_loop-SameListening ws asked quiet in
      let (answered, closed, listed) = on_new_listen_addr-pending a tx waited same.listens in
      let run =
        event_loop-append ws (swarm_event (new_listen_addr a) ∷ []) (do_listen n j addr tx l) in
      let last =
        run
        ∙ ap (λ (k : Loop n). on_new_listen_addr n j a (event_loop n j ws k))
            (do_listen-bound addr tx m l p b) in
      (
        ap (λ (k : Loop n). k.responses) last
            ∙ answered
            ∙ ap (λ r. r ++ ((tx, ok (n.show_addr a)) ∷ [])) same.answers,
        ap (λ (k : Loop n). k.pending_listen) last ∙ closed,
        ap (λ (k : Loop n). k.local_addrs) last
            ∙ listed
            ∙ ap (λ r. r ++ (n.show_addr a ∷ [])) same.addrs,
      )
