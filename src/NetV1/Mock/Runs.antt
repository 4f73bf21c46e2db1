-- ===== src/NetV1/Mock/Runs.antt =====
-- Nodes of the first mock on one shared state: their sends, listens and threads in any order.
use ping_pong_libp2p.Base.{ℕ, ◌≡◌, inl, inr, none, some, List, [], ◌∷◌, ◌++◌, arith, Option-cases}
use ping_pong_libp2p.Base.Assoc.{get, get-insert}
use ping_pong_libp2p.Io.{err}
use ping_pong_libp2p.Text.{Text, text_eq, text_beq_iff}
use ping_pong_libp2p.NetV1.Types.{GlobalAddress, MeerkatMessage, already_listening}
use ping_pong_libp2p.NetV1.Mock.{MockNetwork, SharedMockState, Thread, send, wake, listen}

-- One step, with what it sends.
pub data Step : SharedMockState → List Thread → SharedMockState → Type 0 where
  sends :
      (self : MockNetwork) (addr : GlobalAddress) (msg : MeerkatMessage) (s : SharedMockState)
      → Step s ((self.local_id, addr, msg) ∷ []) (send addr msg self s).2
  listens :
      (self : MockNetwork) (addr : GlobalAddress) (s : SharedMockState)
      → Step s [] (listen addr self s).2
  wakes :
      (before after : List Thread) (t : Thread) (s : SharedMockState)
      → s.threads ≡ before ++ (t ∷ after)
      → Step s [] (wake t (record s { threads = before ++ after }))

-- A run, with all that it sends, oldest first.
pub data Run (s : SharedMockState) : List Thread → SharedMockState → Type 0 where
  rest : Run s [] s
  next :
      {ts us : List Thread} {s1 s2 : SharedMockState}
      → Run s ts s1
      → Step s1 us s2
      → Run s (ts ++ us) s2

pub get-listen :
    (addr : GlobalAddress) (self : MockNetwork) (s : SharedMockState) (a : Text) (tx : ℕ)
    → get s.peers a ≡ some tx
    → get (listen addr self s).2.peers a ≡ some tx
unfolding listen
get-listen addr self s a tx h = elim (Option-cases (get s.peers addr)) [
  | inr (old, e) ↦ rw (e, listen) h
  | inl e ↦
      rw (e, listen)
        (ground (arith, h, e, get-insert s.peers addr a self.callbacks, text_beq_iff addr a))
]

-- Somebody listens at an address after a listen there.
listened :
    (addr : GlobalAddress) (self : MockNetwork) (s : SharedMockState)
    → (tx : ℕ) × (get (listen addr self s).2.peers addr ≡ some tx)
unfolding listen
listened addr self s = elim (Option-cases (get s.peers addr)) [
  | inr (old, e) ↦ (old, rw (e, listen) e)
  | inl e ↦ (
    self.callbacks,
    rw (e, listen)
        (ground (arith, get-insert s.peers addr addr self.callbacks, text_beq_iff addr addr)),
  )
]

listen_taken :
    (addr : GlobalAddress) (self : MockNetwork) (s : SharedMockState) (tx : ℕ)
    → get s.peers addr ≡ some tx
    → listen addr self s ≡ (err already_listening, self, s)
unfolding listen
listen_taken addr self s tx h = rw (h, listen)

Step-peers :
    {s s' : SharedMockState} {us : List Thread} (a : Text) (tx : ℕ)
    → Step s us s'
    → get s.peers a ≡ some tx
    → get s'.peers a ≡ some tx
Step-peers a tx (sends self addr msg s) h = unfold send in h
Step-peers a tx (listens self addr s) h = get-listen addr self s a tx h
Step-peers a tx (wakes before after t s e) h = unfold wake in ground (arith, h)

-- Who listens at an address listens there for good: no run takes an address over.
Run-peers :
    {s s' : SharedMockState} {ts : List Thread} (a : Text) (tx : ℕ)
    → Run s ts s'
    → get s.peers a ≡ some tx
    → get s'.peers a ≡ some tx
Run-peers a tx rest h = h
Run-peers a tx (next run step) h = Step-peers a tx step (Run-peers a tx run h)

-- A second listen at an address fails and changes nothing, whoever asks and whatever was done since
-- the first.
listen_twice :
    (addr : GlobalAddress) (first second : MockNetwork) (s s' : SharedMockState) (ts : List Thread)
    → Run (listen addr first s).2 ts s'
    → listen addr second s' ≡ (err already_listening, second, s')
listen_twice addr first second s s' ts run =
    let (tx, h) = listened addr first s in listen_taken addr second s' tx (Run-peers addr tx run h)

listen_free :
    (addr : GlobalAddress) (self : MockNetwork) (s : SharedMockState)
    → get s.peers addr ≡ none
    → get (listen addr self s).2.peers addr ≡ some self.callbacks
unfolding listen
listen_free addr self s e =
    rw (e, listen)
      (ground (arith, get-insert s.peers addr addr self.callbacks, text_beq_iff addr addr))

wake_found :
    (from : Text) (addr : GlobalAddress) (msg : MeerkatMessage) (s : SharedMockState) (tx : ℕ)
    → get s.peers addr ≡ some tx
    → wake (from, addr, msg) s ≡ record s { calls = s.calls ++ ((tx, from, msg) ∷ []) }
unfolding wake
wake_found from addr msg s tx h = rw (h, wake)

-- A node that listens at a free address gets what is sent there: at any time after the listen,
-- whatever nodes and threads did in between, a thread that wakes with a message for the address
-- makes exactly one call, that of this node's `on_message` with the sender and the message.
pub wake-listen :
    (addr : GlobalAddress) (self : MockNetwork) (s s' : SharedMockState) (ts : List Thread)
    (from : Text) (msg : MeerkatMessage)
    → get s.peers addr ≡ none
    → Run (listen addr self s).2 ts s'
    → wake (from, addr, msg) s'
      ≡ record s' { calls = s'.calls ++ ((self.callbacks, from, msg) ∷ []) }
wake-listen addr self s s' ts from msg e run =
    wake_found from addr msg s' self.callbacks
      (Run-peers addr self.callbacks run (listen_free addr self s e))
