-- ===== src/NetV1/Mock/Calls.antt =====
-- Which calls of `on_message` the first mock makes.
use mathlib.Core.List.{Perm, map, map-append, perm_middle}
use mathlib.Core.List.Perm
use ping_pong_libp2p.Base.{
  ℕ, ◌≡◌, refl, sym, ap, ◌∙◌, subst, inl, inr, some, List, [], ◌∷◌, ◌++◌, arith, All, All-append,
  append_assoc, append-nil, Option-cases,
}
use ping_pong_libp2p.Base.Assoc.{get}
use ping_pong_libp2p.Text.{Text, text_eq}
use ping_pong_libp2p.NetV1.Types.{GlobalAddress, MeerkatMessage}
use ping_pong_libp2p.NetV1.Mock.{MockNetwork, SharedMockState, Thread, default, send, wake, listen}
use ping_pong_libp2p.NetV1.Mock.Runs.{sends, listens, wakes, Run, rest, next, get-listen}

-- A delivery: what was sent, and the callbacks that got it.
abbrev pub Delivery : Type 0
Delivery = Thread × ℕ

abbrev pub sent : Delivery → Thread
sent (t, on_message) = t

abbrev pub called : Delivery → ℕ × Text × MeerkatMessage
called ((from, addr, msg), on_message) = (on_message, from, msg)

-- The node of these callbacks listens at the address that the message was sent to.
abbrev pub IsAddressed : SharedMockState → Delivery → Type 0
IsAddressed s ((from, addr, msg), on_message) = get s.peers addr ≡ some on_message

listen-keeps :
    (addr : GlobalAddress) (self : MockNetwork) (s : SharedMockState)
    → ((listen addr self s).2.threads ≡ s.threads) × ((listen addr self s).2.calls ≡ s.calls)
unfolding listen
listen-keeps addr self s = (ground arith, ground arith)

-- What became of the messages `ts` in the state that sending them led to.
pub record Inv (ts : List Thread) (s : SharedMockState) : Type 0 where
  pub deliveries : List Delivery
  pub lost : List Thread
  pub calls : s.calls ≡ map called deliveries
  pub addressed : All (IsAddressed s) deliveries
  pub once : Perm (map sent deliveries ++ (lost ++ s.threads)) ts

All-IsAddressed :
    (s s' : SharedMockState)
    → ((a : Text) (tx : ℕ) → get s.peers a ≡ some tx → get s'.peers a ≡ some tx)
    → (ds : List Delivery) → All (IsAddressed s) ds
    → All (IsAddressed s') ds
All-IsAddressed s s' keeps [] h = tt
All-IsAddressed s s' keeps (((from, addr, msg), tx) ∷ ds) h =
    (keeps addr tx h.0, All-IsAddressed s s' keeps ds h.1)

send-Inv :
    (ts : List Thread) (self : MockNetwork) (addr : GlobalAddress) (msg : MeerkatMessage)
    (s : SharedMockState)
    → Inv ts s
    → Inv (ts ++ ((self.local_id, addr, msg) ∷ [])) (send addr msg self s).2
unfolding send
send-Inv ts self addr msg s h =
    let t : Thread = (self.local_id, addr, msg) in
    let s' : SharedMockState = record s { threads = s.threads ++ (t ∷ []) } in
    let ds : List Thread = map sent h.deliveries in
    let last : (ds ++ (h.lost ++ s.threads)) ++ (t ∷ [])
        ≡ ds ++ (h.lost ++ (s.threads ++ (t ∷ []))) =
      append_assoc ds (h.lost ++ s.threads) (t ∷ [])
      ∙ ap (λ l. ds ++ l) (append_assoc h.lost s.threads (t ∷ [])) in
    record {
      deliveries = h.deliveries;
      lost = h.lost;
      calls = h.calls;
      addressed = All-IsAddressed s s' (λ a tx k. k) h.deliveries h.addressed;
      once = subst (λ l. Perm l (ts ++ (t ∷ []))) last (Perm.append_right (t ∷ []) h.once);
    }

listen-Inv :
    (ts : List Thread) (self : MockNetwork) (addr : GlobalAddress) (s : SharedMockState)
    → Inv ts s
    → Inv (ts ++ []) (listen addr self s).2
listen-Inv ts self addr s h =
    let s' : SharedMockState = (listen addr self s).2 in
    let (threads, calls) = listen-keeps addr self s in
    record {
      deliveries = h.deliveries;
      lost = h.lost;
      calls = calls ∙ h.calls;
      addressed = All-IsAddressed s s' (get-listen addr self s) h.deliveries h.addressed;
      once =
          subst (λ l. Perm (map sent h.deliveries ++ (h.lost ++ l)) (ts ++ [])) (sym threads)
            (subst (λ l. Perm (map sent h.deliveries ++ (h.lost ++ s.threads)) l)
              (sym (append-nil ts)) h.once);
    }

-- A thread that wakes, put in front of the lost ones.
woken_first :
    (ds lost before after : List Thread) (t : Thread)
    → Perm (ds ++ (t ∷ (lost ++ (before ++ after)))) (ds ++ (lost ++ (before ++ (t ∷ after))))
woken_first ds lost before after t = Perm.append_left ds (
    subst (λ l. Perm (t ∷ l) (lost ++ (before ++ (t ∷ after)))) (append_assoc lost before after)
      (subst (λ l. Perm (t ∷ ((lost ++ before) ++ after)) l) (append_assoc lost before (t ∷ after))
        (Perm.symm (perm_middle (lost ++ before) after))))

wake-Inv :
    (ts before after : List Thread) (t : Thread) (s : SharedMockState)
    → s.threads ≡ before ++ (t ∷ after)
    → Inv ts s
    → Inv (ts ++ []) (wake t (record s { threads = before ++ after }))
unfolding wake
wake-Inv ts before after (from, addr, msg) s e h =
    let t : Thread = (from, addr, msg) in
    let ds : List Thread = map sent h.deliveries in
    let all : Perm (ds ++ (t ∷ (h.lost ++ (before ++ after)))) (ts ++ []) =
      subst (λ l. Perm (ds ++ (t ∷ (h.lost ++ (before ++ after)))) l) (sym (append-nil ts))
        (Perm.trans (woken_first ds h.lost before after t)
          (subst (λ l. Perm (ds ++ (h.lost ++ l)) ts) e h.once)) in
    elim (Option-cases (get s.peers addr)) [
      | inl p ↦
          rw (p, wake)
            (record {
              deliveries = h.deliveries;
              lost = t ∷ h.lost;
              calls = h.calls;
              addressed =
                  All-IsAddressed s (record s { threads = before ++ after }) (λ a tx k. k)
                    h.deliveries h.addressed;
              once = all;
            })
      | inr (tx, p) ↦
          rw (p, wake)
            (record {
              deliveries = h.deliveries ++ ((t, tx) ∷ []);
              lost = h.lost;
              calls =
                  ap (λ l. l ++ ((tx, from, msg) ∷ [])) h.calls
                  ∙ sym (map-append called h.deliveries ((t, tx) ∷ []));
              addressed =
                  All-append _ h.deliveries ((t, tx) ∷ [])
                    (All-IsAddressed s
                      (record s {
                        threads = before ++ after;
                        calls = s.calls ++ ((tx, from, msg) ∷ []);
                      })
                      (λ a i k. k) h.deliveries h.addressed)
                    (p, tt);
              once =
                  subst (λ l. Perm l (ts ++ []))
                    (sym (
                      ap (λ l. l ++ (h.lost ++ (before ++ after)))
                        (map-append sent h.deliveries ((t, tx) ∷ []))
                      ∙ append_assoc ds (t ∷ []) (h.lost ++ (before ++ after))))
                    all;
            })
    ]

Run-Inv : {s : SharedMockState} {ts : List Thread} → Run default ts s → Inv ts s
Run-Inv rest = record {
  deliveries = [];
  lost = [];
  calls = refl;
  addressed = tt;
  once = Perm.refl [];
}
Run-Inv (next {ts = ts} run (sends self addr msg s)) = send-Inv ts self addr msg s (Run-Inv run)
Run-Inv (next {ts = ts} run (listens self addr s)) = listen-Inv ts self addr s (Run-Inv run)
Run-Inv (next {ts = ts} run (wakes before after t s e)) =
    wake-Inv ts before after t s e (Run-Inv run)

-- Nothing is made up and nothing is delivered twice: in every run from the empty state the calls of
-- `on_message` are, in order, those of some deliveries, each of a message, from its sender, to the
-- callbacks of the node that listens at the address that the message was sent to; and the messages
-- delivered, some that were lost and those of the sleeping threads are together the messages sent,
-- each as many times as it was sent.
pub calls-deliveries :
    (s : SharedMockState) (ts : List Thread)
    → Run default ts s
    → (ds : List Delivery) × (lost : List Thread) × (s.calls ≡ map called ds)
      × All (IsAddressed s) ds
      × Perm (map sent ds ++ (lost ++ s.threads)) ts
calls-deliveries s ts run =
    let h : Inv ts s = Run-Inv run in (h.deliveries, h.lost, h.calls, h.addressed, h.once)
