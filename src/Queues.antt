-- ===== src/Queues.antt =====
-- The ids of messages, and the messages that wait for peers, as both versions of the network keep
-- them: a queue under each peer, every message with its id. Counted is how often one id waits.
use ping_pong_libp2p.Base.{
  ℕ, zero, suc, ◌+◌, ◌≤◌, ◌≡◌, ap, ◌∙◌, inl, inr, Option, none, some, List, [], ◌∷◌, ◌++◌, arith,
  if◌then◌else◌, Bool-cases, nat_beq, Eq, ◌==◌, beq_refl, ◌&&◌, leb, ltb,
}
use ping_pong_libp2p.Base.Assoc.{Map, get, insert, remove}

-- `n` ids from `start` on.
abbrev pub count_up : ℕ → ℕ → List ℕ
count_up start zero = []
count_up start (suc n) = start ∷ count_up (start + 1) n

pub count_up-snoc : (start k : ℕ) → count_up start (suc k) ≡ count_up start k ++ ((start + k) ∷ [])
count_up-snoc start zero = let same : start ≡ start + 0 = omega arith in ap (λ x. x ∷ []) same
count_up-snoc start (suc k) =
    let next : start + 1 + k ≡ start + suc k = omega arith in
    ap (λ l. start ∷ l)
      (count_up-snoc (start + 1) k ∙ ap (λ x. count_up (start + 1) k ++ (x ∷ [])) next)

abbrev pub or_empty : {A : Type 0} → Option (List A) → List A
or_empty none = []
or_empty (some ms) = ms

module _ (x : ℕ) where
  abbrev pub hit : ℕ → ℕ
  hit id = if nat_beq x id then 1 else 0

  -- 1 if `x` is among the `k` numbers from `first` on, else 0.
  abbrev pub among : ℕ → ℕ → ℕ
  among first k = if leb first x && ltb x (first + k) then 1 else 0

  module _ {M : Type 0} where
    -- The sends of `x` that a queue holds, and that all queues hold.
    abbrev pub queued : List (ℕ × M) → ℕ
    queued [] = 0
    queued ((id, msg) ∷ ms) = hit id + queued ms

    abbrev pub waiting : {K : Type 0} → Map K (List (ℕ × M)) → ℕ
    waiting [] = 0
    waiting ((k, ms) ∷ m) = queued ms + waiting m

    queued-append : (ms ns : List (ℕ × M)) → queued (ms ++ ns) ≡ queued ms + queued ns
    queued-append [] ns = omega arith
    queued-append ((id, msg) ∷ ms) ns = ground (arith, queued-append ms ns)

    -- What removing a key takes away is at least the queue that was under it.
    pub waiting-remove :
        {K : Type 0} ⦃test : Eq K⦄ (m : Map K (List (ℕ × M))) (k : K)
        → waiting (remove m k) + queued (or_empty (get m k)) ≤ waiting m
    unfolding remove get
    waiting-remove [] k = omega arith
    waiting-remove ((i, ms) ∷ m) k = elim (Bool-cases (i == k)) [
      | inl same ↦ ground (arith, waiting-remove m k)
      | inr differ ↦ ground (arith, waiting-remove m k)
    ]

    -- A message that is put behind the queue of its peer.
    pub waiting-insert :
        {K : Type 0} ⦃test : Eq K⦄ (m : Map K (List (ℕ × M))) (k : K) (id : ℕ) (msg : M)
        → waiting (insert m k (or_empty (get m k) ++ ((id, msg) ∷ []))) ≤ waiting m + hit id
    unfolding insert
    waiting-insert m k id msg =
        ground (arith, queued-append (or_empty (get m k)) ((id, msg) ∷ []), waiting-remove m k)

    -- A queue that is put in and removed again.
    pub waiting-remove-insert :
        {K : Type 0} ⦃test : Eq K⦄ (m : Map K (List (ℕ × M))) (k : K) (ms : List (ℕ × M))
        → waiting (remove (insert m k ms) k) ≤ waiting m
    unfolding insert remove
    waiting-remove-insert m k ms =
        ground (arith, beq_refl k, waiting-remove m k, waiting-remove (remove m k) k)
