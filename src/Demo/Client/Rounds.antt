-- ===== src/Demo/Client/Rounds.antt =====
-- The native client's loop: which rounds it goes through, and when it ends.
use ping_pong_libp2p.Base.{
  Bool, true, false, ℕ, zero, suc, ◌+◌, ◌-◌, ◌%◌, ◌^◌, ◌<◌, ◌≡◌, ◌≢◌, ap, ◌∙◌, none, some, List, [],
  ◌∷◌, ◌++◌, arith, inl, inr, if◌then◌else◌,
}
use ping_pong_libp2p.Io.{Result, ok, err, Io, Result-cases}
use ping_pong_libp2p.Deps.Json.{Json}
use ping_pong_libp2p.Deps.Streams.{Streams}
use ping_pong_libp2p.Demo.{PingMessage, PongMessage}
use ping_pong_libp2p.Demo.Client.{
  OpenStreamError, unsupported_protocol, other, send_ping, round, send_pings,
}

-- The number of the ping in round `i`, which the `usize` counts from 1.
abbrev pub number : ℕ → ℕ
number i = (i + 1) % 2 ^ 64

module _ (s : Streams) (pings : Json PingMessage) (pongs : Json PongMessage)
    (sleep : s.World → s.World) (open_stream : Io s.World OpenStreamError s.Stream)
    (w : s.World) where
  -- The world after so many rounds.
  abbrev pub after : ℕ → s.World
  after zero = w
  after (suc i) = (round s pings pongs sleep open_stream (number i) (after i)).1

  -- What opening a stream gives in round `i`.
  abbrev pub opening : ℕ → Result s.Stream OpenStreamError
  opening i = (open_stream (sleep (after i))).0

  -- Whether round `i` opens a stream and has a ping answered on it.
  abbrev pub answered : ℕ → Bool
  answered i =
      let (opened, v) = open_stream (sleep (after i)) in
      elim opened [
        | err _ ↦ false
        | ok stream ↦ elim ((send_ping s pings pongs stream (number i) v).0) [
          | err _ ↦ false
          | ok _ ↦ true
        ]
      ]

  -- The pings answered in the first `k` rounds.
  abbrev pub completed : ℕ → List ℕ
  completed zero = []
  completed (suc i) = if answered i then completed i ++ (number i ∷ []) else completed i

  pub round-goes_on :
      (i : ℕ)
      → opening i ≢ err unsupported_protocol
      → (round s pings pongs sleep open_stream (number i) (after i)).0 ≡ some (answered i)
  unfolding round
  round-goes_on i h = elim (Result-cases (opening i)) [
    | inl (stream, e) ↦ ground (arith, e)
    | inr (unsupported_protocol, e) ↦ absurd (h e)
    | inr (other x, e) ↦ ground (arith, e)
  ]

  send_pings-step :
      (i fuel : ℕ)
      → opening i ≢ err unsupported_protocol
      → send_pings s pings pongs sleep open_stream (suc fuel) (i % 2 ^ 64) (completed i) (after i)
        ≡ send_pings s pings pongs sleep open_stream fuel
            (number i)
            (completed (suc i))
            (after (suc i))
  unfolding send_pings
  send_pings-step i fuel h =
      let next : (i % 2 ^ 64 + 1) % 2 ^ 64 ≡ number i = omega arith in
      ground (arith, next, round-goes_on i h)

  send_pings-round :
      (k fuel : ℕ)
      → ((i : ℕ) → i < k → opening i ≢ err unsupported_protocol)
      → send_pings s pings pongs sleep open_stream (k + fuel) 0 [] w
        ≡ send_pings s pings pongs sleep open_stream fuel (k % 2 ^ 64) (completed k) (after k)
  send_pings-round zero fuel goes =
      let all : 0 + fuel ≡ fuel = omega arith in
      ap (λ f. send_pings s pings pongs sleep open_stream f 0 [] w) all
  send_pings-round (suc k) fuel goes =
      let more : suc k + fuel ≡ k + suc fuel = omega arith in
      let next : number k ≡ suc k % 2 ^ 64 = omega arith in
      ap (λ f. send_pings s pings pongs sleep open_stream f 0 [] w) more
      ∙ send_pings-round k (suc fuel) (λ i h. goes i (omega arith))
      ∙ send_pings-step k fuel (goes k (omega arith))
      ∙ ap
          (λ c.
            send_pings s pings pongs sleep open_stream fuel c (completed (suc k)) (after (suc k)))
          next

  send_pings-refused :
      (k fuel : ℕ)
      → opening k ≡ err unsupported_protocol
      → send_pings s pings pongs sleep open_stream (suc fuel) (k % 2 ^ 64) (completed k) (after k)
        ≡ some (completed k, after (suc k))
  unfolding send_pings round
  send_pings-refused k fuel h =
      let next : (k % 2 ^ 64 + 1) % 2 ^ 64 ≡ number k = omega arith in ground (arith, next, h)

  -- The client pings until the server does not speak the protocol, and no longer. In the first
  -- round in which a stream is refused for that reason, and with any fuel for this round, it
  -- returns; after the rounds before, whatever else failed in them, it has not returned. The pings
  -- that it has logged as complete are those of the rounds before in which a stream was opened and
  -- the ping on it answered, in order and numbered by their rounds from 1 (modulo 2 ^ 64).
  pub send_pings-first_refusal :
      (k fuel : ℕ)
      → ((i : ℕ) → i < k → opening i ≢ err unsupported_protocol)
      → opening k ≡ err unsupported_protocol
      → k < fuel
      → (send_pings s pings pongs sleep open_stream fuel 0 [] w ≡ some (completed k, after (suc k)))
        × (send_pings s pings pongs sleep open_stream k 0 [] w ≡ none)
  unfolding send_pings
  send_pings-first_refusal k fuel goes refused enough =
      let more : fuel ≡ k + suc (fuel - suc k) = omega arith in
      let just : k ≡ k + 0 = omega arith in
      (
        ap (λ f. send_pings s pings pongs sleep open_stream f 0 [] w) more
            ∙ send_pings-round k (suc (fuel - suc k)) goes
            ∙ send_pings-refused k (fuel - suc k) refused,
        ap (λ f. send_pings s pings pongs sleep open_stream f 0 [] w) just
            ∙ send_pings-round k 0 goes,
      )
