-- ===== src/Demo/Server/Tasks.antt =====
-- The server's tasks, from `await` to `await`, beside `handle_ping` as a whole.
use ping_pong_libp2p.Base.{
  ℕ, zero, suc, ◌≤◌, ◌≡◌, refl, ap, ◌∙◌, inl, inr, arith, List, length, ◌-◌,
}
use ping_pong_libp2p.Io.{Result, ok, err, Result-cases, Io, lift, pure, ◌>>=◌, ◌>>◌}
use ping_pong_libp2p.Text.{Text}
use ping_pong_libp2p.Deps.Streams.{Streams}
use ping_pong_libp2p.Deps.Json.{Json}
use ping_pong_libp2p.Frame.{u32, to_be_bytes, from_be_bytes}
use ping_pong_libp2p.Frame.Exchange.{writing}
use ping_pong_libp2p.Demo.{PingMessage, PongMessage}
use ping_pong_libp2p.Demo.Server.{
  pong_for, handle_ping, Task, reading_length, reading_body, writing_length, writing_body, finished,
  respond, resume,
}

module _ (s : Streams) (pings : Json PingMessage) (pongs : Json PongMessage) (st : s.Stream) where
  -- So many turns of a task that nothing else comes between.
  abbrev pub turns : ℕ → Task × s.World → Task × s.World
  turns zero t = t
  turns (suc k) t = turns k (resume s pings pongs st t.0 t.1)

  turns-finished :
      (k : ℕ) (r : Result (Unit {0}) Text) (w : s.World) → turns k (finished r, w) ≡ (finished r, w)
  unfolding resume
  turns-finished zero r w = refl
  turns-finished (suc k) r w = turns-finished k r w

  -- A task that ends with what a computation gives, in the world that it leaves.
  abbrev ending : Result (Unit {0}) Text × s.World → Task × s.World
  ending (r, w) = (finished r, w)

  turns-writing_body :
      (k : ℕ) (d : List ℕ) (w : s.World)
      → turns (suc k) (writing_body d, w) ≡ ending ((s.write_all st d >> pure tt) w)
  unfolding resume
  turns-writing_body k d w = elim (Result-cases (s.write_all st d w).0) [
    | inl (a, e) ↦ rw e (turns-finished k (ok tt) (s.write_all st d w).1)
    | inr (x, e) ↦ rw e (turns-finished k (err x) (s.write_all st d w).1)
  ]

  turns-writing_length :
      (k : ℕ) (d : List ℕ) (w : s.World)
      → turns (suc (suc k)) (writing_length d, w) ≡ ending (writing s st d (pure tt) w)
  unfolding resume
  turns-writing_length k d w =
      let (r, v) = s.write_all st (to_be_bytes (u32 (length d))) w in
      elim (Result-cases r) [
        | inl (a, e) ↦ rw e (turns-writing_body k d v)
        | inr (x, e) ↦ rw e (turns-finished (suc k) (err x) v)
      ]

  -- The end of `handle_ping`, from the body on.
  abbrev responding : List ℕ → Io s.World Text (Unit {0})
  responding buf = lift (pings.from_slice buf) >>= λ ping.
      lift (pongs.to_vec (pong_for ping)) >>= λ d. writing s st d (pure tt)

  turns-respond :
      (k : ℕ) (buf : List ℕ) (w : s.World)
      → turns (suc (suc k)) (respond s pings pongs buf, w) ≡ ending (responding buf w)
  unfolding respond
  turns-respond k buf w = elim (Result-cases (pings.from_slice buf)) [
    | inl (ping, e) ↦ rw e (elim (Result-cases (pongs.to_vec (pong_for ping))) [
      | inl (d, e') ↦ rw e' (turns-writing_length k d w)
      | inr (x, e') ↦ rw e' (turns-finished (suc (suc k)) (err x) w)
    ])
    | inr (x, e) ↦ rw e (turns-finished (suc (suc k)) (err x) w)
  ]

  turns-reading_body :
      (k n : ℕ) (w : s.World)
      → turns (suc (suc (suc k))) (reading_body n, w)
        ≡ ending ((s.read_exact st n >>= responding) w)
  unfolding resume
  turns-reading_body k n w =
      let (r, v) = s.read_exact st n w in
      elim (Result-cases r) [
        | inl (buf, e) ↦ rw e (turns-respond k buf v)
        | inr (x, e) ↦ rw e (turns-finished (suc (suc k)) (err x) v)
      ]

  turns-reading_length :
      (k : ℕ) (w : s.World)
      → turns (suc (suc (suc (suc k)))) (reading_length, w)
        ≡ ending (handle_ping s pings pongs st w)
  unfolding resume handle_ping
  turns-reading_length k w =
      let (r, v) = s.read_exact st 4 w in
      elim (Result-cases r) [
        | inl (header, e) ↦ rw e (turns-reading_body k (from_be_bytes header) v)
        | inr (x, e) ↦ rw e (turns-finished (suc (suc (suc k))) (err x) v)
      ]

  -- A task that nothing comes between does what `handle_ping` does, in four turns: it has ended
  -- then, and stays as it is, with the value of `handle_ping`, an error included, in the world that
  -- `handle_ping` leaves.
  turns-handle_ping :
      (k : ℕ) (w : s.World)
      → 4 ≤ k
      → turns k (reading_length, w)
        ≡ (finished (handle_ping s pings pongs st w).0, (handle_ping s pings pongs st w).1)
  turns-handle_ping k w h =
      let all : k ≡ suc (suc (suc (suc (k - 4)))) = omega arith in
      ap (λ i. turns i (reading_length, w)) all ∙ turns-reading_length (k - 4) w
