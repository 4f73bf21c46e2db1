-- ===== src/Demo/Server/Stages.antt =====
-- The turns of the task whose stream has a whole ping: where it is after each, and what it has
-- written by then.
use ping_pong_libp2p.Base.{
  ℕ, zero, suc, ◌^◌, ◌<◌, ◌≡◌, refl, ap, ◌∙◌, List, ◌++◌, length, append_assoc, arith, subst, sym,
}
use ping_pong_libp2p.Io.{ok}
use ping_pong_libp2p.Deps.Streams.{Streams, StreamLaws, DuplexLaws}
use ping_pong_libp2p.Deps.Json.{Json, JsonLaws}
use ping_pong_libp2p.Frame.{u32, to_be_bytes, from_be_bytes, from_be_bytes-to_be_bytes}
use ping_pong_libp2p.Frame.Exchange.{frame}
use ping_pong_libp2p.Demo.{PingMessage, PongMessage}
use ping_pong_libp2p.Demo.Server.{
  pong_for, Task, reading_length, reading_body, writing_length, writing_body, finished, respond,
  resume,
}

-- `old` is what was written to the stream before, `rest` what has arrived behind the ping.
module _ (s : Streams) (laws : StreamLaws s) (st : s.Stream) (bytes answer old rest : List ℕ) where
  open laws use {written, unread}

  -- The task after so many turns.
  abbrev pub task_at : ℕ → Task
  task_at zero = reading_length
  task_at (suc zero) = reading_body (length bytes)
  task_at (suc (suc zero)) = writing_length answer
  task_at (suc (suc (suc zero))) = writing_body answer
  task_at (suc (suc (suc (suc k)))) = finished (ok tt)

  -- What it has written.
  abbrev pub written_at : ℕ → List ℕ
  written_at zero = old
  written_at (suc zero) = old
  written_at (suc (suc zero)) = old
  written_at (suc (suc (suc zero))) = old ++ to_be_bytes (u32 (length answer))
  written_at (suc (suc (suc (suc k)))) = old ++ frame answer

  -- What it has still to read.
  abbrev pub UnreadAt : ℕ → List ℕ → Type 0
  UnreadAt zero left = left ≡ frame bytes ++ rest
  UnreadAt (suc zero) left = left ≡ bytes ++ rest
  UnreadAt (suc (suc k)) left = Unit

  abbrev pub At : ℕ → Task → List ℕ → List ℕ → Type 0
  At k t out left = (t ≡ task_at k) × (out ≡ written_at k) × UnreadAt k left

  module _ (duplex : DuplexLaws s laws) (pings : Json PingMessage) (ping_laws : JsonLaws pings)
      (pongs : Json PongMessage) (ping : PingMessage) (e : pings.to_vec ping ≡ ok bytes)
      (small : length bytes < 2 ^ 32) (e' : pongs.to_vec (pong_for ping) ≡ ok answer)
      (writes : (bs : List ℕ) (w : s.World) → (s.write_all st bs w).0 ≡ ok tt) where
    write_all-written :
        (bs : List ℕ) (w : s.World) → written (s.write_all st bs w).1 st ≡ written w st ++ bs
    write_all-written bs w = laws.write_all_ok st bs w (s.write_all st bs w).1 (cc (writes bs w))

    respond-bytes : respond s pings pongs bytes ≡ writing_length answer
    unfolding respond
    respond-bytes = rw (ping_laws.from_slice-to_vec ping bytes e, e') refl

    turn-At :
        (k : ℕ) (w : s.World)
        → written w st ≡ written_at k
        → UnreadAt k (unread w st)
        → let r = resume s pings pongs st (task_at k) w in
          At (suc k) r.0 (written r.1 st) (unread r.1 st)
    unfolding resume to_be_bytes
    turn-At zero w out here =
        let n : ℕ = u32 (length bytes) in
        let (v, p, q) =
          laws.read_exact_ok st (to_be_bytes n) (bytes ++ rest) w
            (here ∙ append_assoc (to_be_bytes n) bytes rest) in
        let read : from_be_bytes (to_be_bytes n) ≡ length bytes =
          from_be_bytes-to_be_bytes n (omega arith) ∙ omega (arith, small) in
        let whole : s.read_exact st 4 w ≡ (ok (to_be_bytes n), v) = p in
        (
          rw whole (ap reading_body read),
          duplex.written-read_exact st 4 w ∙ out,
          ap (λ x. unread x.1 st) whole ∙ q,
        )
    turn-At (suc zero) w out here =
        let (v, p, q) = laws.read_exact_ok st bytes rest w here in
        (rw p respond-bytes, duplex.written-read_exact st (length bytes) w ∙ out, tt)
    turn-At (suc (suc zero)) w out here =
        let header : List ℕ = to_be_bytes (u32 (length answer)) in
        (rw (writes header w) refl, write_all-written header w ∙ ap (λ l. l ++ header) out, tt)
    turn-At (suc (suc (suc zero))) w out here = (
      rw (writes answer w) refl,
      write_all-written answer w
          ∙ ap (λ l. l ++ answer) out
          ∙ append_assoc old (to_be_bytes (u32 (length answer))) answer,
      tt,
    )
    turn-At (suc (suc (suc (suc k)))) w out here = (refl, out, tt)

    -- Each turn takes it from one stage to the next.
    pub resume-At :
        (k : ℕ) (t : Task) (w : s.World)
        → At k t (written w st) (unread w st)
        → let r = resume s pings pongs st t w in At (suc k) r.0 (written r.1 st) (unread r.1 st)
    resume-At k t w (same, out, left) =
        subst
          (λ t.
            At (suc k) (resume s pings pongs st t w).0 (written (resume s pings pongs st t w).1 st)
              (unread (resume s pings pongs st t w).1 st))
          (sym same) (turn-At k w out left)
