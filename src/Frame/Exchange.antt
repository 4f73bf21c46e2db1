-- ===== src/Frame/Exchange.antt =====
-- A length of four bytes and that many bytes, over a stream: what all programs of the repository
-- write and read. The lemmas speak of the two calls and what follows them, whatever that is.
use ping_pong_libp2p.Base.{
  ℕ, ◌-◌, ◌^◌, ◌<◌, ◌≤◌, ◌≡◌, sym, ap, ◌∙◌, List, ◌++◌, arith, length, take, drop, append_assoc,
  Bool-cases, ltb, inl, inr,
}
use ping_pong_libp2p.Base.Parts.{
  length-take, take-append-drop, take-append_more, take-all, drop-all,
}
use ping_pong_libp2p.Io.{ok, err, Io, ◌>>=◌, ◌>>◌, pure, >>=-eq-ok}
use ping_pong_libp2p.Text.{Text}
use ping_pong_libp2p.Deps.Streams.{Streams, StreamLaws, DuplexLaws}
use ping_pong_libp2p.Frame.{u32, to_be_bytes, from_be_bytes, from_be_bytes-to_be_bytes}

-- The bytes of one message, as they are framed.
abbrev pub frame : List ℕ → List ℕ
frame bytes = to_be_bytes (u32 (length bytes)) ++ bytes

module _ (s : Streams) {A : Type 0} where
  -- The two reads, and what is done with the bytes.
  abbrev pub reading : s.Stream → (List ℕ → Io s.World Text A) → Io s.World Text A
  reading st next =
      s.read_exact st 4 >>= λ header. (s.read_exact st (from_be_bytes header) >>= next)

  -- The two writes, and what is done after them.
  abbrev pub writing : s.Stream → List ℕ → Io s.World Text A → Io s.World Text A
  writing st bytes next =
      s.write_all st (to_be_bytes (u32 (length bytes))) >> (s.write_all st bytes >> next)

  reading_ok :
      (st : s.Stream) (next : List ℕ → Io s.World Text A) (header bytes : List ℕ) (n : ℕ)
      (w v w' : s.World)
      → s.read_exact st 4 w ≡ (ok header, v)
      → from_be_bytes header ≡ n
      → s.read_exact st n v ≡ (ok bytes, w')
      → reading st next w ≡ next bytes w'
  reading_ok st next header bytes n w v w' p e q = rw (p, e, q)

  reading_eof :
      (st : s.Stream) (next : List ℕ → Io s.World Text A) (header : List ℕ) (n : ℕ)
      (w v w' : s.World) (x : Text)
      → s.read_exact st 4 w ≡ (ok header, v)
      → from_be_bytes header ≡ n
      → s.read_exact st n v ≡ (err x, w')
      → reading st next w ≡ (err x, w')
  reading_eof st next header n w v w' x p e q = rw (p, e, q)

  reading_short :
      (st : s.Stream) (next : List ℕ → Io s.World Text A) (w w' : s.World) (x : Text)
      → s.read_exact st 4 w ≡ (err x, w')
      → reading st next w ≡ (err x, w')
  reading_short st next w w' x p = rw p

module _ (s : Streams) (laws : StreamLaws s) where
  open laws use {written, unread}

  -- The frame of any bytes, at the front of what has arrived, is read as the first
  -- `length bytes % 2 ^ 32` of them.
  pub reading-frame :
      (st : s.Stream) (bytes rest : List ℕ) (w : s.World)
      → unread w st ≡ frame bytes ++ rest
      → (w' : s.World) × ((A : Type 0) (next : List ℕ → Io s.World Text A)
          → reading s st next w ≡ next (take (u32 (length bytes)) bytes) w')
        × (unread w' st ≡ drop (u32 (length bytes)) bytes ++ rest)
  unfolding to_be_bytes
  reading-frame st bytes rest w h =
      let n : ℕ = u32 (length bytes) in
      let (v, p, q) =
        laws.read_exact_ok st (to_be_bytes n) (bytes ++ rest) w
          (h ∙ append_assoc (to_be_bytes n) bytes rest) in
      let (w', p', q') = laws.read_exact_ok st (take n bytes) (drop n bytes ++ rest) v (
        q
        ∙ ap (λ l. l ++ rest) (sym (take-append-drop n bytes))
        ∙ append_assoc (take n bytes) (drop n bytes) rest) in
      let fits : n ≤ length bytes = omega arith in
      let read : s.read_exact st n v ≡ (ok (take n bytes), w') =
        rw (length-take n bytes fits) at p' in
      (
        w',
        λ A next.
            reading_ok s st next (to_be_bytes n) (take n bytes) n w v w' p
              (from_be_bytes-to_be_bytes n (omega arith)) read,
        q',
      )

  -- Of less than 2 ^ 32 bytes, all are read.
  pub reading-frame_whole :
      (st : s.Stream) (bytes rest : List ℕ) (w : s.World)
      → length bytes < 2 ^ 32
      → unread w st ≡ frame bytes ++ rest
      → (w' : s.World) × ((A : Type 0) (next : List ℕ → Io s.World Text A)
          → reading s st next w ≡ next bytes w')
        × (unread w' st ≡ rest)
  reading-frame_whole st bytes rest w small h =
      let (w', p, q) = reading-frame st bytes rest w h in
      let whole : u32 (length bytes) ≡ length bytes = omega arith in
      (
        w',
        λ A next.
            p A next
            ∙ ap (λ l. next l w')
                (ap (λ k. take k bytes) whole ∙ take-all (length bytes) bytes (omega arith)),
        q
            ∙ ap (λ l. l ++ rest)
                (ap (λ k. drop k bytes) whole ∙ drop-all (length bytes) bytes (omega arith)),
      )

  -- A stream that ends inside a frame of less than 2 ^ 32 bytes gives an error.
  pub reading-cut :
      (st : s.Stream) (bytes : List ℕ) (k : ℕ) (w : s.World)
      → length bytes < 2 ^ 32
      → k < length (frame bytes)
      → unread w st ≡ take k (frame bytes)
      → (e : Text) × (w' : s.World) × ((A : Type 0) (next : List ℕ → Io s.World Text A)
          → reading s st next w ≡ (err e, w'))
  unfolding to_be_bytes
  reading-cut st bytes k w small short h =
      let n : ℕ = u32 (length bytes) in
      let arrived : length (unread w st) ≡ k =
        ap length h ∙ length-take k (frame bytes) (omega arith) in
      elim (Bool-cases (ltb k 4)) [
        | inl less ↦
            (let (e, w', p) = laws.read_exact_eof st 4 w (ground (arith, arrived)) in
              (e, w', λ A next. reading_short s st next w w' e p))
        | inr more ↦
            (let enough : 4 ≤ k = ground (arith, more) in
              let part : List ℕ = take (k - 4) bytes in
              let there : unread w st ≡ to_be_bytes n ++ part =
                h ∙ take-append_more (to_be_bytes n) bytes k (k - 4) (omega arith) in
              let (v, p, q) = laws.read_exact_ok st (to_be_bytes n) part w there in
              let size : length part ≡ k - 4 = length-take (k - 4) bytes (omega arith) in
              let (e, w', p') = laws.read_exact_eof st n v (rw q (omega (arith, size))) in
              (
                e,
                w',
                λ A next.
                    reading_eof s st next (to_be_bytes n) n w v w' e p
                      (from_be_bytes-to_be_bytes n (omega arith)) p',
              ))
      ]

  -- Where the two writes and what follows succeed, the frame of the bytes was written before the
  -- rest was done.
  pub written-writing :
      {A : Type 0} (st : s.Stream) (bytes : List ℕ) (next : Io s.World Text A) (w w' : s.World)
      (a : A)
      → writing s st bytes next w ≡ (ok a, w')
      → (v : s.World) × (next v ≡ (ok a, w')) × (written v st ≡ written w st ++ frame bytes)
  written-writing st bytes next w w' a h =
      let header : Io s.World Text (Unit {0}) = s.write_all st (to_be_bytes (u32 (length bytes))) in
      let (_, u, p, h₁) = >>=-eq-ok header (λ _. s.write_all st bytes >> next) w w' a h in
      let (_, v, q, h₂) = >>=-eq-ok (s.write_all st bytes) (λ _. next) u w' a h₁ in
      (
        v,
        h₂,
        laws.write_all_ok st bytes u v q
            ∙ ap (λ l. l ++ bytes) (laws.write_all_ok st (to_be_bytes (u32 (length bytes))) w u p)
            ∙ append_assoc (written w st) (to_be_bytes (u32 (length bytes))) bytes,
      )

module _ (s : Streams) where
  -- The two reads behind a frame that was read.
  pub reading-parts :
      (st : s.Stream) (bytes : List ℕ) (w w' : s.World)
      → reading s st pure w ≡ (ok bytes, w')
      → (header : List ℕ) × (v : s.World) × (s.read_exact st 4 w ≡ (ok header, v))
        × (s.read_exact st (from_be_bytes header) v ≡ (ok bytes, w'))
  reading-parts st bytes w w' h =
      let (header, v, p, h') =
        >>=-eq-ok (s.read_exact st 4) (λ header. s.read_exact st (from_be_bytes header) >>= pure) w
          w' bytes h in
      let (b, v', p', e) = >>=-eq-ok (s.read_exact st (from_be_bytes header)) pure v w' bytes h' in
      (header, v, p, p' ∙ e)

  -- Reading a frame writes nothing.
  pub written-reading :
      (laws : StreamLaws s) (duplex : DuplexLaws s laws) (st : s.Stream) (bytes : List ℕ)
      (w w' : s.World)
      → reading s st pure w ≡ (ok bytes, w')
      → laws.written w' st ≡ laws.written w st
  written-reading laws duplex st bytes w w' h =
      let (header, v, p, q) = reading-parts st bytes w w' h in
      ap (λ x. laws.written x.1 st) (sym q)
      ∙ duplex.written-read_exact st (from_be_bytes header) v
      ∙ ap (λ x. laws.written x.1 st) (sym p)
      ∙ duplex.written-read_exact st 4 w

  -- Two writes that succeed go on to whatever follows them.
  pub writing-next :
      {A : Type 0} (st : s.Stream) (bytes : List ℕ) (next : Io s.World Text A) (w w' : s.World)
      → writing s st bytes (pure tt) w ≡ (ok tt, w')
      → writing s st bytes next w ≡ next w'
  writing-next st bytes next w w' h =
      let header : Io s.World Text (Unit {0}) = s.write_all st (to_be_bytes (u32 (length bytes))) in
      let (_, v, p, h') = >>=-eq-ok header (λ _. s.write_all st bytes >> pure tt) w w' tt h in
      let (_, u, q, e) = >>=-eq-ok (s.write_all st bytes) (λ _. pure tt) v w' tt h' in
      rw (p, q) (ap (λ x. next x.1) e)
