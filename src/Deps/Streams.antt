-- ===== src/Deps/Streams.antt =====
-- The byte streams of `futures::{AsyncReadExt, AsyncWriteExt}`. `World` is all that a call can
-- read or change: the streams, the other ends, the network between them.
use ping_pong_libp2p.Base.{ℕ, ◌<◌, ◌≡◌, ◌≢◌, List, ◌++◌, length}
use ping_pong_libp2p.Io.{ok, err, Io}
use ping_pong_libp2p.Text.{Text}

pub record Streams : Type 1 where
  pub World : Type 0
  pub Stream : Type 0
  pub write_all : Stream → List ℕ → Io World Text (Unit {0})
  pub flush : Stream → Io World Text (Unit {0})
  pub close : Stream → Io World Text (Unit {0})
  pub read_exact : Stream → ℕ → Io World Text (List ℕ)

-- What the traits document. `written` is what a stream has accepted for the other end, `unread`
-- what has arrived from there, up to its end, and was not read yet.
pub record StreamLaws (s : Streams) : Type 0 where
  pub written : s.World → s.Stream → List ℕ
  pub unread : s.World → s.Stream → List ℕ
  -- A write that succeeds has written all bytes, in order.
  pub write_all_ok :
      (st : s.Stream) (bs : List ℕ) (w w' : s.World)
      → s.write_all st bs w ≡ (ok tt, w')
      → written w' st ≡ written w st ++ bs
  -- Flushing adds nothing.
  pub flush_ok :
      (st : s.Stream) (w w' : s.World) → s.flush st w ≡ (ok tt, w') → written w' st ≡ written w st
  -- Bytes that are there are read, in order.
  pub read_exact_ok :
      (st : s.Stream) (bs rest : List ℕ) (w : s.World)
      → unread w st ≡ bs ++ rest
      → (w' : s.World) × (s.read_exact st (length bs) w ≡ (ok bs, w')) × (unread w' st ≡ rest)
  -- A stream that ends before the buffer is full is an error.
  pub read_exact_eof :
      (st : s.Stream) (n : ℕ) (w : s.World)
      → length (unread w st) < n
      → (e : Text) × (w' : s.World) × (s.read_exact st n w ≡ (err e, w'))

-- The two directions of a stream are independent: reading writes nothing.
pub record DuplexLaws (s : Streams) (laws : StreamLaws s) : Type 0 where
  pub written-read_exact :
      (st : s.Stream) (n : ℕ) (w : s.World)
      → laws.written (s.read_exact st n w).1 st ≡ laws.written w st

-- Streams do not touch one another: what is read from or written to one leaves all others alone.
pub record ApartLaws (s : Streams) (laws : StreamLaws s) : Type 0 where
  pub read_exact-written :
      (st st' : s.Stream) (n : ℕ) (w : s.World)
      → st ≢ st'
      → laws.written (s.read_exact st n w).1 st' ≡ laws.written w st'
  pub read_exact-unread :
      (st st' : s.Stream) (n : ℕ) (w : s.World)
      → st ≢ st'
      → laws.unread (s.read_exact st n w).1 st' ≡ laws.unread w st'
  pub write_all-written :
      (st st' : s.Stream) (bs : List ℕ) (w : s.World)
      → st ≢ st'
      → laws.written (s.write_all st bs w).1 st' ≡ laws.written w st'
  pub write_all-unread :
      (st st' : s.Stream) (bs : List ℕ) (w : s.World)
      → st ≢ st'
      → laws.unread (s.write_all st bs w).1 st' ≡ laws.unread w st'

-- Closing a stream adds nothing to what was written to it.
pub record CloseLaws (s : Streams) (laws : StreamLaws s) : Type 0 where
  pub written-close :
      (st : s.Stream) (w : s.World) → laws.written (s.close st w).1 st ≡ laws.written w st

-- The stream takes all that is written to it.
abbrev pub Takes : (s : Streams) → s.Stream → Type 0
Takes s st =
    ((bs : List ℕ) (w : s.World) → (s.write_all st bs w).0 ≡ ok tt)
    × ((w : s.World) → (s.flush st w).0 ≡ ok tt)
