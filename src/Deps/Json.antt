-- ===== src/Deps/Json.antt =====
-- `serde_json` at one type of message.
use ping_pong_libp2p.Base.{ℕ, ◌≡◌, List}
use ping_pong_libp2p.Io.{Result, ok}
use ping_pong_libp2p.Text.{Text}

pub record Json (M : Type 0) : Type 0 where
  pub to_vec : M → Result (List ℕ) Text
  pub from_slice : List ℕ → Result M Text

-- What is serialised reads back as itself.
pub record JsonLaws {M : Type 0} (j : Json M) : Type 0 where
  pub from_slice-to_vec : (m : M) (bs : List ℕ) → j.to_vec m ≡ ok bs → j.from_slice bs ≡ ok m
