-- ===== src/NetV2/Mock/PeerName.antt =====
-- The names of mock nodes: `mock-peer-` and the clock's nanoseconds as `{:08x}`.
use ping_pong_libp2p.Base.{
  ℕ, ◌+◌, ◌/◌, ◌%◌, ◌^◌, ◌<◌, ◌≡◌, [], ◌∷◌, ◌++◌, arith, ltb, if◌then◌else◌, ap, nat_beq, false,
  sym, ◌∙◌, drop-length-append, drop, All-append,
}
use ping_pong_libp2p.Text.{Text, text, slash}
use ping_pong_libp2p.Text.Segments.{Lacks}

-- A digit of `{:x}`: `0` is 48, `a` is 97.
unfoldable pub hex_digit : ℕ → ℕ
hex_digit d = if ltb d 10 then 48 + d else 87 + d

-- `format!("{:08x}", t)`: the eight digits of a `u32`.
unfoldable pub uuid_simple : ℕ → Text
unfolding hex_digit
uuid_simple t =
    hex_digit (t / 2 ^ 28 % 16)
    ∷ hex_digit (t / 2 ^ 24 % 16)
    ∷ hex_digit (t / 2 ^ 20 % 16)
    ∷ hex_digit (t / 2 ^ 16 % 16)
    ∷ hex_digit (t / 2 ^ 12 % 16)
    ∷ hex_digit (t / 2 ^ 8 % 16)
    ∷ hex_digit (t / 2 ^ 4 % 16)
    ∷ hex_digit (t % 16)
    ∷ []

-- `format!("mock-peer-{}", uuid_simple())`
unfoldable pub mock_peer : ℕ → Text
unfolding uuid_simple
mock_peer nanos = text "mock-peer-" ++ uuid_simple nanos

hex_digit-ne-slash : (d : ℕ) → nat_beq (hex_digit d) slash ≡ false
unfolding hex_digit
hex_digit-ne-slash d = ground arith

uuid_simple-Lacks : (t : ℕ) → Lacks slash (uuid_simple t)
unfolding uuid_simple
uuid_simple-Lacks t = (
  hex_digit-ne-slash _,
  (
    hex_digit-ne-slash _,
    (
      hex_digit-ne-slash _,
      (
        hex_digit-ne-slash _,
        (
          hex_digit-ne-slash _,
          (hex_digit-ne-slash _, (hex_digit-ne-slash _, (hex_digit-ne-slash _, tt))),
        ),
      ),
    ),
  ),
)

-- No name of a mock node holds a slash, so it is one component of an address.
pub mock_peer-Lacks : (nanos : ℕ) → Lacks slash (mock_peer nanos)
unfolding mock_peer
mock_peer-Lacks nanos =
    All-append (λ c. nat_beq c slash ≡ false) (text "mock-peer-") (uuid_simple nanos) (ground arith)
      (uuid_simple-Lacks nanos)

hex_digit-injective : (a b : ℕ) → a < 16 → b < 16 → hex_digit a ≡ hex_digit b → a ≡ b
unfolding hex_digit
hex_digit-injective a b h k e = ground arith

abbrev drop_head : Text → Text
drop_head [] = []
drop_head (a ∷ s) = s

abbrev head_or_zero : Text → ℕ
head_or_zero [] = 0
head_or_zero (a ∷ s) = a

-- The same first digit, and the same rest.
digit_step :
    (a b : ℕ) (s t : Text) → a < 16 → b < 16 → hex_digit a ∷ s ≡ hex_digit b ∷ t → (a ≡ b) × (s ≡ t)
digit_step a b s t h k e = (hex_digit-injective a b h k (ap head_or_zero e), ap drop_head e)

uuid_simple-injective : (s t : ℕ) → s < 2 ^ 32 → t < 2 ^ 32 → uuid_simple s ≡ uuid_simple t → s ≡ t
unfolding uuid_simple
uuid_simple-injective s t hs ht e =
    let (e₀, r₀) =
      digit_step (s / 2 ^ 28 % 16) (t / 2 ^ 28 % 16) _ _ (omega arith) (omega arith) e in
    let (e₁, r₁) =
      digit_step (s / 2 ^ 24 % 16) (t / 2 ^ 24 % 16) _ _ (omega arith) (omega arith) r₀ in
    let (e₂, r₂) =
      digit_step (s / 2 ^ 20 % 16) (t / 2 ^ 20 % 16) _ _ (omega arith) (omega arith) r₁ in
    let (e₃, r₃) =
      digit_step (s / 2 ^ 16 % 16) (t / 2 ^ 16 % 16) _ _ (omega arith) (omega arith) r₂ in
    let (e₄, r₄) =
      digit_step (s / 2 ^ 12 % 16) (t / 2 ^ 12 % 16) _ _ (omega arith) (omega arith) r₃ in
    let (e₅, r₅) =
      digit_step (s / 2 ^ 8 % 16) (t / 2 ^ 8 % 16) _ _ (omega arith) (omega arith) r₄ in
    let (e₆, r₆) =
      digit_step (s / 2 ^ 4 % 16) (t / 2 ^ 4 % 16) _ _ (omega arith) (omega arith) r₅ in
    let (e₇, _) = digit_step (s % 16) (t % 16) [] [] (omega arith) (omega arith) r₆ in
    omega (arith, e₀, e₁, e₂, e₃, e₄, e₅, e₆, e₇)

-- Two clock readings give one name only if they are the same reading.
pub mock_peer-injective : (s t : ℕ) → s < 2 ^ 32 → t < 2 ^ 32 → mock_peer s ≡ mock_peer t → s ≡ t
unfolding mock_peer
mock_peer-injective s t hs ht e = uuid_simple-injective s t hs ht (
    sym (drop-length-append (text "mock-peer-") (uuid_simple s))
    ∙ ap (drop 10) e
    ∙ drop-length-append (text "mock-peer-") (uuid_simple t))
