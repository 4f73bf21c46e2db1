-- ===== src/Text/Decimal.antt =====
-- The `{}` of `format!` at an unsigned integer: its decimal digits.
use ping_pong_libp2p.Base.{
  ℕ, zero, suc, ◌+◌, ◌-◌, ◌*◌, ◌/◌, ◌%◌, ◌<◌, ◌≡◌, refl, sym, ap, ◌∙◌, [], ◌∷◌, ◌++◌, arith, ltb,
  if◌then◌else◌, Bool-cases, inl, inr,
}
use ping_pong_libp2p.Text.{Text}

-- The digits, with fuel for each.
unfoldable pub digits : ℕ → ℕ → Text
digits zero n = []
digits (suc fuel) n =
    let rest = digits fuel (n / 10) ++ ((48 + n % 10) ∷ []) in
    if ltb n 10 then (48 + n) ∷ [] else rest

unfoldable pub decimal : ℕ → Text
unfolding digits
decimal n = digits (suc n) n

-- The number that digits stand for, behind those of `acc`.
abbrev value : ℕ → Text → ℕ
value acc [] = acc
value acc (c ∷ s) = value (10 * acc + (c - 48)) s

value-append :
    (acc : ℕ) (s : Text) (c : ℕ) → value acc (s ++ (c ∷ [])) ≡ 10 * value acc s + (c - 48)
value-append acc [] c = refl
value-append acc (d ∷ s) c = value-append (10 * acc + (d - 48)) s c

value-digits : (fuel n : ℕ) → n < fuel → value 0 (digits fuel n) ≡ n
unfolding digits
value-digits zero n h = absurd (omega arith)
value-digits (suc fuel) n h = elim (Bool-cases (ltb n 10)) [
  | inl small ↦ rw small (omega arith)
  | inr large ↦ rw large (
      value-append 0 (digits fuel (n / 10)) (48 + n % 10)
      ∙ ground (arith, large, value-digits fuel (n / 10)))
]

-- Different numbers are written differently.
decimal-injective : (m n : ℕ) → decimal m ≡ decimal n → m ≡ n
unfolding decimal
decimal-injective m n e =
    sym (value-digits (suc m) m (omega arith))
    ∙ ap (value 0) e
    ∙ value-digits (suc n) n (omega arith)

decimal_1234 : decimal 1204 ≡ b'1' ∷ b'2' ∷ b'0' ∷ b'4' ∷ []
unfolding decimal
decimal_1234 = refl
