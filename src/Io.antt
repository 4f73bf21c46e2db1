-- ===== src/Io.antt =====
-- `std::result::Result`, and code that reads and changes a world and may stop at an error with `?`.
-- What was done before the error stays done, so the world comes back beside the error too.
use mathlib.Core.Path.{◌≡◌, refl, sym, ap, ◌∙◌}
use mathlib.Core.Logic.{◌⊎◌, inl, inr}

pub data Result {ℓ κ} (A : Type ℓ) (E : Type κ) : Type (ℓ ⊔ κ) where
  ok : A → Result A E
  err : E → Result A E

pub Result-cases {ℓ κ} :
    {A : Type ℓ} {E : Type κ} (r : Result A E) → ((a : A) × (r ≡ ok a)) ⊎ ((e : E) × (r ≡ err e))
Result-cases (ok a) = inl (a, refl)
Result-cases (err e) = inr (e, refl)

-- `let a = r?; …` where nothing else is read or changed.
abbrev pub and_then : {A B E : Type 0} → Result A E → (A → Result B E) → Result B E
and_then (ok a) next = next a
and_then (err e) next = err e

abbrev pub Io : Type 0 → Type 0 → Type 0 → Type 0
Io W E A = W → Result A E × W

module _ {W E A : Type 0} where
  -- A computation that touches nothing.
  abbrev pub lift : Result A E → Io W E A
  lift r w = (r, w)

  abbrev pub pure : A → Io W E A
  pure a w = (ok a, w)

module _ {W E A B : Type 0} where
  abbrev pub continue : Result A E → (A → Io W E B) → Io W E B
  continue (ok a) f w = f a w
  continue (err e) f w = (err e, w)

  infixl 10 ◌>>=◌ ◌>>◌
  -- `let a = m?; …`
  abbrev pub ◌>>=◌ : Io W E A → (A → Io W E B) → Io W E B
  ◌>>=◌ m f w = continue (m w).0 f (m w).1

  abbrev pub ◌>>◌ : Io W E A → Io W E B → Io W E B
  m >> n = m >>= λ _. n

module _ {W E A B : Type 0} where
  -- A chain that succeeds has a first step that does.
  pub >>=-eq-ok :
      (m : Io W E A) (f : A → Io W E B) (w w' : W) (b : B)
      → (m >>= f) w ≡ (ok b, w')
      → (a : A) × (v : W) × (m w ≡ (ok a, v)) × (f a v ≡ (ok b, w'))
  >>=-eq-ok m f w w' b h = elim (Result-cases (m w).0) [
    | inl (a, e) ↦ (a, (m w).1, cc e, ap (λ r. continue r f (m w).1) (sym e) ∙ h)
    | inr (x, e) ↦ absurd (cc (ap (λ r. continue r f (m w).1) (sym e) ∙ h))
  ]
