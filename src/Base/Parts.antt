-- ===== src/Base/Parts.antt =====
-- Cutting a list in two.
use Prim.Native.Nat.{zero, suc, ◌≤◌, ℕ, ◌+◌}
use mathlib.Core.Path.{◌≡◌, refl, ap, ◌∙◌}
use mathlib.Core.List.{List, [], ◌∷◌, ◌++◌}
use native.Mathlib.Omega.{arith}
use ping_pong_libp2p.Base.Lists.{length, take, drop, drop-length-append}

module _ {ℓ} {A : Type ℓ} where
  pub take-append-drop : (n : ℕ) (xs : List A) → take n xs ++ drop n xs ≡ xs
  take-append-drop zero xs = refl
  take-append-drop (suc n) [] = refl
  take-append-drop (suc n) (x ∷ xs) = ap (λ l. x ∷ l) (take-append-drop n xs)

  pub length-take : (n : ℕ) (xs : List A) → n ≤ length xs → length (take n xs) ≡ n
  length-take zero xs h = refl
  length-take (suc n) [] h = absurd (omega arith)
  length-take (suc n) (x ∷ xs) h = ap suc (length-take n xs (omega arith))

  pub take-all : (n : ℕ) (xs : List A) → length xs ≤ n → take n xs ≡ xs
  take-all zero [] h = refl
  take-all zero (x ∷ xs) h = absurd (omega arith)
  take-all (suc n) [] h = refl
  take-all (suc n) (x ∷ xs) h = ap (λ l. x ∷ l) (take-all n xs (omega arith))

  pub drop-all : (n : ℕ) (xs : List A) → length xs ≤ n → drop n xs ≡ []
  drop-all zero [] h = refl
  drop-all zero (x ∷ xs) h = absurd (omega arith)
  drop-all (suc n) [] h = refl
  drop-all (suc n) (x ∷ xs) h = drop-all n xs (omega arith)

  pub take-append_more :
      (xs ys : List A) (k n : ℕ) → k ≡ length xs + n → take k (xs ++ ys) ≡ xs ++ take n ys
  take-append_more [] ys k n h = let e : k ≡ n = omega arith in ap (λ m. take m ys) e
  take-append_more (x ∷ xs) ys zero n h = absurd (omega arith)
  take-append_more (x ∷ xs) ys (suc k) n h =
      ap (λ l. x ∷ l) (take-append_more xs ys k n (omega arith))

  -- What follows the old contents of a list that has grown.
  pub drop-grown :
      (old new added rest xs : List A)
      → new ≡ old ++ added
      → xs ≡ drop (length old) new ++ rest
      → xs ≡ added ++ rest
  drop-grown old new added rest xs grown h =
      h ∙ ap (λ l. l ++ rest) (ap (drop (length old)) grown ∙ drop-length-append old added)
