-- ===== src/Text/Search.antt =====
-- What `starts_with` and `contains` decide.
use ping_pong_libp2p.Base.{◌≡◌, refl, ap, inl, inr, true, [], ◌∷◌, ◌++◌, arith, Bool-cases}
use ping_pong_libp2p.Text.{Text, starts_with, contains}

pub starts_with-append : (p s : Text) → starts_with (p ++ s) p ≡ true
unfolding starts_with
starts_with-append [] s = refl
starts_with-append (a ∷ p) s = ground (arith, starts_with-append p s)

-- A prefix is what is left when a rest is cut off.
pub starts_with-split : (s p : Text) → starts_with s p ≡ true → (r : Text) × (s ≡ p ++ r)
unfolding starts_with
starts_with-split s [] h = (s, refl)
starts_with-split [] (b ∷ p) h = absurd (ground arith)
starts_with-split (a ∷ s) (b ∷ p) h =
    let (r, e) = starts_with-split s p (ground arith) in
    let k : a ≡ b = ground arith in (r, cc (k, e))

starts_with-contains : (s p : Text) → starts_with s p ≡ true → contains s p ≡ true
unfolding contains
starts_with-contains [] p h = h
starts_with-contains (a ∷ s) p h = ground arith

contains-append_left : (s t p : Text) → contains t p ≡ true → contains (s ++ t) p ≡ true
unfolding contains
contains-append_left [] t p h = h
contains-append_left (a ∷ s) t p h = ground (arith, contains-append_left s t p)

-- A text contains what stands between any two others.
pub contains_middle : (s p t : Text) → contains (s ++ (p ++ t)) p ≡ true
contains_middle s p t =
    contains-append_left s (p ++ t) p (starts_with-contains (p ++ t) p (starts_with-append p t))

contains-split : (s p : Text) → contains s p ≡ true → (a : Text) × (b : Text) × (s ≡ a ++ (p ++ b))
unfolding contains
contains-split [] p h = let (r, e) = starts_with-split [] p h in ([], r, e)
contains-split (c ∷ s) p h = elim (Bool-cases (starts_with (c ∷ s) p)) [
  | inl now ↦ (let (r, e) = starts_with-split (c ∷ s) p now in ([], r, e))
  | inr later ↦ (let (a, b, e) = contains-split s p (ground arith) in (c ∷ a, b, ap (λ l. c ∷ l) e))
]
