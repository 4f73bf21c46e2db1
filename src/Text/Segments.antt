-- ===== src/Text/Segments.antt =====
-- What `split` cuts a text into.
use ping_pong_libp2p.Base.{
  ℕ, ◌≡◌, refl, sym, ap, ◌∙◌, inl, inr, true, false, List, [], ◌∷◌, ◌++◌, arith, nat_beq,
  nat_beq_iff, Bool-cases, All,
}
use ping_pong_libp2p.Text.{Text, split, prepend}

-- The separator does not occur.
abbrev pub Lacks : ℕ → Text → Type 0
Lacks sep = All (λ c. nat_beq c sep ≡ false)

-- The pieces put together again, with the separator between them.
unfoldable pub join : ℕ → List Text → Text
join sep [] = []
join sep (w ∷ []) = w
join sep (w ∷ v ∷ ws) = w ++ (sep ∷ join sep (v ∷ ws))

split_cons : (sep : ℕ) (s : Text) → (w : Text) × (ws : List Text) × (split sep s ≡ w ∷ ws)
unfolding split
split_cons sep [] = ([], [], refl)
split_cons sep (c ∷ s) = elim (Bool-cases (nat_beq c sep)) [
  | inl e ↦ ([], split sep s, ground arith)
  | inr e ↦ (let (w, ws, p) = split_cons sep s in (c ∷ w, ws, ground arith))
]

-- A text with no separator is one piece.
pub split-Lacks : (sep : ℕ) (s : Text) → Lacks sep s → split sep s ≡ s ∷ []
unfolding split
split-Lacks sep [] h = refl
split-Lacks sep (c ∷ s) h = ground (arith, split-Lacks sep s)

-- The first separator ends the first piece.
pub split-append :
    (sep : ℕ) (w s : Text) → Lacks sep w → split sep (w ++ (sep ∷ s)) ≡ w ∷ split sep s
unfolding split
split-append sep [] s h = ground arith
split-append sep (c ∷ w) s h = ground (arith, split-append sep w s)

join-prepend :
    (sep c : ℕ) (w : Text) (ws : List Text) → join sep (prepend c (w ∷ ws)) ≡ c ∷ join sep (w ∷ ws)
unfolding join
join-prepend sep c w [] = refl
join-prepend sep c w (v ∷ ws) = refl

join_piece :
    (sep c : ℕ) (w : Text) (ws : List Text)
    → nat_beq c sep ≡ true
    → join sep ([] ∷ w ∷ ws) ≡ c ∷ join sep (w ∷ ws)
unfolding join
join_piece sep c w ws h = ap (λ k. k ∷ join sep (w ∷ ws)) (sym ((nat_beq_iff c sep).0 h))

-- No character is lost.
join-split : (sep : ℕ) (s : Text) → join sep (split sep s) ≡ s
unfolding split
join-split sep [] = unfold join in refl
join-split sep (c ∷ s) =
    let (w, ws, p) = split_cons sep s in
    let back : join sep (w ∷ ws) ≡ s = ap (join sep) (sym p) ∙ join-split sep s in
    elim (Bool-cases (nat_beq c sep)) [
      | inl e ↦ rw (e, split, p) (join_piece sep c w ws e ∙ ap (λ l. c ∷ l) back)
      | inr e ↦ rw (e, split, p) (join-prepend sep c w ws ∙ ap (λ l. c ∷ l) back)
    ]

-- A separator between two texts cuts there, whatever they hold.
pub split-append_sep :
    (sep : ℕ) (s t : Text) → split sep (s ++ (sep ∷ t)) ≡ split sep s ++ split sep t
unfolding split
split-append_sep sep [] t = ground arith
split-append_sep sep (c ∷ s) t =
    let (w, ws, p) = split_cons sep s in ground (arith, split-append_sep sep s t)
