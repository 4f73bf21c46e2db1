-- ===== src/NetV2/Address/Translation.antt =====
-- Which address a node dials.
use ping_pong_libp2p.Base.{
  ◌≡◌, refl, sym, ap, subst, ◌∙◌, ◌⊎◌, inl, inr, some, Bool, true, false, ◌&&◌, ◌||◌, [], ◌++◌,
  arith, Bool-cases, if◌then◌else◌, append_assoc,
}
use ping_pong_libp2p.Io.{ok}
use ping_pong_libp2p.Text.{Text, text, starts_with, contains}
use ping_pong_libp2p.Text.Search.{starts_with-append, starts_with-split, contains_middle}
use ping_pong_libp2p.NetV2.Types.{Address, NodeType, server, browser_client}
use ping_pong_libp2p.NetV2.Address.{translate_address, translate_address_pub}

-- The circuit hop that a browser client puts in front.
abbrev pub hop : Address → Text
hop relay = relay ++ text "/p2p-circuit/"

-- An address that already runs over the relay.
abbrev pub is_relayed : Address → Address → Bool
is_relayed relay a = starts_with a relay && contains a (text "/p2p-circuit")

abbrev pub is_ip : Address → Bool
is_ip a = starts_with a (text "/ip4/") || starts_with a (text "/ip6/")

-- The address that is dialled, without the `Result`.
abbrev pub dialled : NodeType → Address → Address
dialled server a = a
dialled (browser_client relay) a =
    if is_relayed relay a then a else if is_ip a then hop relay ++ a else a

-- `translate_address` never fails.
pub translate_address-ok : (t : NodeType) (a : Address) → translate_address t a ≡ ok (dialled t a)
unfolding translate_address
translate_address-ok server a = refl
translate_address-ok (browser_client relay) a =
    ground (arith, append_assoc relay (text "/p2p-circuit/") a)

-- So `translate_address_pub` does not panic.
translate_address_pub-dialled :
    (t : NodeType) (a : Address) → translate_address_pub t a ≡ some (dialled t a)
unfolding translate_address_pub
translate_address_pub-dialled t a = rw (translate_address-ok t a, translate_address_pub) refl

-- A hop in front makes an address that runs over the relay.
is_relayed-hop : (relay a : Address) → is_relayed relay (hop relay ++ a) ≡ true
is_relayed-hop relay a = rw (append_assoc relay (text "/p2p-circuit/") a) (
    ground (
      arith,
      starts_with-append relay (text "/p2p-circuit/" ++ a),
      contains_middle relay (text "/p2p-circuit") (text "/" ++ a),
    ))

dialled_idem : (t : NodeType) (a : Address) → dialled t (dialled t a) ≡ dialled t a
dialled_idem server a = refl
dialled_idem (browser_client relay) a = ground (arith, is_relayed-hop relay a)

-- The two cases of a browser client's address.
dialled_cases :
    (relay a : Address)
    → ((dialled (browser_client relay) a ≡ a)
        × (is_relayed relay a || is_ip a ≡ is_relayed relay a))
      ⊎ ((dialled (browser_client relay) a ≡ hop relay ++ a)
          × (is_ip a ≡ true)
          × (is_relayed relay a ≡ false))
dialled_cases relay a = elim (Bool-cases (is_relayed relay a)) [
  | inl r ↦ inl (ground arith, ground arith)
  | inr r ↦ elim (Bool-cases (is_ip a)) [
    | inl i ↦ inr (ground arith, i, r)
    | inr i ↦ inl (ground arith, ground arith)
  ]
]

-- Translating twice is translating once, on every node: the hop is never added a second time.
translate_address_idem :
    (t : NodeType) (a b : Address) → translate_address t a ≡ ok b → translate_address t b ≡ ok b
translate_address_idem t a b h =
    let e : dialled t a ≡ b = ground (arith, translate_address-ok t a) in
    translate_address-ok t b ∙ ap ok (subst (λ c. dialled t c ≡ c) e (dialled_idem t a))

-- What a browser client dials for an IP address starts with the text of its own relay's address and
-- has a `/p2p-circuit` in it, and it ends in the address that was asked for.
pub translate_address_relayed :
    (relay a b : Address)
    → is_ip a ≡ true
    → translate_address (browser_client relay) a ≡ ok b
    → (is_relayed relay b ≡ true) × ((front : Text) × (b ≡ front ++ a))
translate_address_relayed relay a b ip h =
    let e : dialled (browser_client relay) a ≡ b =
      ground (arith, translate_address-ok (browser_client relay) a) in
    elim (dialled_cases relay a) [
      | inl (same, only) ↦ (
        subst (λ c. is_relayed relay c ≡ true) (sym same ∙ e) (ground (arith, only)),
        ([], sym e ∙ same),
      )
      | inr (hopped, _, r) ↦ (
        subst (λ c. is_relayed relay c ≡ true) (sym hopped ∙ e) (is_relayed-hop relay a),
        (hop relay, sym e ∙ hopped),
      )
    ]

is_ip-slash : (a : Address) → is_ip a ≡ true → (r : Text) × (a ≡ text "/" ++ r)
is_ip-slash a h = elim (Bool-cases (starts_with a (text "/ip4/"))) [
  | inl four ↦ (let (r, e) = starts_with-split a (text "/ip4/") four in (text "ip4/" ++ r, e))
  | inr other ↦
      (let (r, e) = starts_with-split a (text "/ip6/") (ground arith) in (text "ip6/" ++ r, e))
]

-- The hop in front of an IP address leaves an empty component, since the address brings a slash of
-- its own.
pub contains-hop :
    (relay a : Address) → is_ip a ≡ true → contains (hop relay ++ a) (text "/p2p-circuit//") ≡ true
contains-hop relay a ip =
    let (rest, e) = is_ip-slash a ip in
    subst (λ c. contains (hop relay ++ c) (text "/p2p-circuit//") ≡ true) (sym e)
      (rw (append_assoc relay (text "/p2p-circuit/") (text "/" ++ rest))
        (contains_middle relay (text "/p2p-circuit//") rest))

pub dialled-hop :
    (relay a : Address)
    → is_ip a ≡ true
    → is_relayed relay a ≡ false
    → dialled (browser_client relay) a ≡ hop relay ++ a
dialled-hop relay a ip r = ground arith
