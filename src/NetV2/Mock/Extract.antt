-- ===== src/NetV2/Mock/Extract.antt =====
-- Which peer a mock node reads out of an address.
use ping_pong_libp2p.Base.{◌≡◌, refl, ap, ◌∙◌, false, none, some, List, [], ◌∷◌, ◌++◌, arith, All}
use ping_pong_libp2p.Text.{Text, text, text_eq, text_beq, split, slash}
use ping_pong_libp2p.Text.Segments.{Lacks, split-append, split-Lacks, split-append_sep}
use ping_pong_libp2p.NetV2.Types.{Address}
use ping_pong_libp2p.NetV2.Mock.{find_p2p, extract_peer_id_from_addr}

-- No component of the address is `p2p`.
abbrev pub LacksP2p : Address → Type 0
LacksP2p addr = All (λ p. text_beq p (text "p2p") ≡ false) (split slash addr)

find_p2p-append :
    (ps : List Text) (q : Text) (rest : List Text)
    → All (λ p. text_beq p (text "p2p") ≡ false) ps
    → find_p2p (ps ++ (text "p2p" ∷ q ∷ rest)) ≡ some q
unfolding find_p2p text_beq
find_p2p-append [] q rest h = refl
find_p2p-append (p ∷ []) q rest h = ground arith
find_p2p-append (p ∷ p' ∷ ps) q rest h = ground (arith, find_p2p-append (p' ∷ ps) q rest)

find_p2p-none :
    (ps : List Text) → All (λ p. text_beq p (text "p2p") ≡ false) ps → find_p2p ps ≡ none
unfolding find_p2p
find_p2p-none [] h = refl
find_p2p-none (p ∷ []) h = refl
find_p2p-none (p ∷ q ∷ ps) h = ground (arith, find_p2p-none (q ∷ ps))

-- The FIRST `/p2p/` component decides, whatever follows it.
extract_peer_id_from_addr-first :
    (addr : Address) (peer rest : Text)
    → LacksP2p addr
    → Lacks slash peer
    → extract_peer_id_from_addr (addr ++ (text "/p2p/" ++ (peer ++ (slash ∷ rest)))) ≡ some peer
unfolding extract_peer_id_from_addr
extract_peer_id_from_addr-first addr peer rest h k =
    ap find_p2p (
      split-append_sep slash addr (text "p2p/" ++ (peer ++ (slash ∷ rest)))
      ∙ ap (λ l. split slash addr ++ l)
          (split-append slash (text "p2p") (peer ++ (slash ∷ rest)) (refl, (refl, (refl, tt)))
            ∙ ap (λ l. text "p2p" ∷ l) (split-append slash peer rest k)))
    ∙ find_p2p-append (split slash addr) peer (split slash rest) h

-- An address that a node listens on leads to the node.
pub extract_peer_id_from_addr-bound :
    (addr : Address) (peer : Text)
    → LacksP2p addr
    → Lacks slash peer
    → extract_peer_id_from_addr (addr ++ (text "/p2p/" ++ peer)) ≡ some peer
unfolding extract_peer_id_from_addr
extract_peer_id_from_addr-bound addr peer h k =
    ap find_p2p (
      split-append_sep slash addr (text "p2p/" ++ peer)
      ∙ ap (λ l. split slash addr ++ l)
          (split-append slash (text "p2p") peer (refl, (refl, (refl, tt)))
            ∙ ap (λ l. text "p2p" ∷ l) (split-Lacks slash peer k)))
    ∙ find_p2p-append (split slash addr) peer [] h

extract_peer_id_from_addr-none :
    (addr : Address) → LacksP2p addr → extract_peer_id_from_addr addr ≡ none
unfolding extract_peer_id_from_addr
extract_peer_id_from_addr-none addr h = find_p2p-none (split slash addr) h
