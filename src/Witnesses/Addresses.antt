-- ===== src/Witnesses/Addresses.antt =====
-- The theorems of NetV2/Address at concrete addresses.
use ping_pong_libp2p.Base.{◌≡◌, refl, true, ◌++◌}
use ping_pong_libp2p.Io.{ok}
use ping_pong_libp2p.Text.{Text, text, starts_with, contains}
use ping_pong_libp2p.NetV2.Types.{Address, server, browser_client}
use ping_pong_libp2p.NetV2.Address.{translate_address}
use ping_pong_libp2p.NetV2.Address.Translation.{is_relayed, hop, translate_address_relayed}

abbrev relay : Address
relay = text "/ip4/9.9.9.9/tcp/9001/ws/p2p/R"

abbrev canonical : Address
canonical = text "/ip4/8.8.8.8/tcp/9000/p2p/S"

server_translates : translate_address server canonical ≡ ok canonical
unfolding translate_address
server_translates = refl

browser_translates :
    translate_address (browser_client relay) canonical
    ≡ ok (text "/ip4/9.9.9.9/tcp/9001/ws/p2p/R/p2p-circuit//ip4/8.8.8.8/tcp/9000/p2p/S")
unfolding translate_address starts_with contains
browser_translates = refl

translate_address_relayed_example :
    (is_relayed relay (hop relay ++ canonical) ≡ true)
    × ((front : Text) × (hop relay ++ canonical ≡ front ++ canonical))
unfolding translate_address starts_with contains
translate_address_relayed_example =
    translate_address_relayed relay canonical (hop relay ++ canonical) refl refl
