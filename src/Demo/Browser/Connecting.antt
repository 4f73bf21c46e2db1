-- ===== src/Demo/Browser/Connecting.antt =====
-- The wait for the connection in `connect_to_server`.
use ping_pong_libp2p.Base.{
  ◌≡◌, ◌≢◌, refl, sym, ap, ◌∙◌, some, List, [], ◌∷◌, ◌++◌, All, append-nil, beq_ne, beq_refl, arith,
}
use ping_pong_libp2p.Io.{ok, err}
use ping_pong_libp2p.Text.{Text, text}
use ping_pong_libp2p.Deps.Libp2p.{Libp2p}
use ping_pong_libp2p.Deps.WasmSwarm.{WasmSwarm}
use ping_pong_libp2p.Demo.Browser.{
  SwarmEvent, connection_established, outgoing_connection_error, other, Page, Outcome, waiting,
  returned, extract_peer_id, await_connection, store, build_swarm, dial_server, connect_to_server,
}

-- An event that does not end the wait for `remote`: neither a connection with it nor a failed dial.
abbrev pub Undecided : (n : Libp2p) → n.PeerId → SwarmEvent n → Type 0
Undecided n remote (connection_established peer) = peer ≢ remote
Undecided n remote (outgoing_connection_error error) = ⊥
Undecided n remote other = Unit

module _ (n : Libp2p) (remote : n.PeerId) where
  await_connection-append :
      (before rest : List (SwarmEvent n))
      → All (Undecided n remote) before
      → await_connection n remote (before ++ rest) ≡ await_connection n remote rest
  unfolding await_connection
  await_connection-append [] rest h = refl
  await_connection-append (connection_established peer ∷ before) rest h =
      rw (beq_ne ⦃test = n.peer_eq⦄ peer remote h.0) (await_connection-append before rest h.1)
  await_connection-append (outgoing_connection_error error ∷ before) rest h = absurd h.0
  await_connection-append (other ∷ before) rest h = await_connection-append before rest h.1

module _ (n : Libp2p) {PublicKey RelayClient Behaviour : Type 0}
    (x : WasmSwarm n PublicKey RelayClient Behaviour) (stream_behaviour : Behaviour)
    (remote : n.PeerId) where
  dial_server-dialled :
      (swarm : x.Swarm) (m : n.Multiaddr) (events : List (SwarmEvent n)) (page : Page n x.Control)
      (v : n.World)
      → x.dial swarm m page.net ≡ (ok tt, v)
      → dial_server n x stream_behaviour swarm m remote events page
        ≡ store n remote
            (x.new_control swarm)
            (await_connection n remote events)
            (record page { net = v })
  unfolding dial_server
  dial_server-dialled swarm m events page v d = ground (arith, d)

  connect_to_server-dialled :
      (addr : Text) (m : n.Multiaddr) (id_keys : x.Keypair) (config : x.Noise) (swarm : x.Swarm)
      (events : List (SwarmEvent n)) (page : Page n x.Control) (w v : n.World)
      → n.parse addr ≡ ok m
      → extract_peer_id n m ≡ some remote
      → x.noise_config id_keys ≡ ok config
      → build_swarm n x stream_behaviour id_keys config page.net ≡ (swarm, w)
      → x.dial swarm m w ≡ (ok tt, v)
      → connect_to_server n x stream_behaviour addr id_keys events page
        ≡ store n remote
            (x.new_control swarm)
            (await_connection n remote events)
            (record page { net = v })
  unfolding connect_to_server
  connect_to_server-dialled addr m id_keys config swarm events page w v p e c built d =
      rw (p, connect_to_server, e, c)
        (ap
            (λ (r : x.Swarm × n.World).
              dial_server n x stream_behaviour r.0 m remote events (record page { net = r.1 }))
            built
          ∙ dial_server-dialled swarm m events (record page { net = w }) v d)

  -- The first event that is a connection with the peer dialled or a failed dial decides what
  -- connecting returns, whatever follows: the connection is success, and stores this peer and a
  -- control of the swarm that was built; the failed dial is the error reported, and stores nothing.
  -- Without such an event, connecting still waits. The address is one that parses, names a peer and
  -- can be dialled, and the encryption can be set up.
  pub connect_to_server_lem :
      (addr : Text) (m : n.Multiaddr) (id_keys : x.Keypair) (config : x.Noise) (swarm : x.Swarm)
      (before after : List (SwarmEvent n)) (error : Text) (page : Page n x.Control) (w v : n.World)
      → n.parse addr ≡ ok m
      → extract_peer_id n m ≡ some remote
      → x.noise_config id_keys ≡ ok config
      → build_swarm n x stream_behaviour id_keys config page.net ≡ (swarm, w)
      → x.dial swarm m w ≡ (ok tt, v)
      → All (Undecided n remote) before
      → let connect : List (SwarmEvent n) → Outcome × Page n x.Control =
          λ events. connect_to_server n x stream_behaviour addr id_keys events page in
        (connect (before ++ (connection_established remote ∷ after)) ≡ (
          returned (ok tt),
          record { control = some (x.new_control swarm); peer_id = some remote; net = v },
        ))
        × (connect (before ++ (outgoing_connection_error error ∷ after))
            ≡ (returned (err (text "Connection failed: " ++ error)), record page { net = v }))
        × (connect before ≡ (waiting, record page { net = v }))
  unfolding await_connection store
  connect_to_server_lem addr m id_keys config swarm before after error page w v p e c built d h =
      let control : x.Control = x.new_control swarm in
      let goes : (rest : List (SwarmEvent n))
          → connect_to_server n x stream_behaviour addr id_keys (before ++ rest) page
            ≡ store n remote control (await_connection n remote rest) (record page { net = v }) =
        λ rest.
          connect_to_server-dialled addr m id_keys config swarm (before ++ rest) page w v p e c
            built d
          ∙ ap (λ r. store n remote control r (record page { net = v }))
              (await_connection-append n remote before rest h) in
      (
        goes (connection_established remote ∷ after) ∙ rw (beq_refl ⦃test = n.peer_eq⦄ remote) refl,
        goes (outgoing_connection_error error ∷ after),
        ap (λ es. connect_to_server n x stream_behaviour addr id_keys es page)
              (sym (append-nil before))
            ∙ goes [],
      )
