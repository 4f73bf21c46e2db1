-- ===== src/NetV1/NetworkLayer/Ids.antt =====
-- What a manager sees of any implementation over a session of calls.
use ping_pong_libp2p.Base.{ℕ, suc, ◌+◌, ◌^◌, ◌<◌, ◌≡◌, refl, ap, ◌∙◌, List, [], ◌∷◌, arith}
use ping_pong_libp2p.Queues.{count_up}
use ping_pong_libp2p.NetV1.Types.{MessageId, GlobalAddress, MeerkatMessage}
use ping_pong_libp2p.NetV1.NetworkLayer.{NetworkLayer, Contract}

-- A call that changes the node.
pub data Request (n : NetworkLayer) : Type 0 where
  send : GlobalAddress → MeerkatMessage → Request n
  listen : n.World → GlobalAddress → Request n

module _ (n : NetworkLayer) where
  -- The calls of a session, each with the shared state that it meets.
  abbrev pub Session : Type 0
  Session = List (n.Shared × Request n)

  abbrev pub sends : Session → ℕ
  sends [] = 0
  sends ((h, Request.send addr msg) ∷ cs) = suc (sends cs)
  sends ((h, Request.listen w addr) ∷ cs) = sends cs

  -- The ids that come back, and the node afterwards.
  abbrev pub run : Session → n.Self → List MessageId × n.Self
  run [] s = ([], s)
  run ((h, Request.send addr msg) ∷ cs) s =
      let (id, s', _) = n.send addr msg s h in let (ids, s2) = run cs s' in (id ∷ ids, s2)
  run ((h, Request.listen w addr) ∷ cs) s = let (_, s', _) = n.listen w addr s h in run cs s'

module _ (n : NetworkLayer) {next_id : n.Self → ℕ} (c : Contract n next_id) where
  -- The ids of a session are consecutive, as long as they stay below 2 ^ 64.
  pub ids-session :
      (cs : Session n) (s : n.Self)
      → next_id s + sends n cs < 2 ^ 64
      → (run n cs s).0 ≡ count_up (next_id s) (sends n cs)
  ids-session [] s fits = refl
  ids-session ((h, Request.send addr msg) ∷ cs) s fits =
      let s' : n.Self = (n.send addr msg s h).1 in
      let next : next_id s' ≡ next_id s + 1 = c.next_id-send addr msg s h ∙ omega arith in
      ap (λ id. id ∷ (run n cs s').0) (c.id-send addr msg s h)
      ∙ ap (λ l. next_id s ∷ l)
          (ids-session cs s' (omega (arith, next)) ∙ ap (λ k. count_up k (sends n cs)) next)
  ids-session ((h, Request.listen w addr) ∷ cs) s fits =
      let s' : n.Self = (n.listen w addr s h).1 in
      let same : next_id s' ≡ next_id s = c.next_id-listen w addr s h in
      ids-session cs s' (omega (arith, same)) ∙ ap (λ k. count_up k (sends n cs)) same
