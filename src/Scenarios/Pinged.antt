-- ===== src/Scenarios/Pinged.antt =====
-- Runs of signer/cosigner_health.go.
use horcrux.Prelude.{
  length, ◌≤◌, arith, ℕ, ℤ, pos, true, [], ◌∷◌, Option, none, some, eqb_ℤ, if◌then◌else◌, ◌≡◌, refl,
}
use horcrux.Health.{
  Peer, CosignerHealth, new_cosigner_health, set_rtt, update_rtt, update_all, is_faster,
  insert_peer, sort_peers, get_fastest,
}
use horcrux.Health.Fastest.{AllInOrder, get_fastest_lem}
use mathlib.Core.List.{Perm}

abbrev remote : ℕ → Peer
remote n = record { id = pos n; is_remote = true }

-- the second cosigner does not answer, the third is faster than the first
abbrev ping : ℤ → Option ℤ
ping i =
    if eqb_ℤ i (pos 1) then some (pos 900) else (if eqb_ℤ i (pos 3) then some (pos 400) else none)

abbrev fresh : CosignerHealth
unfolding new_cosigner_health
fresh = new_cosigner_health (remote 1 ∷ remote 2 ∷ remote 3 ∷ [])

abbrev pinged : CosignerHealth
unfolding update_all update_rtt set_rtt new_cosigner_health
pinged = update_all ping fresh.cosigners fresh

fastest_run : get_fastest pinged ≡ (remote 3 ∷ remote 1 ∷ remote 2 ∷ [])
unfolding get_fastest sort_peers insert_peer is_faster update_all update_rtt set_rtt
    new_cosigner_health
fastest_run = refl

few_cosigners : length pinged.cosigners ≤ 12
unfolding pinged
few_cosigners = omega arith

get_fastest_lem_example :
    Perm (get_fastest pinged) pinged.cosigners × AllInOrder pinged (get_fastest pinged)
get_fastest_lem_example = get_fastest_lem pinged few_cosigners
