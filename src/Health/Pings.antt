-- ===== src/Health/Pings.antt =====
-- `Reconcile` and `updateRTT` of signer/cosigner_health.go.
use horcrux.Prelude.{
  ℤ, negsuc, Bool, true, false, ◌||◌, eqb_ℤ_iff, List, [], ◌∷◌, Option, none, some, if◌then◌else◌,
  eqb_ℤ, ◌≡◌, inl, inr, arith, refl, subst, Bool-cases,
}
use horcrux.Health.{
  Peer, CosignerHealth, set_rtt, update_rtt, update_all, all_remote, reconcile_health,
}

abbrev pub has_id : ℤ → List Peer → Bool
has_id j [] = false
has_id j (c ∷ cs) = eqb_ℤ j c.id || has_id j cs

-- what a ping leaves in the map
abbrev pub measured : Option ℤ → ℤ
measured none = negsuc 0
measured (some took) = took

update-rtt :
    (ch : CosignerHealth) (i j : ℤ) (took : Option ℤ)
    → (update_rtt ch i took).rtt j ≡ (if eqb_ℤ j i then some (measured took) else ch.rtt j)
unfolding update_rtt set_rtt
update-rtt ch i j none = refl
update-rtt ch i j (some t) = refl

rtt_absorb :
    (b : Bool) (ping : ℤ → Option ℤ) (i j : ℤ) (old : Option ℤ)
    → (if b
        then some (measured (ping j))
        else (if eqb_ℤ j i then some (measured (ping i)) else old))
      ≡ (if eqb_ℤ j i || b then some (measured (ping j)) else old)
rtt_absorb b ping i j old = elim (Bool-cases (eqb_ℤ j i)) [
  | inl e ↦
      subst
        (λ i.
          (if b
            then some (measured (ping j))
            else (if eqb_ℤ j i then some (measured (ping i)) else old))
          ≡ (if eqb_ℤ j i || b then some (measured (ping j)) else old))
        ((eqb_ℤ_iff j i).0 e) (ground arith)
  | inr e ↦ ground arith
]

update_all-rtt :
    (ping : ℤ → Option ℤ) (cs : List Peer) (ch : CosignerHealth) (j : ℤ)
    → all_remote cs ≡ true
    → (update_all ping cs ch).rtt j ≡ (if has_id j cs then some (measured (ping j)) else ch.rtt j)
unfolding update_all
update_all-rtt ping [] ch j h = refl
update_all-rtt ping (c ∷ cs) ch j h =
    let remote : c.is_remote ≡ true = ground arith in
    rw
      (
        remote,
        update_all-rtt ping cs (update_rtt ch c.id (ping c.id)) j (ground arith),
        update-rtt ch c.id j (ping c.id),
      )
      (rtt_absorb (has_id j cs) ping c.id j (ch.rtt j))

-- When every cosigner is a remote one, `Reconcile` of the leader returns, and each of the cosigners
-- then has the time of its ping, or -1 where the ping failed; nothing else changes in the map.
pub reconcile_health-rtt :
    (ping : ℤ → Option ℤ) (ch : CosignerHealth)
    → all_remote ch.cosigners ≡ true
    → (after : CosignerHealth) × (reconcile_health true ping ch ≡ some after)
      × ((j : ℤ)
          → after.rtt j ≡ (if has_id j ch.cosigners then some (measured (ping j)) else ch.rtt j))
unfolding reconcile_health
reconcile_health-rtt ping ch h =
    (update_all ping ch.cosigners ch, rw h refl, λ j. update_all-rtt ping ch.cosigners ch j h)
