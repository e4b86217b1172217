-- ===== src/Health.antt =====
-- signer/cosigner_health.go: the round trip times of the other cosigners, and `GetFastest`.
pub mod Order
pub mod Fastest
pub mod Pings
use horcrux.Prelude.{
  ℕ, ℤ, pos, negsuc, Bool, true, false, ◌&&◌, ◌||◌, eqb_ℤ_iff, ◌++◌, List, [], ◌∷◌, Option, none,
  some, if◌then◌else◌, eqb_ℤ, ltb_ℤ, not, ◌≡◌, ◌⊎◌, inl, inr, arith, refl, subst, Bool-cases,
}

-- What the file asks of a cosigner: `GetID`, and whether it is a `*RemoteCosigner`.
pub record Peer : Type 0 where
  pub id : ℤ
  pub is_remote : Bool

-- the state, with the map `rtt` as a function
pub record CosignerHealth : Type 0 where
  pub cosigners : List Peer
  pub rtt : ℤ → Option ℤ

unfoldable pub new_cosigner_health : List Peer → CosignerHealth
new_cosigner_health cosigners = record { cosigners = cosigners; rtt = λ _. none }

unfoldable pub set_rtt : CosignerHealth → ℤ → ℤ → CosignerHealth
set_rtt ch id r = record {
  cosigners = ch.cosigners;
  rtt = λ j. if eqb_ℤ j id then some r else ch.rtt j;
}

unfoldable pub mark_unhealthy : CosignerHealth → ℤ → CosignerHealth
unfolding set_rtt
mark_unhealthy ch id = set_rtt ch id (negsuc 0)

-- `updateRTT`, where the ping took some nanoseconds or failed.
unfoldable pub update_rtt : CosignerHealth → ℤ → Option ℤ → CosignerHealth
unfolding set_rtt
update_rtt ch id none = set_rtt ch id (negsuc 0)
update_rtt ch id (some took) = set_rtt ch id took

unfoldable pub update_all : (ℤ → Option ℤ) → List Peer → CosignerHealth → CosignerHealth
unfolding update_rtt
update_all ping [] ch = ch
update_all ping (c ∷ cs) ch =
    update_all ping cs (if c.is_remote then update_rtt ch c.id (ping c.id) else ch)

abbrev pub all_remote : List Peer → Bool
all_remote [] = true
all_remote (c ∷ cs) = c.is_remote && all_remote cs

-- `Reconcile`: the wait group counts every cosigner and only a remote one is done, so that the wait
-- for a list with another one does not end, which is `none`.
unfoldable pub reconcile_health : Bool → (ℤ → Option ℤ) → CosignerHealth → Option CosignerHealth
unfolding update_all
reconcile_health is_leader ping ch =
    if not is_leader
    then some ch
    else (if all_remote ch.cosigners then some (update_all ping ch.cosigners ch) else none)

-- A cosigner that was never measured or did not answer.
abbrev pub is_unhealthy : Option ℤ → Bool
is_unhealthy none = true
is_unhealthy (some r) = eqb_ℤ r (negsuc 0)

-- a missing key reads as 0
abbrev pub value_or_zero : Option ℤ → ℤ
value_or_zero none = pos 0
value_or_zero (some r) = r

abbrev pub less_rtt : Option ℤ → Option ℤ → Bool
less_rtt a b =
    if is_unhealthy a
    then false
    else (if is_unhealthy b then true else ltb_ℤ (value_or_zero a) (value_or_zero b))

-- The comparison of `GetFastest`.
unfoldable pub is_faster : CosignerHealth → ℤ → ℤ → Bool
is_faster ch i j = less_rtt (ch.rtt i) (ch.rtt j)

-- One round of an insertion sort, which moves a cosigner past those that are slower.
unfoldable pub insert_peer : CosignerHealth → Peer → List Peer → List Peer
insert_peer ch x [] = x ∷ []
insert_peer ch x (y ∷ ys) =
    let rest = insert_peer ch x ys in if is_faster ch x.id y.id then x ∷ y ∷ ys else y ∷ rest

unfoldable pub sort_peers : CosignerHealth → List Peer → List Peer → List Peer
unfolding insert_peer
sort_peers ch [] sorted = sorted
sort_peers ch (x ∷ xs) sorted = sort_peers ch xs (insert_peer ch x sorted)

-- `GetFastest` for at most 12 cosigners, which `sort.Slice` sorts by insertion, from the first to the last.
unfoldable pub get_fastest : CosignerHealth → List Peer
unfolding sort_peers
get_fastest ch = sort_peers ch ch.cosigners []

-- no cosigner of the list is faster than `x`
abbrev pub none_faster : CosignerHealth → Peer → List Peer → Bool
none_faster ch x [] = true
none_faster ch x (y ∷ ys) = not (is_faster ch y.id x.id) && none_faster ch x ys

abbrev pub is_sorted : CosignerHealth → List Peer → Bool
is_sorted ch [] = true
is_sorted ch (x ∷ xs) = none_faster ch x xs && is_sorted ch xs
