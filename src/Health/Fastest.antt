-- ===== src/Health/Fastest.antt =====
-- The order of the cosigners that `GetFastest` of signer/cosigner_health.go returns.
use horcrux.Prelude.{
  ℤ, negsuc, ◌≤◌, true, false, ◌++◌, List, [], ◌∷◌, Option, none, some, ◌≡◌, ◌≢◌, inl, inr, arith,
  refl, ap, subst, Bool-cases, eqb_ℤ, eqb_ℤ_iff, ltb_ℤ, length,
}
use mathlib.Core.List.{Perm, perm_middle, append-nil}
use mathlib.Core.List.Perm
use horcrux.Health.{
  Peer, CosignerHealth, less_rtt, is_faster, insert_peer, sort_peers, get_fastest, none_faster,
  is_sorted,
}
use horcrux.Health.Order.{is_faster_weak_order}

none_faster_trans :
    (ch : CosignerHealth) (x y : Peer) (ys : List Peer)
    → is_faster ch x.id y.id ≡ true
    → none_faster ch y ys ≡ true
    → none_faster ch x ys ≡ true
none_faster_trans ch x y [] f h = refl
none_faster_trans ch x y (z ∷ zs) f h = ground (
  arith,
  none_faster_trans ch x y zs,
  is_faster_weak_order ch z.id x.id y.id,
  is_faster_weak_order ch x.id y.id z.id,
)

none_faster-insert :
    (ch : CosignerHealth) (y x : Peer) (ys : List Peer)
    → is_faster ch x.id y.id ≡ false
    → none_faster ch y ys ≡ true
    → none_faster ch y (insert_peer ch x ys) ≡ true
unfolding insert_peer
none_faster-insert ch y x [] f h = ground arith
none_faster-insert ch y x (z ∷ zs) f h = ground (arith, none_faster-insert ch y x zs)

insert-is_sorted :
    (ch : CosignerHealth) (x : Peer) (ys : List Peer)
    → is_sorted ch ys ≡ true
    → is_sorted ch (insert_peer ch x ys) ≡ true
unfolding insert_peer
insert-is_sorted ch x [] h = refl
insert-is_sorted ch x (y ∷ ys) h = elim (Bool-cases (is_faster ch x.id y.id)) [
  | inl f ↦ ground (arith, none_faster_trans ch x y ys, is_faster_weak_order ch x.id y.id y.id)
  | inr f ↦ ground (arith, none_faster-insert ch y x ys, insert-is_sorted ch x ys)
]

sort-is_sorted :
    (ch : CosignerHealth) (xs sorted : List Peer)
    → is_sorted ch sorted ≡ true
    → is_sorted ch (sort_peers ch xs sorted) ≡ true
unfolding sort_peers
sort-is_sorted ch [] sorted h = h
sort-is_sorted ch (x ∷ xs) sorted h =
    sort-is_sorted ch xs (insert_peer ch x sorted) (insert-is_sorted ch x sorted h)

insert-perm :
    (ch : CosignerHealth) (x : Peer) (ys : List Peer) → Perm (insert_peer ch x ys) (x ∷ ys)
unfolding insert_peer
insert-perm ch x [] = Perm.rfl
insert-perm ch x (y ∷ ys) = elim (Bool-cases (is_faster ch x.id y.id)) [
  | inl f ↦ rw f Perm.rfl
  | inr f ↦ rw f (Perm.trans (Perm.cons y (insert-perm ch x ys)) (Perm.swap x y ys))
]

sort-perm :
    (ch : CosignerHealth) (xs sorted : List Peer) → Perm (sort_peers ch xs sorted) (xs ++ sorted)
unfolding sort_peers
sort-perm ch [] sorted = Perm.rfl
sort-perm ch (x ∷ xs) sorted =
    Perm.trans (sort-perm ch xs (insert_peer ch x sorted))
      (Perm.trans (Perm.append_left xs (insert-perm ch x sorted)) (perm_middle xs sorted))

-- When a cosigner whose time is `a` may stand in front of one whose time is `b`: the later one was never
-- measured, or its last ping failed, or both answered and the earlier one took no longer.
pub data InOrder (a b : Option ℤ) : Type 0 where
  unmeasured : b ≡ none → InOrder a b
  unanswered : b ≡ some (negsuc 0) → InOrder a b
  no_slower :
      (m n : ℤ)
      → a ≡ some m
      → b ≡ some n
      → m ≢ negsuc 0
      → n ≢ negsuc 0
      → ltb_ℤ n m ≡ false
      → InOrder a b

-- every two of the list, the earlier one first
abbrev pub InFront : CosignerHealth → Peer → List Peer → Type 0
InFront ch x [] = Unit
InFront ch x (y ∷ ys) = InOrder (ch.rtt x.id) (ch.rtt y.id) × InFront ch x ys

abbrev pub AllInOrder : CosignerHealth → List Peer → Type 0
AllInOrder ch [] = Unit
AllInOrder ch (x ∷ xs) = InFront ch x xs × AllInOrder ch xs

less_rtt-InOrder : (a b : Option ℤ) → less_rtt b a ≡ false → InOrder a b
less_rtt-InOrder a none h = unmeasured refl
less_rtt-InOrder none (some n) h = elim (Bool-cases (eqb_ℤ n (negsuc 0))) [
  | inl e ↦ unanswered (ap (λ r. some r) ((eqb_ℤ_iff n (negsuc 0)).0 e))
  | inr e ↦ absurd (ground arith)
]
less_rtt-InOrder (some m) (some n) h = elim (Bool-cases (eqb_ℤ n (negsuc 0))) [
  | inl e ↦ unanswered (ap (λ r. some r) ((eqb_ℤ_iff n (negsuc 0)).0 e))
  | inr e ↦ elim (Bool-cases (eqb_ℤ m (negsuc 0))) [
    | inl d ↦ absurd (ground arith)
    | inr d ↦
        no_slower m n refl refl (λ q. ground (arith, eqb_ℤ_iff m (negsuc 0)))
          (λ q. ground (arith, eqb_ℤ_iff n (negsuc 0))) (ground arith)
  ]
]

none_faster-InFront :
    (ch : CosignerHealth) (x : Peer) (ys : List Peer) → none_faster ch x ys ≡ true → InFront ch x ys
unfolding is_faster
none_faster-InFront ch x [] h = tt
none_faster-InFront ch x (y ∷ ys) h = (
  less_rtt-InOrder (ch.rtt x.id) (ch.rtt y.id) (ground arith),
  none_faster-InFront ch x ys (ground arith),
)

is_sorted-AllInOrder :
    (ch : CosignerHealth) (xs : List Peer) → is_sorted ch xs ≡ true → AllInOrder ch xs
is_sorted-AllInOrder ch [] h = tt
is_sorted-AllInOrder ch (x ∷ xs) h =
    (none_faster-InFront ch x xs (ground arith), is_sorted-AllInOrder ch xs (ground arith))

-- `GetFastest` returns the cosigners of the list, at most 12, in an order where of every two, either the later
-- one was never measured or did not answer its last ping, or both answered and the earlier one took no
-- longer.
pub get_fastest_lem :
    (ch : CosignerHealth)
    → length ch.cosigners ≤ 12
    → Perm (get_fastest ch) ch.cosigners × AllInOrder ch (get_fastest ch)
unfolding get_fastest
get_fastest_lem ch _ = (
  subst (Perm (sort_peers ch ch.cosigners [])) (append-nil ch.cosigners)
      (sort-perm ch ch.cosigners []),
  is_sorted-AllInOrder ch (sort_peers ch ch.cosigners []) (sort-is_sorted ch ch.cosigners [] refl),
)
