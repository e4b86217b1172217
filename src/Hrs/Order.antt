-- ===== src/Hrs/Order.antt =====
-- `GreaterThan` and `LessThan` of signer/hrs.go against the lexicographic order.
use horcrux.Prelude.{true, false, ◌≡◌, ◌↔◌, ◌⊎◌, inl, inr, arith, ◌<ℤ◌, eq_of_parts, ◌∙◌}
use horcrux.Hrs.{HrsKey, HrsKey-ext, greater_than, less_than, eq_hrs}

-- The order in which consensus visits heights, rounds and steps.
abbrev pub Before : HrsKey → HrsKey → Type 0
Before a b =
    (a.height <ℤ b.height)
    ⊎ ((a.height ≡ b.height) × ((a.round <ℤ b.round) ⊎ ((a.round ≡ b.round) × (a.step <ℤ b.step))))

greater_than→Before : (a b : HrsKey) → greater_than a b ≡ true → Before b a
unfolding greater_than
greater_than→Before a b h =
    ground (arith, eq_of_parts b.height a.height, eq_of_parts b.round a.round)

Before→greater_than : (a b : HrsKey) → Before b a → greater_than a b ≡ true
unfolding greater_than
Before→greater_than a b h = ground arith

-- `GreaterThan` decides the lexicographic order of height, round and step.
pub greater_than-iff-Before : (a b : HrsKey) → (greater_than a b ≡ true) ↔ Before b a
greater_than-iff-Before a b = (greater_than→Before a b, Before→greater_than a b)

Before-trans : (a b c : HrsKey) → Before b a → Before c b → Before c a
Before-trans a b c (inl p) (inl q) = inl (omega arith)
Before-trans a b c (inl p) (inr (e, _)) = inl (rw e p)
Before-trans a b c (inr (e, _)) (inl q) = inl (rw (← e) q)
Before-trans a b c (inr (e, inl p)) (inr (f, inl q)) = inr (f ∙ e, inl (omega arith))
Before-trans a b c (inr (e, inl p)) (inr (f, inr (g, _))) = inr (f ∙ e, inl (rw g p))
Before-trans a b c (inr (e, inr (g, _))) (inr (f, inl q)) = inr (f ∙ e, inl (rw (← g) q))
Before-trans a b c (inr (e, inr (g, p))) (inr (f, inr (k, q))) =
    inr (f ∙ e, inr (k ∙ g, omega arith))

pub greater_than_trans :
    (a b c : HrsKey) → greater_than a b ≡ true → greater_than b c ≡ true → greater_than a c ≡ true
greater_than_trans a b c h k =
    Before→greater_than a c
      (Before-trans a b c (greater_than→Before a b h) (greater_than→Before b c k))

pub greater_than_irrefl : (a : HrsKey) → greater_than a a ≡ false
unfolding greater_than
greater_than_irrefl a = ground arith

pub greater_than_asymm : (a b : HrsKey) → greater_than a b ≡ true → greater_than b a ≡ false
unfolding greater_than
greater_than_asymm a b h = ground arith

-- neither is greater only when they are the same
pub greater_than_total :
    (a b : HrsKey) → greater_than a b ≡ false → greater_than b a ≡ false → a ≡ b
unfolding greater_than
greater_than_total a b h k =
    HrsKey-ext a b (eq_of_parts _ _ (ground arith)) (eq_of_parts _ _ (ground arith))
      (eq_of_parts _ _ (ground arith))

-- `LessThan` is `GreaterThan` with the arguments exchanged.
pub less_than-eq-greater_than : (a b : HrsKey) → less_than a b ≡ greater_than b a
unfolding less_than greater_than eq_hrs
less_than-eq-greater_than a b = ground arith
