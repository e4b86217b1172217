-- ===== src/Health/Order.antt =====
-- The comparison in `GetFastest` of signer/cosigner_health.go, and `MarkUnhealthy`.
use horcrux.Prelude.{
  ℤ, negsuc, true, false, Option, none, some, eqb_ℤ, not, ◌≡◌, ◌⊎◌, inl, arith, refl,
}
use horcrux.Health.{CosignerHealth, set_rtt, mark_unhealthy, is_unhealthy, less_rtt, is_faster}

less_rtt_asymm : (a b : Option ℤ) → less_rtt a b ≡ true → less_rtt b a ≡ false
less_rtt_asymm none b h = ground arith
less_rtt_asymm (some a) none h = ground arith
less_rtt_asymm (some a) (some b) h = ground arith

less_rtt_weak :
    (a b c : Option ℤ) → less_rtt a b ≡ true → (less_rtt a c ≡ true) ⊎ (less_rtt c b ≡ true)
less_rtt_weak none b c h = ground arith
less_rtt_weak (some a) none none h = inl (ground arith)
less_rtt_weak (some a) none (some c) h = ground arith
less_rtt_weak (some a) (some b) none h = inl (ground arith)
less_rtt_weak (some a) (some b) (some c) h = ground arith

-- The comparison of `GetFastest` is a strict weak order, as `sort.Slice` requires: it is asymmetric, and
-- a third cosigner is slower than the faster one or faster than the slower one.
pub is_faster_weak_order :
    (ch : CosignerHealth) (i j k : ℤ)
    → is_faster ch i j ≡ true
    → (is_faster ch j i ≡ false) × ((is_faster ch i k ≡ true) ⊎ (is_faster ch k j ≡ true))
unfolding is_faster
is_faster_weak_order ch i j k h =
    (less_rtt_asymm (ch.rtt i) (ch.rtt j) h, less_rtt_weak (ch.rtt i) (ch.rtt j) (ch.rtt k) h)

marked_last : (a : Option ℤ) → less_rtt a (some (negsuc 0)) ≡ not (is_unhealthy a)
marked_last none = refl
marked_last (some r) = ground arith

marked : (ch : CosignerHealth) (i : ℤ) → (mark_unhealthy ch i).rtt i ≡ some (negsuc 0)
unfolding mark_unhealthy set_rtt
marked ch i = ground arith

unmarked :
    (ch : CosignerHealth) (i j : ℤ) → eqb_ℤ j i ≡ false → (mark_unhealthy ch i).rtt j ≡ ch.rtt j
unfolding mark_unhealthy set_rtt
unmarked ch i j h = ground arith

-- A cosigner that was marked unhealthy is faster than none, every cosigner that answered its last ping
-- is faster than it, and the comparison of two others is as before.
pub mark_unhealthy-is_faster :
    (ch : CosignerHealth) (c i j : ℤ)
    → eqb_ℤ i c ≡ false
    → eqb_ℤ j c ≡ false
    → (is_faster (mark_unhealthy ch c) c i ≡ false)
      × (is_faster (mark_unhealthy ch c) i c ≡ not (is_unhealthy (ch.rtt i)))
      × (is_faster (mark_unhealthy ch c) i j ≡ is_faster ch i j)
unfolding is_faster
mark_unhealthy-is_faster ch c i j p q =
    rw (marked ch c, unmarked ch c i p, unmarked ch c j q) (refl, marked_last (ch.rtt i), refl)
