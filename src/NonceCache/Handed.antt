-- ===== src/NonceCache/Handed.antt =====
-- Sequences of calls on the cache of signer/cosigner_nonce_cache.go: how often a nonce is handed
-- out, and that what is handed out can be signed with.
use horcrux.Prelude.{◌+◌, ◌≤◌, ◌≡◌, arith, List, [], ◌∷◌, subst, sym}
use horcrux.Outcome.{Outcome-cases, returned, failed, panicked}
use horcrux.Cosigner.{Uuid}
use horcrux.NonceCache.{CosignerNonceCache, get_nonces, clear_nonces}
use horcrux.NonceCache.Load.{reconcile}
use horcrux.NonceCache.Usable.{
  IsUsable, get_nonces-IsUsable, clear_entries-AllUsable, reconcile-IsUsable,
}
use horcrux.NonceCache.Calls.{Call, draw, clear, renew, asked, serve, count, entries}
use horcrux.NonceCache.Counts.{count-append, entries-clear, draw-once, draw-nothing, entries-renew}

-- Over every sequence of calls on a cache in which every nonce has at least the threshold of cosigners,
-- this stays so.
pub serve-IsUsable :
    (calls : List Call) (c : CosignerNonceCache) → IsUsable c → IsUsable (serve calls c).left
unfolding serve clear_nonces
serve-IsUsable [] c u = u
serve-IsUsable (draw peers ∷ calls) c u =
    let rest = serve-IsUsable calls (get_nonces peers c).1 (get_nonces-IsUsable peers c u) in
    let q : (serve (draw peers ∷ calls) c).left ≡ (serve calls (get_nonces peers c).1).left =
      elim (Outcome-cases (get_nonces peers c).0) [
        | returned n e ↦ ground arith
        | failed x e ↦ ground arith
        | panicked m e ↦ ground arith
      ] in
    subst (λ x. IsUsable x) (sym q) rest
serve-IsUsable (clear id ∷ calls) c u =
    serve-IsUsable calls (clear_nonces id c) (clear_entries-AllUsable id c.threshold c.cache u)
serve-IsUsable (renew w ∷ calls) c u = elim (Outcome-cases (reconcile w c)) [
  | returned after e ↦
      let q : (serve (renew w ∷ calls) c).left ≡ (serve calls after).left = ground arith in
      subst (λ x. IsUsable x) (sym q)
        (serve-IsUsable calls after (reconcile-IsUsable w c after u e))
  | failed x e ↦
      let q : (serve (renew w ∷ calls) c).left ≡ c = ground arith in
      subst (λ x. IsUsable x) (sym q) u
  | panicked m e ↦
      let q : (serve (renew w ∷ calls) c).left ≡ c = ground arith in
      subst (λ x. IsUsable x) (sym q) u
]

-- Over every sequence of calls, a UUID is handed out and still cached together at most as often as it
-- was cached at the start and asked for since.
pub serve-once :
    (u : Uuid) (calls : List Call) (c : CosignerNonceCache)
    → let s = serve calls c in
      count u s.handed + entries u s.left.cache ≤ entries u c.cache + count u s.made
unfolding serve count clear_nonces
serve-once u [] c = omega arith
serve-once u (draw peers ∷ calls) c =
    let rest = serve-once u calls (get_nonces peers c).1 in
    elim (Outcome-cases (get_nonces peers c).0) [
      | returned n e ↦ ground (arith, draw-once u peers c n e)
      | failed x e ↦ ground (arith, draw-nothing u peers c)
      | panicked m e ↦ ground (arith, draw-nothing u peers c)
    ]
serve-once u (clear id ∷ calls) c =
    let rest = serve-once u calls (clear_nonces id c) in
    ground (arith, entries-clear u id c.threshold c.cache)
serve-once u (renew w ∷ calls) c = elim (Outcome-cases (reconcile w c)) [
  | returned after e ↦
      let rest = serve-once u calls after in
      ground
        (arith, entries-renew u w c after e, count-append u (asked w c) (serve calls after).made)
  | failed x e ↦ ground arith
  | panicked m e ↦ ground arith
]
