-- ===== src/Scenarios/Cached.antt =====
-- Runs of the nonce cache at concrete inputs.
use horcrux.Prelude.{ℕ, ℤ, pos, true, ◌≡◌, ◌≤◌, ◌+◌, arith, List, [], ◌∷◌, ◌++◌, none, some}
use horcrux.Outcome.{panic}
use horcrux.Cosigner.{Uuid}
use horcrux.NonceCache.{CosignerNoncesRel, CachedNonce, CosignerNonceCache}
use horcrux.NonceCache.Load.{CachedNonceSingle, Surroundings, load_n, load_n-short_answer}
use horcrux.NonceCache.Calls.{Call, draw, clear, renew, serve, count, entries}
use horcrux.NonceCache.Handed.{serve-once}

abbrev made_by : ℤ → CosignerNoncesRel
made_by id = record {
  cosigner = id;
  nonces =
      record {
        source_id = id;
        destination_id = pos 1;
        pub_key = some [];
        share = some [];
        signature = some [];
      }
      ∷ [];
}

abbrev cached : Uuid → (expiration : ℕ) → CachedNonce
cached u e = record {
  uuid = u;
  expiration = pos e;
  nonces = made_by (pos 1) ∷ made_by (pos 2) ∷ made_by (pos 3) ∷ [];
}

abbrev two_cached : List CachedNonce
two_cached = cached 21 5 ∷ cached 22 9 ∷ []

abbrev filled : CosignerNonceCache
filled = record { cache = two_cached; last_reconcile_nonces = 2; empty = 0; threshold = 2 }

abbrev answer_for : ℤ → List Uuid → CachedNonceSingle
answer_for id us = record {
  cosigner = id;
  nonces = elim us [ [] ↦ [] | u ∷ _ ↦ record { uuid = u; nonces = (made_by id).nonces } ∷ [] ];
}

-- Two rounds are asked for, and cosigner 2 answers with one.
load_n-short_answer_example :
    load_n (31 ∷ 32 ∷ []) (pos 20) (none ∷ [] ++ some (answer_for (pos 2) (31 ∷ [])) ∷ []) filled
    ≡ panic "index out of range"
load_n-short_answer_example =
    load_n-short_answer (31 ∷ 32 ∷ []) (pos 20) (none ∷ []) [] (answer_for (pos 2) (31 ∷ [])) filled
      (ground arith)

abbrev surroundings : Surroundings
surroundings = record {
  is_leader = true;
  now = pos 7;
  target = λ gone left. 2;
  uuids = λ n. 41 ∷ [];
  expiration = pos 30;
  answers = λ us. some (answer_for (pos 1) us) ∷ some (answer_for (pos 2) us) ∷ [];
}

abbrev calls : List Call
calls =
    draw (pos 1 ∷ pos 3 ∷ []) ∷ clear (pos 3) ∷ renew surroundings ∷ draw (pos 1 ∷ pos 2 ∷ []) ∷ []

serve-once_example :
    count 22 (serve calls filled).handed + entries 22 (serve calls filled).left.cache
    ≤ entries 22 two_cached + count 22 (serve calls filled).made
serve-once_example = serve-once 22 calls filled
