-- ===== src/Cosigner/Interleave/Safety.antt =====
-- No two shares for one height, round and step are for conflicting payloads, whatever requests run
-- at the same time.
use horcrux.Prelude.{
  ℕ, Bytes, true, false, ◌≡◌, refl, sym, ap, subst, inl, inr, arith, [], ◌∷◌, lookup, String,
}
use horcrux.Hrs.{HrsKey, HrstKey, hrs_key, greater_than, hrs_Eq, eq_hrs_iff}
use horcrux.Payload.Laws.{CodecLaws, Compatible, Compatible-join}
use horcrux.SignState.{
  SignState, SignStateConsensus, consensus_key, latest_hrs, fresh_cache, empty_state,
}
use horcrux.SignState.Gate.{gate→Passes, Passes}
use horcrux.Cosigner.Local.{Setup}
use horcrux.Cosigner.Interleave.{
  admitted, conflicted, released, System, update, saved, Step, admit, answer, save, collide,
  forgive, replicate, Reach, start, later, initial,
}
use horcrux.Cosigner.Interleave.Invariant.{
  Inv, Holds, Holds-later, Holds-update, Justified, InHistory, InHistory-unique, Inv-requests,
  Inv-saved, watermark-InHistory, reuse_cached-ok, block_double_sign-ok, block_double_sign-same,
  CacheIn,
}

module _ (setup : Setup) where
  forgive-Justified :
      (t : System) (hrst : HrstKey) (sign_bytes : Bytes)
      → Inv setup.codec t
      → greater_than (hrs_key hrst) (latest_hrs t.state) ≡ false
      → Passes setup.codec t.state hrst sign_bytes
      → Justified setup.codec t.history (hrs_key hrst) sign_bytes
  forgive-Justified t hrst sign_bytes inv below (inl up) = cc
  forgive-Justified t hrst sign_bytes inv below (inr (e, _, _, compatible)) = record {
    stored = t.state.sign_bytes;
    in_history =
        subst (λ k. InHistory k t.state.sign_bytes t.history) (sym e)
          (watermark-InHistory setup.codec t inv);
    compatible =
        subst (λ k. Compatible setup.codec k t.state.sign_bytes sign_bytes)
          (sym (ap (λ (k : HrsKey). k.step) e)) compatible;
  }

  -- every request after a save, the one that was saved among them
  Holds-saved :
      (t : System) (ssc : SignStateConsensus)
      → Inv setup.codec t
      → greater_than (consensus_key ssc) (latest_hrs t.state) ≡ true
      → (i : ℕ)
      → Holds setup.codec
          ((consensus_key ssc, ssc.sign_bytes) ∷ t.history)
          (consensus_key ssc)
          (t.requests i)
  Holds-saved t ssc inv up i =
      Holds-later setup.codec t.history (latest_hrs t.state) (consensus_key ssc) ssc.sign_bytes
        (t.requests i) up (inv.holds i)

  Step-Inv : {t u : System} → Step setup t u → Inv setup.codec t → Inv setup.codec u
  Step-Inv {t} (admit i chain_id sign_bytes ext_bytes hrst has_ext w v g) inv =
      Inv-requests t i (admitted hrst sign_bytes) inv tt
  Step-Inv {t} (answer i chain_id sign_bytes ext_bytes hrst e share w v r) inv =
      let (x, found, same) = reuse_cached-ok setup e t.state hrst sign_bytes share r in
      Inv-requests t i (released (hrs_key hrst) sign_bytes) inv (record {
        stored = x.sign_bytes;
        in_history = inv.cached (hrs_key hrst) x found;
        compatible = inl same;
      })
  Step-Inv {t} (save i hrst ssc s copy w k ok_save) inv =
      let (up, e) = block_double_sign-ok t.state s copy ssc ok_save in
      subst
        (λ s'. Inv setup.codec (
          saved
            (record t {
              requests = update t.requests i (released (consensus_key ssc) ssc.sign_bytes);
            })
            s' ssc))
        (sym e)
        (Inv-saved t (update t.requests i (released (consensus_key ssc) ssc.sign_bytes)) ssc up inv
          (Holds-update setup.codec ((consensus_key ssc, ssc.sign_bytes) ∷ t.history)
            (consensus_key ssc) t.requests i (released (consensus_key ssc) ssc.sign_bytes)
            (Holds-saved t ssc inv up)
            (record {
              stored = ssc.sign_bytes;
              in_history = inl (refl, refl);
              compatible = inl refl;
            })))
  Step-Inv {t} (collide i hrst ssc k w e same) inv =
      Inv-requests t i (conflicted hrst ssc.sign_bytes) inv (
        subst (λ j. greater_than j (latest_hrs t.state) ≡ false) e
          (block_double_sign-same t.state ssc k same))
  Step-Inv {t} (forgive i hrst sign_bytes w g) inv =
      Inv-requests t i (released (hrs_key hrst) sign_bytes) inv (
        forgive-Justified t hrst sign_bytes inv
          (subst (Holds setup.codec t.history (latest_hrs t.state)) w (inv.holds i))
          (gate→Passes setup.codec t.state hrst sign_bytes g))
  Step-Inv {t} (replicate ssc s copy ok_save) inv =
      let (up, e) = block_double_sign-ok t.state s copy ssc ok_save in
      subst (λ s'. Inv setup.codec (saved t s' ssc)) (sym e)
        (Inv-saved t t.requests ssc up inv (Holds-saved t ssc inv up))

  -- what the loaded state has to satisfy: its cache holds the payload at the watermark, or nothing
  pub record IsLoaded (s : SignState) : Type 0 where
    pub cached : CacheIn ((latest_hrs s, s.sign_bytes) ∷ []) s.cache

  Inv-initial : (s : SignState) → IsLoaded s → Inv setup.codec (initial setup s)
  Inv-initial s l = record {
    rest = [];
    at_watermark = refl;
    descending = (tt, tt);
    cached = l.cached;
    holds = λ i. tt;
  }

  Reach-Inv : {s : SignState} {t : System} → IsLoaded s → Reach setup s t → Inv setup.codec t
  Reach-Inv {s} l start = Inv-initial s l
  Reach-Inv l (later r st) = Step-Inv st (Reach-Inv l r)

  -- Whatever sign requests and replicated states a cosigner handles at the same time, from a sign state
  -- as loading leaves it and for messages with the laws of CodecLaws: the shares that it gives out for one
  -- height, round and step are for payloads that are equal or differ by their timestamps alone.
  pub no_double_sign :
      {s : SignState} {t : System}
      → CodecLaws setup.codec
      → IsLoaded s
      → Reach setup s t
      → (i j : ℕ) (k : HrsKey) (a b : Bytes) → t.requests i ≡ released k a
      → t.requests j ≡ released k b
      → Compatible setup.codec k.step a b
  no_double_sign {t} laws l r i j k a b p q =
      let inv = Reach-Inv l r in
      let x : Justified setup.codec t.history k a =
        subst (Holds setup.codec t.history (latest_hrs t.state)) p (inv.holds i) in
      let y : Justified setup.codec t.history k b =
        subst (Holds setup.codec t.history (latest_hrs t.state)) q (inv.holds j) in
      Compatible-join laws k.step a b x.stored x.compatible (
        subst (λ z. Compatible setup.codec k.step z b)
          (InHistory-unique k y.stored x.stored t.history inv.descending y.in_history x.in_history)
          y.compatible)

-- The states that `LoadSignState` and `LoadOrCreateSignState` return.
pub fresh_cache-IsLoaded : (setup : Setup) (s : SignState) → IsLoaded setup (fresh_cache s)
unfolding fresh_cache lookup
fresh_cache-IsLoaded setup s = record {
  cached = λ k x found. inl (ground (arith, eq_hrs_iff (latest_hrs s) k), ground arith);
}

pub empty_state-IsLoaded : (setup : Setup) (path : String) → IsLoaded setup (empty_state path)
unfolding empty_state lookup
empty_state-IsLoaded setup path = record { cached = λ k x found. cc }
