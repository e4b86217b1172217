-- ===== src/Cosigner/Interleave/Sequential.antt =====
-- `sign` of signer/local_cosigner.go takes the steps of the interleaved system.
use horcrux.Prelude.{ℕ, ==_iff, Bool, ◌≡◌, refl, sym, ap, subst, ◌∙◌, Option, some}
use horcrux.Outcome.{ok}
use horcrux.Hrs.{HrstKey, hrs_key}
use horcrux.Payload.{verify_sign_payload}
use horcrux.SignState.{SignState, SignStateConsensus, consensus_key}
use horcrux.SignState.Gate.{error_if_conflict_or_regression}
use horcrux.Cosigner.{CosignerSignRequest, CosignerSignResponse}
use horcrux.Cosigner.Local.{
  Setup, LocalCosigner, Admission, fresh, reuse, admit, signed_state, sign_admitted, sign,
  drop_nonces,
}
use horcrux.Cosigner.Local.Consumed.{sign-Signed, sign_fresh-Fresh}
use horcrux.Cosigner.Interleave.{
  Request, waiting, admitted, conflicted, released, System, update, Step,
}
use horcrux.Cosigner.Interleave.Saved.{
  Saved, save_share-Saved, admit-fresh, admit-reuse, sign_extension_only-state, advanced, forgiven,
}

module _ (setup : Setup) where
  -- one step after another, of any requests
  pub data Run (t : System) : System → Type 0 where
    stop : Run t t
    next : {u v : System} → Run t u → Step setup u v → Run t v

  -- The request `i` has given out a share for `sign_bytes`.
  pub record GivenOut (i : ℕ) (req : CosignerSignRequest) (t : System) (after : Option SignState)
      : Type 0 where
    pub end : System
    pub run : Run t end
    pub state_after : after ≡ some end.state
    pub hrst : HrstKey
    pub has_ext : Bool
    pub verified :
        verify_sign_payload setup.codec req.chain_id req.sign_bytes req.vote_extension_sign_bytes
        ≡ ok (hrst, has_ext)
    pub given_out : end.requests i ≡ released (hrs_key hrst) req.sign_bytes

  update_self : (f : ℕ → Request) (i : ℕ) (p : Request) → update f i p i ≡ p
  update_self f i p = rw ((==_iff i i).1 refl)

  module _ (i : ℕ) (req : CosignerSignRequest) (t : System) (hrst : HrstKey) (has_ext : Bool) where
    save_share-GivenOut :
        (ssc : SignStateConsensus) (after : Option SignState)
        → consensus_key ssc ≡ hrs_key hrst
        → ssc.sign_bytes ≡ req.sign_bytes
        → t.requests i ≡ waiting
        → verify_sign_payload setup.codec req.chain_id req.sign_bytes req.vote_extension_sign_bytes
          ≡ ok (hrst, has_ext)
        → error_if_conflict_or_regression setup.codec t.state hrst req.sign_bytes ≡ ok tt
        → Saved setup hrst req.sign_bytes ssc t.state after
        → GivenOut i req t after
    save_share-GivenOut ssc after key bytes w v g (advanced s' copy f e) =
        let t₁ : System = record t {
          requests = update t.requests i (admitted hrst req.sign_bytes);
        } in
        record {
          end = _;
          run =
              next
                (next stop (
                  Step.admit i req.chain_id req.sign_bytes req.vote_extension_sign_bytes hrst
                    has_ext w v g))
                (Step.save i hrst ssc s' copy
                  (update_self t.requests i (admitted hrst req.sign_bytes)
                    ∙ ap (admitted hrst) (sym bytes))
                  key f);
          state_after = e;
          hrst = hrst;
          has_ext = has_ext;
          verified = v;
          given_out =
              update_self t₁.requests i (released (consensus_key ssc) ssc.sign_bytes)
              ∙ cc (key, bytes);
        }
    save_share-GivenOut ssc after key bytes w v g (forgiven k f again e) =
        let t₁ : System = record t {
          requests = update t.requests i (admitted hrst req.sign_bytes);
        } in
        let t₂ : System = record t {
          requests = update t₁.requests i (conflicted hrst ssc.sign_bytes);
        } in
        record {
          end = _;
          run =
              next
                (next
                  (next stop (
                    Step.admit i req.chain_id req.sign_bytes req.vote_extension_sign_bytes hrst
                      has_ext w v g))
                  (Step.collide i hrst ssc k
                    (update_self t.requests i (admitted hrst req.sign_bytes)
                      ∙ ap (admitted hrst) (sym bytes))
                    key f))
                (Step.forgive i hrst req.sign_bytes
                  (update_self t₁.requests i (conflicted hrst ssc.sign_bytes)
                    ∙ ap (conflicted hrst) bytes)
                  again);
          state_after = e;
          hrst = hrst;
          has_ext = has_ext;
          verified = v;
          given_out = update_self t₂.requests i (released (hrs_key hrst) req.sign_bytes);
        }

    admitted-GivenOut :
        (a : Admission) (l l' : LocalCosigner) (res : CosignerSignResponse)
        → l.chain_state ≡ some t.state
        → t.requests i ≡ waiting
        → verify_sign_payload setup.codec req.chain_id req.sign_bytes req.vote_extension_sign_bytes
          ≡ ok (hrst, has_ext)
        → admit setup t.state hrst has_ext req.sign_bytes ≡ ok a
        → sign_admitted setup hrst has_ext req a l ≡ (ok res, l')
        → GivenOut i req t l'.chain_state
    unfolding sign_admitted
    admitted-GivenOut fresh l l' res e w v p h =
        let f = sign_fresh-Fresh setup hrst has_ext req l l' res h in
        save_share-GivenOut
          (signed_state setup hrst req.sign_bytes res.signature res.vote_extension_signature)
          l'.chain_state refl refl w v (admit-fresh setup t.state hrst has_ext req.sign_bytes p)
          (save_share-Saved setup hrst req.sign_bytes
            (signed_state setup hrst req.sign_bytes res.signature res.vote_extension_signature)
            t.state f.ready l' (f.same_state ∙ e) f.share.share_saved)
    admitted-GivenOut (reuse share) l l' res e w v p h =
        let (ext, x, r) = admit-reuse setup t.state hrst has_ext req.sign_bytes share p in
        record {
          end = _;
          run = next stop (
              Step.answer i req.chain_id req.sign_bytes req.vote_extension_sign_bytes hrst x share w
                (v ∙ ap (λ b. ok (hrst, b)) ext) r);
          state_after = sign_extension_only-state setup share req l l' res h ∙ e;
          hrst = hrst;
          has_ext = has_ext;
          verified = v;
          given_out = update_self t.requests i (released (hrs_key hrst) req.sign_bytes);
        }

  -- A call of `sign` that succeeds, from the state of a system in which the request waits, is a run
  -- of that system to one in which the request has given out a share for its payload, and the sign
  -- state is the one that the call leaves.
  pub sign-GivenOut :
      (i : ℕ) (req : CosignerSignRequest) (t : System) (l l' : LocalCosigner)
      (res : CosignerSignResponse)
      → l.chain_state ≡ some t.state
      → t.requests i ≡ waiting
      → sign setup req l ≡ (ok res, l')
      → GivenOut i req t l'.chain_state
  unfolding drop_nonces
  sign-GivenOut i req t l l' res e w h =
      let s = sign-Signed setup req l l' res h in
      let same : s.state ≡ t.state = cc (s.loaded, e) in
      let g =
        admitted-GivenOut i req t s.hrst s.has_ext s.admission l s.last res e w s.verified
          (subst (λ z. admit setup z s.hrst s.has_ext req.sign_bytes ≡ ok s.admission) same
            s.passed)
          s.signed in
      subst (GivenOut i req t) (sym (ap (λ (x : LocalCosigner). x.chain_state) s.cleaned)) g
