-- ===== src/Payload/Laws.antt =====
-- What package signer relies on of `proto.Equal` and of the fields of CometBFT's messages, and
-- payloads that differ by their timestamps at most.
use horcrux.Prelude.{
  ℕ, ℤ, List, Option, Bytes, ◌≡◌, sym, subst, ◌∙◌, Bool, true, false, some, ◌⊎◌, inl, inr, eqb_ℤ,
  contents,
}
use horcrux.Payload.{Codec, Time, step_propose}

-- `proto.Equal` is an equivalence that equal timestamps respect; assigning a timestamp twice leaves
-- the second, and assigning the present one changes nothing.
pub record StampLaws {M : Type 0} (equal : M → M → Bool) (stamp : M → Time)
    (with_stamp : M → Time → M) : Type 0 where
  pub equal_refl : (v : M) → equal v v ≡ true
  pub equal_sym : (u v : M) → equal u v ≡ true → equal v u ≡ true
  pub equal_trans : (u v w : M) → equal u v ≡ true → equal v w ≡ true → equal u w ≡ true
  pub equal_stamp :
      (u v : M) (t : Time) → equal u v ≡ true → equal (with_stamp u t) (with_stamp v t) ≡ true
  pub restamp : (v : M) (s t : Time) → with_stamp (with_stamp v s) t ≡ with_stamp v t
  pub keep_stamp : (v : M) → with_stamp v (stamp v) ≡ v

pub record CodecLaws (c : Codec) : Type 0 where
  pub vote : StampLaws c.vote_equal c.vote_timestamp c.with_vote_timestamp
  pub proposal : StampLaws c.proposal_equal c.proposal_timestamp c.with_proposal_timestamp

-- Both decode, and are equal once the second has the first's timestamp.
pub record SameMessage {M : Type 0} (decode : List ℕ → Option M) (equal : M → M → Bool)
    (stamp : M → Time) (with_stamp : M → Time → M) (a b : Bytes) : Type 0 where
  pub first : M
  pub second : M
  pub decoded_first : decode (contents a) ≡ some first
  pub decoded_second : decode (contents b) ≡ some second
  pub agree : equal (with_stamp second (stamp first)) first ≡ true

-- Two messages that agree with a third up to the timestamp agree up to the timestamp.
agree_join :
    {M : Type 0} {equal : M → M → Bool} {stamp : M → Time} {with_stamp : M → Time → M}
    (laws : StampLaws equal stamp with_stamp) (s u v : M)
    → equal (with_stamp u (stamp s)) s ≡ true
    → equal (with_stamp v (stamp s)) s ≡ true
    → equal (with_stamp v (stamp u)) u ≡ true
agree_join {stamp} {with_stamp} laws s u v h k =
    simp (laws.restamp, laws.keep_stamp) at
      (laws.equal_stamp (with_stamp v (stamp s)) (with_stamp u (stamp s)) (stamp u)
        (laws.equal_trans _ s _ k (laws.equal_sym _ _ h)))

module _ {M : Type 0} {decode : List ℕ → Option M} {equal : M → M → Bool} {stamp : M → Time}
    {with_stamp : M → Time → M} (laws : StampLaws equal stamp with_stamp) where
  pub SameMessage-join :
      {a b s : Bytes}
      → SameMessage decode equal stamp with_stamp s a
      → SameMessage decode equal stamp with_stamp s b
      → SameMessage decode equal stamp with_stamp a b
  SameMessage-join {a} {b} {s} h k =
      let e : k.first ≡ h.first = cc (h.decoded_first, k.decoded_first) in
      record {
        first = h.second;
        second = k.second;
        decoded_first = h.decoded_second;
        decoded_second = k.decoded_second;
        agree =
            agree_join laws h.first h.second k.second h.agree
              (subst (λ m. equal (with_stamp k.second (stamp m)) m ≡ true) e k.agree);
      }

  pub SameMessage-right :
      {a b s : Bytes}
      → contents s ≡ contents b
      → SameMessage decode equal stamp with_stamp s a
      → SameMessage decode equal stamp with_stamp a b
  SameMessage-right {a} {b} {s} e h = record {
    first = h.second;
    second = h.first;
    decoded_first = h.decoded_second;
    decoded_second = rw (← e) h.decoded_first;
    agree =
        agree_join laws h.first h.second h.first h.agree
          (rw (laws.keep_stamp h.first) (laws.equal_refl h.first));
  }

-- Messages of the step's kind that differ by their timestamps alone.
abbrev pub SameVote : Codec → Bytes → Bytes → Type 0
SameVote c = SameMessage c.unmarshal_vote c.vote_equal c.vote_timestamp c.with_vote_timestamp

abbrev pub SameProposal : Codec → Bytes → Bytes → Type 0
SameProposal c =
    SameMessage c.unmarshal_proposal c.proposal_equal c.proposal_timestamp c.with_proposal_timestamp

abbrev pub Agree : Codec → Bool → Bytes → Bytes → Type 0
Agree c true a b = SameProposal c a b
Agree c false a b = SameVote c a b

-- The payloads of one height, round and step that may both be signed: the same bytes, or messages
-- that differ by their timestamps alone.
abbrev pub Compatible : Codec → ℤ → Bytes → Bytes → Type 0
Compatible c step a b = (contents a ≡ contents b) ⊎ Agree c (eqb_ℤ step step_propose) a b

module _ {c : Codec} (laws : CodecLaws c) where
  Agree-join : (p : Bool) (a b s : Bytes) → Agree c p s a → Agree c p s b → Agree c p a b
  Agree-join true a b s h k = SameMessage-join laws.proposal h k
  Agree-join false a b s h k = SameMessage-join laws.vote h k

  Agree-right : (p : Bool) (a b s : Bytes) → contents s ≡ contents b → Agree c p s a → Agree c p a b
  Agree-right true a b s e h = SameMessage-right laws.proposal e h
  Agree-right false a b s e h = SameMessage-right laws.vote e h

  Agree-left : (p : Bool) (a b s : Bytes) → contents s ≡ contents a → Agree c p s b → Agree c p a b
  Agree-left true a b s e h = record {
    first = h.first;
    second = h.second;
    decoded_first = rw (← e) h.decoded_first;
    decoded_second = h.decoded_second;
    agree = h.agree;
  }
  Agree-left false a b s e h = record {
    first = h.first;
    second = h.second;
    decoded_first = rw (← e) h.decoded_first;
    decoded_second = h.decoded_second;
    agree = h.agree;
  }

  -- Two payloads that are each compatible with a third are compatible with one another.
  pub Compatible-join :
      (step : ℤ) (a b s : Bytes)
      → Compatible c step s a
      → Compatible c step s b
      → Compatible c step a b
  Compatible-join step a b s (inl e) (inl f) = inl (sym e ∙ f)
  Compatible-join step a b s (inl e) (inr k) = inr (Agree-left _ a b s e k)
  Compatible-join step a b s (inr h) (inl f) = inr (Agree-right _ a b s f h)
  Compatible-join step a b s (inr h) (inr k) = inr (Agree-join _ a b s h k)
