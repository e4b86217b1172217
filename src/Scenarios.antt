-- ===== src/Scenarios.antt =====
-- Concrete instances of what the models take as parameters, for runs at concrete inputs: messages
-- whose bytes are their fields, a state file with one number per field, and cosigners whose
-- signature is the payload with the number of nonces in front.
pub mod Shared
pub mod Replicated
pub mod Pinged
pub mod Filed
pub mod States
pub mod Shares
pub mod Located
pub mod Called
pub mod Configured
pub mod Answered
pub mod Cached
pub mod Leading
pub mod Signed
use horcrux.Prelude.{
  ℕ, ℤ, pos, Bool, true, false, ◌&&◌, ◌≡◌, refl, ◌↔◌, arith, List, [], ◌∷◌, Option, none, some,
  Bytes, contents, String, ◌==◌, eqb_ℤ, eqb_ℤ_iff, eq_of_parts, length, ap, if◌then◌else◌, negsuc,
  zero, suc, ◌||◌,
}
use horcrux.Outcome.{Outcome, ok, err, message}
use horcrux.Hrs.{HrsKey}
use horcrux.Payload.{Codec, MsgType, prevote_type, precommit_type, Time}
use horcrux.Payload.Laws.{CodecLaws, StampLaws}
use horcrux.SignState.{SignState, SignStateConsensus, empty_state, advance, latest_hrs}
use horcrux.SignState.Disk.{StateCodec, FileSystem, Disk}
use horcrux.SignState.Disk.Restart.{StateCodecLaws}
use horcrux.Cosigner.{
  Nonce, PartialSignature, ThresholdSigner, CosignerSecurity, CosignerNonce, Nonces,
  NoncesWithExpiration,
}
use horcrux.Cosigner.Local.{Setup, LocalCosigner}

-- A canonical message: a number for its kind, the height, the round, the block and the time.
pub record Message : Type 0 where
  pub kind : ℕ
  pub height : ℕ
  pub round : ℕ
  pub block : ℕ
  pub stamp : ℤ

abbrev decode : List ℕ → Option Message
decode (k ∷ h ∷ r ∷ b ∷ t ∷ []) =
    some (record { kind = k; height = h; round = r; block = b; stamp = pos t })
decode _ = none

abbrev decode_vote : List ℕ → Option Message
decode_vote [] = none
decode_vote (k ∷ l) = if (k == 2) || (k == 3) then decode (k ∷ l) else none

abbrev decode_proposal : List ℕ → Option Message
decode_proposal [] = none
decode_proposal (k ∷ l) = if k == 1 then decode (k ∷ l) else none

abbrev same : Message → Message → Bool
same u v =
    (u.kind == v.kind)
    && (u.height == v.height)
    && (u.round == v.round)
    && (u.block == v.block)
    && eqb_ℤ u.stamp v.stamp

abbrev stamped : Message → Time → Message
stamped m t = record m { stamp = t }

-- An extension: the height and the round, of the chain "chain-1".
abbrev decode_ext : List ℕ → Option (ℕ × ℕ)
decode_ext (h ∷ r ∷ _) = some (h, r)
decode_ext _ = none

abbrev kind_type : ℕ → MsgType
kind_type k = if k == 2 then prevote_type else precommit_type

abbrev pub plain_codec : Codec
plain_codec = record {
  Vote = Message;
  Proposal = Message;
  VoteExt = ℕ × ℕ;
  unmarshal_vote = decode_vote;
  unmarshal_proposal = decode_proposal;
  unmarshal_vote_ext = decode_ext;
  marshal_vote = λ m. elim m.stamp [
    | pos t ↦ some (m.kind ∷ m.height ∷ m.round ∷ m.block ∷ t ∷ [])
    | negsuc _ ↦ none
  ];
  vote_type = λ m. kind_type m.kind;
  vote_height = λ m. pos m.height;
  vote_round = λ m. pos m.round;
  vote_block_id = λ m. if m.block == 0 then none else some (some (m.block ∷ []));
  vote_timestamp = λ m. m.stamp;
  with_vote_timestamp = stamped;
  vote_equal = same;
  proposal_height = λ m. pos m.height;
  proposal_round = λ m. pos m.round;
  proposal_timestamp = λ m. m.stamp;
  with_proposal_timestamp = stamped;
  proposal_equal = same;
  ext_chain_id = λ e. "chain-1";
  ext_height = λ e. pos e.0;
  ext_round = λ e. pos e.1;
}

same_refl : (v : Message) → same v v ≡ true
same_refl v = ground arith

plain_stamps : StampLaws same (λ (m : Message). m.stamp) stamped
plain_stamps = record {
  equal_refl = same_refl;
  equal_sym = λ u v h. ground arith;
  equal_trans = λ u v w h k. ground arith;
  equal_stamp = λ u v t h. ground arith;
  restamp = λ v s t. refl;
  keep_stamp = λ v. refl;
}

pub plain_codec-CodecLaws : CodecLaws plain_codec
plain_codec-CodecLaws = record { vote = plain_stamps; proposal = plain_stamps }

-- A state file: the height, round and step, each with a number for its sign, and the sign bytes.
abbrev number : ℤ → List ℕ → List ℕ
number (pos n) l = 0 ∷ n ∷ l
number (negsuc n) l = 1 ∷ n ∷ l

abbrev to_number : ℕ → ℕ → ℤ
to_number zero n = pos n
to_number (suc _) n = negsuc n

abbrev pub written : SignState → List ℕ
written s = number s.height (number s.round (number s.step (contents s.sign_bytes)))

abbrev state_of : HrsKey → Bytes → SignState
state_of k b = record {
  height = k.height;
  round = k.round;
  step = k.step;
  nonce_public = none;
  signature = some [];
  sign_bytes = b;
  vote_extension_signature = none;
  file_path = "";
  cache = [];
  cond = none;
}

abbrev read : List ℕ → Option SignState
read (a ∷ h ∷ b ∷ r ∷ c ∷ s ∷ l) = some (
    state_of (record { height = to_number a h; round = to_number b r; step = to_number c s })
      (some l))
read _ = none

abbrev pub plain_state_codec : StateCodec
plain_state_codec = record { marshal = λ s. some (written s); unmarshal = read }

number-cases :
    (n : ℤ) → (a : ℕ) × (b : ℕ) × ((l : List ℕ) → number n l ≡ a ∷ b ∷ l) × (to_number a b ≡ n)
number-cases (pos n) = (0, n, λ l. refl, refl)
number-cases (negsuc n) = (1, n, λ l. refl, refl)

read-written :
    (s : SignState)
    → read (written s) ≡ some (state_of (latest_hrs s) (some (contents s.sign_bytes)))
read-written s =
    let (a, h, ea, ha) = number-cases s.height in
    let (b, r, eb, hb) = number-cases s.round in
    let (c, t, ec, hc) = number-cases s.step in rw (ea, eb, ec, ha, hb, hc) refl

pub plain_state_codec-StateCodecLaws : StateCodecLaws plain_state_codec
plain_state_codec-StateCodecLaws = record {
  encode = written;
  decode = λ s. state_of (latest_hrs s) (some (contents s.sign_bytes));
  marshal_lem = λ s. refl;
  unmarshal_lem = read-written;
  decode_key = λ s. refl;
  decode_sign_bytes = λ s. refl;
}

-- A writable disk with no files.
abbrev pub empty_files : FileSystem
empty_files = record { files = λ _. none; write_fails = λ _. false; stat_fails = λ _. false }

abbrev pub empty_disk : Disk
empty_disk = record { fs = empty_files; pending = [] }

abbrev pub plain_signer : ThresholdSigner
plain_signer = record {
  sign = λ nonces payload. ok (some (length nonces ∷ contents payload));
  combine_signatures = λ shares. ok (some (length shares ∷ []));
  verify_signature = λ payload signature. true;
}

abbrev plain_security : CosignerSecurity
plain_security = record {
  encrypt_and_sign = λ peer key share. ok (record {
    source_id = pos 1;
    destination_id = peer;
    pub_key = key;
    share = share;
    signature = some [];
  });
  decrypt_and_verify = λ source key share signature. ok (key, share);
}

-- Cosigner 1 of 3, two of which can sign.
abbrev pub two_of_three : Setup
two_of_three = record {
  codec = plain_codec;
  state_codec = plain_state_codec;
  security = plain_security;
  signer = plain_signer;
  id = pos 1;
  threshold = 2;
  total = 3;
}

-- What two cosigners have made for cosigner 1.
abbrev pub two_nonces : NoncesWithExpiration
two_nonces = record {
  expiration = pos 100;
  nonces =
      record { pub_key = some (7 ∷ []); shares = some (5 ∷ []) ∷ none ∷ none ∷ [] }
      ∷ record { pub_key = some (8 ∷ []); shares = some (6 ∷ []) ∷ none ∷ none ∷ [] }
      ∷ [];
}

abbrev pub ready_cosigner : LocalCosigner
ready_cosigner = record {
  chain_state = some (empty_state "state.json");
  nonces = (11, two_nonces) ∷ (12, two_nonces) ∷ [];
  disk = empty_disk;
}
