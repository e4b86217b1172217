-- ===== src/Validator.antt =====
-- `ThresholdValidator` of signer/threshold_validator.go: the cosigner that leads the signing of a
-- block, its two sign states for a chain, and the blocks that it is asked to sign.
pub mod Wire
pub mod Fallback
pub mod Existing
pub mod Reuse
pub mod Progress
pub mod Sign
pub mod Extend
pub mod Lead
use horcrux.Prelude.{
  ℕ, ℤ, pos, Bytes, String, Bool, true, false, Option, none, some, if◌then◌else◌, eqb_ℤ, to_int8,
  insert,
}
use horcrux.Outcome.{Error, Outcome, ok, err, panic}
use horcrux.Act.{Act, lift, ◌>>=◌, ◌>>◌}
use horcrux.Hrs.{HrsKey, HrstKey, hrs_Eq}
use horcrux.Payload.{Time, unix_nano, zero_time}
use horcrux.ChainId.{validate_chain_id}
use horcrux.SignState.{SignState, SignStateConsensus, fresh_cache}
use horcrux.SignState.Disk.{StateCodec, Disk, dev_null, save, signal, load_or_create_sign_state}

pub record Block : Type 0 where
  pub height : ℤ
  pub round : ℤ
  pub step : ℤ  -- int8
  pub sign_bytes : Bytes
  pub vote_extension_sign_bytes : Bytes
  pub timestamp : Time

abbrev pub block_hrs_key : Block → HrsKey
block_hrs_key b = record { height = b.height; round = b.round; step = b.step }

abbrev pub block_hrst_key : Block → HrstKey
block_hrst_key b = record {
  height = b.height;
  round = b.round;
  step = b.step;
  timestamp = unix_nano b.timestamp;
}

-- `proto.Block`
pub record BlockProto : Type 0 where
  pub height : ℤ
  pub round : ℤ
  pub step : ℤ  -- int32
  pub sign_bytes : Bytes
  pub vote_ext_sign_bytes : Bytes
  pub timestamp : ℤ  -- int64

-- `ToProto`: the zero time is 0 on the wire
unfoldable pub block_to_proto : Block → BlockProto
block_to_proto b = record {
  height = b.height;
  round = b.round;
  step = b.step;
  sign_bytes = b.sign_bytes;
  vote_ext_sign_bytes = b.vote_extension_sign_bytes;
  timestamp = if eqb_ℤ b.timestamp zero_time then pos 0 else unix_nano b.timestamp;
}

-- `BlockFromProto`
unfoldable pub block_from_proto : BlockProto → Block
block_from_proto p = record {
  height = p.height;
  round = p.round;
  step = to_int8 p.step;
  sign_bytes = p.sign_bytes;
  vote_extension_sign_bytes = p.vote_ext_sign_bytes;
  timestamp = if eqb_ℤ p.timestamp (pos 0) then zero_time else p.timestamp;
}

-- `ChainSignState`: what was signed last, and what was begun last
pub record ChainSignState : Type 0 where
  pub last_sign_state : SignState
  pub last_sign_state_initiated : SignState

-- The state for one chain: the map of chain states has an entry once `LoadSignStateIfNecessary` has
-- run. The disk is the one that the goroutines of `pendingDiskWG` write to.
pub record ThresholdValidator : Type 0 where
  pub chain_state : Option ChainSignState
  pub disk : Disk

-- `mustLoadChainState`
unfoldable pub must_load_chain_state : Act ThresholdValidator ChainSignState
must_load_chain_state = λ pv. elim pv.chain_state [
  | none ↦ (panic "failed to load chain state", pv)
  | some css ↦ (ok css, pv)
]

module _ (codec : StateCodec) where
  -- `Save` on the state of what was signed
  unfoldable pub save_signed :
      SignStateConsensus → ChainSignState → Act ThresholdValidator (Unit {0})
  save_signed ssc css pv = elim (save codec true ssc css.last_sign_state pv.disk) [
    | ok saved ↦ (
      ok tt,
      record pv { chain_state = some (record css { last_sign_state = saved.0 }); disk = saved.1 },
    )
    | err e ↦ (err e, pv)
    | panic t ↦ (panic t, pv)
  ]

  -- `SaveLastSignedState`
  unfoldable pub save_last_signed_state : SignStateConsensus → Act ThresholdValidator (Unit {0})
  save_last_signed_state ssc = do css ← must_load_chain_state; save_signed ssc css

  -- `LoadSignStateIfNecessary` up to the call of the local cosigner's
  unfoldable pub load_sign_state_if_necessary :
      (state_file : String) → String → Act ThresholdValidator (Unit {0})
  load_sign_state_if_necessary state_file chain_id pv = elim (validate_chain_id chain_id) [
    | err e ↦ (err e, pv)
    | panic t ↦ (panic t, pv)
    | ok _ ↦ elim pv.chain_state [
      | some css ↦ (ok tt, pv)
      | none ↦ elim (load_or_create_sign_state codec state_file pv.disk.fs) [
        | err e ↦ (err e, pv)
        | panic t ↦ (panic t, pv)
        | ok loaded ↦ (
          ok tt,
          record pv {
            chain_state = some (record {
              last_sign_state = loaded.0;
              last_sign_state_initiated = record (fresh_cache loaded.0) { file_path = dev_null };
            });
            disk = record pv.disk { fs = loaded.1 };
          },
        )
      ]
    ]
  ]

-- the entry of a sign that failed: no signature
abbrev pub failed_entry : HrsKey → Bytes → SignStateConsensus
failed_entry hrs sign_bytes = record {
  height = hrs.height;
  round = hrs.round;
  step = hrs.step;
  signature = none;
  vote_extension_signature = none;
  sign_bytes = sign_bytes;
}

-- the state that `notifyBlockSignError` leaves
unfoldable pub mark_failed : HrsKey → Bytes → ChainSignState → ChainSignState
unfolding signal
mark_failed hrs sign_bytes css = record css {
  last_sign_state = signal (record css.last_sign_state {
    cache = insert hrs (failed_entry hrs sign_bytes) css.last_sign_state.cache;
  });
}

-- `notifyBlockSignError`
unfoldable pub notify_block_sign_error : HrsKey → Bytes → Act ThresholdValidator (Unit {0})
notify_block_sign_error hrs sign_bytes = do
  css ← must_load_chain_state
  λ pv. (ok tt, record pv { chain_state = some (mark_failed hrs sign_bytes css) })
