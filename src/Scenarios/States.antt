-- ===== src/Scenarios/States.antt =====
-- Runs at concrete inputs of the order, the watermark, the cache, the state file and the checks of
-- payloads and chain IDs.
use Prim.Native.String.{len}
use horcrux.Prelude.{
  ℕ, ℤ, pos, negsuc, Bool, true, false, ◌≡◌, ◌≤◌, ◌↔◌, refl, arith, inl, inr, List, [], ◌∷◌, Option,
  none, some, Bytes, if◌then◌else◌, ltb_ℤ, ◌-ℤ◌, lookup, IsInt8, IsInt64, ◌≤ℤ◌,
}
use horcrux.Outcome.{ok, err, Error}
use horcrux.Hrs.{HrsKey, HrstKey, greater_than, hrs_Eq}
use horcrux.ChainId.{validate_chain_id, validate_chain_id_iff, Words, codes}
use horcrux.Payload.{verify_sign_payload}
use horcrux.Payload.Checks.{IsExtended, verify_sign_payload-IsExtended}
use horcrux.SignState.{
  SignState, SignStateConsensus, latest_hrs, block_double_sign, advance, empty_state,
}
use horcrux.SignState.Watermark.{save_all, Ascending, last_key, save_all-Ascending}
use horcrux.SignState.Gate.{error_if_conflict_or_regression, Passes, gate_iff}
use horcrux.SignState.Disk.{Disk, Writes, save, load_sign_state}
use horcrux.SignState.Disk.Restart.{IsWritable, save-load_refuses, saves_may_swap}
use horcrux.Scenarios.{
  plain_codec, plain_state_codec, plain_state_codec-StateCodecLaws, empty_files, empty_disk,
}

abbrev key_at : (height step : ℕ) → HrsKey
key_at h s = record { height = pos h; round = pos 0; step = pos s }

-- A vote of a kind at a height, with its block and time, and its signed state.
abbrev vote_bytes : (kind height block time : ℕ) → Bytes
vote_bytes k h b t = some (k ∷ h ∷ 0 ∷ b ∷ t ∷ [])

abbrev signed_at : (height step : ℕ) → SignStateConsensus
signed_at h s = record {
  height = pos h;
  round = pos 0;
  step = pos s;
  signature = some (h ∷ []);
  vote_extension_signature = none;
  sign_bytes = vote_bytes s h 4 1000;
}

abbrev at_ten : SignState
at_ten = advance (empty_state "state.json") (signed_at 10 2)

abbrev sent_key : HrstKey
sent_key = record { height = pos 10; round = pos 0; step = pos 3; timestamp = pos 1000 }

validate_chain_id_iff_example :
    (validate_chain_id "cosmoshub-4" ≡ ok tt)
    ↔ (Words (codes "cosmoshub-4") × (len "cosmoshub-4" ≤ 50))
validate_chain_id_iff_example = validate_chain_id_iff "cosmoshub-4"

verify_sign_payload-IsExtended_example :
    IsExtended plain_codec "chain-1"
      (record { height = pos 10; round = pos 0; step = pos 3; timestamp = pos 1000 })
      (vote_bytes 3 10 4 1000)
      (some (10 ∷ 0 ∷ 99 ∷ []))
unfolding verify_sign_payload horcrux.Payload.verify_vote_extension horcrux.Prelude.to_int64
verify_sign_payload-IsExtended_example =
    verify_sign_payload-IsExtended plain_codec "chain-1" (vote_bytes 3 10 4 1000)
      (some (10 ∷ 0 ∷ 99 ∷ []))
      (record { height = pos 10; round = pos 0; step = pos 3; timestamp = pos 1000 }) refl

abbrev three_attempts : List SignStateConsensus
three_attempts = signed_at 10 3 ∷ signed_at 9 1 ∷ signed_at 11 1 ∷ []

save_all-Ascending_example :
    Ascending (latest_hrs at_ten) (save_all at_ten three_attempts).1
    × (latest_hrs (save_all at_ten three_attempts).0
        ≡ last_key (latest_hrs at_ten) (save_all at_ten three_attempts).1)
save_all-Ascending_example = save_all-Ascending at_ten three_attempts

gate_iff_example :
    (error_if_conflict_or_regression plain_codec at_ten sent_key (vote_bytes 3 10 4 1000) ≡ ok tt)
    ↔ Passes plain_codec at_ten sent_key (vote_bytes 3 10 4 1000)
unfolding advance
gate_iff_example = gate_iff plain_codec at_ten sent_key (vote_bytes 3 10 4 1000) (inr (inl refl))

writable : IsWritable empty_files at_ten.file_path
unfolding advance empty_state
writable = record { not_null = refl; not_empty = refl; writes = refl }

save-load_refuses_example :
    (s' : SignState) × (d' : Disk) × (t : SignState) × (save plain_state_codec false
        (signed_at 11 1)
        at_ten
        empty_disk
      ≡ ok (s', d'))
    × (load_sign_state plain_state_codec at_ten.file_path d'.fs ≡ ok t)
    × (latest_hrs t ≡ key_at 11 1)
    × (e : Error) × (block_double_sign t (signed_at 10 3) ≡ err e)
unfolding advance greater_than
save-load_refuses_example =
    save-load_refuses plain_state_codec-StateCodecLaws at_ten (signed_at 11 1) (signed_at 10 3)
      empty_disk writable refl refl

saves_may_swap_example :
    (s' s'' : SignState) × (d d' d'' : Disk) × (t : SignState) × (save plain_state_codec true
        (signed_at 11 1)
        at_ten
        empty_disk
      ≡ ok (s', d))
    × (save plain_state_codec true (signed_at 12 1) s' d ≡ ok (s'', d'))
    × Writes plain_state_codec d' d''
    × (d''.pending ≡ [])
    × (load_sign_state plain_state_codec at_ten.file_path d''.fs ≡ ok t)
    × (latest_hrs s'' ≡ key_at 12 1)
    × (latest_hrs t ≡ key_at 11 1)
unfolding advance greater_than
saves_may_swap_example =
    saves_may_swap plain_state_codec-StateCodecLaws at_ten (signed_at 11 1) (signed_at 12 1)
      empty_files writable refl refl
