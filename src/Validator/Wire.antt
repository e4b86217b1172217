-- ===== src/Validator/Wire.antt =====
-- `Block` of signer/threshold_validator.go on the wire.
use horcrux.Prelude.{
  pos, ◌≡◌, ◌⊎◌, inl, inr, IsInt8, IsInt64, to_int8-eq, to_int64-eq, eqb_ℤ, eqb_ℤ_iff,
  if◌then◌else◌, Bool-cases,
}
use horcrux.Payload.{zero_time}
use horcrux.Validator.{Block, block_to_proto, block_from_proto}

-- A block comes back from the wire as it was sent, but that the Unix epoch becomes the zero time:
-- for a step that is an int8, and a time that is the zero time or whose nanoseconds are an int64.
pub block_from_proto-to_proto :
    (b : Block)
    → IsInt8 b.step
    → (b.timestamp ≡ zero_time) ⊎ IsInt64 b.timestamp
    → block_from_proto (block_to_proto b)
      ≡ record b { timestamp = if eqb_ℤ b.timestamp (pos 0) then zero_time else b.timestamp }
unfolding block_from_proto block_to_proto
block_from_proto-to_proto b h (inl e) = rw (to_int8-eq b.step h, e)
block_from_proto-to_proto b h (inr r) = elim (Bool-cases (eqb_ℤ b.timestamp zero_time)) [
  | inl z ↦ (let e = (eqb_ℤ_iff b.timestamp zero_time).0 z in rw (to_int8-eq b.step h, e))
  | inr z ↦ rw (to_int8-eq b.step h, z, to_int64-eq b.timestamp r)
]
