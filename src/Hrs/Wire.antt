-- ===== src/Hrs/Wire.antt =====
-- The wire form of signer/hrs.go's `HRSTKey`.
use horcrux.Prelude.{◌≡◌, IsInt8, to_int8-eq}
use horcrux.Hrs.{HrstKey, hrst_key_from_proto, hrst_to_proto}

-- A key whose step is an int8 comes back from the wire as it was sent.
pub from_proto-to_proto : (k : HrstKey) → IsInt8 k.step → hrst_key_from_proto (hrst_to_proto k) ≡ k
unfolding hrst_key_from_proto hrst_to_proto
from_proto-to_proto k h = rw (to_int8-eq k.step h)
