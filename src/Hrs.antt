-- ===== src/Hrs.antt =====
-- signer/hrs.go: the height, round and step of a sign request, their order, and their wire form.
pub mod Order
pub mod Wire
use horcrux.Prelude.{
  ℤ, Bool, true, false, ◌&&◌, ◌≡◌, ◌↔◌, refl, arith, ap, ltb_ℤ, eqb_ℤ, eq_of_parts, not,
  if◌then◌else◌, Eq, to_int8, pos,
}

pub record HrsKey : Type 0 where
  pub height : ℤ  -- int64
  pub round : ℤ  -- int64
  pub step : ℤ  -- int8

-- `GreaterThan`, test by test
unfoldable pub greater_than : HrsKey → HrsKey → Bool
greater_than hrs other =
    if ltb_ℤ other.height hrs.height
    then true
    else if ltb_ℤ hrs.height other.height
    then false
    else if ltb_ℤ other.round hrs.round
    then true
    else if ltb_ℤ hrs.round other.round
    then false
    else ltb_ℤ other.step hrs.step

-- Go's `==` on the struct
unfoldable pub eq_hrs : HrsKey → HrsKey → Bool
eq_hrs a b = eqb_ℤ a.height b.height && eqb_ℤ a.round b.round && eqb_ℤ a.step b.step

unfoldable pub less_than : HrsKey → HrsKey → Bool
less_than hrs other = not (eq_hrs hrs other) && not (greater_than hrs other)

pub HrsKey-ext : (a b : HrsKey) → a.height ≡ b.height → a.round ≡ b.round → a.step ≡ b.step → a ≡ b
HrsKey-ext a b p q r = λ i. record { height = p i; round = q i; step = r i }

pub eq_hrs_iff : (a b : HrsKey) → (eq_hrs a b ≡ true) ↔ (a ≡ b)
unfolding eq_hrs
eq_hrs_iff a b = (
  λ h.
      HrsKey-ext a b (eq_of_parts a.height b.height (ground arith))
        (eq_of_parts a.round b.round (ground arith)) (eq_of_parts a.step b.step (ground arith)),
  λ e. rw e (ground arith),
)

instance abbrev pub hrs_Eq : Eq HrsKey
hrs_Eq = record { beq = eq_hrs; beq_iff = eq_hrs_iff }

-- the key with the nanoseconds of the payload's timestamp
pub record HrstKey : Type 0 where
  pub height : ℤ  -- int64
  pub round : ℤ  -- int64
  pub step : ℤ  -- int8
  pub timestamp : ℤ  -- int64

abbrev pub hrs_key : HrstKey → HrsKey
hrs_key hrst = record { height = hrst.height; round = hrst.round; step = hrst.step }

-- `proto.HRST`: the step is an int32 on the wire
pub record HrstProto : Type 0 where
  pub height : ℤ
  pub round : ℤ
  pub step : ℤ
  pub timestamp : ℤ

-- the getters of a nil message return zero values
abbrev pub zero_hrst : HrstKey
zero_hrst = record { height = pos 0; round = pos 0; step = pos 0; timestamp = pos 0 }

unfoldable pub hrst_key_from_proto : HrstProto → HrstKey
hrst_key_from_proto hrs = record {
  height = hrs.height;
  round = hrs.round;
  step = to_int8 hrs.step;
  timestamp = hrs.timestamp;
}

unfoldable pub hrst_to_proto : HrstKey → HrstProto
hrst_to_proto hrst = record {
  height = hrst.height;
  round = hrst.round;
  step = hrst.step;
  timestamp = hrst.timestamp;
}
