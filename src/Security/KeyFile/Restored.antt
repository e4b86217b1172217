-- ===== src/Security/KeyFile/Restored.antt =====
-- A key file of signer/cosigner_security_ecies.go is read back as it was written.
use native.Mathlib.Nat.{pow-suc}
use horcrux.Prelude.{
  ℕ, zero, suc, ◌+◌, ◌*◌, ◌/◌, ◌%◌, ◌^◌, ◌<◌, Bool, true, List, [], ◌∷◌, ◌++◌, some, length,
  length-append, take-append, drop-append, get_elem?, ◌≡◌, refl, arith, ◌∙◌,
}
use horcrux.Outcome.{ok}
use horcrux.Cosigner.{slot}
use horcrux.Security.KeyFile.{
  set_from, set_bytes, low_bytes, fill_bytes, EciesKey, EciesKeyFile, point_bytes, points_bytes,
  marshal_ecies, read_point, read_points, unmarshal_ecies,
}

set_from-append :
    (acc : ℕ) (bs : List ℕ) (b : ℕ) → set_from acc (bs ++ (b ∷ [])) ≡ set_from acc bs * 256 + b
set_from-append acc [] b = refl
set_from-append acc (c ∷ bs) b = set_from-append (acc * 256 + c) bs b

pub set_bytes-low_bytes : (width n : ℕ) → n < 256 ^ width → set_bytes (low_bytes width n) ≡ n
unfolding set_bytes low_bytes
set_bytes-low_bytes zero n h = omega arith
set_bytes-low_bytes (suc width) n h = omega (
  arith,
  set_from-append 0 (low_bytes width (n / 256)) (n % 256),
  pow-suc 256 width,
  set_bytes-low_bytes width (n / 256) (omega (arith, pow-suc 256 width)),
)

pub length-low_bytes : (width n : ℕ) → length (low_bytes width n) ≡ width
unfolding low_bytes
length-low_bytes zero n = refl
length-low_bytes (suc width) n = omega (
  arith,
  length-append (low_bytes width (n / 256)) ((n % 256) ∷ []),
  length-low_bytes width (n / 256),
)

fill_bytes-low_bytes : (n : ℕ) → n < 256 ^ 32 → fill_bytes n ≡ ok (low_bytes 32 n)
unfolding fill_bytes
fill_bytes-low_bytes n h = ground arith

point_bytes-filled :
    (x y : ℕ)
    → x < 256 ^ 32
    → y < 256 ^ 32
    → point_bytes (x, y) ≡ ok (4 ∷ (low_bytes 32 x ++ low_bytes 32 y))
unfolding point_bytes
point_bytes-filled x y hx hy = rw (fill_bytes-low_bytes x hx, fill_bytes-low_bytes y hy) refl

-- A number below this is filled into 32 bytes.
abbrev pub IsField : ℕ → Type 0
IsField n = n < 256 ^ 32

module _ (is_on_curve : ℕ × ℕ → Bool) where
  abbrev pub ArePoints : List (ℕ × ℕ) → Type 0
  ArePoints [] = Unit
  ArePoints ((x, y) ∷ ps) = IsField x × IsField y × (is_on_curve (x, y) ≡ true) × ArePoints ps

  read_point-append :
      (a b : List ℕ)
      → length a ≡ 32
      → length b ≡ 32
      → is_on_curve (set_bytes a, set_bytes b) ≡ true
      → read_point is_on_curve (4 ∷ (a ++ b)) ≡ ok (set_bytes a, set_bytes b)
  unfolding read_point
  read_point-append a b ha hb on =
      rw (take-append a b 32 ha, drop-append a b 32 ha, length-append a b, ha, hb, on) refl

  read_point-filled :
      (x y : ℕ)
      → IsField x
      → IsField y
      → is_on_curve (x, y) ≡ true
      → read_point is_on_curve (4 ∷ (low_bytes 32 x ++ low_bytes 32 y)) ≡ ok (x, y)
  read_point-filled x y hx hy on =
      let ex = set_bytes-low_bytes 32 x hx in
      let ey = set_bytes-low_bytes 32 y hy in
      read_point-append (low_bytes 32 x) (low_bytes 32 y) (length-low_bytes 32 x)
        (length-low_bytes 32 y) (rw (ex, ey) on)
      ∙ rw (ex, ey) refl

  read_points-points_bytes :
      (ps : List (ℕ × ℕ))
      → ArePoints ps
      → (bzs : List (List ℕ)) × (points_bytes ps ≡ ok bzs) × (read_points is_on_curve bzs ≡ ok ps)
  unfolding points_bytes read_points
  read_points-points_bytes [] h = ([], refl, refl)
  read_points-points_bytes ((x, y) ∷ ps) (hx, hy, on, h) =
      let (bzs, p, q) = read_points-points_bytes ps h in
      (
        (4 ∷ (low_bytes 32 x ++ low_bytes 32 y)) ∷ bzs,
        rw (point_bytes-filled x y hx hy, p) refl,
        rw (read_point-filled x y hx hy on, q) refl,
      )

  -- A key that is written to its file is read back: its scalar and the coordinates of the points fill 32
  -- bytes, leading zeros included, the points are on the curve, and its own point is the one of its ID.
  pub unmarshal_ecies-marshal_ecies :
      (key : EciesKey) (i : ℕ)
      → IsField key.scalar
      → ArePoints key.ecies_pubs
      → slot key.id ≡ some i
      → get_elem? key.ecies_pubs i ≡ some key.point
      → (file : EciesKeyFile) × (marshal_ecies key ≡ ok file)
        × (unmarshal_ecies is_on_curve file ≡ ok key)
  unfolding marshal_ecies unmarshal_ecies
  unmarshal_ecies-marshal_ecies key i d h at own =
      let (bzs, p, q) = read_points-points_bytes key.ecies_pubs h in
      (
        record { ecies_key = low_bytes 32 key.scalar; ecies_pubs = bzs; id = key.id },
        rw (fill_bytes-low_bytes key.scalar d, p) refl,
        ground (arith, q, at, own, set_bytes-low_bytes 32 key.scalar d),
      )
