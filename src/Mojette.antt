-- ===== src/Mojette.antt =====
-- The Mojette transform of mojette/mojette.c, by exclusive or.
--
-- A read or write outside of an array is `none`. An int that may be negative is a sign and a magnitude,
-- and the sizes of supports are taken not to overflow.
pub mod Bounds
pub mod Tests
use Prim.Native.Nat.{bit_xor}
use mpolsr_testbed.Common.{
  ℕ, zero, suc, ◌+◌, ◌-◌, ◌*◌, Bool, Option, none, some, List, [], ◌∷◌, leb, if◌then◌else◌, ◌>>=◌,
  get_elem?, replicate, set,
}

pub record Angle : Type 0 where
  pub neg : Bool
  pub abs : ℕ

-- struct support
pub record Support : Type 0 where
  pub l : ℕ
  pub k : ℕ
  pub pixels : List ℕ

-- struct projection, without `size`, which is the length of `bins`
pub record Projection : Type 0 where
  pub p : Angle
  pub q : Angle
  pub bins : List ℕ

-- plus - minus; `none` is a negative number.
abbrev pub difference : ℕ → ℕ → Option ℕ
difference plus minus = if leb minus plus then some (plus - minus) else none

-- abs(p) * (l - 1) + abs(q) * (k - 1) + 1
unfoldable pub projection_size : Angle → Angle → ℕ → ℕ → Option ℕ
projection_size p q l k = difference (p.abs * l + q.abs * k + 1) (p.abs + q.abs)

-- A negative size is too large for calloc. `allocated` tells whether the allocations succeed.
unfoldable pub projection_new : Bool → Angle → Angle → ℕ → ℕ → Option Projection
projection_new allocated p q l k = projection_size p q l k >>= λ size.
    if allocated then some (record { p = p; q = q; bins = replicate size 0 }) else none

unfoldable pub support_new : Bool → ℕ → ℕ → Option Support
support_new allocated l k =
    if allocated then some (record { l = l; k = k; pixels = replicate (l * k) 0 }) else none

-- k * q + l * p - offset, where offset is (support->l - 1) * p for a negative p
unfoldable pub bin_index : Angle → Angle → ℕ → ℕ → ℕ → Option ℕ
bin_index p q rows l k =
    difference
      ((if q.neg then 0 else k * q.abs) + (if p.neg then (rows - 1) * p.abs else l * p.abs))
      ((if q.neg then k * q.abs else 0) + (if p.neg then l * p.abs else 0))

-- bins[b] ^= pixel
unfoldable pub xor_bin : ℕ → ℕ → List ℕ → Option (List ℕ)
xor_bin b pixel bins = get_elem? bins b >>= λ bin. some (set bins b (bit_xor bin pixel))

-- The body of the innermost loop.
unfoldable pub project_pixel : ℕ → ℕ → ℕ → ℕ → Projection → Option Projection
project_pixel rows l k pixel proj = bin_index proj.p proj.q rows l k >>= λ b.
    xor_bin b pixel proj.bins >>= λ bins. some (record proj { bins = bins })

unfoldable pub project_all : ℕ → ℕ → ℕ → ℕ → List Projection → Option (List Projection)
project_all rows l k pixel [] = some []
project_all rows l k pixel (proj ∷ projs) = project_pixel rows l k pixel proj >>= λ proj'.
    project_all rows l k pixel projs >>= λ projs'. some (proj' ∷ projs')

-- The loop over the columns from `k` on, `n` of them.
unfoldable pub forward_row : Support → ℕ → ℕ → ℕ → List Projection → Option (List Projection)
forward_row support l k zero projs = some projs
forward_row support l k (suc n) projs = get_elem? support.pixels (l * support.k + k) >>= λ pixel.
    project_all support.l l k pixel projs >>= λ projs'. forward_row support l (suc k) n projs'

-- The loop over the rows from `l` on, `n` of them.
unfoldable pub forward_rows : Support → ℕ → ℕ → List Projection → Option (List Projection)
forward_rows support l zero projs = some projs
forward_rows support l (suc n) projs =
    forward_row support l 0 support.k projs >>= λ projs'. forward_rows support (suc l) n projs'

unfoldable pub forward : Support → List Projection → Option (List Projection)
forward support projs = forward_rows support 0 support.l projs
