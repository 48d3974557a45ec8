-- ===== src/Mojette/Bounds.antt =====
-- The forward transform stays within its arrays.
use Prim.Native.Nat.{bit_xor}
use native.Mathlib.Nat.{mul-le-mul_right, mul-suc, mul_comm, suc-mul}
use mpolsr_testbed.Common.{
  ℕ, zero, suc, ◌+◌, ◌-◌, ◌*◌, ◌≤◌, ◌<◌, ◌≡◌, ◌∙◌, refl, true, false, some, List, [], ◌∷◌, All,
  get_elem?, Option, ◌>>=◌, length, length-replicate, length-set, replicate, set, Bool-cases, inl,
  inr, arith,
}
use mpolsr_testbed.Mojette.{
  Angle, bin_index, forward, forward_row, forward_rows, project_all, project_pixel, Projection,
  projection_new, projection_size, Support, xor_bin,
}

mul-pred : (a r : ℕ) → 0 < r → a * r ≡ (r - 1) * a + a
mul-pred a zero h = absurd (omega (arith, h))
mul-pred a (suc r) h =
    let pred : suc r - 1 ≡ r = omega arith in rw pred (omega (arith, mul-suc a r, mul_comm a r))

get_elem?-some : (xs : List ℕ) (i : ℕ) → i < length xs → (x : ℕ) × (get_elem? xs i ≡ some x)
get_elem?-some [] i h = absurd (omega (arith, h))
get_elem?-some (x ∷ xs) zero h = (x, refl)
get_elem?-some (x ∷ xs) (suc i) h = get_elem?-some xs i (omega (arith, h))

-- The angle of a projection does not point down, and its bins are those of a new one.
pub record Fits (rows cols : ℕ) (proj : Projection) : Type 0 where
  pub upward : proj.q.neg ≡ false
  pub sized : length proj.bins ≡ (rows - 1) * proj.p.abs + (cols - 1) * proj.q.abs + 1

module _ (rows cols : ℕ) (some_rows : 0 < rows) (some_cols : 0 < cols) where
  pub projection_new-Fits :
      (p q : Angle)
      → q.neg ≡ false
      → (proj : Projection) × (projection_new true p q rows cols ≡ some proj) × Fits rows cols proj
  unfolding projection_new projection_size
  projection_new-Fits p q upward =
      let size : projection_size p q rows cols
          ≡ some ((rows - 1) * p.abs + (cols - 1) * q.abs + 1) =
        ground (arith, mul-pred p.abs rows some_rows, mul-pred q.abs cols some_cols) in
      (
        record { p = p; q = q; bins = replicate ((rows - 1) * p.abs + (cols - 1) * q.abs + 1) 0 },
        rw (projection_new, size) refl,
        record {
          upward = upward;
          sized = length-replicate {A = ℕ} ((rows - 1) * p.abs + (cols - 1) * q.abs + 1) 0;
        },
      )

  -- The bin of a pixel of the support is one of the projection.
  pub bin_index-bound :
      (proj : Projection) (l k : ℕ)
      → Fits rows cols proj
      → l < rows
      → k < cols
      → (b : ℕ) × (bin_index proj.p proj.q rows l k ≡ some b) × (b < length proj.bins)
  unfolding bin_index
  bin_index-bound proj l k fits l_in k_in =
      let row = mul-le-mul_right {m = l} {n = rows - 1} proj.p.abs (omega (arith, l_in)) in
      let col = mul-le-mul_right {m = k} {n = cols - 1} proj.q.abs (omega (arith, k_in)) in
      elim (Bool-cases proj.p.neg) [
        | inl down ↦ (
          (rows - 1) * proj.p.abs + k * proj.q.abs - l * proj.p.abs,
          ground (arith, fits.upward),
          omega (arith, fits.sized),
        )
        | inr up ↦ (
          l * proj.p.abs + k * proj.q.abs,
          ground (arith, fits.upward),
          omega (arith, fits.sized),
        )
      ]

  -- Reading and writing a bin of the projection succeeds.
  project_pixel-Fits :
      (l k pixel : ℕ) (proj : Projection)
      → Fits rows cols proj
      → l < rows
      → k < cols
      → (proj' : Projection) × (project_pixel rows l k pixel proj ≡ some proj')
        × Fits rows cols proj'
  unfolding project_pixel xor_bin
  project_pixel-Fits l k pixel proj fits l_in k_in =
      let (b, at, inside) = bin_index-bound proj l k fits l_in k_in in
      let (bin, read) = get_elem?-some proj.bins b inside in
      (
        record proj { bins = set proj.bins b (bit_xor bin pixel) },
        rw (at, read) refl,
        record {
          upward = fits.upward;
          sized = length-set proj.bins b (bit_xor bin pixel) ∙ fits.sized;
        },
      )

  project_all-Fits :
      (l k pixel : ℕ) (projs : List Projection)
      → All (Fits rows cols) projs
      → l < rows
      → k < cols
      → (projs' : List Projection) × (project_all rows l k pixel projs ≡ some projs')
        × All (Fits rows cols) projs'
  unfolding project_all
  project_all-Fits l k pixel [] fits l_in k_in = ([], refl, tt)
  project_all-Fits l k pixel (proj ∷ projs) fits l_in k_in =
      let (proj', done, fits') = project_pixel-Fits l k pixel proj fits.0 l_in k_in in
      let (projs', all_done, all_fits) = project_all-Fits l k pixel projs fits.1 l_in k_in in
      (proj' ∷ projs', rw (done, all_done) refl, (fits', all_fits))

module _ (support : Support) (some_rows : 0 < support.l) (some_cols : 0 < support.k)
    (whole : length support.pixels ≡ support.l * support.k) where
  -- A pixel of a row is one of the support.
  pixel-bound :
      (l k : ℕ) → l < support.l → k < support.k → l * support.k + k < length support.pixels
  pixel-bound l k l_in k_in =
      let row = mul-le-mul_right {m = suc l} {n = support.l} support.k l_in in
      omega (arith, row, suc-mul l support.k, whole)

  forward_row-Fits :
      (l k n : ℕ) (projs : List Projection)
      → All (Fits support.l support.k) projs
      → l < support.l
      → k + n ≤ support.k
      → (projs' : List Projection) × (forward_row support l k n projs ≡ some projs')
        × All (Fits support.l support.k) projs'
  unfolding forward_row
  forward_row-Fits l k zero projs fits l_in k_in = (projs, refl, fits)
  forward_row-Fits l k (suc n) projs fits l_in k_in =
      let (pixel, read) =
        get_elem?-some support.pixels (l * support.k + k)
          (pixel-bound l k l_in (omega (arith, k_in))) in
      let (projs', done, fits') =
        project_all-Fits support.l support.k some_rows some_cols l k pixel projs fits l_in
          (omega (arith, k_in)) in
      let (last, rest, last_fits) =
        forward_row-Fits l (suc k) n projs' fits' l_in (omega (arith, k_in)) in
      (last, rw (read, done) rest, last_fits)

  forward_rows-Fits :
      (l n : ℕ) (projs : List Projection)
      → All (Fits support.l support.k) projs
      → l + n ≤ support.l
      → (projs' : List Projection) × (forward_rows support l n projs ≡ some projs')
        × All (Fits support.l support.k) projs'
  unfolding forward_rows
  forward_rows-Fits l zero projs fits l_in = (projs, refl, fits)
  forward_rows-Fits l (suc n) projs fits l_in =
      let (projs', done, fits') =
        forward_row-Fits l 0 support.k projs fits (omega (arith, l_in)) (omega arith) in
      let (last, rest, last_fits) =
        forward_rows-Fits (suc l) n projs' fits' (omega (arith, l_in)) in
      (last, rw done rest, last_fits)

  -- If every pixel of a support with at least one row and one column is there, and all projections fit it,
  -- then the forward transform reads and writes no pixel or bin outside of its array, and the projections
  -- still fit.
  pub forward-Fits :
      (projs : List Projection)
      → All (Fits support.l support.k) projs
      → (projs' : List Projection) × (forward support projs ≡ some projs')
        × All (Fits support.l support.k) projs'
  unfolding forward
  forward-Fits projs fits = forward_rows-Fits 0 support.l projs fits (omega arith)

-- New projections, one for each angle, when the memory suffices.
abbrev pub new_projections : ℕ → ℕ → List (Angle × Angle) → Option (List Projection)
new_projections rows cols [] = some []
new_projections rows cols ((p, q) ∷ angles) = projection_new true p q rows cols >>= λ proj.
    new_projections rows cols angles >>= λ projs. some (proj ∷ projs)
