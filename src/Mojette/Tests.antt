-- ===== src/Mojette/Tests.antt =====
-- The example of mojette/main.c.
use mpolsr_testbed.Common.{
  ℕ, ◌≡◌, refl, true, false, Option, none, some, List, [], ◌∷◌, All, map, arith,
}
use mpolsr_testbed.Mojette.{
  Angle, bin_index, forward, forward_row, forward_rows, project_all, project_pixel, Projection,
  Support, xor_bin,
}
use mpolsr_testbed.Mojette.Bounds.{Fits, forward-Fits}

abbrev angle : ℕ → Angle
angle n = record { neg = false; abs = n }

abbrev minus_one : Angle
minus_one = record { neg = true; abs = 1 }

abbrev support : Support
support = record { l = 3; k = 3; pixels = 4 ∷ 2 ∷ 1 ∷ 8 ∷ 2 ∷ 3 ∷ 5 ∷ 4 ∷ 6 ∷ [] }

abbrev projections : List Projection
projections =
    record { p = minus_one; q = angle 1; bins = 0 ∷ 0 ∷ 0 ∷ 0 ∷ 0 ∷ [] }
    ∷ record { p = angle 1; q = angle 0; bins = 0 ∷ 0 ∷ 0 ∷ [] }
    ∷ record { p = angle 1; q = angle 1; bins = 0 ∷ 0 ∷ 0 ∷ 0 ∷ 0 ∷ [] }
    ∷ []

projections-Fits : All (Fits 3 3) projections
projections-Fits = (
  record { upward = refl; sized = refl },
  (record { upward = refl; sized = refl }, (record { upward = refl; sized = refl }, tt)),
)

abbrev or_none : Option (List Projection) → List Projection
or_none none = []
or_none (some projs) = projs

example_bins :
    map (λ (proj : Projection). proj.bins) (or_none (forward support projections))
    ≡ (5 ∷ 12 ∷ 0 ∷ 1 ∷ 1 ∷ []) ∷ (7 ∷ 9 ∷ 7 ∷ []) ∷ (4 ∷ 10 ∷ 6 ∷ 7 ∷ 6 ∷ []) ∷ []
unfolding forward forward_rows forward_row project_all project_pixel bin_index xor_bin
example_bins = refl

abbrev angles : List (Angle × Angle)
angles = (minus_one, angle 1) ∷ (angle 1, angle 0) ∷ (angle 1, angle 1) ∷ []

forward-Fits_example :
    (projs' : List Projection) × (forward support projections ≡ some projs') × All (Fits 3 3) projs'
forward-Fits_example =
    forward-Fits support (omega arith) (omega arith) refl projections projections-Fits

-- An angle that points down has a bin before the array.
downward_bin : bin_index (angle 0) minus_one 3 0 1 ≡ none
unfolding bin_index
downward_bin = refl
