-- ===== src/Common/Maps.antt =====
-- The memory of one field, as a function of the pointer, and a write to it.
use Prim.Native.Nat.{ℕ}
use mpolsr_testbed.Common.Tests.{◌==◌, if◌then◌else◌}

abbrev pub update {ℓ} : {A : Type ℓ} → (ℕ → A) → ℕ → A → ℕ → A
update f p v q = if p == q then v else f q
