-- ===== src/Base/Maps.antt =====
-- Memory as a function of the address, and the write to one address.
use Prim.Native.Nat.{ℕ}
use zeos_soa.Base.Tests.{◌==◌, if◌then◌else◌}

abbrev pub update {ℓ} : {A : Type ℓ} → (ℕ → A) → ℕ → A → ℕ → A
update f p v q = if q == p then v else f q
