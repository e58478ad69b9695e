-- ===== src/Base/Memory.antt =====
-- A memory: what stands at each address or index. A C pointer reads and writes any place, also one
-- past the end of its array, so a memory is a total function.
use Prim.Native.Nat.{ℕ, ◌<◌}
use geniux.Base.Tests.{◌==◌, if◌then◌else◌}

abbrev pub store {ℓ} : {A : Type ℓ} → (ℕ → A) → ℕ → A → ℕ → A
store m p v q = if p == q then v else m q

-- The bytes of the machine: one at each address.
abbrev pub Mem : Type 0
Mem = ℕ → ℕ

abbrev pub IsBytes : Mem → Type 0
IsBytes m = (a : ℕ) → m a < 256
