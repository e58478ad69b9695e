-- ===== src/Base/Outcomes.antt =====
-- How a kernel call ends. A failed ASSERT or a PANIC calls `panic_spin` (kernel/debug.c), which
-- never returns: the call has no result, and that is `panic`. The makefile defines no NDEBUG, so
-- every ASSERT is compiled. `blocked` is a call that
-- gives up the processor and waits for another thread. `out_of_fuel` is a loop that has not ended
-- within its fuel.
use mathlib.Core.Bool.{Bool, true, false}

pub data Outcome {ℓ} (A : Type ℓ) : Type ℓ where
  ok : A → Outcome A
  panic : Outcome A
  blocked : Outcome A
  out_of_fuel : Outcome A

infixl 5 ◌>>=◌ ◌>>◌
abbrev pub ◌>>=◌ {ℓ κ} : {A : Type ℓ} {B : Type κ} → Outcome A → (A → Outcome B) → Outcome B
ok a >>= f = f a
panic >>= f = panic
blocked >>= f = blocked
out_of_fuel >>= f = out_of_fuel

abbrev pub ◌>>◌ {ℓ} : {B : Type ℓ} → Outcome (Unit {0}) → Outcome B → Outcome B
m >> k = m >>= λ _. k

-- `ASSERT(CONDITION)` of kernel/debug.h.
abbrev pub assert : Bool → Outcome (Unit {0})
assert true = ok tt
assert false = panic
