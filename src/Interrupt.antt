-- ===== src/Interrupt.antt =====
-- The interrupt flag of the processor, and the functions of kernel/interrupt.c that read and set it.
-- The children: the vector tables and the interrupt controllers, and what their set-up leaves.
pub mod Idt
pub mod Vectors
mod Examples
use geniux.Base.{Bool, true, false, ◌≡◌, refl}

-- `enum intr_status` of kernel/interrupt.h.
pub data IntrStatus : Type 0 where
  intr_on intr_off : IntrStatus

-- The status that the source returns beside the flag after the call.
unfoldable pub intr_enable : IntrStatus → IntrStatus × IntrStatus
intr_enable intr_off = (intr_off, intr_on)
intr_enable intr_on = (intr_on, intr_on)

unfoldable pub intr_disable : IntrStatus → IntrStatus × IntrStatus
intr_disable intr_on = (intr_on, intr_off)
intr_disable intr_off = (intr_off, intr_off)

unfoldable pub intr_set_status : IntrStatus → IntrStatus → IntrStatus × IntrStatus
intr_set_status intr_on flag = intr_enable flag
intr_set_status intr_off flag = intr_disable flag

abbrev pub is_off : IntrStatus → Bool
is_off intr_on = false
is_off intr_off = true

-- `old = intr_disable(); …; intr_set_status(old);` leaves the flag as it was.
pub restore :
    (flag : IntrStatus) → (intr_set_status (intr_disable flag).0 (intr_disable flag).1).1 ≡ flag
unfolding intr_set_status intr_disable intr_enable
restore intr_on = refl
restore intr_off = refl
