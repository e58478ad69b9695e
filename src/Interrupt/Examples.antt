-- ===== src/Interrupt/Examples.antt =====
-- Instances: entries at one address, and no interrupt registered yet.
use geniux.Base.{ℕ, ◌<◌, ◌≤◌, ◌≡◌, refl, arith}
use geniux.Interrupt.Idt.{Vectors, idt_init, general_intr_handler, spins, returns}
use geniux.Interrupt.Vectors.{IsGate, idt_init_lem}

abbrev blank : Vectors
blank = record {
  idt = λ j. record {
    func_offset_low_word = 0;
    selector = 0;
    dcount = 0;
    attribute = 0;
    func_offset_high_word = 0;
  };
  idt_table = λ j. 0;
}

abbrev entry_point : ℕ → ℕ
entry_point j = 0xc0001500

idt_init_example :
    let v' = (idt_init entry_point 0xc0001800 0xc0001900 0xc0002000 blank).0 in
    (0x21 < 0x80 → IsGate (v'.idt 0x21) (entry_point 0x21) 0)
    × IsGate (v'.idt 0x80) 0xc0001800 3
    × (0x21 < 0x81 → v'.idt_table 0x21 ≡ 0xc0001900)
    × (0x81 ≤ 0x21 → (v'.idt 0x21 ≡ blank.idt 0x21) × (v'.idt_table 0x21 ≡ blank.idt_table 0x21))
idt_init_example =
    idt_init_lem entry_point 0xc0001800 0xc0001900 0xc0002000 0x21 blank (λ k. omega arith)
      (omega arith)

-- A vector with no handler of its own stops the machine, but for the two that may be spurious.
general_test : (general_intr_handler 13 ≡ spins) × (general_intr_handler 0x2f ≡ returns)
unfolding general_intr_handler
general_test = (refl, refl)
