-- ===== src/Interrupt/Vectors.antt =====
-- What the set-up of kernel/interrupt.c leaves: where each gate leads.
use geniux.Base.{
  ℕ, zero, suc, ◌+◌, ◌*◌, ◌/◌, ◌%◌, ◌^◌, ◌<◌, ◌≤◌, ◌≡◌, inl, inr, refl, ap, sym, ◌∙◌, true, false,
  ◌==◌, ◌&&◌, ltb, leb, if◌then◌else◌, store, arith, Bool-cases, ==_iff, subst,
}
use geniux.Interrupt.Idt.{
  GateDesc, Vectors, make_idt_desc, make_gates, idt_desc_init, set_handlers, exception_init,
  idt_desc_attr_dpl3, idt_init,
}

-- What the processor reads in a gate: the handler's address and the privilege that may call it.
abbrev pub gate_offset : GateDesc → ℕ
gate_offset g = g.func_offset_low_word + g.func_offset_high_word * 2 ^ 16

abbrev pub gate_dpl : GateDesc → ℕ
gate_dpl g = g.attribute / 2 ^ 5 % 4

abbrev pub gate_present : GateDesc → ℕ
gate_present g = g.attribute / 2 ^ 7 % 2

offset-make_idt_desc : (attr f : ℕ) → f < 2 ^ 32 → gate_offset (make_idt_desc attr f) ≡ f
unfolding make_idt_desc
offset-make_idt_desc attr f small = omega arith

-- One round of a loop that writes the entry `i` of a table.
loop_step {ℓ} :
    {A : Type ℓ} (left i j : ℕ) (x w y : A)
    → (i ≡ j → w ≡ x)
    → (if leb (i + 1) j && ltb j (i + 1 + left) then x else (if i == j then w else y))
      ≡ (if leb i j && ltb j (i + suc left) then x else y)
loop_step left i j x w y h = elim (Bool-cases (i == j)) [
  | inl same ↦
      (let e : i ≡ j = (==_iff i j).0 same in
        let later : (leb (i + 1) j && ltb j (i + 1 + left)) ≡ false = ground (arith, e) in
        let now : (leb i j && ltb j (i + suc left)) ≡ true = ground (arith, e) in
        rw (later, same, now) (h e))
  | inr other ↦
      (let tests : (leb (i + 1) j && ltb j (i + 1 + left)) ≡ (leb i j && ltb j (i + suc left)) =
          ground arith in
        rw (other, tests) refl)
]

make_gates_lem :
    (left i j : ℕ) (entry : ℕ → ℕ) (idt : ℕ → GateDesc)
    → make_gates left entry i idt j
      ≡ (if leb i j && ltb j (i + left) then make_idt_desc 0x8e (entry j) else idt j)
unfolding make_gates
make_gates_lem zero i j entry idt = ground arith
make_gates_lem (suc left) i j entry idt =
    make_gates_lem left (i + 1) j entry _
    ∙ loop_step left i j (make_idt_desc 0x8e (entry j)) (make_idt_desc 0x8e (entry i)) (idt j)
        (λ e. ap (λ (k : ℕ). make_idt_desc 0x8e (entry k)) e)

set_handlers_lem :
    (left i j general : ℕ) (table : ℕ → ℕ)
    → set_handlers left general i table j
      ≡ (if leb i j && ltb j (i + left) then general else table j)
unfolding set_handlers
set_handlers_lem zero i j general table = ground arith
set_handlers_lem (suc left) i j general table =
    set_handlers_lem left (i + 1) j general _
    ∙ loop_step left i j general general (table j) (λ e. refl)

-- The handler of a vector is in the kernel's code segment, behind a gate that is present.
abbrev pub IsGate : GateDesc → ℕ → ℕ → Type 0
IsGate g function dpl =
    (gate_offset g ≡ function) × (g.selector ≡ 8) × (gate_present g ≡ 1) × (gate_dpl g ≡ dpl)

make_idt_desc-IsGate :
    (dpl f : ℕ) → f < 2 ^ 32 → dpl < 4 → IsGate (make_idt_desc (0x8e + dpl * 2 ^ 5) f) f dpl
unfolding make_idt_desc
make_idt_desc-IsGate dpl f small four =
    (offset-make_idt_desc (0x8e + dpl * 2 ^ 5) f small, refl, omega arith, omega arith)

-- The gates below the last one, and what lies behind them.
gates_lem :
    (j : ℕ) (entry : ℕ → ℕ) (idt : ℕ → GateDesc) (last : GateDesc)
    → (j < 0x80 → store (make_gates 0x81 entry 0 idt) 0x80 last j ≡ make_idt_desc 0x8e (entry j))
      × (0x81 ≤ j → store (make_gates 0x81 entry 0 idt) 0x80 last j ≡ idt j)
gates_lem j entry idt last = (below, beyond)
  where
    below :
        j < 0x80 → store (make_gates 0x81 entry 0 idt) 0x80 last j ≡ make_idt_desc 0x8e (entry j)
    below h =
        let other : (0x80 == j) ≡ false = ground (arith, h) in
        let inside : (leb 0 j && ltb j (0 + 0x81)) ≡ true = ground (arith, h) in
        rw (other, make_gates_lem 0x81 0 j entry idt, inside) refl

    beyond : 0x81 ≤ j → store (make_gates 0x81 entry 0 idt) 0x80 last j ≡ idt j
    beyond h =
        let other : (0x80 == j) ≡ false = ground (arith, h) in
        let outside : (leb 0 j && ltb j (0 + 0x81)) ≡ false = ground (arith, h) in
        rw (other, make_gates_lem 0x81 0 j entry idt, outside) refl

handlers_lem :
    (j general : ℕ) (table : ℕ → ℕ)
    → (j < 0x81 → set_handlers 0x81 general 0 table j ≡ general)
      × (0x81 ≤ j → set_handlers 0x81 general 0 table j ≡ table j)
handlers_lem j general table = (
  λ h. set_handlers_lem 0x81 0 j general table ∙ ground (arith, h),
  λ h. set_handlers_lem 0x81 0 j general table ∙ ground (arith, h),
)

-- After `idt_init` each vector from 0 to 0x80 has a gate that leads to its entry of kernel.S and that
-- only the kernel may call, but the last, 0x80, which leads to the handler of system calls and which
-- a user's program may call; each has the general handler in the table of handlers, and nothing
-- beyond them in the two tables changes. The entries are 32-bit addresses.
pub idt_init_lem :
    (entry : ℕ → ℕ) (syscall_handler general base j : ℕ) (v : Vectors)
    → ((k : ℕ) → entry k < 2 ^ 32)
    → syscall_handler < 2 ^ 32
    → let v' = (idt_init entry syscall_handler general base v).0 in
      (j < 0x80 → IsGate (v'.idt j) (entry j) 0)
      × IsGate (v'.idt 0x80) syscall_handler 3
      × (j < 0x81 → v'.idt_table j ≡ general)
      × (0x81 ≤ j → (v'.idt j ≡ v.idt j) × (v'.idt_table j ≡ v.idt_table j))
unfolding idt_init idt_desc_init exception_init
idt_init_lem entry syscall_handler general base j v small call =
    let last = make_idt_desc idt_desc_attr_dpl3 syscall_handler in
    let gates = gates_lem j entry v.idt last in
    let handlers = handlers_lem j general v.idt_table in
    (
      (λ h.
          subst (λ (g : GateDesc). IsGate g (entry j) 0) (sym (gates.0 h))
            (make_idt_desc-IsGate 0 (entry j) (small j) (omega arith))),
      make_idt_desc-IsGate 3 syscall_handler call (omega arith),
      handlers.0,
      λ h. (gates.1 h, handlers.1 h),
    )
