-- ===== src/Interrupt/Idt.antt =====
-- kernel/interrupt.c: the interrupt descriptor table, the table of handlers and the two 8259A chips.
-- A function is its 32-bit address. The names of the exceptions are left out: they are only printed.
use geniux.Base.{
  ℕ, zero, suc, ◌+◌, ◌-◌, ◌*◌, ◌/◌, ◌%◌, ◌^◌, ◌==◌, ◌||◌, if◌then◌else◌, List, [], ◌∷◌, store,
}

abbrev pub idt_desc_cnt : ℕ
idt_desc_cnt = 0x81

abbrev pub idt_desc_attr_dpl0 : ℕ
idt_desc_attr_dpl0 = 1 * 2 ^ 7 + 0 * 2 ^ 5 + 0xe

abbrev pub idt_desc_attr_dpl3 : ℕ
idt_desc_attr_dpl3 = 1 * 2 ^ 7 + 3 * 2 ^ 5 + 0xe

abbrev pub selector_k_code : ℕ
selector_k_code = 1 * 2 ^ 3 + 0 * 2 ^ 2 + 0

pub record GateDesc : Type 0 where
  pub func_offset_low_word : ℕ
  pub selector : ℕ
  pub dcount : ℕ
  pub attribute : ℕ
  pub func_offset_high_word : ℕ

-- `& 0x0000FFFF` and `& 0xFFFF0000`, shifted, are the two halves of the address.
unfoldable pub make_idt_desc : ℕ → ℕ → GateDesc
make_idt_desc attr function = record {
  func_offset_low_word = function % 2 ^ 16;
  selector = selector_k_code;
  dcount = 0;
  attribute = attr % 2 ^ 8;
  func_offset_high_word = function % 2 ^ 32 / 2 ^ 16;
}

pub record Vectors : Type 0 where
  pub idt : ℕ → GateDesc
  pub idt_table : ℕ → ℕ

-- The loop of `idt_desc_init` from `i` on; `left` gates are still to be made.
unfoldable pub make_gates : ℕ → (ℕ → ℕ) → ℕ → (ℕ → GateDesc) → ℕ → GateDesc
make_gates zero intr_entry_table i idt = idt
make_gates (suc left) intr_entry_table i idt =
    make_gates left intr_entry_table (i + 1)
      (store idt i (make_idt_desc idt_desc_attr_dpl0 (intr_entry_table i)))

unfoldable pub idt_desc_init : (ℕ → ℕ) → ℕ → Vectors → Vectors
idt_desc_init intr_entry_table syscall_handler v =
    let lastindex = idt_desc_cnt - 1 in
    let gates = make_gates idt_desc_cnt intr_entry_table 0 v.idt in
    record v { idt = store gates lastindex (make_idt_desc idt_desc_attr_dpl3 syscall_handler) }

-- The loop of `exception_init` from `i` on.
unfoldable pub set_handlers : ℕ → ℕ → ℕ → (ℕ → ℕ) → ℕ → ℕ
set_handlers zero general i table = table
set_handlers (suc left) general i table = set_handlers left general (i + 1) (store table i general)

-- `general` is the address of `general_intr_handler`.
unfoldable pub exception_init : ℕ → Vectors → Vectors
exception_init general v = record v { idt_table = set_handlers idt_desc_cnt general 0 v.idt_table }

unfoldable pub register_handler : ℕ → ℕ → Vectors → Vectors
register_handler vec_no function v = record v { idt_table = store v.idt_table vec_no function }

-- The writes to ports, each a port and a byte.
unfoldable pub pic_init : List (ℕ × ℕ)
pic_init =
    (0x20, 0x11)
    ∷ (0x21, 0x20)
    ∷ (0x21, 0x04)
    ∷ (0x21, 0x01)
    ∷ (0xa0, 0x11)
    ∷ (0xa1, 0x28)
    ∷ (0xa1, 0x02)
    ∷ (0xa1, 0x01)
    ∷ (0x21, 0xf8)
    ∷ (0xa1, 0xbf)
    ∷ []

-- The tables, the writes to the chips, and the operand of `lidt`; `base` is the address of `idt`, and
-- the two parts of the operand have no bit in common.
unfoldable pub idt_init : (ℕ → ℕ) → ℕ → ℕ → ℕ → Vectors → Vectors × List (ℕ × ℕ) × ℕ
unfolding idt_desc_init exception_init pic_init
idt_init intr_entry_table syscall_handler general base v =
    let v1 = exception_init general (idt_desc_init intr_entry_table syscall_handler v) in
    (v1, pic_init, idt_desc_cnt * 8 - 1 + base * 2 ^ 16)

-- How `general_intr_handler` ends: it returns, or prints its message and loops for ever.
pub data Ending : Type 0 where
  returns spins : Ending

unfoldable pub general_intr_handler : ℕ → Ending
general_intr_handler vec_nr = if vec_nr == 0x27 || vec_nr == 0x2f then returns else spins
