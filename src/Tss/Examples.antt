-- ===== src/Tss/Examples.antt =====
-- An instance: the structure at 0xc0003000, and the thread at 0xc0101000.
use geniux.Base.{ℕ, ◌+◌, ◌*◌, ◌/◌, ◌%◌, ◌^◌, ◌≤◌, ◌≡◌, ◌≢◌, arith}
use geniux.Tss.{
  Descriptors, make_gdt_desc, tss_init, update_tss_esp, selector_u_code, selector_u_data,
  selector_k_stack, ss0, esp0, io_base,
}
use geniux.Tss.Segments.{Describes, selected, tss_init_lem, make_gdt_desc_lem}

abbrev blank : Descriptors
blank = record { tss = λ word. 5; gdt = λ a. make_gdt_desc 0 0 0 0; gdtr = 0; tr = 0 }

tss_init_example :
    let s' = update_tss_esp 0xc0101000 (tss_init 0xc0003000 blank) in
    Describes (selected s' s'.tr) 0xc0003000 107 0x89 0x80
    × Describes (selected s' selector_u_code) 0 0xfffff 0xf8 0xc0
    × Describes (selected s' selector_u_data) 0 0xfffff 0xf2 0xc0
    × (selector_u_data / 8 * 8 + 7 ≤ s'.gdtr % 2 ^ 16)
    × ((a : ℕ) → a ≢ 0xc0000923 → a ≢ 0xc000092b → a ≢ 0xc0000933 → s'.gdt a ≡ blank.gdt a)
    × (s'.tss ss0 ≡ selector_k_stack)
    × (s'.tss esp0 ≡ 0xc0101000 + 4096)
    × (s'.tss io_base ≡ 108)
tss_init_example = tss_init_lem 0xc0003000 0xc0101000 blank (omega arith) (omega arith)

make_gdt_desc_example : Describes (make_gdt_desc 0xc0003000 107 0x89 0x80) 0xc0003000 107 0x89 0x80
make_gdt_desc_example =
    make_gdt_desc_lem 0xc0003000 107 0x89 8 (omega arith) (omega arith) (omega arith) (omega arith)
