-- ===== src/Tss.antt =====
-- userprog/tss.c: the task state segment and the descriptors that `tss_init` adds to the GDT. `tss`
-- is the structure's 27 words by their numbers, `gdt` the descriptors by their addresses.
pub mod Segments
mod Examples
use geniux.Base.{ℕ, ◌+◌, ◌-◌, ◌*◌, ◌/◌, ◌%◌, ◌^◌, store}

-- `struct gdt_desc` of kernel/global.h.
pub record GdtDesc : Type 0 where
  pub limit_low_word : ℕ
  pub base_low_word : ℕ
  pub base_mid_byte : ℕ
  pub attr_low_byte : ℕ
  pub limit_high_attr_high : ℕ
  pub base_high_byte : ℕ

-- The mask of each part, and the shift that follows it.
unfoldable pub make_gdt_desc : ℕ → ℕ → ℕ → ℕ → GdtDesc
make_gdt_desc desc_base limit attr_low attr_high = record {
  limit_low_word = limit % 2 ^ 16;
  base_low_word = desc_base % 2 ^ 16;
  base_mid_byte = desc_base / 2 ^ 16 % 2 ^ 8;
  attr_low_byte = attr_low % 2 ^ 8;
  limit_high_attr_high = (limit / 2 ^ 16 % 2 ^ 4 + attr_high % 2 ^ 8) % 2 ^ 8;
  base_high_byte = desc_base / 2 ^ 24 % 2 ^ 8;
}

abbrev pub selector_k_stack : ℕ
selector_k_stack = 2 * 2 ^ 3 + 0 * 2 ^ 2 + 0

abbrev pub selector_u_code : ℕ
selector_u_code = 5 * 2 ^ 3 + 0 * 2 ^ 2 + 3

abbrev pub selector_u_data : ℕ
selector_u_data = 6 * 2 ^ 3 + 0 * 2 ^ 2 + 3

abbrev pub selector_tss : ℕ
selector_tss = 4 * 2 ^ 3 + 0 * 2 ^ 2 + 0

abbrev pub gdt_attr_high : ℕ
gdt_attr_high = 1 * 2 ^ 7 + 1 * 2 ^ 6 + 0 * 2 ^ 5 + 0 * 2 ^ 4

abbrev pub gdt_code_attr_low_dpl3 : ℕ
gdt_code_attr_low_dpl3 = 1 * 2 ^ 7 + 3 * 2 ^ 5 + 1 * 2 ^ 4 + 8

abbrev pub gdt_data_attr_low_dpl3 : ℕ
gdt_data_attr_low_dpl3 = 1 * 2 ^ 7 + 3 * 2 ^ 5 + 1 * 2 ^ 4 + 2

abbrev pub tss_attr_high : ℕ
tss_attr_high = 1 * 2 ^ 7 + 0 * 2 ^ 6 + 0 * 2 ^ 5 + 0 * 2 ^ 4

abbrev pub tss_attr_low : ℕ
tss_attr_low = 1 * 2 ^ 7 + 0 * 2 ^ 5 + 0 * 2 ^ 4 + 9

-- The numbers of the words `esp0`, `ss0` and `io_base`.
abbrev pub esp0 : ℕ
esp0 = 1

abbrev pub ss0 : ℕ
ss0 = 2

abbrev pub io_base : ℕ
io_base = 26

pub record Descriptors : Type 0 where
  pub tss : ℕ → ℕ
  pub gdt : ℕ → GdtDesc
  pub gdtr : ℕ
  pub tr : ℕ

unfoldable pub update_tss_esp : ℕ → Descriptors → Descriptors
update_tss_esp pthread s = record s { tss = store s.tss esp0 ((pthread + 4096) % 2 ^ 32) }

-- `address` is that of `tss`. The two parts of the operand of `lgdt` have no bit in common.
unfoldable pub tss_init : ℕ → Descriptors → Descriptors
tss_init address s =
    let tss_size = 27 * 4 in
    let g1 =
      store s.gdt 0xc0000923 (make_gdt_desc address (tss_size - 1) tss_attr_low tss_attr_high) in
    let g2 = store g1 0xc000092b (make_gdt_desc 0 0xfffff gdt_code_attr_low_dpl3 gdt_attr_high) in
    let g3 = store g2 0xc0000933 (make_gdt_desc 0 0xfffff gdt_data_attr_low_dpl3 gdt_attr_high) in
    record {
      tss = store (store (λ word. 0) ss0 selector_k_stack) io_base tss_size;
      gdt = g3;
      gdtr = 8 * 7 - 1 + 0xc0000903 * 2 ^ 16;
      tr = selector_tss;
    }
