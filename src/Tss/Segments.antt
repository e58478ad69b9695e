-- ===== src/Tss/Segments.antt =====
-- What the descriptors of userprog/tss.c describe, and where the selectors lead.
use geniux.Base.{ℕ, ◌+◌, ◌*◌, ◌/◌, ◌%◌, ◌^◌, ◌<◌, ◌≤◌, ◌≡◌, ◌≢◌, refl, arith}
use geniux.Tss.{
  GdtDesc, Descriptors, make_gdt_desc, update_tss_esp, tss_init, selector_k_stack, selector_u_code,
  selector_u_data, esp0, ss0, io_base,
}

-- What the processor reads in a descriptor.
abbrev pub base_of : GdtDesc → ℕ
base_of d = d.base_low_word + d.base_mid_byte * 2 ^ 16 + d.base_high_byte * 2 ^ 24

abbrev pub limit_of : GdtDesc → ℕ
limit_of d = d.limit_low_word + d.limit_high_attr_high % 2 ^ 4 * 2 ^ 16

abbrev pub attr_high_of : GdtDesc → ℕ
attr_high_of d = d.limit_high_attr_high / 2 ^ 4 * 2 ^ 4

-- The base, the limit and the attributes of a descriptor.
abbrev pub Describes : GdtDesc → ℕ → ℕ → ℕ → ℕ → Type 0
Describes d base limit attr_low attr_high =
    (base_of d ≡ base)
    × (limit_of d ≡ limit)
    × (d.attr_low_byte ≡ attr_low)
    × (attr_high_of d ≡ attr_high)

-- The processor reads in the descriptor what it was made of: a base of 32 bits, a limit of 20 bits,
-- and the attributes, of which the high ones leave their lower four bits to the limit.
pub make_gdt_desc_lem :
    (base limit attr_low flags : ℕ)
    → base < 2 ^ 32
    → limit < 2 ^ 20
    → attr_low < 2 ^ 8
    → flags < 2 ^ 4
    → Describes
        (make_gdt_desc base limit attr_low (flags * 2 ^ 4))
        base
        limit
        attr_low
        (flags * 2 ^ 4)
unfolding make_gdt_desc
make_gdt_desc_lem base limit attr_low flags b l a f =
    (omega arith, omega arith, omega arith, omega arith)

-- The descriptor that a selector chooses in the table that `gdtr` gives.
abbrev pub selected : Descriptors → ℕ → GdtDesc
selected s selector = s.gdt (s.gdtr / 2 ^ 16 + selector / 8 * 8)

-- After `tss_init` the task register selects a present system segment of the 108 bytes of `tss`, the
-- selectors of a user's code and data select all 4 GB in pages of 4 KB for level 3, all three lie
-- inside the table, the other descriptors are as before, and the stack of level 0 that the processor
-- takes on an interrupt is in the kernel's segment, at the end of the page of the thread that
-- `update_tss_esp` was called for. The addresses have 32 bits.
pub tss_init_lem :
    (address pthread : ℕ) (s : Descriptors)
    → address < 2 ^ 32
    → pthread + 4096 < 2 ^ 32
    → let s' = update_tss_esp pthread (tss_init address s) in
      Describes (selected s' s'.tr) address 107 0x89 0x80
      × Describes (selected s' selector_u_code) 0 0xfffff 0xf8 0xc0
      × Describes (selected s' selector_u_data) 0 0xfffff 0xf2 0xc0
      × (selector_u_data / 8 * 8 + 7 ≤ s'.gdtr % 2 ^ 16)
      × ((a : ℕ) → a ≢ 0xc0000923 → a ≢ 0xc000092b → a ≢ 0xc0000933 → s'.gdt a ≡ s.gdt a)
      × (s'.tss ss0 ≡ selector_k_stack)
      × (s'.tss esp0 ≡ pthread + 4096)
      × (s'.tss io_base ≡ 108)
unfolding tss_init update_tss_esp
tss_init_lem address pthread s small page = (
  make_gdt_desc_lem address 107 0x89 8 small (omega arith) (omega arith) (omega arith),
  make_gdt_desc_lem 0 0xfffff 0xf8 12 (omega arith) (omega arith) (omega arith) (omega arith),
  make_gdt_desc_lem 0 0xfffff 0xf2 12 (omega arith) (omega arith) (omega arith) (omega arith),
  omega arith,
  λ a x y z. ground (arith, x, y, z),
  refl,
  omega arith,
  refl,
)
