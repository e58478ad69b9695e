-- ===== src/Keyboard/Keymap.antt =====
-- The table `keymap` of device/keyboard.c: the two characters of each key, 0 for a key that has
-- none. A row stands at its make code; 27 is esc, 8 backspace, 9 tab and 13 enter.
use geniux.Base.{ℕ, zero, suc, List, [], ◌∷◌}

abbrev pub keymap : List (ℕ × ℕ)
keymap =
    (0, 0)
    ∷ (27, 27)
    ∷ (49, 33)
    ∷ (50, 64)
    ∷ (51, 35)
    ∷ (52, 36)
    ∷ (53, 37)
    ∷ (54, 94)
    ∷ (55, 38)
    ∷ (56, 42)
    ∷ (57, 40)
    ∷ (48, 41)
    ∷ (45, 95)
    ∷ (61, 43)
    ∷ (8, 8)
    ∷ (9, 9)
    ∷ (113, 81)
    ∷ (119, 87)
    ∷ (101, 69)
    ∷ (114, 82)
    ∷ (116, 84)
    ∷ (121, 89)
    ∷ (117, 85)
    ∷ (105, 73)
    ∷ (111, 79)
    ∷ (112, 80)
    ∷ (91, 123)
    ∷ (93, 125)
    ∷ (13, 13)
    ∷ (0, 0)
    ∷ (97, 65)
    ∷ (115, 83)
    ∷ (100, 68)
    ∷ (102, 70)
    ∷ (103, 71)
    ∷ (104, 72)
    ∷ (106, 74)
    ∷ (107, 75)
    ∷ (108, 76)
    ∷ (59, 58)
    ∷ (39, 34)
    ∷ (96, 126)
    ∷ (0, 0)
    ∷ (92, 124)
    ∷ (122, 90)
    ∷ (120, 88)
    ∷ (99, 67)
    ∷ (118, 86)
    ∷ (98, 66)
    ∷ (110, 78)
    ∷ (109, 77)
    ∷ (44, 60)
    ∷ (46, 62)
    ∷ (47, 63)
    ∷ (0, 0)
    ∷ (42, 42)
    ∷ (0, 0)
    ∷ (32, 32)
    ∷ (0, 0)
    ∷ []

-- `keymap[index]`; no index out of the table is read.
abbrev pub row : List (ℕ × ℕ) → ℕ → ℕ × ℕ
row [] i = (0, 0)
row (r ∷ rs) zero = r
row (r ∷ rs) (suc i) = row rs i
