-- ===== src/Str.antt =====
-- lib/string.c over a memory of bytes. A loop to a terminating 0 runs on fuel; a loop over a size
-- counts the size down. `char` is signed on this machine, so two characters are compared with their
-- sign bit flipped. The children: blocks, strings, and what the functions do to them.
pub mod Blocks
pub mod Strings
pub mod Search
mod Examples
use geniux.Base.{
  ℕ, zero, suc, ◌+◌, ◌-◌, ◌%◌, Bool, true, false, not, ◌&&◌, ◌||◌, Option, none, some, ltb, ◌==◌,
  if◌then◌else◌, store, Outcome, ok, out_of_fuel, ◌>>=◌, ◌>>◌, assert, Mem, ℤ, pos, negsuc,
}

abbrev pub is_null : ℕ → Bool
is_null p = p == 0

-- `a < b` between two values of type `char`.
abbrev pub char_lt : ℕ → ℕ → Bool
char_lt a b = ltb ((a + 128) % 256) ((b + 128) % 256)

-- `while (size-- > 0) *(dst++) = value;`
pub fill : Mem → ℕ → ℕ → ℕ → Mem
fill m dst value zero = m
fill m dst value (suc size) = fill (store m dst value) (dst + 1) value size

unfoldable pub memset : Mem → ℕ → ℕ → ℕ → Outcome Mem
unfolding fill
memset m dst value size = do assert (not (is_null dst)); ok (fill m dst value size)

-- `while (size-- > 0) *(dst++) = *(src++);`
pub copy : Mem → ℕ → ℕ → ℕ → Mem
copy m dst src zero = m
copy m dst src (suc size) = copy (store m dst (m src)) (dst + 1) (src + 1) size

unfoldable pub memcpy : Mem → ℕ → ℕ → ℕ → Outcome Mem
unfolding copy
memcpy m dst src size = do
  assert (not (is_null dst))
  assert (not (is_null src))
  ok (copy m dst src size)

pub compare_bytes : Mem → ℕ → ℕ → ℕ → ℤ
compare_bytes m a b zero = pos 0
compare_bytes m a b (suc size) =
    let rest = compare_bytes m (a + 1) (b + 1) size in
    if char_lt (m b) (m a) then pos 1 else if char_lt (m a) (m b) then negsuc 0 else rest

unfoldable pub memcmp : Mem → ℕ → ℕ → ℕ → Outcome ℤ
unfolding compare_bytes
memcmp m a b size = do assert (not (is_null a) || not (is_null b)); ok (compare_bytes m a b size)

-- `while ((*(dst++) = *(src++)));`: the memory after, and where `dst` stands then.
pub copy_string : ℕ → Mem → ℕ → ℕ → Outcome Mem
copy_string zero m dst src = out_of_fuel
copy_string (suc fuel) m dst src =
    let m' = store m dst (m src) in
    let rest = copy_string fuel m' (dst + 1) (src + 1) in if m src == 0 then ok m' else rest

unfoldable pub strcpy : ℕ → Mem → ℕ → ℕ → Outcome (ℕ × Mem)
unfolding copy_string
strcpy fuel m dst src = do
  assert (not (is_null dst) && not (is_null src))
  m' ← copy_string fuel m dst src
  ok (dst, m')

-- `while (*(p++));`: where `p` stands after.
pub find_end : ℕ → Mem → ℕ → Outcome ℕ
find_end zero m p = out_of_fuel
find_end (suc fuel) m p =
    let rest = find_end fuel m (p + 1) in if m p == 0 then ok (p + 1) else rest

unfoldable pub strlen : ℕ → Mem → ℕ → Outcome ℕ
unfolding find_end
strlen fuel m str = do assert (not (is_null str)); p ← find_end fuel m str; ok (p - str - 1)

pub compare_strings : ℕ → Mem → ℕ → ℕ → Outcome ℤ
compare_strings zero m a b = out_of_fuel
compare_strings (suc fuel) m a b =
    let rest = compare_strings fuel m (a + 1) (b + 1) in
    if not (m a == 0) && (m a == m b)
    then rest
    else ok (if char_lt (m a) (m b) then negsuc 0 else if char_lt (m b) (m a) then pos 1 else pos 0)

unfoldable pub strcmp : ℕ → Mem → ℕ → ℕ → Outcome ℤ
unfolding compare_strings
strcmp fuel m a b = do assert (not (is_null a) && not (is_null b)); compare_strings fuel m a b

-- `*str == ch` compares a `char` with a `uint8_t`: a byte from 128 on is negative as a `char`, and
-- equals no `uint8_t`.
abbrev pub char_is : ℕ → ℕ → Bool
char_is c ch = ltb c 128 && (c == ch)

-- `none` is the NULL of the source.
pub find_char : ℕ → Mem → ℕ → ℕ → Outcome (Option ℕ)
find_char zero m str ch = out_of_fuel
find_char (suc fuel) m str ch =
    let rest = find_char fuel m (str + 1) ch in
    if m str == 0 then ok none else if char_is (m str) ch then ok (some str) else rest

unfoldable pub strch : ℕ → Mem → ℕ → ℕ → Outcome (Option ℕ)
unfolding find_char
strch fuel m str ch = do assert (not (is_null str)); find_char fuel m str ch

pub find_last : ℕ → Mem → ℕ → ℕ → Option ℕ → Outcome (Option ℕ)
find_last zero m str ch chr = out_of_fuel
find_last (suc fuel) m str ch chr =
    let chr' = if char_is (m str) ch then some str else chr in
    let rest = find_last fuel m (str + 1) ch chr' in if m str == 0 then ok chr else rest

unfoldable pub strrch : ℕ → Mem → ℕ → ℕ → Outcome (Option ℕ)
unfolding find_last
strrch fuel m str ch = do assert (not (is_null str)); find_last fuel m str ch none

-- The first loop leaves `dst_` behind the terminating 0, and `--dst_` takes it back.
unfoldable pub strcat : ℕ → Mem → ℕ → ℕ → Outcome (ℕ × Mem)
unfolding find_end copy_string
strcat fuel m dst src = do
  assert (not (is_null dst) && not (is_null src))
  end ← find_end fuel m dst
  m' ← copy_string fuel m (end - 1) src
  ok (dst, m')

pub count_char : ℕ → Mem → ℕ → ℕ → ℕ → Outcome ℕ
count_char zero m str ch count = out_of_fuel
count_char (suc fuel) m str ch count =
    let rest = count_char fuel m (str + 1) ch (if char_is (m str) ch then count + 1 else count) in
    if m str == 0 then ok count else rest

unfoldable pub strchrs : ℕ → Mem → ℕ → ℕ → Outcome ℕ
unfolding count_char
strchrs fuel m str ch = do assert (not (is_null str)); count_char fuel m str ch 0
