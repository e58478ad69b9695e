-- ===== src/Bitmap/Examples.antt =====
-- Tests and instances: a bitmap of two bytes at 100 of which only the last bit is clear.
use geniux.Base.{Mem, IsBytes, ◌≡◌, refl, false, arith, some, ok, store}
use geniux.Bitmap.{Bitmap, bitmap_scan, skip_full, skip_set, scan_run, bitmap_scan_test, bit_set}
use geniux.Bitmap.Run.{bitmap_scan-run, Found}

abbrev bm : Bitmap
bm = record { btmp_bytes_len = 2; bits = 100 }

abbrev mem : Mem
mem = store (store (store (λ _. 0xaa) 100 0xff) 101 0x7f) 102 0

mem-IsBytes : IsBytes mem
mem-IsBytes a = ground arith

scan_past_end : bitmap_scan mem bm 2 ≡ ok (some 15)
unfolding bitmap_scan skip_full skip_set scan_run bitmap_scan_test bit_set
scan_past_end = refl

scan_one : bitmap_scan mem bm 1 ≡ ok (some 15)
unfolding bitmap_scan skip_full skip_set scan_run bitmap_scan_test bit_set
scan_one = refl

last_clear : bitmap_scan_test mem bm 15 ≡ false
unfolding bitmap_scan_test bit_set
last_clear = refl

bitmap_scan-run_example : Found mem bm 2
bitmap_scan-run_example =
    bitmap_scan-run mem bm 2 15 mem-IsBytes (omega arith) (omega arith) last_clear
