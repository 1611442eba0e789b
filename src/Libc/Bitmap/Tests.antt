-- ===== src/Libc/Bitmap/Tests.antt =====
-- Runs of bitmap.c's functions, and its theorems at a concrete map.
use onix.Base.{ℕ, ◌≡◌, refl, some, [], ◌∷◌, arith}
use onix.Libc.Bitmap.{Bitmap, test, set_bit, new_byte, eof, scan, find_run, mark_run, counted}
use onix.Libc.Bitmap.Bits.{IsValid}
use onix.Libc.Bitmap.Scan.{FirstFit, scan-FirstFit}

-- Sixteen bits from number 100 on, of which the first and the third are taken.
abbrev sixteen : Bitmap
sixteen = record { bits = 5 ∷ 0 ∷ []; length = 2; offset = 100 }

sixteen-IsValid : IsValid sixteen
sixteen-IsValid = omega arith

scan_three : scan sixteen 3 ≡ some (103, record sixteen { bits = 0x3d ∷ 0 ∷ [] })
unfolding scan find_run mark_run counted test set_bit new_byte
scan_three = refl

scan_too_long : scan sixteen 14 ≡ some (eof, sixteen)
unfolding scan find_run mark_run counted test set_bit new_byte
scan_too_long = refl

scan-FirstFit_example : (r : ℕ × Bitmap) × (scan sixteen 3 ≡ some r) × FirstFit sixteen 3 r
scan-FirstFit_example = scan-FirstFit sixteen 3 sixteen-IsValid (omega arith)
