-- ===== src/Bitmap/Examples.antt =====
-- Runs of the bitmap on twenty blocks, and its theorems at concrete inputs.
use album_fs.Common.{
  ◌+◌, ◌≡◌, refl, not, ◌&&◌, ◌||◌, [], ◌∷◌, ◌++◌, ltb, ◌==◌, ok, err, arith, get_or, set,
}
use album_fs.Fs.{no_space}
use album_fs.Bitmap.{
  Bitmap, test_bit, set_bit, clear_bit, from_bytes, as_bytes, is_set, set_block, clear_block,
  count_clear, count_free, alloc_loop, alloc_from,
}
use album_fs.Bitmap.Invariant.{IsValid, is_set-set_block, is_set-clear_block, from_bytes-as_bytes}
use album_fs.Bitmap.Alloc.{Allocates, alloc_from-Allocates}
use album_fs.Bitmap.Count.{
  count_free-clear_block, count_free-alloc_from, is_set-clear_block-alloc_from,
}

-- Blocks 0 to 9 are in use.
abbrev used : Bitmap
used = record { bits = 255 ∷ 3 ∷ 0 ∷ []; total_blocks = 20 }

used-IsValid : IsValid used
used-IsValid = omega arith

alloc_run : alloc_from used 5 ≡ (ok 10, record { bits = 255 ∷ 7 ∷ 0 ∷ []; total_blocks = 20 })
unfolding alloc_from alloc_loop is_set test_bit set_block set_bit get_or set
alloc_run = refl

alloc_full : (alloc_from (record { bits = 255 ∷ 3 ∷ []; total_blocks = 10 }) 2).0 ≡ err no_space
unfolding alloc_from alloc_loop is_set test_bit set_block set_bit get_or set
alloc_full = refl

free_run : count_free (clear_block used 4) ≡ 11
unfolding count_free count_clear is_set test_bit clear_block clear_bit get_or set
free_run = refl

is_set-set_block_example : is_set (set_block used 12) 9 ≡ ((12 == 9 && ltb 9 20) || is_set used 9)
is_set-set_block_example = is_set-set_block used 12 9 used-IsValid (omega arith)

is_set-clear_block_example : is_set (clear_block used 9) 9 ≡ (not (9 == 9) && is_set used 9)
is_set-clear_block_example = is_set-clear_block used 9 9 used-IsValid (omega arith)

from_bytes-as_bytes_example : from_bytes (as_bytes used ++ (7 ∷ [])) 20 ≡ used
from_bytes-as_bytes_example = from_bytes-as_bytes used (7 ∷ []) used-IsValid

alloc_from-Allocates_example : Allocates used 5 (alloc_from used 5)
alloc_from-Allocates_example = alloc_from-Allocates used 5

count_free-clear_block_example : count_free (clear_block used 4) ≡ count_free used + 1
unfolding is_set test_bit get_or
count_free-clear_block_example = count_free-clear_block used 4 used-IsValid (omega arith) refl

count_free-alloc_from_example :
    count_free (record { bits = 255 ∷ 7 ∷ 0 ∷ []; total_blocks = 20 }) + 1 ≡ count_free used
count_free-alloc_from_example =
    count_free-alloc_from used (record { bits = 255 ∷ 7 ∷ 0 ∷ []; total_blocks = 20 }) 5 10
      used-IsValid alloc_run

is_set-clear_block-alloc_from_example :
    is_set (clear_block (record { bits = 255 ∷ 7 ∷ 0 ∷ []; total_blocks = 20 }) 10) 3
    ≡ is_set used 3
is_set-clear_block-alloc_from_example =
    is_set-clear_block-alloc_from used (record { bits = 255 ∷ 7 ∷ 0 ∷ []; total_blocks = 20 }) 5 10
      3 used-IsValid alloc_run
