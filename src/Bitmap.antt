-- ===== src/Bitmap.antt =====
-- The free-space bitmap of fs/bitmap.rs. A byte of the bitmap is a number below 256.
pub mod Bits
pub mod Invariant
pub mod Alloc
pub mod Count
mod Examples
use album_fs.Common.{
  ℕ, zero, suc, ◌+◌, ◌-◌, ◌*◌, ◌/◌, ◌%◌, ◌^◌, bit_and, bit_or, Bool, ◌&&◌, List, length, min, ltb,
  ◌==◌, if◌then◌else◌, div_ceil, get_or, set, take, replicate, copy_at, Result, ok, err,
}
use album_fs.Fs.{FsError, no_space}

pub record Bitmap : Type 0 where
  pub bits : List ℕ
  pub total_blocks : ℕ

-- `(byte >> k) & 1 == 1`, `byte | 1 << k` and `byte & !(1 << k)` on a byte.
unfoldable pub test_bit : ℕ → ℕ → Bool
test_bit byte k = bit_and (byte / 2 ^ k) 1 == 1

unfoldable pub set_bit : ℕ → ℕ → ℕ
set_bit byte k = bit_or byte (2 ^ k)

unfoldable pub clear_bit : ℕ → ℕ → ℕ
clear_bit byte k = bit_and byte (255 - 2 ^ k)

unfoldable pub new : ℕ → Bitmap
new total = record { bits = replicate (div_ceil total 8) 0; total_blocks = total }

unfoldable pub from_bytes : List ℕ → ℕ → Bitmap
from_bytes bytes total =
    let len = div_ceil total 8 in
    let n = min len (length bytes) in
    record { bits = copy_at (replicate len 0) 0 (take n bytes); total_blocks = total }

abbrev pub as_bytes : Bitmap → List ℕ
as_bytes b = b.bits

-- An index out of range panics in the source; a well-formed bitmap has a byte for each block.
unfoldable pub is_set : Bitmap → ℕ → Bool
is_set b block = ltb block b.total_blocks && test_bit (get_or b.bits (block / 8) 0) (block % 8)

unfoldable pub set_block : Bitmap → ℕ → Bitmap
set_block b block =
    if ltb block b.total_blocks
    then record b {
      bits = set b.bits (block / 8) (set_bit (get_or b.bits (block / 8) 0) (block % 8));
    }
    else b

unfoldable pub clear_block : Bitmap → ℕ → Bitmap
clear_block b block =
    if ltb block b.total_blocks
    then record b {
      bits = set b.bits (block / 8) (clear_bit (get_or b.bits (block / 8) 0) (block % 8));
    }
    else b

-- The clear blocks among the `n` from `block` on.
unfoldable pub count_clear : Bitmap → ℕ → ℕ → ℕ
count_clear b block zero = 0
count_clear b block (suc n) = (if is_set b block then 0 else 1) + count_clear b (block + 1) n

unfoldable pub count_free : Bitmap → ℕ
count_free b = count_clear b 0 b.total_blocks

-- The loop of `alloc_from` with `n` blocks left to try. The bitmap is part of the result.
unfoldable pub alloc_loop : Bitmap → ℕ → ℕ → Result FsError ℕ × Bitmap
alloc_loop b block zero = (err no_space, b)
alloc_loop b block (suc n) =
    let rest = alloc_loop b (block + 1) n in
    if is_set b block then rest else (ok block, set_block b block)

unfoldable pub alloc_from : Bitmap → ℕ → Result FsError ℕ × Bitmap
alloc_from b from = alloc_loop b from (b.total_blocks - from)
