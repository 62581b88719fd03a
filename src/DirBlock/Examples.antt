-- ===== src/DirBlock/Examples.antt =====
-- Small directory blocks, and the theorems about the walks at them.
use album_fs.Common.{
  ℕ, ◌≡◌, ◌≢◌, refl, true, false, bytes_eq, List, [], ◌∷◌, ◌++◌, replicate, length,
  length-replicate, slice, take, drop, from_le, get_or, none, some, ok, err, panic, arith,
}
use album_fs.Fs.{range, index, manifest, ub}
use album_fs.Dirent.{DirEntry, decode}
use album_fs.DirBlock.{block_entries, add_in_block, remove_in_block}
use album_fs.DirBlock.Walk.{block_entries-ne-panic, add_in_block-ne-panic, remove_in_block-ne-panic}
use album_fs.DirBlock.Gap.{remove_breaks_block}

abbrev zeros : List ℕ
zeros = replicate ub 0

block_entries-ne-panic_example : block_entries (λ name. true) ub zeros 0 0 ≢ panic
block_entries-ne-panic_example =
    block_entries-ne-panic (λ name. true) zeros (length-replicate {A = ℕ} ub 0) ub 0 0 (omega arith)

add_in_block-ne-panic_example : add_in_block (λ name. true) ub zeros 7 (b'x' ∷ []) 1 0 ≢ panic
add_in_block-ne-panic_example =
    add_in_block-ne-panic (λ name. true) zeros (length-replicate {A = ℕ} ub 0) ub (b'x' ∷ []) 7 1 0
      (omega arith)

remove_in_block-ne-panic_example :
    remove_in_block (λ name. true) ub zeros (b'x' ∷ []) none 0 ≢ panic
remove_in_block-ne-panic_example =
    remove_in_block-ne-panic (λ name. true) zeros (length-replicate {A = ℕ} ub 0) ub (b'x' ∷ [])
      none 0 (omega arith) tt

-- "x" lives, "b" has been removed, "c" has the rest of the block.
abbrev kept : DirEntry
kept = record { inode = 9; rec_len = 16; name = b'x' ∷ []; file_type = 1 }

abbrev free : DirEntry
free = record { inode = 0; rec_len = 16; name = b'b' ∷ []; file_type = 1 }

abbrev gone : DirEntry
gone = record { inode = 8; rec_len = 4000; name = b'c' ∷ []; file_type = 1 }

abbrev gap : List ℕ
gap =
    (9 ∷ 0 ∷ 0 ∷ 0 ∷ 0 ∷ 0 ∷ 0 ∷ 0 ∷ 16 ∷ 0 ∷ 1 ∷ 1 ∷ b'x' ∷ 0 ∷ 0 ∷ 0 ∷ [])
    ++ (0 ∷ 0 ∷ 0 ∷ 0 ∷ 0 ∷ 0 ∷ 0 ∷ 0 ∷ 16 ∷ 0 ∷ 1 ∷ 1 ∷ b'b' ∷ 0 ∷ 0 ∷ 0 ∷ [])
    ++ (8 ∷ 0 ∷ 0 ∷ 0 ∷ 0 ∷ 0 ∷ 0 ∷ 0 ∷ 160 ∷ 15 ∷ 1 ∷ 1 ∷ b'c' ∷ [])
    ++ replicate 3987 0

gap-whole : length gap ≡ ub
unfolding replicate
gap-whole = refl

gap-kept : decode (λ name. true) gap 0 ≡ ok kept
unfolding decode range index slice get_or from_le replicate take drop
gap-kept = refl

gap-free : decode (λ name. true) gap 16 ≡ ok free
unfolding decode range index slice get_or from_le replicate take drop
gap-free = refl

gap-gone : decode (λ name. true) gap 32 ≡ ok gone
unfolding decode range index slice get_or from_le replicate take drop
gap-gone = refl

gap-blank : slice gap 4024 4026 ≡ 0 ∷ 0 ∷ []
unfolding slice take drop replicate
gap-blank = refl

gap-names : bytes_eq kept.name gone.name ≡ false
unfolding bytes_eq
gap-names = refl

remove_breaks_block_example :
    (p : List ℕ) × (remove_in_block (λ name. true) ub gap (b'c' ∷ []) none 0 ≡ ok (some p))
    × (block_entries (λ name. true) ub p 0 0 ≡ err manifest)
remove_breaks_block_example =
    remove_breaks_block (λ name. true) gap kept free gone gap-whole gap-kept gap-free gap-gone
      (omega arith) refl (omega arith) gap-names refl gap-blank
