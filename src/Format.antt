-- ===== src/Format.antt =====
-- fs/format.rs: where the parts of a file system lie, the test of the carriers' ranges, and the blocks of the
-- free-space bitmap, over any block device.
pub mod Geometry
pub mod Blocks
mod Examples
use album_fs.Common.{
  ℕ, zero, suc, ◌+◌, ◌-◌, ◌*◌, ◌/◌, ◌^◌, ◌||◌, not, List, [], ◌∷◌, ◌++◌, length, min, max, slice,
  ltb, leb, ◌==◌, div_ceil, if◌then◌else◌, Result, ok, err, panic, ensure,
}
use album_fs.Common.Actions.{Action, ◌>>=◌, ◌>>◌, lift}
use album_fs.Fs.{FsError, manifest, empty_pool, ub}
use album_fs.Bitmap.{Bitmap, from_bytes}
use album_fs.Superblock.{Superblock, CarrierRange}
use album_fs.Fs.{range}
use album_fs.Device.{BlockDevice}

-- The layout that formatting computes from the number of blocks.
pub record Layout : Type 0 where
  pub bitmap_start : ℕ
  pub inode_table_start : ℕ
  pub inode_count : ℕ
  pub data_start : ℕ

unfoldable pub layout : ℕ → Result FsError Layout
layout total_blocks =
    let bitmap_start : ℕ = 1 in
    let bitmap_blocks = div_ceil (div_ceil total_blocks 8) ub in
    let inode_table_start = bitmap_start + bitmap_blocks in
    let inode_count = max 64 (total_blocks / 4) in
    let inode_table_blocks = div_ceil inode_count 21 in
    let data_start = inode_table_start + inode_table_blocks in
    if leb total_blocks data_start
    then err empty_pool
    else ok (record {
      bitmap_start = bitmap_start;
      inode_table_start = inode_table_start;
      inode_count = inode_count;
      data_start = data_start;
    })

-- The loop of `validate_manifest_geometry`, `next` being the end of the ranges before.
unfoldable pub ranges_end : ℕ → List CarrierRange → Result FsError ℕ
ranges_end next [] = ok next
ranges_end next (range ∷ rest) =
    let end = next + range.block_count in
    if not (range.block_start == next) || range.block_count == 0
    then err manifest
    else if leb (2 ^ 64) end
    then err manifest
    else ranges_end end rest

unfoldable pub validate_manifest_geometry : Superblock → Result FsError (Unit {0})
validate_manifest_geometry sb = elim (ranges_end 0 sb.carriers) [
  | ok next ↦ ensure (next == sb.total_blocks) manifest
  | err e ↦ err e
  | panic ↦ panic
]

-- The part of the bytes that stands in the block of that index.
abbrev pub bitmap_part : List ℕ → ℕ → List ℕ
bitmap_part bytes index =
    let start = index * ub in
    let end = min (start + ub) (length bytes) in if ltb start end then slice bytes start end else []

module _ {S : Type 0} (d : BlockDevice S) where
  -- The loop of `load_bitmap` over `n` blocks from `block` on.
  unfoldable pub load_blocks : ℕ → ℕ → ℕ → List ℕ → Action FsError S (List ℕ)
  load_blocks needed block zero bytes = lift (ok bytes)
  load_blocks needed block (suc n) bytes = do
    payload ← d.read_block block
    part ← lift (range payload 0 (min (needed - length bytes) ub))
    load_blocks needed (block + 1) n (bytes ++ part)

  unfoldable pub load_bitmap : Superblock → Action FsError S Bitmap
  load_bitmap sb = do
    bytes ←
        load_blocks (div_ceil sb.total_blocks 8) sb.bitmap_start
          (sb.inode_table_start - sb.bitmap_start) []
    lift (ok (from_bytes bytes sb.total_blocks))

  -- The loop of `write_bitmap` over `n` blocks from `block` on.
  unfoldable pub write_blocks : List ℕ → ℕ → ℕ → ℕ → Action FsError S (Unit {0})
  write_blocks bytes index block zero = lift (ok tt)
  write_blocks bytes index block (suc n) = do
    d.write_block block (bitmap_part bytes index)
    write_blocks bytes (index + 1) (block + 1) n

  unfoldable pub write_bitmap : Superblock → Bitmap → Action FsError S (Unit {0})
  write_bitmap sb bitmap =
      write_blocks bitmap.bits 0 sb.bitmap_start (sb.inode_table_start - sb.bitmap_start)
