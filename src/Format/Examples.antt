-- ===== src/Format/Examples.antt =====
-- A small layout, a manifest of two carriers, and the bitmap of eight blocks.
use album_fs.Common.{ℕ, ◌≡◌, refl, true, false, Bool, List, [], ◌∷◌, none, ok, arith}
use mathlib.Core.Logic.{◌↔◌}
use album_fs.Bitmap.{Bitmap, new, set_block}
use album_fs.Bitmap.Invariant.{new-IsValid, set_block-IsValid}
use album_fs.Superblock.{Superblock}
use album_fs.Store.Format.{sum_blocks, from_manifest}
use album_fs.Store.Slots.{Contiguous}
use album_fs.Device.Memory.{Blocks, memory}
use album_fs.Format.{layout, validate_manifest_geometry, load_bitmap, write_bitmap}
use album_fs.Format.Geometry.{
  IsLaid, layout-IsLaid, AreRanges, validate_manifest_geometry_iff, from_manifest-Contiguous,
}
use album_fs.Format.Blocks.{load_bitmap-write_bitmap}

layout-IsLaid_example : IsLaid 100 (layout 100)
layout-IsLaid_example = layout-IsLaid 100

abbrev superblock : Superblock
superblock = record {
  version = 2;
  block_size = 4096;
  usable_size = 4032;
  total_blocks = 8;
  inode_count = 64;
  bitmap_start = 1;
  inode_table_start = 2;
  data_start = 6;
  root_inode = 1;
  crypto_flags = 0;
  salt = [];
  mem_kib = 0;
  iters = 0;
  parallel = 0;
  carriers =
      record { name = []; chunk_index = 0; block_start = 0; block_count = 5 }
      ∷ record { name = []; chunk_index = 1; block_start = 5; block_count = 3 }
      ∷ [];
}

validate_manifest_geometry_iff_example :
    (validate_manifest_geometry superblock ≡ ok tt)
    ↔ (AreRanges 0 superblock.carriers × (sum_blocks superblock.carriers ≡ 8))
validate_manifest_geometry_iff_example = validate_manifest_geometry_iff superblock

passes : validate_manifest_geometry superblock ≡ ok tt
passes =
    (validate_manifest_geometry_iff superblock).1
      ((refl, omega arith, omega arith, (refl, omega arith, omega arith, tt)), refl)

abbrev named_paths : List (ℕ × Bool)
named_paths = (7, true) ∷ (9, false) ∷ []

from_manifest-Contiguous_example :
    ((from_manifest named_paths superblock.carriers none).total_blocks ≡ 8)
    × Contiguous 0 (from_manifest named_paths superblock.carriers none).carriers 8
from_manifest-Contiguous_example = from_manifest-Contiguous superblock named_paths none refl passes

abbrev bitmap : Bitmap
bitmap = set_block (new 8) 3

abbrev blocks : Blocks
blocks block = []

same_total : bitmap.total_blocks ≡ 8
unfolding set_block new
same_total = refl

load_bitmap-write_bitmap_example :
    ((write_bitmap memory superblock bitmap blocks).0 ≡ ok tt)
    × ((load_bitmap memory superblock (write_bitmap memory superblock bitmap blocks).1).0
        ≡ ok bitmap)
load_bitmap-write_bitmap_example =
    load_bitmap-write_bitmap memory superblock bitmap blocks tt
      (set_block-IsValid (new 8) 3 (new-IsValid 8)) same_total (omega arith) (omega arith)
      (omega arith)
