-- ===== src/Format/Geometry.antt =====
-- The layout leaves room for what it holds, and the test of the carriers' ranges is exact.
use album_fs.Common.{
  ◌∙◌, some, Option, ==→eq, length, Bool, ensure, lt→leb, leb→le, ℕ, ◌+◌, ◌-◌, ◌*◌, ◌/◌, ◌^◌, ◌<◌,
  ◌≤◌, ◌≡◌, refl, ap, List, [], ◌∷◌, inl, inr, Bool-cases, false, not, ◌||◌, Result, ok, err, panic,
  leb, ◌==◌, div_ceil, max, arith, none,
}
use mathlib.Core.Logic.{◌↔◌}
use album_fs.Fs.{FsError, empty_pool, manifest, ub}
use album_fs.Superblock.{Superblock, CarrierRange}
use album_fs.Store.Format.{sum_blocks, manifest_slots, with_keys, from_manifest}
use album_fs.Store.Slots.{Contiguous}
use album_fs.Format.{Layout, layout, ranges_end, validate_manifest_geometry}

-- Room for a bit for each block, for the inodes, and for a block of data.
abbrev pub IsLaid : ℕ → Result FsError Layout → Type 0
IsLaid total (ok l) =
    (6 < total)
    × (l.bitmap_start ≡ 1)
    × (total ≤ (l.inode_table_start - l.bitmap_start) * ub * 8)
    × (64 ≤ l.inode_count)
    × ((ino : ℕ) → ino ≤ l.inode_count → l.inode_table_start + (ino - 1) * 192 / ub < l.data_start)
    × (l.data_start < total)
IsLaid total (err e) = (total ≤ 6) × (e ≡ empty_pool)
IsLaid total panic = ⊥

abbrev start : ℕ → ℕ
start total = 1 + div_ceil (div_ceil total 8) ub + div_ceil (max 64 (total / 4)) 21

too_small : (total : ℕ) → total ≤ start total → total ≤ 6
too_small total h = omega arith

-- With seven blocks or more, the bitmap's region has a bit for each block, there are 64 inodes or more,
-- the block of each inode comes before the data, and the data begins before the end; with fewer, the pool
-- counts as empty.
pub layout-IsLaid : (total : ℕ) → IsLaid total (layout total)
unfolding layout
layout-IsLaid total = elim (Bool-cases (leb total (start total))) [
  | inl short ↦ rw short (too_small total (leb→le _ _ short), refl)
  | inr room ↦
      rw room
        (ground arith, refl, omega arith, omega arith, λ ino h. omega (arith, h), ground arith)
]

-- The ranges follow each other from `start` on, each with a block or more, and end below 2 ^ 64.
abbrev pub AreRanges : ℕ → List CarrierRange → Type 0
AreRanges start [] = Unit {0}
AreRanges start (range ∷ rest) =
    (range.block_start ≡ start)
    × (0 < range.block_count)
    × (start + range.block_count < 2 ^ 64)
    × AreRanges (start + range.block_count) rest

end_of : {a b : ℕ} → ◌≡◌ {A = Result FsError ℕ} (ok a) (ok b) → a ≡ b
end_of e = cc

not_ok : {x : FsError} {end : ℕ} → ◌≡◌ {A = Result FsError ℕ} (err x) (ok end) → ⊥
not_ok e = cc

not_done : {x : FsError} → ◌≡◌ {A = Result FsError (Unit {0})} (err x) (ok tt) → ⊥
not_done e = cc

not_panic : ◌≡◌ {A = Result FsError (Unit {0})} panic (ok tt) → ⊥
not_panic e = cc

ranges_end-ok :
    (next end : ℕ) (ranges : List CarrierRange)
    → ranges_end next ranges ≡ ok end
    → AreRanges next ranges × (end ≡ next + sum_blocks ranges)
unfolding ranges_end
ranges_end-ok next end [] e = (tt, omega (arith, end_of e))
ranges_end-ok next end (range ∷ rest) e =
    elim (Bool-cases (not (range.block_start == next) || range.block_count == 0)) [
      | inl bad ↦ absurd (not_ok (rw bad at e))
      | inr good ↦ elim (Bool-cases (leb (2 ^ 64) (next + range.block_count))) [
        | inl over ↦ absurd (not_ok (rw (good, over) at e))
        | inr fits ↦
            let (ranges, sum) =
              ranges_end-ok (next + range.block_count) end rest (rw (good, fits) at e) in
            ((ground arith, ground arith, ground arith, ranges), omega (arith, sum))
      ]
    ]

AreRanges-ranges_end :
    (next : ℕ) (ranges : List CarrierRange)
    → AreRanges next ranges
    → ranges_end next ranges ≡ ok (next + sum_blocks ranges)
unfolding ranges_end
AreRanges-ranges_end next [] h = ap ok (omega arith)
AreRanges-ranges_end next (range ∷ rest) h =
    rw
      (
        starts,
        lt→leb (next + range.block_count) (2 ^ 64) h.2,
        AreRanges-ranges_end (next + range.block_count) rest h.3,
      )
      (ap ok (omega arith))
  where
    starts : (not (range.block_start == next) || range.block_count == 0) ≡ false
    starts = ground (arith, h.0, h.1)

tested :
    (r : Result FsError ℕ) (total : ℕ)
    → (elim r [ ok next ↦ ensure (next == total) manifest | err e ↦ err e | panic ↦ panic ]) ≡ ok tt
    → r ≡ ok total
tested (ok next) total e = elim (Bool-cases (next == total)) [
  | inl same ↦ ap ok (==→eq next total same)
  | inr other ↦ absurd (not_done (rw other at e))
]
tested (err x) total e = absurd (not_done e)
tested panic total e = absurd (not_panic e)

geometry_forth :
    (sb : Superblock)
    → validate_manifest_geometry sb ≡ ok tt
    → AreRanges 0 sb.carriers × (sum_blocks sb.carriers ≡ sb.total_blocks)
unfolding validate_manifest_geometry
geometry_forth sb e =
    let (ranges, sum) =
      ranges_end-ok 0 sb.total_blocks sb.carriers
        (tested (ranges_end 0 sb.carriers) sb.total_blocks e) in
    (ranges, omega (arith, sum))

geometry_back :
    (sb : Superblock)
    → AreRanges 0 sb.carriers × (sum_blocks sb.carriers ≡ sb.total_blocks)
    → validate_manifest_geometry sb ≡ ok tt
unfolding validate_manifest_geometry
geometry_back sb (ranges, sum) =
    ap
      (λ r. elim r as (λ _. Result FsError (Unit {0})) [
        | ok next ↦ ensure (next == sb.total_blocks) manifest
        | err e ↦ err e
        | panic ↦ panic
      ])
      (AreRanges-ranges_end 0 sb.carriers ranges)
    ∙ ground (arith, sum)

-- The test of a manifest succeeds exactly where its ranges follow each other from block 0 on, each with a block
-- or more, end below 2 ^ 64, and have as many blocks as the superblock says.
pub validate_manifest_geometry_iff :
    (sb : Superblock)
    → (validate_manifest_geometry sb ≡ ok tt)
      ↔ (AreRanges 0 sb.carriers × (sum_blocks sb.carriers ≡ sb.total_blocks))
validate_manifest_geometry_iff sb = (geometry_forth sb, geometry_back sb)

manifest_slots-Contiguous :
    {FilePath : Type 0} (paths : List (FilePath × Bool)) (ranges : List CarrierRange)
    (start total : ℕ)
    → length paths ≡ length ranges
    → total ≡ start + sum_blocks ranges
    → AreRanges start ranges
    → Contiguous start (manifest_slots paths ranges) total
unfolding manifest_slots
manifest_slots-Contiguous [] [] start total same e c = omega (arith, e)
manifest_slots-Contiguous [] (range ∷ ranges) start total same e c = absurd (omega (arith, same))
manifest_slots-Contiguous (path ∷ paths) [] start total same e c = absurd (omega (arith, same))
manifest_slots-Contiguous (path ∷ paths) (range ∷ ranges) start total same e c = (
  c.0,
  manifest_slots-Contiguous paths ranges (start + range.block_count) total (omega (arith, same))
      (omega (arith, e)) c.3,
)

-- The store that opening makes from a manifest which passes the test, with a path for each range, has the
-- blocks that the superblock says, and its slots cover them one after the other.
pub from_manifest-Contiguous :
    {FilePath : Type 0} (sb : Superblock) (paths : List (FilePath × Bool))
    (keys : Option (List ℕ × List ℕ))
    → length paths ≡ length sb.carriers
    → validate_manifest_geometry sb ≡ ok tt
    → ((from_manifest paths sb.carriers keys).total_blocks ≡ sb.total_blocks)
      × Contiguous 0 (from_manifest paths sb.carriers keys).carriers sb.total_blocks
unfolding from_manifest with_keys
from_manifest-Contiguous sb paths none same e =
    let (ranges, sum) = geometry_forth sb e in
    (
      sum,
      manifest_slots-Contiguous paths sb.carriers 0 sb.total_blocks same (omega (arith, sum))
          ranges,
    )
from_manifest-Contiguous sb paths (some (cipher, order)) same e =
    let (ranges, sum) = geometry_forth sb e in
    (
      sum,
      manifest_slots-Contiguous paths sb.carriers 0 sb.total_blocks same (omega (arith, sum))
          ranges,
    )
