-- ===== src/Device/Memory.antt =====
-- A block device of eight blocks in memory, to run the file system on.
use album_fs.Common.{
  ℕ, ◌<◌, ◌≤◌, ◌≡◌, ◌⊎◌, inl, inr, refl, Bool-cases, List, length, ok, err, if◌then◌else◌, leb,
  le→leb, lt→leb, ◌==◌, ne→==, ==_refl, arith,
}
use album_fs.Common.Actions.{Action}
use album_fs.Fs.{FsError, bad_block, manifest, ub}
use album_fs.Block.{pad}
use album_fs.Device.{BlockDevice}

abbrev pub Blocks : Type 0
Blocks = ℕ → List ℕ

abbrev pub read_memory : ℕ → Action FsError Blocks (List ℕ)
read_memory lba blocks = (if leb 8 lba then err (bad_block lba) else ok (blocks lba), blocks)

abbrev pub write_memory : ℕ → List ℕ → Action FsError Blocks (Unit {0})
write_memory lba payload blocks =
    if leb (length payload) ub
    then (if leb 8 lba
        then (err (bad_block lba), blocks)
        else (ok tt, λ j. if j == lba then pad payload else blocks j))
    else (err manifest, blocks)

pub write_memory_refused :
    (s : Blocks) (lba : ℕ) (payload : List ℕ)
    → (ub < length payload) ⊎ (8 ≤ lba)
    → write_memory lba payload s
      ≡ (err (if leb (length payload) ub then bad_block lba else manifest), s)
write_memory_refused s lba payload h = elim (Bool-cases (leb (length payload) ub)) [
  | inl fits ↦ rw (fits, le→leb 8 lba (ground arith)) refl
  | inr long ↦ rw long refl
]

abbrev pub memory : BlockDevice Blocks
memory = record {
  read_block = read_memory;
  write_block = write_memory;
  flush = λ blocks. (ok tt, blocks);
  total_blocks = λ blocks. 8;
  IsValid = λ blocks. Unit {0};
  view = λ blocks lba. ok (blocks lba);
  read_block-view = λ s lba v h. rw (lt→leb lba 8 h) refl;
  read_block-IsValid = λ s lba v h. tt;
  view-read_block = λ s lba j v h. refl;
  total_blocks-read_block = λ s lba v h. refl;
  write_block_ok = λ s lba payload v h f. rw (le→leb (length payload) ub f, lt→leb lba 8 h) refl;
  write_block-IsValid = λ s lba payload v h f. tt;
  view-write_block_self =
      λ s lba payload v h f. rw (le→leb (length payload) ub f, lt→leb lba 8 h, ==_refl lba) refl;
  view-write_block_other = λ s lba j payload v h f ne.
      rw (le→leb (length payload) ub f, lt→leb lba 8 h, ne→== j lba ne) refl;
  total_blocks-write_block = λ s lba payload v h f. refl;
  read_block-outside = λ s lba h. rw (le→leb 8 lba h) refl;
  write_block-refused = write_memory_refused;
  flush-IsValid = λ s v. tt;
  view-flush = λ s j v. refl;
  total_blocks-flush = λ s v. refl;
}
