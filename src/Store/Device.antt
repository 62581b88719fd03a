-- ===== src/Store/Device.antt =====
-- The block store implements the block device that the file system is written over.
use album_fs.Common.{
  ℕ, ◌≤◌, ◌<◌, ◌≡◌, refl, List, length, ok, err, leb, le→leb, Bool-cases, inl, inr, ◌==◌, ==_refl,
  ==→eq, ==→ne, ne→==, ◌⊎◌, arith, if◌then◌else◌,
}
use album_fs.Fs.{bad_block, manifest, ub}
use album_fs.Block.{pad}
use album_fs.Device.{BlockDevice}
use album_fs.Store.{Machine, Libraries, carrier_for}
use album_fs.Store.Methods.{read_block, write_block, flush}
use album_fs.Store.Flush.{flush_lem}
use album_fs.Store.Reads.{IsValid, view, locate, after, read_block-eq, loaded-IsValid, view-loaded}
use album_fs.Store.Writes.{
  seal-Sealed, write_block-eq, written-IsValid, view-written_self, view-written_other,
  total-written,
}

module _ {FilePath Disk : Type 0} (l : Libraries FilePath Disk) where
  -- On a well-formed store, `read_block` below the total gives what the store holds there. It keeps
  -- the store well formed, and what it holds under every number.
  pub read_block_lem :
      (m : Machine FilePath Disk) (lba j : ℕ)
      → IsValid l m
      → lba < m.store.total_blocks
      → ((read_block l lba m).0 ≡ view l m lba)
        × IsValid l (read_block l lba m).1
        × (view l (read_block l lba m).1 j ≡ view l m j)
        × ((read_block l lba m).1.store.total_blocks ≡ m.store.total_blocks)
  read_block_lem m lba j v h =
      let p = locate l m lba v h in
      rw (read_block-eq l m lba p) (refl, loaded-IsValid l m lba p v, view-loaded l m lba p j, refl)

  -- On a well-formed store, `write_block` below the total with a payload that fits succeeds and
  -- keeps the store well formed; the block then holds the payload filled up with zeros, and every
  -- other number holds what it held.
  pub write_block_lem :
      (m : Machine FilePath Disk) (lba j : ℕ) (payload : List ℕ)
      → IsValid l m
      → lba < m.store.total_blocks
      → length payload ≤ ub
      → ((write_block l lba payload m).0 ≡ ok tt)
        × IsValid l (write_block l lba payload m).1
        × (view l (write_block l lba payload m).1 j
            ≡ (if j == lba then ok (pad payload) else view l m j))
        × ((write_block l lba payload m).1.store.total_blocks ≡ m.store.total_blocks)
  write_block_lem m lba j payload v h fits =
      let p = locate l m lba v h in
      let s = seal-Sealed l (after l m lba p) lba payload (unfold after in v.keyed) fits in
      rw (write_block-eq l m lba payload p s fits) (
        refl,
        written-IsValid l m lba payload p s v,
        elim (Bool-cases (j == lba)) [
          | inl same ↦ rw (same, ==→eq j lba same) (view-written_self l m lba payload p s)
          | inr other ↦ rw other (view-written_other l m lba payload p s j (==→ne j lba other))
        ],
        total-written l m lba payload p s,
      )

  -- A payload that does not fit or a number past the total is refused, and nothing changes; the
  -- payload is tested first.
  pub write_block_refused :
      (m : Machine FilePath Disk) (lba : ℕ) (payload : List ℕ)
      → (ub < length payload) ⊎ (m.store.total_blocks ≤ lba)
      → write_block l lba payload m
        ≡ (err (if leb (length payload) ub then bad_block lba else manifest), m)
  unfolding write_block carrier_for
  write_block_refused m lba payload h = elim (Bool-cases (leb (length payload) ub)) [
    | inl fits ↦ rw (fits, le→leb m.store.total_blocks lba (ground arith))
    | inr long ↦ rw long
  ]

  pub read_block_outside :
      (m : Machine FilePath Disk) (lba : ℕ)
      → m.store.total_blocks ≤ lba
      → read_block l lba m ≡ (err (bad_block lba), m)
  unfolding read_block carrier_for
  read_block_outside m lba h = rw (le→leb m.store.total_blocks lba h) refl

  unfoldable pub device : BlockDevice (Machine FilePath Disk)
  device = record {
    read_block = read_block l;
    write_block = write_block l;
    flush = flush l;
    total_blocks = λ m. m.store.total_blocks;
    IsValid = IsValid l;
    view = view l;
    read_block-view = λ m lba v h. (read_block_lem m lba 0 v h).0;
    read_block-IsValid = λ m lba v h. (read_block_lem m lba 0 v h).1;
    view-read_block = λ m lba j v h. (read_block_lem m lba j v h).2;
    total_blocks-read_block = λ m lba v h. (read_block_lem m lba 0 v h).3;
    write_block_ok = λ m lba payload v h f. (write_block_lem m lba 0 payload v h f).0;
    write_block-IsValid = λ m lba payload v h f. (write_block_lem m lba 0 payload v h f).1;
    view-write_block_self =
        λ m lba payload v h f. rw (==_refl lba) at (write_block_lem m lba lba payload v h f).2;
    view-write_block_other = λ m lba j payload v h f ne.
        rw (ne→== j lba ne) at (write_block_lem m lba j payload v h f).2;
    total_blocks-write_block = λ m lba payload v h f. (write_block_lem m lba 0 payload v h f).3;
    read_block-outside = read_block_outside;
    write_block-refused = write_block_refused;
    flush-IsValid = λ m v. (flush_lem l m 0 v).0;
    view-flush = λ m j v. (flush_lem l m j v).1;
    total_blocks-flush = λ m v. (flush_lem l m 0 v).2;
  }
