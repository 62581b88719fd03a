-- ===== src/Album.antt =====
-- The file system of fs/album.rs over any block device: the state of `AlbumFs`, the inode table, and
-- `bmap`. The operations on files, directories and names are in the modules below.
pub mod Sync
pub mod Release
pub mod Files
pub mod Dirs
pub mod Names
pub mod Keeps
pub mod Safety
pub mod Calls
pub mod Gives
pub mod Lookup
pub mod Bytes
pub mod Contents
pub mod Refusals
pub mod Durable
pub mod Inodes
mod Examples
mod Runs
use album_fs.Common.{
  ◌%◌, ◌^◌, ℕ, zero, suc, ◌+◌, ◌-◌, ◌*◌, ◌/◌, ◌%◌, ◌^◌, Bool, not, ◌&&◌, ◌||◌, List, [], length,
  Option, none, some, get_or, set, slice, copy_at, to_le, from_le, ltb, leb, ◌==◌, if◌then◌else◌,
  Result, ok, err, panic,
}
use album_fs.Common.Actions.{Action, ◌>>=◌, ◌>>◌, continue, lift, reads, modify}
use album_fs.Fs.{FsError, not_found, no_space, bad_block, ub}
use album_fs.Bitmap.{Bitmap, alloc_from}
use album_fs.Inode.{Inode, inode_size, encode, decode, default}
use album_fs.Superblock.{Superblock}
use album_fs.Fs.{range}
use album_fs.Device.{BlockDevice}

abbrev pub pointers_per_block : ℕ
pointers_per_block = ub / 8

-- `store` is the state of the block device, `calls` how often the clock has been read.
pub record AlbumFs (S : Type 0) : Type 0 where
  pub store : S
  pub sb : Superblock
  pub bitmap : Bitmap
  pub calls : ℕ

-- The product and the sum wrap around in 64 bits.
unfoldable pub inode_location : Superblock → ℕ → Result FsError (ℕ × ℕ)
inode_location sb ino =
    let byte_offset = (ino - 1) * inode_size % 2 ^ 64 in
    if ino == 0 || ltb sb.inode_count ino
    then err not_found
    else ok ((sb.inode_table_start + byte_offset / ub) % 2 ^ 64, byte_offset % ub)

unfoldable pub pointer_at : List ℕ → ℕ → ℕ
pointer_at block index = from_le (slice block (index * 8) (index * 8 + 8))

unfoldable pub set_pointer : List ℕ → ℕ → ℕ → List ℕ
set_pointer block index pointer = copy_at block (index * 8) (to_le 8 pointer)

-- `(pointer != 0).then_some(pointer)`.
abbrev pub mapped : ℕ → Option ℕ
mapped pointer = if pointer == 0 then none else some pointer

module _ {S : Type 0} (d : BlockDevice S) where
  -- A call of the store.
  abbrev pub on_store : {A : Type 0} → Action FsError S A → Action FsError (AlbumFs S) A
  on_store act fs = let (r, s) = act fs.store in (r, record fs { store = s })

  unfoldable pub read_inode : ℕ → Action FsError (AlbumFs S) Inode
  read_inode ino = do
    (block, offset) ← reads (λ fs. inode_location fs.sb ino)
    payload ← on_store (d.read_block block)
    bytes ← lift (range payload offset (offset + inode_size))
    lift (decode bytes)

  unfoldable pub write_inode : ℕ → Inode → Action FsError (AlbumFs S) (Unit {0})
  write_inode ino inode = do
    (block, offset) ← reads (λ fs. inode_location fs.sb ino)
    payload ← on_store (d.read_block block)
    _ ← lift (range payload offset (offset + inode_size))
    on_store (d.write_block block (copy_at payload offset (encode inode)))

  -- The loop of `alloc_inode` with `n` numbers left to try.
  unfoldable pub find_free : ℕ → ℕ → Action FsError (AlbumFs S) ℕ
  find_free ino zero = lift (err no_space)
  find_free ino (suc n) = do
    inode ← read_inode ino
    if inode.mode == 0 then lift (ok ino) else find_free (ino + 1) n

  unfoldable pub alloc_inode : Action FsError (AlbumFs S) ℕ
  alloc_inode fs = find_free 1 fs.sb.inode_count fs

  unfoldable pub count_used : ℕ → ℕ → ℕ → Action FsError (AlbumFs S) ℕ
  count_used ino zero used = lift (ok used)
  count_used ino (suc n) used = do
    inode ← read_inode ino
    count_used (ino + 1) n (if inode.mode == 0 then used else used + 1)

  unfoldable pub used_inodes : Action FsError (AlbumFs S) ℕ
  used_inodes fs = count_used 1 fs.sb.inode_count 0 fs

  unfoldable pub free_inode : ℕ → Action FsError (AlbumFs S) (Unit {0})
  free_inode ino = write_inode ino default

  unfoldable pub getattr : ℕ → Action FsError (AlbumFs S) Inode
  getattr ino = do
    inode ← read_inode ino
    if inode.mode == 0 then lift (err not_found) else lift (ok inode)

  abbrev pub take_block : Action FsError (AlbumFs S) ℕ
  take_block fs =
      let (r, bitmap) = alloc_from fs.bitmap fs.sb.data_start in (r, record fs { bitmap = bitmap })

  -- The bitmap keeps the block where writing it fails.
  unfoldable pub allocate_block : Action FsError (AlbumFs S) ℕ
  allocate_block = do block ← take_block; on_store (d.write_block block []); lift (ok block)

  -- `bmap` changes the caller's inode: the state has it beside the file system.
  abbrev pub Mapping : Type 0 → Type 0
  Mapping A = Action FsError (AlbumFs S × Inode) A

  abbrev pub on_fs : {A : Type 0} → Action FsError (AlbumFs S) A → Mapping A
  on_fs act (fs, inode) = let (r, fs') = act fs in (r, (fs', inode))

  abbrev pub change_inode : (Inode → Inode) → Mapping (Unit {0})
  change_inode f = modify (λ (fs, inode). (fs, f inode))

  abbrev pub count_block : Mapping (Unit {0})
  count_block =
      change_inode (λ inode. record inode { block_count = (inode.block_count + 1) % 2 ^ 32 })

  unfoldable pub bmap_direct : ℕ → Bool → Mapping (Option ℕ)
  bmap_direct index allocate (fs, inode) =
      if get_or inode.direct index 0 == 0 && allocate
      then (do
        block ← on_fs allocate_block
        change_inode (λ inode. record inode { direct = set inode.direct index block })
        count_block
        lift (ok (mapped block)))
          (fs, inode)
      else (ok (mapped (get_or inode.direct index 0)), (fs, inode))

  -- The pointer at an index of a block of pointers, which `allocate` fills.
  unfoldable pub follow : ℕ → ℕ → Bool → Mapping (Option ℕ)
  follow table index allocate = do
    pointers ← on_fs (on_store (d.read_block table))
    let pointer = pointer_at pointers index
    if pointer == 0 && allocate
        then (do
          block ← on_fs allocate_block
          on_fs (on_store (d.write_block table (set_pointer pointers index block)))
          count_block
          lift (ok (some block)))
        else lift (ok (mapped pointer))

  unfoldable pub bmap_single : ℕ → Bool → Mapping (Option ℕ)
  bmap_single relative allocate (fs, inode) =
      if not (inode.single_indirect == 0)
      then follow inode.single_indirect relative allocate (fs, inode)
      else if not allocate
      then (ok none, (fs, inode))
      else (do
        block ← on_fs allocate_block
        change_inode (λ inode. record inode { single_indirect = block })
        follow block relative allocate)
          (fs, inode)

  -- The part of the double indirect case below the outer block.
  unfoldable pub follow_outer : ℕ → ℕ → Bool → Mapping (Option ℕ)
  follow_outer table relative allocate = do
    outer ← on_fs (on_store (d.read_block table))
    let outer_index = relative / pointers_per_block
    let inner_index = relative % pointers_per_block
    let inner_block = pointer_at outer outer_index
    if not (inner_block == 0)
        then follow inner_block inner_index allocate
        else if not allocate
        then lift (ok none)
        else (do
          block ← on_fs allocate_block
          on_fs (on_store (d.write_block table (set_pointer outer outer_index block)))
          follow block inner_index allocate)

  unfoldable pub bmap_double : ℕ → Bool → Mapping (Option ℕ)
  bmap_double relative allocate (fs, inode) =
      if not (inode.double_indirect == 0)
      then follow_outer inode.double_indirect relative allocate (fs, inode)
      else if not allocate
      then (ok none, (fs, inode))
      else (do
        block ← on_fs allocate_block
        change_inode (λ inode. record inode { double_indirect = block })
        follow_outer block relative allocate)
          (fs, inode)

  unfoldable pub bmap : ℕ → Bool → Mapping (Option ℕ)
  bmap index allocate =
      let relative = index - 12 in
      if ltb index 12
      then bmap_direct index allocate
      else if ltb relative pointers_per_block
      then bmap_single relative allocate
      else if leb (pointers_per_block * pointers_per_block) (relative - pointers_per_block)
      then lift (err (bad_block index))
      else bmap_double (relative - pointers_per_block) allocate
