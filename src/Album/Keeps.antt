-- ===== src/Album/Keeps.antt =====
-- What the operations of the file system keep: the inode table and the block pointers. A property of the file
-- system that the calls of the device, the bitmap and the clock keep is kept by every operation.
pub mod Files
pub mod Dirs
pub mod Names
use album_fs.Common.{
  arith, ◌≡◌, ℕ, zero, suc, ◌==◌, ltb, leb, not, ◌&&◌, Bool, true, false, get_or, List, Option,
  if◌then◌else◌, ◌+◌, ◌-◌, ◌*◌, ◌/◌, ◌%◌,
}
use album_fs.Common.Actions.{Action, modify}
use album_fs.Common.Keeps.{
  Keeps-if_cases, Keeps, Keeps-lift, Keeps-reads, ◌▷◌, ◌▸◌, Keeps-if, either-state,
}
use album_fs.Device.{BlockDevice}
use album_fs.Fs.{FsError}
use album_fs.Bitmap.{clear_block}
use album_fs.Inode.{Inode, default, decode, inode_size}
use album_fs.Fs.{range}
use album_fs.Album.{
  set, count_block, some, mapped, set_pointer, encode, ok, [], copy_at, AlbumFs, inode_location,
  on_store, read_inode, write_inode, find_free, alloc_inode, count_used, used_inodes, free_inode,
  getattr, take_block, allocate_block, Mapping, on_fs, change_inode, bmap_direct, follow,
  bmap_single, follow_outer, bmap_double, bmap, pointers_per_block, pointer_at,
}
use album_fs.Album.Sync.{now}

module _ {S : Type 0} (d : BlockDevice S) where
  -- Kept by the calls that only read, and by all calls.
  pub record Reads (P : AlbumFs S → Type 0) : Type 0 where
    pub read_block : (block : ℕ) → Keeps P (on_store d (d.read_block block))

  pub record Writes (clock : ℕ → ℕ) (P : AlbumFs S → Type 0) : Type 0 where
    pub read_block : (block : ℕ) → Keeps P (on_store d (d.read_block block))
    pub write_block :
        (block : ℕ) (payload : List ℕ) → Keeps P (on_store d (d.write_block block payload))
    pub flush : Keeps P (on_store d d.flush)
    pub take_block : Keeps P (take_block d)
    pub clear_block :
        (block : ℕ)
        → Keeps {E = FsError} P (modify (λ fs. record fs { bitmap = clear_block fs.bitmap block }))
    pub now : Keeps P (now clock)

  -- The file system beside an inode.
  abbrev pub Beside : (AlbumFs S → Type 0) → AlbumFs S × Inode → Type 0
  Beside P (fs, inode) = P fs

  module _ {P : AlbumFs S → Type 0} where
    pub Keeps-on_fs :
        {A : Type 0} {act : Action FsError (AlbumFs S) A}
        → Keeps P act
        → Keeps (Beside P) (on_fs d act)
    Keeps-on_fs h = record { keeps = λ (fs, inode) p. h.keeps fs p }

  pub Keeps-change_inode :
      (P : AlbumFs S → Type 0) (f : Inode → Inode) → Keeps (Beside P) (change_inode d f)
  Keeps-change_inode P f = record { keeps = λ (fs, inode) p. p }

  count_block-Keeps : (P : AlbumFs S → Type 0) → Keeps (Beside P) (count_block d)
  count_block-Keeps P = record { keeps = λ (fs, inode) p. p }

  module _ {P : AlbumFs S → Type 0} (r : Reads P) where
    pub read_inode-Keeps : (ino : ℕ) → Keeps P (read_inode d ino)
    unfolding read_inode
    read_inode-Keeps ino = Keeps-reads (λ fs. inode_location fs.sb ino) ▷ λ place.
        r.read_block place.0 ▷ λ payload.
        Keeps-lift (range payload place.1 (place.1 + inode_size)) ▷ λ bytes.
        Keeps-lift (decode bytes)

    find_free-Keeps : (ino n : ℕ) → Keeps P (find_free d ino n)
    unfolding find_free
    find_free-Keeps ino zero = Keeps-lift _
    find_free-Keeps ino (suc n) = read_inode-Keeps ino ▷ λ inode.
        Keeps-if (inode.mode == 0) (Keeps-lift _) (find_free-Keeps (ino + 1) n)

    pub alloc_inode-Keeps : Keeps P (alloc_inode d)
    unfolding alloc_inode
    alloc_inode-Keeps = record { keeps = λ fs h. (find_free-Keeps 1 fs.sb.inode_count).keeps fs h }

    count_used-Keeps : (ino n used : ℕ) → Keeps P (count_used d ino n used)
    unfolding count_used
    count_used-Keeps ino zero used = Keeps-lift _
    count_used-Keeps ino (suc n) used = read_inode-Keeps ino ▷ λ inode.
        count_used-Keeps (ino + 1) n (if inode.mode == 0 then used else used + 1)

    pub used_inodes-Keeps : Keeps P (used_inodes d)
    unfolding used_inodes
    used_inodes-Keeps = record {
      keeps = λ fs h. (count_used-Keeps 1 fs.sb.inode_count 0).keeps fs h;
    }

    pub getattr-Keeps : (ino : ℕ) → Keeps P (getattr d ino)
    unfolding getattr
    getattr-Keeps ino =
        read_inode-Keeps ino ▷ λ inode. Keeps-if (inode.mode == 0) (Keeps-lift _) (Keeps-lift _)

    -- `bmap` reads, and writes only where it may allocate.
    module _ (allocate : Bool) (taken : allocate ≡ true → Keeps P (allocate_block d))
        (written : allocate ≡ true
          → (block : ℕ) (payload : List ℕ)
          → Keeps P (on_store d (d.write_block block payload))) where
      bmap_direct-Keeps : (index : ℕ) → Keeps (Beside P) (bmap_direct d index allocate)
      unfolding bmap_direct
      bmap_direct-Keeps index = record {
        keeps = λ (fs, inode) h.
            either-state (Beside P) (get_or inode.direct index 0 == 0 && allocate) _ _
              (λ yes'.
                (Keeps-on_fs (taken (ground arith)) ▷ λ block.
                Keeps-change_inode P
                  (λ inode. record inode { direct = set inode.direct index block })
                ▸ count_block-Keeps P
                ▸ Keeps-lift (ok (mapped block))).keeps
                  (fs, inode) h)
              (λ _. h);
      }

      follow-Keeps : (table index : ℕ) → Keeps (Beside P) (follow d table index allocate)
      unfolding follow
      follow-Keeps table index = Keeps-on_fs (r.read_block table) ▷ λ pointers.
          Keeps-if_cases (pointer_at pointers index == 0 && allocate)
            (λ yes'. Keeps-on_fs (taken (ground arith)) ▷ λ block.
              Keeps-on_fs (written (ground arith) table (set_pointer pointers index block))
              ▸ count_block-Keeps P
              ▸ Keeps-lift (ok (some block)))
            (λ _. Keeps-lift _)

      bmap_single-Keeps : (relative : ℕ) → Keeps (Beside P) (bmap_single d relative allocate)
      unfolding bmap_single
      bmap_single-Keeps relative = record {
        keeps = λ (fs, inode) h.
            either-state (Beside P) (not (inode.single_indirect == 0)) _ _
              (λ _. (follow-Keeps inode.single_indirect relative).keeps (fs, inode) h)
              λ _.
                either-state (Beside P) (not allocate) _ _ (λ _. h)
                  λ no'.
                    (Keeps-on_fs (taken (ground arith)) ▷ λ block.
                    Keeps-change_inode P (λ inode. record inode { single_indirect = block })
                    ▸ follow-Keeps block relative).keeps
                      (fs, inode) h;
      }

      follow_outer-Keeps :
          (table relative : ℕ) → Keeps (Beside P) (follow_outer d table relative allocate)
      unfolding follow_outer
      follow_outer-Keeps table relative = Keeps-on_fs (r.read_block table) ▷ λ outer.
          Keeps-if_cases (not (pointer_at outer (relative / pointers_per_block) == 0))
            (λ _.
              follow-Keeps (pointer_at outer (relative / pointers_per_block))
                (relative % pointers_per_block))
            λ _.
              Keeps-if_cases (not allocate) (λ _. Keeps-lift _)
                λ no'. Keeps-on_fs (taken (ground arith)) ▷ λ block.
                  Keeps-on_fs (
                    written (ground arith) table
                      (set_pointer outer (relative / pointers_per_block) block))
                  ▸ follow-Keeps block (relative % pointers_per_block)

      bmap_double-Keeps : (relative : ℕ) → Keeps (Beside P) (bmap_double d relative allocate)
      unfolding bmap_double
      bmap_double-Keeps relative = record {
        keeps = λ (fs, inode) h.
            either-state (Beside P) (not (inode.double_indirect == 0)) _ _
              (λ _. (follow_outer-Keeps inode.double_indirect relative).keeps (fs, inode) h)
              λ _.
                either-state (Beside P) (not allocate) _ _ (λ _. h)
                  λ no'.
                    (Keeps-on_fs (taken (ground arith)) ▷ λ block.
                    Keeps-change_inode P (λ inode. record inode { double_indirect = block })
                    ▸ follow_outer-Keeps block relative).keeps
                      (fs, inode) h;
      }

      bmap_cases-Keeps : (index : ℕ) → Keeps (Beside P) (bmap d index allocate)
      unfolding bmap
      bmap_cases-Keeps index = Keeps-if (ltb index 12) (bmap_direct-Keeps index) (
          Keeps-if (ltb (index - 12) pointers_per_block) (bmap_single-Keeps (index - 12)) (
            Keeps-if
              (leb (pointers_per_block * pointers_per_block) (index - 12 - pointers_per_block))
              (Keeps-lift _) (bmap_double-Keeps (index - 12 - pointers_per_block))))

    pub bmap_read-Keeps : (index : ℕ) → Keeps (Beside P) (bmap d index false)
    bmap_read-Keeps index = bmap_cases-Keeps false (λ e. cc) (λ e. cc) index

  module _ {clock : ℕ → ℕ} {P : AlbumFs S → Type 0} (w : Writes clock P) where
    pub reading : Reads P
    reading = record { read_block = w.read_block }

    pub write_inode-Keeps : (ino : ℕ) (inode : Inode) → Keeps P (write_inode d ino inode)
    unfolding write_inode
    write_inode-Keeps ino inode = Keeps-reads (λ fs. inode_location fs.sb ino) ▷ λ place.
        w.read_block place.0 ▷ λ payload.
        Keeps-lift (range payload place.1 (place.1 + inode_size)) ▷ λ _.
        w.write_block place.0 (copy_at payload place.1 (encode inode))

    pub free_inode-Keeps : (ino : ℕ) → Keeps P (free_inode d ino)
    unfolding free_inode
    free_inode-Keeps ino = write_inode-Keeps ino default

    pub allocate_block-Keeps : Keeps P (allocate_block d)
    unfolding allocate_block
    allocate_block-Keeps = w.take_block ▷ λ block. w.write_block block [] ▸ Keeps-lift (ok block)

    pub bmap-Keeps : (index : ℕ) (allocate : Bool) → Keeps (Beside P) (bmap d index allocate)
    bmap-Keeps index allocate =
        bmap_cases-Keeps reading allocate (λ _. allocate_block-Keeps) (λ _. w.write_block) index
