-- ===== src/Album/Files.antt =====
-- The contents of files: `read`, `write` and `truncate`.
--
-- The loops over positions run on fuel, one unit for each byte; a pass takes a byte at least. Running
-- out would show as a panic.
use album_fs.Common.{
  ℕ, zero, suc, ◌+◌, ◌-◌, ◌/◌, ◌%◌, ◌^◌, min, true, false, not, ◌||◌, List, [], ◌++◌, length,
  Option, none, some, replicate, slice, copy_at, ltb, leb, ◌==◌, div_ceil, if◌then◌else◌, ok, err,
  panic, ensure, ok_or,
}
use album_fs.Common.Actions.{Action, ◌>>=◌, ◌>>◌, lift}
use album_fs.Fs.{FsError, manifest, no_space, ub}
use album_fs.Inode.{Inode, is_dir}
use album_fs.Fs.{range}
use album_fs.Device.{BlockDevice}
use album_fs.Album.{AlbumFs, on_store, getattr, write_inode, Mapping, on_fs, change_inode, bmap}
use album_fs.Album.Release.{remove_blocks}
use album_fs.Album.Sync.{now, sync}

module _ {S : Type 0} (d : BlockDevice S) where
  -- A call that changes its own copy of an inode.
  abbrev pub on_copy : {A : Type 0} → Inode → Mapping d A → Action FsError (AlbumFs S) A
  on_copy inode act fs = let (r, (fs', changed)) = act (fs, inode) in (r, fs')

  -- What a file has at `within` in a block: the block's bytes, or zeros where there is no block.
  unfoldable pub read_piece : Option ℕ → ℕ → ℕ → Mapping d (List ℕ)
  read_piece none within count = lift (ok (replicate count 0))
  read_piece (some block) within count = do
    payload ← on_fs d (on_store d (d.read_block block))
    lift (range payload within (within + count))

  unfoldable pub read_from : ℕ → ℕ → ℕ → List ℕ → Mapping d (List ℕ)
  read_from zero position end output = lift (if ltb position end then panic else ok output)
  read_from (suc fuel) position end output = elim (ltb position end) [
    | false ↦ lift (ok output)
    | true ↦ (do
      let logical = position / ub
      let within = position % ub
      let count = min (end - position) (ub - within)
      found ← bmap d logical false
      piece ← read_piece found within count
      read_from fuel (position + count) end (output ++ piece))
  ]

  -- The part of `read` that has the inode.
  unfoldable pub read_opened : ℕ → ℕ → Inode → Action FsError (AlbumFs S) (List ℕ)
  read_opened offset len inode =
      let end = min inode.size (min (offset + len) (2 ^ 64 - 1)) in
      if is_dir inode
      then lift (err FsError.is_dir)
      else if leb inode.size offset || len == 0
      then lift (ok [])
      else on_copy inode (read_from (end - offset) offset end [])

  unfoldable pub read : ℕ → ℕ → ℕ → Action FsError (AlbumFs S) (List ℕ)
  read ino offset len = do inode ← getattr d ino; read_opened offset len inode

  unfoldable pub write_from : ℕ → List ℕ → ℕ → ℕ → Mapping d ℕ
  write_from zero bytes position consumed =
      lift (if ltb consumed (length bytes) then panic else ok consumed)
  write_from (suc fuel) bytes position consumed = elim (ltb consumed (length bytes)) [
    | false ↦ lift (ok consumed)
    | true ↦ (do
      let logical = position / ub
      let within = position % ub
      let count = min (length bytes - consumed) (ub - within)
      found ← bmap d logical true
      block ← lift (ok_or found no_space)
      payload ← on_fs d (on_store d (d.read_block block))
      _ ← lift (range payload within (within + count))
      on_fs d (
          on_store d (
            d.write_block block (copy_at payload within (slice bytes consumed (consumed + count)))))
      write_from fuel bytes (position + count) (consumed + count))
  ]

  -- The rest of the last block is filled with zeros.
  unfoldable pub clear_tail : ℕ → ℕ → Mapping d (Unit {0})
  clear_tail logical tail = do
    found ← bmap d logical false
    elim found [
      | none ↦ lift (ok tt)
      | some block ↦ (do
        payload ← on_fs d (on_store d (d.read_block block))
        on_fs d (on_store d (d.write_block block (copy_at payload tail (replicate (ub - tail) 0)))))
    ]

  unfoldable pub shrink : ℕ → Mapping d (Unit {0})
  shrink new_size (fs, inode) =
      let keep_blocks = div_ceil new_size ub in
      let old_blocks = div_ceil inode.size ub in
      let tail = new_size % ub in
      (do
        remove_blocks d keep_blocks (old_blocks - keep_blocks)
        if tail == 0 then lift (ok tt) else clear_tail (keep_blocks - 1) tail)
        (fs, inode)

  module _ (clock : ℕ → ℕ) where
    unfoldable pub write : ℕ → ℕ → List ℕ → Action FsError (AlbumFs S) ℕ
    write ino offset bytes = do
      inode ← getattr d ino
      lift (ensure (not (is_dir inode)) FsError.is_dir)
      let end = offset + length bytes
      lift (ensure (ltb end (2 ^ 64)) manifest)
      on_copy inode (do
        consumed ← write_from (length bytes) bytes offset 0
        timestamp ← on_fs d (now clock)
        change_inode d (λ inode. record inode {
          size = if ltb inode.size end then end else inode.size;
          mtime = timestamp;
          ctime = timestamp;
        })
        (λ (fs, inode). on_fs d (write_inode d ino inode) (fs, inode))
        on_fs d (sync d)
        lift (ok consumed))

    unfoldable pub truncate : ℕ → ℕ → Action FsError (AlbumFs S) (Unit {0})
    truncate ino new_size = do
      inode ← getattr d ino
      lift (ensure (not (is_dir inode)) FsError.is_dir)
      on_copy inode (do
        if ltb new_size inode.size then shrink new_size else lift (ok tt)
        timestamp ← on_fs d (now clock)
        change_inode d
            (λ inode. record inode { size = new_size; mtime = timestamp; ctime = timestamp })
        (λ (fs, inode). on_fs d (write_inode d ino inode) (fs, inode))
        on_fs d (sync d))
