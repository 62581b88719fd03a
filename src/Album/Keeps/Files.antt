-- ===== src/Album/Keeps/Files.antt =====
-- What reading and writing files keeps.
use album_fs.Common.{
  ok_or, replicate, min, div_ceil, ℕ, zero, suc, true, false, none, some, ◌+◌, ◌-◌, ◌*◌, ◌/◌, ◌%◌,
  ◌++◌, ◌==◌, ◌||◌, [],
}
use album_fs.Common.Keeps.{
  Keeps, Keeps-lift, ◌▷◌, ◌▸◌, Keeps-if, Keeps-option, Keeps-test, either-state,
}
use album_fs.Device.{BlockDevice}
use album_fs.Inode.{Inode, is_dir}
use album_fs.Fs.{range}
use album_fs.Album.{
  slice, no_space, length, ub, set, copy_at, get_or, ok, leb, some, ltb, Option, List, AlbumFs,
  Mapping, pointers_per_block, pointer_at, set_pointer,
}
use album_fs.Album.Keeps.{
  Reads, Writes, Beside, Keeps-on_fs, Keeps-change_inode, getattr-Keeps, bmap_read-Keeps,
  bmap-Keeps,
}
use album_fs.Album.Release.{
  all_zero, release, uncount_block, remove_direct, remove_pointer, put_pointers, remove_single,
  remove_inner, remove_double, remove_mapped_block, remove_blocks, free_all_blocks,
}
use album_fs.Album.Files.{
  on_copy, read_piece, read_from, read_opened, read, write_from, clear_tail, shrink,
}

module _ {S : Type 0} (d : BlockDevice S) where
  pub Keeps-on_copy :
      {P : AlbumFs S → Type 0} {A : Type 0} (inode : Inode) {act : Mapping d A}
      → Keeps (Beside d P) act
      → Keeps P (on_copy d inode act)
  Keeps-on_copy inode h = record { keeps = λ fs p. h.keeps (fs, inode) p }

  module _ {P : AlbumFs S → Type 0} (r : Reads d P) where
    read_piece-Keeps :
        (found : Option ℕ) (within count : ℕ) → Keeps (Beside d P) (read_piece d found within count)
    unfolding read_piece
    read_piece-Keeps none within count = Keeps-lift _
    read_piece-Keeps (some block) within count =
        Keeps-on_fs d (r.read_block block) ▷ λ payload. Keeps-lift _

    read_from-Keeps :
        (fuel position end : ℕ) (output : List ℕ)
        → Keeps (Beside d P) (read_from d fuel position end output)
    unfolding read_from
    read_from-Keeps zero position end output = Keeps-lift _
    read_from-Keeps (suc fuel) position end output =
        let count = min (end - position) (ub - position % ub) in
        Keeps-test (ltb position end) (Keeps-lift (ok output)) (
          bmap_read-Keeps d r (position / ub) ▷ λ found.
          read_piece-Keeps found (position % ub) count ▷ λ piece.
          read_from-Keeps fuel (position + count) end (output ++ piece))

    pub read-Keeps : (ino offset len : ℕ) → Keeps P (read d ino offset len)
    unfolding read read_opened
    read-Keeps ino offset len = getattr-Keeps d r ino ▷ λ inode.
        Keeps-if (is_dir inode) (Keeps-lift _) (
          Keeps-if (leb inode.size offset || len == 0) (Keeps-lift _)
            (Keeps-on_copy inode (read_from-Keeps _ offset _ [])))

  module _ {clock : ℕ → ℕ} {P : AlbumFs S → Type 0} (w : Writes d clock P) where
    pub write_from-Keeps :
        (fuel : ℕ) (bytes : List ℕ) (position consumed : ℕ)
        → Keeps (Beside d P) (write_from d fuel bytes position consumed)
    unfolding write_from
    write_from-Keeps zero bytes position consumed = Keeps-lift _
    write_from-Keeps (suc fuel) bytes position consumed =
        let within = position % ub in
        let count = min (length bytes - consumed) (ub - within) in
        Keeps-test (ltb consumed (length bytes)) (Keeps-lift (ok consumed)) (
          bmap-Keeps d w (position / ub) true ▷ λ found.
          Keeps-lift (ok_or found no_space) ▷ λ block.
          Keeps-on_fs d (w.read_block block) ▷ λ payload.
          Keeps-lift (range payload within (within + count)) ▷ λ _.
          Keeps-on_fs d
            (w.write_block block (copy_at payload within (slice bytes consumed (consumed + count))))
          ▸ write_from-Keeps fuel bytes (position + count) (consumed + count))

    release-Keeps : (block : ℕ) → Keeps (Beside d P) (release d block)
    release-Keeps block = Keeps-on_fs d (w.clear_block block)

    uncount_block-Keeps : Keeps (Beside d P) (uncount_block d)
    uncount_block-Keeps = record { keeps = λ (fs, inode) p. p }

    remove_direct-Keeps : (index : ℕ) → Keeps (Beside d P) (remove_direct d index)
    unfolding remove_direct
    remove_direct-Keeps index = record {
      keeps = λ (fs, inode) h.
          let block = get_or inode.direct index 0 in
          (Keeps-change_inode d P (λ inode. record inode { direct = set inode.direct index 0 })
              ▸ Keeps-if (block == 0) (Keeps-lift (ok tt))
                  (release-Keeps block ▸ uncount_block-Keeps)).keeps
            (fs, inode) h;
    }

    remove_pointer-Keeps :
        (pointers : List ℕ) (index : ℕ) → Keeps (Beside d P) (remove_pointer d pointers index)
    unfolding remove_pointer
    remove_pointer-Keeps pointers index =
        let block = pointer_at pointers index in
        Keeps-if (block == 0) (Keeps-lift (ok pointers)) (
          release-Keeps block
          ▸ uncount_block-Keeps
          ▸ Keeps-lift (ok (set_pointer pointers index 0)))

    put_pointers-Keeps :
        (table : ℕ) (pointers : List ℕ) (cleared : Mapping d (Unit {0}))
        → Keeps (Beside d P) cleared
        → Keeps (Beside d P) (put_pointers d table pointers cleared)
    unfolding put_pointers
    put_pointers-Keeps table pointers cleared h =
        Keeps-if (all_zero pointers) (release-Keeps table ▸ h)
          (Keeps-on_fs d (w.write_block table pointers))

    remove_single-Keeps : (relative : ℕ) → Keeps (Beside d P) (remove_single d relative)
    unfolding remove_single
    remove_single-Keeps relative = record {
      keeps = λ (fs, inode) h.
          let table = inode.single_indirect in
          either-state (Beside d P) (table == 0) _ _ (λ _. h)
            λ _.
              (Keeps-on_fs d (w.read_block table) ▷ λ pointers.
              remove_pointer-Keeps pointers relative ▷ λ left.
              put_pointers-Keeps table left _
                (Keeps-change_inode d P (λ inode. record inode { single_indirect = 0 }))).keeps
                (fs, inode) h;
    }

    remove_inner-Keeps :
        (outer : List ℕ) (outer_index : ℕ) (inner : List ℕ)
        → Keeps (Beside d P) (remove_inner d outer outer_index inner)
    unfolding remove_inner
    remove_inner-Keeps outer outer_index inner =
        let inner_block = pointer_at outer outer_index in
        Keeps-if (all_zero inner) (release-Keeps inner_block ▸ Keeps-lift _)
          (Keeps-on_fs d (w.write_block inner_block inner) ▸ Keeps-lift _)

    remove_double-Keeps : (relative : ℕ) → Keeps (Beside d P) (remove_double d relative)
    unfolding remove_double
    remove_double-Keeps relative = record {
      keeps = λ (fs, inode) h.
          let table = inode.double_indirect in
          let outer_index = relative / pointers_per_block in
          (Keeps-on_fs d (w.read_block table) ▷ λ outer.
          Keeps-if (pointer_at outer outer_index == 0) (Keeps-lift (ok tt)) (
            Keeps-on_fs d (w.read_block (pointer_at outer outer_index)) ▷ λ inner.
            remove_pointer-Keeps inner (relative % pointers_per_block) ▷ λ inner_left.
            remove_inner-Keeps outer outer_index inner_left ▷ λ outer_left.
            put_pointers-Keeps table outer_left _
              (Keeps-change_inode d P (λ inode. record inode { double_indirect = 0 })))).keeps
            (fs, inode) h;
    }

    remove_mapped_block-Keeps : (index : ℕ) → Keeps (Beside d P) (remove_mapped_block d index)
    unfolding remove_mapped_block
    remove_mapped_block-Keeps index = record {
      keeps = λ (fs, inode) h.
          either-state (Beside d P) (ltb index 12) _ _
            (λ _. (remove_direct-Keeps index).keeps (fs, inode) h)
            λ _.
              either-state (Beside d P) (ltb (index - 12) pointers_per_block) _ _
                (λ _. (remove_single-Keeps (index - 12)).keeps (fs, inode) h)
                λ _.
                  either-state (Beside d P)
                    (leb (pointers_per_block * pointers_per_block) (index - 12 - pointers_per_block)
                      || inode.double_indirect == 0)
                    _ _ (λ _. h)
                    λ _.
                      (remove_double-Keeps (index - 12 - pointers_per_block)).keeps (fs, inode) h;
    }

    remove_blocks-Keeps : (index n : ℕ) → Keeps (Beside d P) (remove_blocks d index n)
    unfolding remove_blocks
    remove_blocks-Keeps index zero = Keeps-lift (ok tt)
    remove_blocks-Keeps index (suc n) =
        remove_mapped_block-Keeps index ▸ remove_blocks-Keeps (index + 1) n

    pub free_all_blocks-Keeps : Keeps (Beside d P) (free_all_blocks d)
    unfolding free_all_blocks
    free_all_blocks-Keeps = record {
      keeps = λ (fs, inode) h.
          (remove_blocks-Keeps 0 (div_ceil inode.size ub)
              ▸ Keeps-change_inode d P (λ inode. record inode { size = 0 })).keeps
            (fs, inode) h;
    }

    clear_tail-Keeps : (logical tail : ℕ) → Keeps (Beside d P) (clear_tail d logical tail)
    unfolding clear_tail
    clear_tail-Keeps logical tail = bmap-Keeps d w logical false ▷ λ found.
        Keeps-option found (Keeps-lift (ok tt)) λ block.
          Keeps-on_fs d (w.read_block block) ▷ λ payload.
          Keeps-on_fs d (w.write_block block (copy_at payload tail (replicate (ub - tail) 0)))

    pub shrink-Keeps : (new_size : ℕ) → Keeps (Beside d P) (shrink d new_size)
    unfolding shrink
    shrink-Keeps new_size = record {
      keeps = λ (fs, inode) h.
          let keep_blocks = div_ceil new_size ub in
          (remove_blocks-Keeps keep_blocks (div_ceil inode.size ub - keep_blocks)
              ▸ Keeps-if (new_size % ub == 0) (Keeps-lift (ok tt))
                  (clear_tail-Keeps (keep_blocks - 1) (new_size % ub))).keeps
            (fs, inode) h;
    }
