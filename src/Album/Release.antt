-- ===== src/Album/Release.antt =====
-- The release of a file's blocks: `remove_mapped_block` and `free_all_blocks`. A counter of an inode
-- wraps, as in a release build.
use album_fs.Common.{
  ℕ, zero, suc, ◌+◌, ◌-◌, ◌*◌, ◌/◌, ◌%◌, ◌^◌, Bool, true, ◌&&◌, ◌||◌, List, [], ◌∷◌, get_or, set,
  ltb, leb, ◌==◌, div_ceil, if◌then◌else◌, ok,
}
use album_fs.Common.Actions.{◌>>=◌, ◌>>◌, lift, modify}
use album_fs.Fs.{ub}
use album_fs.Bitmap.{clear_block}
use album_fs.Device.{BlockDevice}
use album_fs.Album.{
  pointers_per_block, pointer_at, set_pointer, on_store, Mapping, on_fs, change_inode,
}

unfoldable pub all_zero : List ℕ → Bool
all_zero [] = true
all_zero (byte ∷ rest) = byte == 0 && all_zero rest

module _ {S : Type 0} (d : BlockDevice S) where
  -- `self.bitmap.clear(block)`, and `inode.block_count -= 1`.
  abbrev pub release : ℕ → Mapping d (Unit {0})
  release block = on_fs d (modify (λ fs. record fs { bitmap = clear_block fs.bitmap block }))

  abbrev pub uncount_block : Mapping d (Unit {0})
  uncount_block =
      change_inode d
        (λ inode. record inode { block_count = (inode.block_count + 2 ^ 32 - 1) % 2 ^ 32 })

  unfoldable pub remove_direct : ℕ → Mapping d (Unit {0})
  remove_direct index (fs, inode) =
      let block = get_or inode.direct index 0 in
      (do
        change_inode d (λ inode. record inode { direct = set inode.direct index 0 })
        if block == 0 then lift (ok tt) else (release block >> uncount_block))
        (fs, inode)

  -- The pointers that are left when the block at an index has been freed.
  unfoldable pub remove_pointer : List ℕ → ℕ → Mapping d (List ℕ)
  remove_pointer pointers index =
      let block = pointer_at pointers index in
      if block == 0
      then lift (ok pointers)
      else (do release block; uncount_block; lift (ok (set_pointer pointers index 0)))

  -- A block of pointers is freed where it has none left, and `cleared` is done; it is written otherwise.
  unfoldable pub put_pointers : ℕ → List ℕ → Mapping d (Unit {0}) → Mapping d (Unit {0})
  put_pointers table pointers cleared =
      if all_zero pointers
      then (release table >> cleared)
      else on_fs d (on_store d (d.write_block table pointers))

  unfoldable pub remove_single : ℕ → Mapping d (Unit {0})
  remove_single relative (fs, inode) =
      let table = inode.single_indirect in
      if table == 0
      then (ok tt, (fs, inode))
      else (do
        pointers ← on_fs d (on_store d (d.read_block table))
        left ← remove_pointer pointers relative
        put_pointers table left (change_inode d (λ inode. record inode { single_indirect = 0 })))
          (fs, inode)

  -- The inner block of pointers; the outer ones that are left are the result.
  unfoldable pub remove_inner : List ℕ → ℕ → List ℕ → Mapping d (List ℕ)
  remove_inner outer outer_index inner =
      let inner_block = pointer_at outer outer_index in
      if all_zero inner
      then (do release inner_block; lift (ok (set_pointer outer outer_index 0)))
      else (do on_fs d (on_store d (d.write_block inner_block inner)); lift (ok outer))

  unfoldable pub remove_double : ℕ → Mapping d (Unit {0})
  remove_double relative (fs, inode) =
      let table = inode.double_indirect in
      let outer_index = relative / pointers_per_block in
      let inner_index = relative % pointers_per_block in
      (do
        outer ← on_fs d (on_store d (d.read_block table))
        if pointer_at outer outer_index == 0 then lift (ok tt) else (do
          inner ← on_fs d (on_store d (d.read_block (pointer_at outer outer_index)))
          inner_left ← remove_pointer inner inner_index
          outer_left ← remove_inner outer outer_index inner_left
          put_pointers table outer_left
              (change_inode d (λ inode. record inode { double_indirect = 0 }))))
        (fs, inode)

  unfoldable pub remove_mapped_block : ℕ → Mapping d (Unit {0})
  remove_mapped_block index (fs, inode) =
      let relative = index - 12 in
      if ltb index 12
      then remove_direct index (fs, inode)
      else if ltb relative pointers_per_block
      then remove_single relative (fs, inode)
      else if leb (pointers_per_block * pointers_per_block) (relative - pointers_per_block)
          || inode.double_indirect == 0
      then (ok tt, (fs, inode))
      else remove_double (relative - pointers_per_block) (fs, inode)

  -- The blocks from `index` on, `n` of them.
  unfoldable pub remove_blocks : ℕ → ℕ → Mapping d (Unit {0})
  remove_blocks index zero = lift (ok tt)
  remove_blocks index (suc n) = do remove_mapped_block index; remove_blocks (index + 1) n

  unfoldable pub free_all_blocks : Mapping d (Unit {0})
  free_all_blocks (fs, inode) =
      (do
        remove_blocks 0 (div_ceil inode.size ub)
        change_inode d (λ inode. record inode { size = 0 }))
        (fs, inode)
