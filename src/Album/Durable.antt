-- ===== src/Album/Durable.antt =====
-- The bitmap on the device after `sync`.
pub mod Calls
use album_fs.Common.{
  ℕ, zero, suc, ◌+◌, ◌-◌, ◌*◌, ◌≤◌, ◌<◌, ◌≡◌, refl, sym, ap, ◌∙◌, Bool, true, false, List, [], ◌++◌,
  length, min, not, ◌==◌, ltb, if◌then◌else◌, div_ceil, Result, ok, err, panic, ensure, ok_or, ◌^◌,
  arith,
}
use album_fs.Common.Actions.{Action, continue, ◌>>=◌, ◌>>◌, lift}
use album_fs.Common.Ends.{Ends, is_ok, ◌▶◌, ◌▷▶◌, Ends-return}
use album_fs.Common.Keeps.{Keeps, Keeps-lift, ◌▷◌, ◌▸◌, Keeps-if}
use mathlib.Core.Path.{subst}
use album_fs.Fs.{FsError, ub, range, exists, not_found, not_empty, manifest}
use album_fs.Bitmap.Invariant
use album_fs.Superblock.{Superblock}
use album_fs.Device.{BlockDevice}
use album_fs.Inode.{Inode, is_dir}
use album_fs.Format.{load_blocks, load_bitmap, write_bitmap}
use album_fs.Format.Blocks.{load_bitmap-write_bitmap, Written, write_blocks-Written}
use album_fs.Album.{AlbumFs, on_store, on_fs, Mapping}
use album_fs.Album.Sync.{sync}
use album_fs.Album.Safety.{Sound, writes-Sound}
use album_fs.Album.Keeps.Dirs.{sync-Keeps}

module _ {E R S : Type 0} where
  -- Two calls with one result, and what follows them.
  continue-same :
      {A : Type 0} (next : A → Action E S R) (r r' : Result E A) (s s' : S)
      → r ≡ r'
      → ((a : A) → (next a s).0 ≡ (next a s').0)
      → (continue next (r, s)).0 ≡ (continue next (r', s')).0
  continue-same next r r' s s' e h =
      subst (λ q. (continue next (r, s)).0 ≡ (continue next (q, s')).0) e (same r)
    where
      same : (q : Result E _) → (continue next (q, s)).0 ≡ (continue next (q, s')).0
      same (ok a) = h a
      same (err x) = refl
      same panic = refl

module _ {S : Type 0} (d : BlockDevice S) where
  -- The bitmap that is loaded depends on what the blocks hold only.
  load_blocks-same :
      (needed block n : ℕ) (bytes : List ℕ) (s s' : S)
      → d.IsValid s
      → d.IsValid s'
      → d.total_blocks s' ≡ d.total_blocks s
      → ((j : ℕ) → d.view s' j ≡ d.view s j)
      → block + n ≤ d.total_blocks s
      → (load_blocks d needed block n bytes s').0 ≡ (load_blocks d needed block n bytes s).0
  unfolding load_blocks
  load_blocks-same needed block zero bytes s s' v v' t view h = refl
  load_blocks-same needed block (suc n) bytes s s' v v' t view h =
      let inside : block < d.total_blocks s = omega arith in
      let inside' : block < d.total_blocks s' = omega (arith, t) in
      let t1 = d.total_blocks-read_block s block v inside in
      let t1' = d.total_blocks-read_block s' block v' inside' in
      continue-same _ (d.read_block block s').0 (d.read_block block s).0 (d.read_block block s').1
        (d.read_block block s).1
        (d.read_block-view s' block v' inside'
          ∙ view block
          ∙ sym (d.read_block-view s block v inside))
        λ payload.
          continue-same _ (range payload 0 (min (needed - length bytes) ub)) _ _ _ refl λ part.
            load_blocks-same needed (block + 1) n (bytes ++ part) (d.read_block block s).1
              (d.read_block block s').1 (d.read_block-IsValid s block v inside)
              (d.read_block-IsValid s' block v' inside') (t1' ∙ t ∙ sym t1)
              (λ j.
                d.view-read_block s' block j v' inside'
                ∙ view j
                ∙ sym (d.view-read_block s block j v inside))
              (omega (arith, t1, h))

  -- Loading the bitmap from the device gives the one of the file system.
  abbrev pub HasBitmap : AlbumFs S → Type 0
  HasBitmap fs = (load_bitmap d fs.sb fs.store).0 ≡ ok fs.bitmap

  -- The region of the bitmap lies on the device and has room for it.
  pub record IsRoomy (fs : AlbumFs S) : Type 0 where
    pub size : fs.bitmap.total_blocks ≡ fs.sb.total_blocks
    pub order : fs.sb.bitmap_start ≤ fs.sb.inode_table_start
    pub inside : fs.sb.inode_table_start ≤ d.total_blocks fs.store
    pub room : div_ceil fs.sb.total_blocks 8 ≤ (fs.sb.inode_table_start - fs.sb.bitmap_start) * ub

  written_state :
      (fs : AlbumFs S)
      → d.IsValid fs.store
      → IsRoomy fs
      → d.IsValid (write_bitmap d fs.sb fs.bitmap fs.store).1
        × (d.total_blocks (write_bitmap d fs.sb fs.bitmap fs.store).1 ≡ d.total_blocks fs.store)
  unfolding write_bitmap
  written_state fs v r =
      let (_, w) =
        write_blocks-Written d fs.bitmap.bits 0 fs.sb.bitmap_start
          (fs.sb.inode_table_start - fs.sb.bitmap_start) fs.store v
          (omega (arith, r.order, r.inside)) in
      (w.valid, w.total)

  flushed_bitmap :
      (sb : Superblock) (s : S)
      → d.IsValid s
      → sb.bitmap_start ≤ sb.inode_table_start
      → sb.inode_table_start ≤ d.total_blocks s
      → (load_bitmap d sb (d.flush s).1).0 ≡ (load_bitmap d sb s).0
  unfolding load_bitmap
  flushed_bitmap sb s v order inside =
      let n = sb.inode_table_start - sb.bitmap_start in
      continue-same _
        (load_blocks d (div_ceil sb.total_blocks 8) sb.bitmap_start n [] (d.flush s).1).0
        (load_blocks d (div_ceil sb.total_blocks 8) sb.bitmap_start n [] s).0 _ _
        (load_blocks-same (div_ceil sb.total_blocks 8) sb.bitmap_start n [] s (d.flush s).1 v
          (d.flush-IsValid s v) (d.total_blocks-flush s v) (λ j. d.view-flush s j v)
          (omega (arith, order, inside)))
        λ bytes. refl

  after_write :
      (fs : AlbumFs S) (p : Result FsError (Unit {0}) × S)
      → p.0 ≡ ok tt
      → HasBitmap (record fs { store = (d.flush p.1).1 })
      → HasBitmap (continue (λ _. on_store d d.flush) (p.0, record fs { store = p.1 })).1
  after_write fs (ok _, s) e h = h
  after_write fs (err x, s) e h = cc
  after_write fs (panic, s) e h = cc

  sync-HasBitmap :
      (fs : AlbumFs S)
      → d.IsValid fs.store
      → Invariant.IsValid fs.bitmap
      → IsRoomy fs
      → HasBitmap (sync d fs).1
  unfolding sync
  sync-HasBitmap fs v b r =
      let (done, loaded) =
        load_bitmap-write_bitmap d fs.sb fs.bitmap fs.store v b r.size r.order r.inside r.room in
      let (valid, total) = written_state fs v r in
      after_write fs (write_bitmap d fs.sb fs.bitmap fs.store) done (
        flushed_bitmap fs.sb (write_bitmap d fs.sb fs.bitmap fs.store).1 valid r.order
          (omega (arith, total, r.inside))
        ∙ loaded)

  module _ (fs0 : AlbumFs S) (roomy : IsRoomy fs0) where
    pub sync-Ends : Ends (Sound d fs0) HasBitmap (sync d)
    sync-Ends = record {
      ends = λ fs h _. sync-HasBitmap fs h.valid h.bitmap (record {
        size = h.size ∙ roomy.size ∙ sym (ap (λ (sb : Superblock). sb.total_blocks) h.sb);
        order = rw h.sb roomy.order;
        inside = rw (h.sb, h.total) roomy.inside;
        room = rw h.sb roomy.room;
      });
    }
