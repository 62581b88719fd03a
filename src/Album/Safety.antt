-- ===== src/Album/Safety.antt =====
-- What a call of the file system may do, however it ends: leave all that it holds, or keep it well formed.
use album_fs.Common.{
  ◌≤◌, ◌<◌, ℕ, zero, suc, ◌+◌, ◌≡◌, inl, inr, refl, ◌∙◌, List, Bool-cases, leb, leb→le, length, ltb,
  arith,
}
use album_fs.Device.{BlockDevice}
use album_fs.Fs.{ub}
use album_fs.Bitmap.{Bitmap, is_set, set_block, clear_block, alloc_loop, alloc_from}
use album_fs.Bitmap.Invariant
use album_fs.Bitmap.Invariant.{clear_block-IsValid}
use album_fs.Bitmap.Alloc.{alloc_from-IsValid}
use album_fs.Album.{AlbumFs}
use album_fs.Album.Sync.{now}
use album_fs.Album.Keeps.{Reads, Writes}

set_block_total : (b : Bitmap) (block : ℕ) → (set_block b block).total_blocks ≡ b.total_blocks
unfolding set_block
set_block_total b block = elim (Bool-cases (ltb block b.total_blocks)) [
  | inl e ↦ rw e refl
  | inr e ↦ rw e refl
]

clear_block_total : (b : Bitmap) (block : ℕ) → (clear_block b block).total_blocks ≡ b.total_blocks
unfolding clear_block
clear_block_total b block = elim (Bool-cases (ltb block b.total_blocks)) [
  | inl e ↦ rw e refl
  | inr e ↦ rw e refl
]

alloc_loop_total : (b : Bitmap) (from n : ℕ) → (alloc_loop b from n).1.total_blocks ≡ b.total_blocks
unfolding alloc_loop
alloc_loop_total b from zero = refl
alloc_loop_total b from (suc n) = elim (Bool-cases (is_set b from)) [
  | inl e ↦ rw e (alloc_loop_total b (from + 1) n)
  | inr e ↦ rw e (set_block_total b from)
]

module _ {S : Type 0} (d : BlockDevice S) where
  -- The device is well formed and has the blocks it had, and every block holds what it held.
  record Unchanged (s s' : S) : Type 0 where
    valid : d.IsValid s'
    total : d.total_blocks s' ≡ d.total_blocks s
    view : (j : ℕ) → d.view s' j ≡ d.view s j

  read_block-Unchanged : (s : S) (block : ℕ) → d.IsValid s → Unchanged s (d.read_block block s).1
  read_block-Unchanged s block v = elim (Bool-cases (leb (d.total_blocks s) block)) [
    | inl out ↦
        rw (d.read_block-outside s block (leb→le _ _ out))
          (record { valid = v; total = refl; view = λ j. refl })
    | inr inside ↦
        let lt : block < d.total_blocks s = ground arith in
        record {
          valid = d.read_block-IsValid s block v lt;
          total = d.total_blocks-read_block s block v lt;
          view = λ j. d.view-read_block s block j v lt;
        }
  ]

  write_block-IsValid :
      (s : S) (block : ℕ) (payload : List ℕ)
      → d.IsValid s
      → d.IsValid (d.write_block block payload s).1
        × (d.total_blocks (d.write_block block payload s).1 ≡ d.total_blocks s)
  write_block-IsValid s block payload v = elim (Bool-cases (leb (length payload) ub)) [
    | inr long ↦ rw (d.write_block-refused s block payload (inl (ground arith))) (v, refl)
    | inl fits ↦ elim (Bool-cases (leb (d.total_blocks s) block)) [
      | inl out ↦ rw (d.write_block-refused s block payload (inr (leb→le _ _ out))) (v, refl)
      | inr inside ↦
          let lt : block < d.total_blocks s = ground arith in
          let le : length payload ≤ ub = leb→le _ _ fits in
          (
            d.write_block-IsValid s block payload v lt le,
            d.total_blocks-write_block s block payload v lt le,
          )
    ]
  ]

  -- What `fs` has become after calls that only look.
  pub record Same (fs fs' : AlbumFs S) : Type 0 where
    pub valid : d.IsValid fs'.store
    pub total : d.total_blocks fs'.store ≡ d.total_blocks fs.store
    pub view : (j : ℕ) → d.view fs'.store j ≡ d.view fs.store j
    pub sb : fs'.sb ≡ fs.sb
    pub bitmap : fs'.bitmap ≡ fs.bitmap
    pub calls : fs'.calls ≡ fs.calls

  pub start : (fs : AlbumFs S) → d.IsValid fs.store → Same fs fs
  start fs v = record {
    valid = v;
    total = refl;
    view = λ j. refl;
    sb = refl;
    bitmap = refl;
    calls = refl;
  }

  pub reads-Same : (fs : AlbumFs S) → Reads d (Same fs)
  reads-Same fs = record {
    read_block = λ block. record {
      keeps = λ s h.
          let u = read_block-Unchanged s.store block h.valid in
          record {
            valid = u.valid;
            total = u.total ∙ h.total;
            view = λ j. u.view j ∙ h.view j;
            sb = h.sb;
            bitmap = h.bitmap;
            calls = h.calls;
          };
    };
  }

  -- What every call keeps.
  pub record Sound (fs fs' : AlbumFs S) : Type 0 where
    pub valid : d.IsValid fs'.store
    pub total : d.total_blocks fs'.store ≡ d.total_blocks fs.store
    pub sb : fs'.sb ≡ fs.sb
    pub bitmap : Invariant.IsValid fs'.bitmap
    pub size : fs'.bitmap.total_blocks ≡ fs.bitmap.total_blocks

  pub writes-Sound : (clock : ℕ → ℕ) (fs : AlbumFs S) → Writes d clock (Sound fs)
  unfolding alloc_from now
  writes-Sound clock fs = record {
    read_block = λ block. record {
      keeps = λ s h.
          let u = read_block-Unchanged s.store block h.valid in
          record {
            valid = u.valid;
            total = u.total ∙ h.total;
            sb = h.sb;
            bitmap = h.bitmap;
            size = h.size;
          };
    };
    write_block = λ block payload. record {
      keeps = λ s h.
          let (valid, total) = write_block-IsValid s.store block payload h.valid in
          record {
            valid = valid;
            total = total ∙ h.total;
            sb = h.sb;
            bitmap = h.bitmap;
            size = h.size;
          };
    };
    flush = record {
      keeps = λ s h. record {
        valid = d.flush-IsValid s.store h.valid;
        total = d.total_blocks-flush s.store h.valid ∙ h.total;
        sb = h.sb;
        bitmap = h.bitmap;
        size = h.size;
      };
    };
    take_block = record {
      keeps = λ s h. record {
        valid = h.valid;
        total = h.total;
        sb = h.sb;
        bitmap = alloc_from-IsValid s.bitmap s.sb.data_start h.bitmap;
        size = alloc_loop_total s.bitmap s.sb.data_start _ ∙ h.size;
      };
    };
    clear_block = λ block. record {
      keeps = λ s h. record {
        valid = h.valid;
        total = h.total;
        sb = h.sb;
        bitmap = clear_block-IsValid s.bitmap block h.bitmap;
        size = clear_block_total s.bitmap block ∙ h.size;
      };
    };
    now = record {
      keeps = λ s h. record {
        valid = h.valid;
        total = h.total;
        sb = h.sb;
        bitmap = h.bitmap;
        size = h.size;
      };
    };
  }
