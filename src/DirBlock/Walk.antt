-- ===== src/DirBlock/Walk.antt =====
-- The walks end, on every block, and never panic.
use album_fs.Common.{
  le→ltb, replicate, length-replicate, length-copy_at, leb, ◌+◌, ℕ, zero, suc, ◌+◌, ◌-◌, ◌≤◌, ◌≡◌,
  ◌≢◌, inl, inr, Bool, not, ◌&&◌, List, length, ltb, ◌==◌, if◌then◌else◌, ok, panic, Bool-cases,
  from_le, slice, arith, Option, none, some, bytes_eq, copy_at, to_le,
}
use album_fs.Fs.{ub}
use album_fs.Fs.Slices.{range_ok, copy_into_ok}
use album_fs.Dirent.{DirEntry, required_len, decode}
use album_fs.DirBlock.Entry.{
  decode-Tested, Tested-fits, decode-ne-panic, bind-ne-panic, put_entry-ne-panic,
}
use album_fs.DirBlock.{
  drop_record, block_entries, put_entry, try_record, add_in_block, remove_in_block,
}

module _ (is_utf8 : List ℕ → Bool) (payload : List ℕ) (whole : length payload ≡ ub) where
  -- One step of a walk goes on by 12 bytes at least, within the block.
  pub advance :
      (offset : ℕ) (entry : DirEntry)
      → decode is_utf8 payload offset ≡ ok entry
      → (12 ≤ entry.rec_len) × (offset + entry.rec_len ≤ ub)
  advance offset entry e =
      let t = decode-Tested is_utf8 payload offset entry e in omega (arith, t.named, t.inside)

  -- On every block of 4032 bytes, whatever they are, and from every offset, with a unit of fuel for each
  -- byte that is left, listing a directory block never panics: every index is in range, and it ends with the entries or an error.
  pub block_entries-ne-panic :
      (fuel base offset : ℕ)
      → ub ≤ offset + fuel
      → block_entries is_utf8 fuel payload base offset ≢ panic
  unfolding block_entries
  block_entries-ne-panic zero base offset h = λ e. ground arith
  block_entries-ne-panic (suc fuel) base offset h = elim (Bool-cases (ltb offset ub)) [
    | inr done ↦ rw (done, block_entries) (λ e. cc)
    | inl more ↦
        rw (more, block_entries)
          (bind-ne-panic (decode is_utf8 payload offset) _ (decode-ne-panic is_utf8 payload offset)
            λ entry e.
              bind-ne-panic (block_entries is_utf8 fuel payload base (offset + entry.rec_len)) _
                (block_entries-ne-panic fuel base (offset + entry.rec_len)
                  (omega (arith, advance offset entry e)))
                λ rest r p. cc)
  ]

  try_record-ne-panic :
      (name : List ℕ) (ino file_type offset : ℕ) (entry : DirEntry)
      → decode is_utf8 payload offset ≡ ok entry
      → try_record payload ino name file_type offset entry ≢ panic
  unfolding try_record
  try_record-ne-panic name ino file_type offset entry e =
      let t = decode-Tested is_utf8 payload offset entry e in
      let minimal = required_len (length entry.name) in
      let needed = required_len (length name) in
      let fits = (Tested-fits is_utf8 payload offset entry t).1 in
      elim (Bool-cases (entry.inode == 0 && leb needed entry.rec_len)) [
        | inl free ↦ rw free (
            bind-ne-panic (put_entry payload ino offset name file_type entry.rec_len) _
              (put_entry-ne-panic payload name ino offset file_type entry.rec_len t.inside)
              λ p _ q. cc)
        | inr full ↦ rw full (elim (Bool-cases (entry.inode == 0)) [
          | inl dead ↦ rw dead (λ p. cc)
          | inr live ↦
              rw (live, le→ltb entry.rec_len minimal fits)
                (elim (Bool-cases (leb needed (entry.rec_len - minimal))) [
                  | inr tight ↦ rw tight (λ p. cc)
                  | inl room ↦
                      rw
                        (
                          room,
                          copy_into_ok payload (offset + 8) (to_le 2 minimal)
                              (omega (arith, whole, t.named, t.inside)),
                        )
                        (bind-ne-panic
                          (put_entry (copy_at payload (offset + 8) (to_le 2 minimal)) ino
                            (offset + minimal) name file_type (entry.rec_len - minimal))
                          _
                          (put_entry-ne-panic (copy_at payload (offset + 8) (to_le 2 minimal)) name
                            ino (offset + minimal) file_type (entry.rec_len - minimal)
                            (omega (
                              arith,
                              fits,
                              t.inside,
                              length-copy_at payload (offset + 8) (to_le 2 minimal)
                                  (omega (arith, t.named, t.inside)),
                            )))
                          λ p _ q. cc)
                ])
        ])
      ]

  -- On every block of 4032 bytes, whatever they are, and from every offset, with a unit of fuel for each
  -- byte that is left, adding an entry never panics: every index and range is within the block, the walk ends, the
  -- subtraction of record lengths stays at zero or above, and the result is a new payload, no room, or an error.
  pub add_in_block-ne-panic :
      (fuel : ℕ) (name : List ℕ) (ino file_type offset : ℕ)
      → ub ≤ offset + fuel
      → add_in_block is_utf8 fuel payload ino name file_type offset ≢ panic
  unfolding add_in_block
  add_in_block-ne-panic zero name ino file_type offset h = λ e. ground arith
  add_in_block-ne-panic (suc fuel) name ino file_type offset h = elim (Bool-cases (ltb offset ub)) [
    | inr done ↦ rw (done, add_in_block) (λ e. cc)
    | inl more ↦
        rw (more, add_in_block)
          (bind-ne-panic (decode is_utf8 payload offset) _ (decode-ne-panic is_utf8 payload offset)
            λ entry e.
              bind-ne-panic (try_record payload ino name file_type offset entry) _
                (try_record-ne-panic name ino file_type offset entry e)
                (elim [
                  | some p ↦ λ _ q. cc
                  | none ↦ λ _.
                      add_in_block-ne-panic fuel name ino file_type (offset + entry.rec_len)
                        (omega (arith, advance offset entry e))
                ]))
  ]

  -- Where the live entry before a record has its header in the block.
  abbrev pub HasHeader : Option ℕ → Type 0
  HasHeader none = Unit {0}
  HasHeader (some previous) = previous + 12 ≤ ub

  drop_record-ne-panic :
      (previous : Option ℕ) (offset : ℕ) (entry : DirEntry)
      → HasHeader previous
      → decode is_utf8 payload offset ≡ ok entry
      → drop_record payload previous offset entry ≢ panic
  unfolding drop_record
  drop_record-ne-panic none offset entry h e =
      rw
        (copy_into_ok payload offset (replicate 8 0)
          (omega (arith, whole, advance offset entry e, length-replicate {A = ℕ} 8 0)))
        (λ p. cc)
  drop_record-ne-panic (some previous) offset entry h e =
      rw
        (
          range_ok payload (previous + 8) (previous + 10) (omega (arith, whole, h)),
          copy_into_ok payload (previous + 8)
              (to_le 2 (from_le (slice payload (previous + 8) (previous + 10)) + entry.rec_len))
              (omega (arith, whole, h)),
        )
        (λ p. cc)

  skipped-HasHeader :
      (previous : Option ℕ) (offset : ℕ) (entry : DirEntry)
      → HasHeader previous
      → decode is_utf8 payload offset ≡ ok entry
      → HasHeader (if entry.inode == 0 then previous else some offset)
  skipped-HasHeader previous offset entry h e = elim (Bool-cases (entry.inode == 0)) [
    | inl dead ↦ rw dead h
    | inr live ↦ rw live (omega (arith, advance offset entry e))
  ]

  -- On every block of 4032 bytes, whatever they are, and from every offset, with a unit of fuel for each
  -- byte that is left and a live entry before it, if any, whose header lies in the block, removing an entry
  -- never panics: every index is in range, and the walk ends with a new payload, no such entry, or an error.
  pub remove_in_block-ne-panic :
      (fuel : ℕ) (name : List ℕ) (previous : Option ℕ) (offset : ℕ)
      → ub ≤ offset + fuel
      → HasHeader previous
      → remove_in_block is_utf8 fuel payload name previous offset ≢ panic
  unfolding remove_in_block
  remove_in_block-ne-panic zero name previous offset h k = λ e. ground arith
  remove_in_block-ne-panic (suc fuel) name previous offset h k = elim (Bool-cases (ltb offset ub)) [
    | inr done ↦ rw (done, remove_in_block) (λ e. cc)
    | inl more ↦
        rw (more, remove_in_block)
          (bind-ne-panic (decode is_utf8 payload offset) _ (decode-ne-panic is_utf8 payload offset)
            λ entry e. elim (Bool-cases (not (entry.inode == 0) && bytes_eq entry.name name)) [
              | inl hit ↦ rw hit (
                  bind-ne-panic (drop_record payload previous offset entry) _
                    (drop_record-ne-panic previous offset entry k e) λ p _ q. cc)
              | inr miss ↦ rw miss (
                  remove_in_block-ne-panic fuel name
                    (if entry.inode == 0 then previous else some offset) (offset + entry.rec_len)
                    (omega (arith, advance offset entry e))
                    (skipped-HasHeader previous offset entry k e))
            ])
  ]
