-- ===== src/Dirent/RoundTrip.antt =====
-- An entry written into a block is read back, and what else it leaves there.
use album_fs.Common.{
  ◌==◌, ◌||◌, not, ltb, false, ℕ, ◌+◌, ◌%◌, ◌≤◌, ◌<◌, ◌≡◌, refl, ap, ◌∙◌, Bool, true, List, [], ◌∷◌,
  length, get_elem?, some, get_or, replicate, slice, copy_at, copy_all, Ascends, length-copy_at,
  length-copy_all, slice-copy_all, slice-copy_at_inside, length-slice, get_or-slice,
  length-replicate, to_le, from_le, from_le-to_le, IsByte, IsU16, IsU64, le→ltb, ok, arith,
}
use album_fs.Fs.Slices.{range_ok, index_ok}
use album_fs.Dirent.{DirEntry, required_len, entry_writes, encode_into, decode}

-- The ranges of the fields, and what every entry on disk satisfies.
pub record IsValid (e : DirEntry) : Type 0 where
  pub inode : IsU64 e.inode
  pub rec_len : IsU16 e.rec_len
  pub aligned : e.rec_len % 4 ≡ 0
  pub short : length e.name < 256
  pub file_type : IsByte e.file_type
  pub fits : required_len (length e.name) ≤ e.rec_len

-- The bytes of an entry over a target.
abbrev written : DirEntry → List ℕ → List ℕ
written e target = copy_all (copy_at target 0 (replicate e.rec_len 0)) (entry_writes e)

module _ (e : DirEntry) (target : List ℕ) (v : IsValid e) (room : length target ≡ e.rec_len) where
  length-cleared : length (copy_at target 0 (replicate e.rec_len 0)) ≡ e.rec_len
  length-cleared =
      length-copy_at target 0 (replicate e.rec_len 0)
        (omega (arith, length-replicate {A = ℕ} e.rec_len 0))
      ∙ room

  written-Ascends : Ascends (length (copy_at target 0 (replicate e.rec_len 0))) 0 (entry_writes e)
  written-Ascends = rw length-cleared (omega (arith, v.fits))

  pub length-written : length (written e target) ≡ e.rec_len
  length-written = length-copy_all _ 0 (entry_writes e) written-Ascends ∙ length-cleared

  pub encode_into-eq : encode_into e target ≡ ok (written e target)
  unfolding encode_into
  encode_into-eq = rw (
    le→ltb (length target) e.rec_len (omega arith),
    le→ltb e.rec_len (required_len (length e.name)) v.fits,
  )

  written_field :
      (k at : ℕ) (bytes : List ℕ)
      → get_elem? (entry_writes e) k ≡ some (at, bytes)
      → slice (written e target) at (at + length bytes) ≡ bytes
  written_field k at bytes p = slice-copy_all _ 0 (entry_writes e) k at bytes written-Ascends p

  module _ (block : List ℕ) (offset : ℕ) (inside : offset + e.rec_len ≤ length block) where
    block_field :
        (k at hi : ℕ) (bytes : List ℕ)
        → get_elem? (entry_writes e) k ≡ some (at, bytes)
        → (hi ≡ at + length bytes) × (hi ≤ e.rec_len)
        → slice (copy_at block offset (written e target)) (offset + at) (offset + hi) ≡ bytes
    block_field k at hi bytes p h =
        slice-copy_at_inside block offset (written e target) at hi (omega (arith, length-written))
          (omega (arith, h.0)) (omega (arith, length-written, h.1))
        ∙ ap (slice (written e target) at) h.0
        ∙ written_field k at bytes p

-- The test of the record in `decode`.
fields-pass :
    (block : List ℕ) (offset : ℕ) (e : DirEntry)
    → IsValid e
    → offset + e.rec_len ≤ length block
    → (e.rec_len == 0
        || not (e.rec_len % 4 == 0)
        || ltb (length block) (offset + e.rec_len)
        || ltb e.rec_len (12 + length e.name))
      ≡ false
fields-pass block offset e v inside = ground (arith, v.aligned, v.fits)

-- What `decode` returns, from the fields that it reads.
pub decode_fields :
    (is_utf8 : List ℕ → Bool) (block : List ℕ) (offset : ℕ) (e : DirEntry)
    → IsValid e
    → offset + e.rec_len ≤ length block
    → from_le (slice block offset (offset + 8)) ≡ e.inode
    → from_le (slice block (offset + 8) (offset + 10)) ≡ e.rec_len
    → get_or block (offset + 10) 0 ≡ length e.name
    → get_or block (offset + 11) 0 ≡ e.file_type
    → slice block (offset + 12) (offset + 12 + length e.name) ≡ e.name
    → is_utf8 e.name ≡ true
    → decode is_utf8 block offset ≡ ok e
unfolding decode
decode_fields is_utf8 block offset e v inside inode rec_len name_len file_type name u =
    rw
      (
        le→ltb (length block) (offset + 12) (omega (arith, v.fits)),
        range_ok block offset (offset + 8) (omega (arith, v.fits)),
        range_ok block (offset + 8) (offset + 10) (omega (arith, v.fits)),
        index_ok block (offset + 10) (omega (arith, v.fits)),
        rec_len,
        name_len,
        fields-pass block offset e v inside,
        range_ok block (offset + 12) (offset + 12 + length e.name) (omega (arith, v.fits)),
        name,
        u,
        index_ok block (offset + 11) (omega (arith, v.fits)),
        inode,
        file_type,
      )
      refl

-- For an entry whose fields are in their ranges, with a record that is aligned, holds the name, and lies
-- in the block: `encode_into` succeeds, and `decode` at the offset gives the entry back, if its name is
-- UTF-8.
pub decode-encode_into :
    (is_utf8 : List ℕ → Bool) (e : DirEntry) (block : List ℕ) (offset : ℕ)
    → IsValid e
    → is_utf8 e.name ≡ true
    → offset + e.rec_len ≤ length block
    → (bytes : List ℕ) × (encode_into e (slice block offset (offset + e.rec_len)) ≡ ok bytes)
      × (decode is_utf8 (copy_at block offset bytes) offset ≡ ok e)
decode-encode_into is_utf8 e block offset v u inside = (
  written e target,
  encode_into-eq e target v room,
  decode_fields is_utf8 (copy_at block offset (written e target)) offset e v
      (omega (
        arith,
        length-copy_at block offset (written e target)
            (omega (arith, length-written e target v room)),
      ))
      (ap from_le (at_start ∙ field 0 0 8 (to_le 8 e.inode) refl (omega (arith, v.fits)))
        ∙ from_le-to_le 8 e.inode (omega (arith, v.inode)))
      (ap from_le (field 1 8 10 (to_le 2 e.rec_len) refl (omega (arith, v.fits)))
        ∙ from_le-to_le 2 e.rec_len (omega (arith, v.rec_len)))
      (byte 10 (length e.name % 256) (field 2 10 11 _ refl (omega (arith, v.fits)))
        ∙ omega (arith, v.short))
      (byte 11 e.file_type (field 3 11 12 _ refl (omega (arith, v.fits))))
      (ap (slice after (offset + 12)) (omega arith)
        ∙ field 4 12 (12 + length e.name) e.name refl (omega (arith, v.fits)))
      u,
)
  where
    target : List ℕ
    target = slice block offset (offset + e.rec_len)

    room : length target ≡ e.rec_len
    room = omega (arith, length-slice block offset (offset + e.rec_len) (omega arith) inside)

    after : List ℕ
    after = copy_at block offset (written e target)

    field :
        (k at hi : ℕ) (bytes : List ℕ)
        → get_elem? (entry_writes e) k ≡ some (at, bytes)
        → (hi ≡ at + length bytes) × (hi ≤ e.rec_len)
        → slice after (offset + at) (offset + hi) ≡ bytes
    field = block_field e target v room block offset inside

    at_start : slice after offset (offset + 8) ≡ slice after (offset + 0) (offset + 8)
    at_start = ap (λ n. slice after n (offset + 8)) (omega arith)

    byte :
        (n x : ℕ)
        → slice after (offset + n) (offset + (n + 1)) ≡ x ∷ []
        → get_or after (offset + n) 0 ≡ x
    byte n x p =
        get_or-slice after (offset + n) x 0 (ap (slice after (offset + n)) (omega arith) ∙ p)
