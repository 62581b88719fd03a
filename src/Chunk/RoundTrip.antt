-- ===== src/Chunk/RoundTrip.antt =====
-- A chunk header that was written is read back.
use album_fs.Common.{
  ℕ, ◌+◌, ◌^◌, ◌<◌, ◌≤◌, ◌≡◌, refl, ap, ◌∙◌, List, length, get_elem?, some, replicate,
  length-replicate, slice, copy_all, Ascends, length-copy_at, length-copy_all, slice-copy_all,
  slice-copy_at_before, slice-copy_at_self, to_le, from_le, from_le-to_le, ==_refl, IsU16, IsU32,
  ok, arith,
}
use album_fs.Codec.{ChunkMeta}
use album_fs.Chunk.{
  Crc16, chunk_magic, chunk_header_len, header_writes, encode_header, decode_header,
}

-- The ranges of the fields.
pub record IsValid (meta : ChunkMeta) : Type 0 where
  pub chunk_index : IsU32 meta.chunk_index
  pub flags : IsU16 meta.flags

module _ (c : Crc16) (meta : ChunkMeta) (chunk_len : ℕ) where
  fields : List ℕ
  fields = copy_all (replicate chunk_header_len 0) (header_writes meta chunk_len)

  fields-Ascends :
      Ascends (length (replicate {A = ℕ} chunk_header_len 0)) 0 (header_writes meta chunk_len)
  fields-Ascends = rw (length-replicate {A = ℕ} chunk_header_len 0) (omega arith)

  length-fields : length fields ≡ 16
  unfolding fields
  length-fields =
      length-copy_all _ 0 (header_writes meta chunk_len) fields-Ascends
      ∙ length-replicate {A = ℕ} chunk_header_len 0

  pub length-encode_header : length (encode_header c meta chunk_len) ≡ 16
  unfolding encode_header fields
  length-encode_header = length-copy_at fields 14 _ (omega (arith, length-fields)) ∙ length-fields

  front :
      (lo hi : ℕ)
      → lo ≤ hi
      → hi ≤ 14
      → slice (encode_header c meta chunk_len) lo hi ≡ slice fields lo hi
  unfolding encode_header fields
  front lo hi h k = slice-copy_at_before fields 14 _ lo hi (omega (arith, length-fields)) h k

  number :
      (k lo hi w n : ℕ)
      → get_elem? (header_writes meta chunk_len) k ≡ some (lo, to_le w n)
      → (hi ≡ lo + length (to_le w n)) × (hi ≤ 14) × (n < 256 ^ w)
      → from_le (slice (encode_header c meta chunk_len) lo hi) ≡ n
  unfolding fields
  number k lo hi w n e h =
      ap from_le (
        front lo hi (omega (arith, h.0)) h.1
        ∙ ap (slice fields lo) h.0
        ∙ slice-copy_all _ 0 (header_writes meta chunk_len) k lo (to_le w n) fields-Ascends e)
      ∙ from_le-to_le w n h.2

  stored : from_le (slice (encode_header c meta chunk_len) 14 16) ≡ c.checksum (slice fields 0 14)
  unfolding encode_header fields
  stored =
      ap from_le (slice-copy_at_self fields 14 _ (omega (arith, length-fields)))
      ∙ from_le-to_le 2 _ (c.checksum-IsU16 _)

  -- The header of a chunk, with fields in their ranges, has 16 bytes, and decoding it gives back the
  -- index, the flags and the length; the checksum is any of 16 bits.
  pub decode_header-encode_header :
      IsValid meta
      → IsU32 chunk_len
      → (length (encode_header c meta chunk_len) ≡ 16)
        × (decode_header c (encode_header c meta chunk_len) ≡ ok (meta, chunk_len))
  unfolding decode_header
  decode_header-encode_header v n = (
    length-encode_header,
    rw
        (
          length-encode_header,
          number 0 0 4 4 chunk_magic refl (omega arith),
          front 0 14 (omega arith) (omega arith),
          stored,
          ==_refl (c.checksum (slice fields 0 14)),
          number 1 4 8 4 meta.chunk_index refl (omega (arith, v.chunk_index)),
          number 2 8 12 4 chunk_len refl (omega arith),
          number 3 12 14 2 meta.flags refl (omega (arith, v.flags)),
        )
        refl,
  )
