-- ===== src/Chunk.antt =====
-- The header of a framed chunk (`encode_header`, `decode_header`) and the order of the positions of a
-- markerless one (`order_positions`), both of stego/mod.rs.
pub mod RoundTrip
pub mod Order
pub mod Examples
use album_fs.Common.{
  ℕ, ◌+◌, ◌<◌, ◌≡◌, not, List, [], ◌∷◌, length, replicate, slice, copy_at, Write, copy_all, to_le,
  from_le, IsU16, ltb, ◌==◌, if◌then◌else◌, Result, ok, err,
}
use album_fs.Fs.{CodecError, not_a_carrier, header_crc, invalid_mode}
use album_fs.Codec.{ChunkMeta}

-- "ALBM".
abbrev pub chunk_magic : ℕ
chunk_magic = 0x414C424D

abbrev pub chunk_header_len : ℕ
chunk_header_len = 16

-- The crc crate's CRC-16: a checksum of 16 bits.
pub record Crc16 : Type 0 where
  pub checksum : List ℕ → ℕ
  pub checksum-IsU16 : (bytes : List ℕ) → IsU16 (checksum bytes)

abbrev pub header_writes : ChunkMeta → ℕ → List Write
header_writes meta chunk_len =
    (0, to_le 4 chunk_magic)
    ∷ (4, to_le 4 meta.chunk_index)
    ∷ (8, to_le 4 chunk_len)
    ∷ (12, to_le 2 meta.flags)
    ∷ []

module _ (c : Crc16) where
  unfoldable pub encode_header : ChunkMeta → ℕ → List ℕ
  encode_header meta chunk_len =
      let h = copy_all (replicate chunk_header_len 0) (header_writes meta chunk_len) in
      copy_at h 14 (to_le 2 (c.checksum (slice h 0 14)))

  unfoldable pub decode_header : List ℕ → Result CodecError (ChunkMeta × ℕ)
  decode_header h =
      if ltb (length h) chunk_header_len
      then err not_a_carrier
      else if not (from_le (slice h 0 4) == chunk_magic)
      then err not_a_carrier
      else if not (c.checksum (slice h 0 14) == from_le (slice h 14 16))
      then err header_crc
      else ok (
        record { chunk_index = from_le (slice h 4 8); flags = from_le (slice h 12 14) },
        from_le (slice h 8 12),
      )
