-- ===== src/Png/Carrier.antt =====
-- A chunk that was embedded in an image is extracted from it.
use album_fs.Common.{
  ℕ, zero, suc, ◌+◌, ◌-◌, ◌*◌, ◌/◌, ◌%◌, ◌^◌, ◌<◌, ◌≤◌, ◌≡◌, refl, sym, ap, ◌∙◌, List, [], length,
  take, replicate, All, All-take, All-replicate, All-copy_at, All-copy_all, to_le, to_le-IsByte,
  ◌++◌, lt→ltb, le→ltb, lt→leb, IsByte, IsU32, ok, arith,
}
use native.Mathlib.Nat.{mod-lt, div-lt_iff_lt-mul, mul_comm}
use mathlib.Core.Path.{subst}
use album_fs.Codec.{ChunkMeta, ChunkWrite, ChunkRead}
use album_fs.Chunk.{Crc16, chunk_magic, header_writes, encode_header}
use album_fs.Chunk.RoundTrip.{IsValid, length-encode_header, decode_header-encode_header}
use album_fs.Chunk.Order.{
  Shuffle, order_positions, positions_from, length-positions_from, take-positions_from,
  All-positions_from, positions_from-Distinct, Distinct, Perm-length, Perm-All, Perm-Distinct,
  Distinct-take, order_context,
}
use album_fs.Png.{RgbaImage, column, row, write_bytes, read_bytes}
use album_fs.Png.Loops.{Fits}
use album_fs.Png.RoundTrip.{read_bytes-write_bytes}
use album_fs.Png.Chunks.{slot_count, raw_capacity, embed, extract}

pub encode_header-IsByte :
    (c : Crc16) (meta : ChunkMeta) (n : ℕ) → All IsByte (encode_header c meta n)
unfolding encode_header
encode_header-IsByte c meta n =
    All-copy_at IsByte _ 14 _
      (All-copy_all IsByte (replicate 16 0) (header_writes meta n)
        (All-replicate IsByte 16 0 (omega arith))
        (
          to_le-IsByte 4 chunk_magic,
          (to_le-IsByte 4 _, (to_le-IsByte 4 _, (to_le-IsByte 2 _, tt))),
        ))
      (to_le-IsByte 2 _)

positive : (w n p : ℕ) → p < n * w → 0 < w
positive zero n p h = absurd (omega (arith, h))
positive (suc w) n p h = omega arith

module _ {Image : Type 0} (r : RgbaImage Image) (image : Image) where
  -- A position below three times the number of pixels is in the image.
  Fits-lt : (p : ℕ) → p < r.width image * r.height image * 3 → Fits r image p
  Fits-lt p h =
      let pixel : p / 3 < r.height image * r.width image =
        omega (arith, h, mul_comm (r.width image) (r.height image)) in
      let some_width = positive (r.width image) (r.height image) (p / 3) pixel in
      rw
        (
          lt→ltb (column r image p) (r.width image) (mod-lt (p / 3) some_width),
          lt→ltb (row r image p) (r.height image) ((div-lt_iff_lt-mul some_width).1 pixel),
        )
        refl

  All-Fits :
      (n : ℕ) → n ≤ r.width image * r.height image * 3 → All (Fits r image) (positions_from 0 n)
  All-Fits n h = All-positions_from (Fits r image) 0 n (λ p lo hi. Fits-lt p (omega arith))

module _ (c : Crc16) (s : Shuffle) {Image : Type 0} (r : RgbaImage Image) (image : Image) where
  -- The two operations, from what the bytes do.
  framed_parts :
      (meta : ChunkMeta) (payload : List ℕ)
      → IsValid meta
      → IsU32 (length payload)
      → r.width image * r.height image * 3 < 2 ^ 64
      → 16 + length payload ≤ raw_capacity (r.width image) (r.height image)
      → (image' : Image)
      → write_bytes r image
          (positions_from 0 ((16 + length payload) * 8))
          (encode_header c meta (length payload))
          payload
        ≡ ok image'
      → r.width image' ≡ r.width image
      → r.height image' ≡ r.height image
      → read_bytes r image' (positions_from 0 (r.width image * r.height image * 3)) 0 16
        ≡ ok (encode_header c meta (length payload))
      → read_bytes r image'
          (positions_from 0 (r.width image * r.height image * 3))
          128
          (length payload)
        ≡ ok payload
      → (embed c s r (ChunkWrite.framed meta) payload [] image ≡ ok image')
        × (extract c s r ChunkRead.framed [] image' ≡ ok (meta, payload))
  unfolding embed extract slot_count
  framed_parts meta payload valid short small room image' writes wide high front rear =
      let slots : ℕ = r.width image * r.height image * 3 in
      let wrap : slots % 2 ^ 64 ≡ slots = omega (arith, small) in
      (
        rw
            (
              lt→leb (length payload) (2 ^ 32) short,
              le→ltb (raw_capacity (r.width image) (r.height image)) (16 + length payload) room,
            )
            writes,
        rw
            (
              wide,
              high,
              wrap,
              front,
              (decode_header-encode_header c meta (length payload) valid short).1,
              le→ltb (slots / 8 - 16) (length payload) (omega (arith, room, wrap)),
              rear,
            )
            refl,
      )

  -- Where the header and the payload fit the image, embedding a framed chunk succeeds, and extracting
  -- from the image gives back its meta data and its payload. The image is any of fewer than 2 ^ 64
  -- channels, and the payload is bytes.
  pub extract-embed_framed :
      (meta : ChunkMeta) (payload : List ℕ)
      → IsValid meta
      → IsU32 (length payload)
      → All IsByte payload
      → r.width image * r.height image * 3 < 2 ^ 64
      → 16 + length payload ≤ raw_capacity (r.width image) (r.height image)
      → (image' : Image) × (embed c s r (ChunkWrite.framed meta) payload [] image ≡ ok image')
        × (extract c s r ChunkRead.framed [] image' ≡ ok (meta, payload))
  unfolding slot_count
  extract-embed_framed meta payload valid short bytes small room =
      let header : List ℕ = encode_header c meta (length payload) in
      let slots : ℕ = r.width image * r.height image * 3 in
      let need : ℕ = (16 + length payload) * 8 in
      let long = length-encode_header c meta (length payload) in
      let total : (length header + length payload) * 8 ≡ need = omega (arith, long) in
      let enough : need ≤ slots = omega (arith, room) in
      let whole : take ((length header + length payload) * 8) (positions_from 0 need)
          ≡ positions_from 0 need =
        ap (λ n. take n (positions_from 0 need)) total
        ∙ take-positions_from 0 need need (omega arith) in
      let prefix : take ((length header + length payload) * 8) (positions_from 0 slots)
          ≡ positions_from 0 need =
        ap (λ n. take n (positions_from 0 slots)) total ∙ take-positions_from 0 need slots enough in
      let (image', writes, wide, high, front, rear) =
        read_bytes-write_bytes r image (positions_from 0 need) (positions_from 0 slots) header
          payload (encode_header-IsByte c meta (length payload)) bytes
          (omega (arith, total, length-positions_from 0 need))
          (omega (arith, total, length-positions_from 0 slots, enough))
          (omega (arith, length-positions_from 0 slots, small)) (prefix ∙ sym whole)
          (subst (All (Fits r image)) (sym whole) (All-Fits r image need enough))
          (subst Distinct (sym whole) (positions_from-Distinct 0 need)) in
      let parts =
        framed_parts meta payload valid short small room image' writes wide high
          (subst (λ n. read_bytes r image' (positions_from 0 slots) 0 n ≡ ok header) long front)
          (subst
            (λ n.
              read_bytes r image' (positions_from 0 slots) (n * 8) (length payload) ≡ ok payload)
            long rear) in
      (image', parts.0, parts.1)

  markerless_parts :
      (chunk_index : ℕ) (payload order_key positions : List ℕ)
      → length order_key ≡ 32
      → r.width image * r.height image * 3 < 2 ^ 64
      → length payload ≤ raw_capacity (r.width image) (r.height image)
      → s.shuffle
          (s.derive_key order_context (order_key ++ to_le 4 chunk_index))
          (positions_from 0 (r.width image * r.height image * 3))
        ≡ positions
      → (image' : Image) → write_bytes r image positions [] payload ≡ ok image'
      → r.width image' ≡ r.width image
      → r.height image' ≡ r.height image
      → read_bytes r image' positions 0 (length payload) ≡ ok payload
      → (embed c s r (ChunkWrite.markerless chunk_index) payload order_key image ≡ ok image')
        × (extract c s r (ChunkRead.markerless chunk_index (length payload)) order_key image'
            ≡ ok (record { chunk_index = chunk_index; flags = 0 }, payload))
  unfolding embed extract slot_count order_positions
  markerless_parts chunk_index payload order_key positions keyed small room shuffled image' writes
        wide high rear =
      let slots : ℕ = r.width image * r.height image * 3 in
      let wrap : slots % 2 ^ 64 ≡ slots = omega (arith, small) in
      let fits = le→ltb (slots / 8) (length payload) (omega (arith, room, wrap)) in
      (
        rw (wrap, keyed, fits, shuffled) writes,
        rw (wide, high, wrap, keyed, fits, shuffled, rear) refl,
      )

  -- Where the payload fits the image and the key has 32 bytes, embedding a markerless chunk succeeds,
  -- and extracting as many bytes from the image under the same key and index gives back the payload. The
  -- image is any of fewer than 2 ^ 64 channels, the payload is bytes, and the shuffle is any permutation.
  pub extract-embed-markerless :
      (chunk_index : ℕ) (payload order_key : List ℕ)
      → length order_key ≡ 32
      → All IsByte payload
      → r.width image * r.height image * 3 < 2 ^ 64
      → length payload ≤ raw_capacity (r.width image) (r.height image)
      → (image' : Image) × (embed c s r (ChunkWrite.markerless chunk_index) payload order_key image
          ≡ ok image')
        × (extract c s r (ChunkRead.markerless chunk_index (length payload)) order_key image'
            ≡ ok (record { chunk_index = chunk_index; flags = 0 }, payload))
  unfolding slot_count
  extract-embed-markerless chunk_index payload order_key keyed bytes small room =
      let slots : ℕ = r.width image * r.height image * 3 in
      let seed : List ℕ = s.derive_key order_context (order_key ++ to_le 4 chunk_index) in
      let perm = s.shuffle-Perm seed (positions_from 0 slots) in
      let long = Perm-length perm ∙ length-positions_from 0 slots in
      let positions : List ℕ = s.shuffle seed (positions_from 0 slots) in
      let (image', writes, wide, high, _, rear) =
        read_bytes-write_bytes r image positions positions [] payload tt bytes
          (omega (arith, long, room)) (omega (arith, long, room)) (omega (arith, long, small)) refl
          (All-take (Fits r image) _ positions
            (Perm-All (Fits r image) perm (All-Fits r image slots (omega arith))))
          (Distinct-take _ positions (Perm-Distinct perm (positions_from-Distinct 0 slots))) in
      let parts =
        markerless_parts chunk_index payload order_key positions keyed small room refl image' writes
          wide high rear in
      (image', parts.0, parts.1)
