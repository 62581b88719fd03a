-- ===== src/Png.antt =====
-- The PNG carrier of stego/png.rs: `write_bytes` and `read_bytes`, which put bytes into the lowest
-- bits of an image and take them out.
pub mod Bits
pub mod Loops
pub mod RoundTrip
pub mod Chunks
pub mod Carrier
pub mod Files
mod Examples
use album_fs.Common.{
  ℕ, zero, suc, ◌+◌, ◌-◌, ◌*◌, ◌/◌, ◌%◌, ◌^◌, ◌<◌, ◌≡◌, ◌⊎◌, ◌≢◌, bit_and, bit_or, Bool, ◌&&◌, List,
  [], ◌∷◌, length, get_elem?, get_or, set, take, replicate, slice, ltb, leb, if◌then◌else◌, IsByte,
  Result, ok, err, panic, or_panic, ◌>>=◌,
}
use album_fs.Fs.{CodecError, payload_too_large, not_a_carrier, invalid_mode}

-- image::RgbaImage: `get_pixel(x, y).0[channel]` and the assignment to it, on samples of a byte.
pub record RgbaImage (Image : Type 0) : Type 0 where
  pub width : Image → ℕ
  pub height : Image → ℕ
  pub sample : Image → ℕ → ℕ → ℕ → ℕ
  pub with_sample : Image → ℕ → ℕ → ℕ → ℕ → Image
  pub sample-IsByte : (image : Image) (x y c : ℕ) → IsByte (sample image x y c)
  pub sample-with_sample_self :
      (image : Image) (x y c v : ℕ)
      → x < width image
      → y < height image
      → c < 4
      → IsByte v
      → sample (with_sample image x y c v) x y c ≡ v
  pub sample-with_sample_other :
      (image : Image) (x y c v x' y' c' : ℕ)
      → (x ≢ x') ⊎ (y ≢ y') ⊎ (c ≢ c')
      → sample (with_sample image x y c v) x' y' c' ≡ sample image x' y' c'
  pub width-with_sample :
      (image : Image) (x y c v : ℕ) → width (with_sample image x y c v) ≡ width image
  pub height-with_sample :
      (image : Image) (x y c v : ℕ) → height (with_sample image x y c v) ≡ height image

-- Bit `k` of the bytes, from the highest bit of the first byte on: `(byte >> (7 - k % 8)) & 1`.
abbrev pub bit_of : ℕ → ℕ → ℕ
bit_of byte k = bit_and (byte / 2 ^ (7 - k)) 1

-- The byte that a bit of the two parts belongs to; an index past the end panics.
unfoldable pub part_byte : List ℕ → List ℕ → ℕ → Result CodecError ℕ
part_byte first second i =
    if ltb i (length first)
    then or_panic (get_elem? first i)
    else or_panic (get_elem? second (i - length first))

module _ {Image : Type 0} (r : RgbaImage Image) where
  -- The column, the row and the channel of a position.
  abbrev pub column : Image → ℕ → ℕ
  column image position = (position / 3) % r.width image

  abbrev pub row : Image → ℕ → ℕ
  row image position = position / 3 / r.width image

  -- `get_pixel` panics where this fails, and so does the division by a width of zero.
  abbrev pub inside : Image → ℕ → Bool
  inside image position =
      ltb (column image position) (r.width image) && ltb (row image position) (r.height image)

  unfoldable pub get_bit : Image → ℕ → Result CodecError ℕ
  get_bit image position =
      if inside image position
      then ok
          (bit_and (r.sample image (column image position) (row image position) (position % 3)) 1)
      else panic

  unfoldable pub put_bit : Image → ℕ → ℕ → Result CodecError Image
  put_bit image position bit =
      let x = column image position in
      let y = row image position in
      let c = position % 3 in
      if inside image position
      then ok (r.with_sample image x y c (bit_or (bit_and (r.sample image x y c) 254) bit))
      else panic

  -- The loop of `write_bytes` over the positions that are left.
  unfoldable pub write_bits : Image → List ℕ → ℕ → List ℕ → List ℕ → Result CodecError Image
  write_bits image [] bit_index first second = ok image
  write_bits image (position ∷ rest) bit_index first second =
      part_byte first second (bit_index / 8) >>= λ byte.
      put_bit image position (bit_of byte (bit_index % 8)) >>= λ next.
      write_bits next rest (bit_index + 1) first second

  -- The bit count is checked in a `usize` of 64 bits.
  unfoldable pub write_bytes : Image → List ℕ → List ℕ → List ℕ → Result CodecError Image
  write_bytes image positions first second =
      let total_bits = (length first + length second) * 8 in
      if leb (2 ^ 64) total_bits
      then err invalid_mode
      else if ltb (length positions) total_bits
      then err (payload_too_large (length second) (length positions / 8))
      else write_bits image (take total_bits positions) 0 first second

  -- The loop of `read_bytes` over the positions that are left, with the bytes so far.
  unfoldable pub read_bits : Image → List ℕ → ℕ → List ℕ → Result CodecError (List ℕ)
  read_bits image [] output_bit bytes = ok bytes
  read_bits image (position ∷ rest) output_bit bytes = get_bit image position >>= λ bit.
      read_bits image rest (output_bit + 1) (
        set bytes (output_bit / 8)
          (bit_or (get_or bytes (output_bit / 8) 0) (bit * 2 ^ (7 - output_bit % 8))))

  unfoldable pub read_bytes : Image → List ℕ → ℕ → ℕ → Result CodecError (List ℕ)
  read_bytes image positions bit_offset n =
      let end = bit_offset + n * 8 in
      if leb (2 ^ 64) (n * 8)
      then err invalid_mode
      else if leb (2 ^ 64) end
      then err invalid_mode
      else if ltb (length positions) end
      then err not_a_carrier
      else read_bits image (slice positions bit_offset end) 0 (replicate n 0)
