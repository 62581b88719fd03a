-- ===== src/Png/Examples.antt =====
-- An image of eight pixels by two, and the round trip at it.
use album_fs.Common.{
  ℕ, ◌+◌, ◌*◌, ◌%◌, ◌≡◌, ◌≢◌, ◌⊎◌, refl, Bool, true, false, ◌&&◌, List, [], ◌∷◌, ◌==◌, ==_refl, All,
  if◌then◌else◌, ok, arith, ◌≤◌, replicate, length-replicate, take,
}
use album_fs.Png.{RgbaImage, write_bytes, read_bytes}
use album_fs.Chunk.Order.{Distinct}
use album_fs.Png.Loops.{Fits}
use album_fs.Codec.{ChunkMeta, ChunkWrite, ChunkRead}
use album_fs.Chunk.Examples.{sixth_byte, front_swapped}
use album_fs.Png.Chunks.{slot_count, raw_capacity, embed, extract}
use album_fs.Png.Carrier.{extract-embed_framed, extract-embed-markerless}
use album_fs.Png.RoundTrip.{read_bytes-write_bytes}

record Picture : Type 0 where
  width : ℕ
  height : ℕ
  samples : ℕ → ℕ → ℕ → ℕ

here : ℕ → ℕ → ℕ → ℕ → ℕ → ℕ → Bool
here x y c x' y' c' = x == x' && (y == y' && c == c')

here_refl : (x y c : ℕ) → here x y c x y c ≡ true
unfolding here
here_refl x y c = rw (==_refl x, ==_refl y, ==_refl c)

here_other : (x y c x' y' c' : ℕ) → (x ≢ x') ⊎ (y ≢ y') ⊎ (c ≢ c') → here x y c x' y' c' ≡ false
unfolding here
here_other x y c x' y' c' h = ground arith

abbrev rgba : RgbaImage Picture
rgba = record {
  width = λ p. p.width;
  height = λ p. p.height;
  sample = λ p x y c. p.samples x y c % 256;
  with_sample = λ p x y c v. record p {
    samples = λ x' y' c'. if here x y c x' y' c' then v else p.samples x' y' c';
  };
  sample-IsByte = λ p x y c. omega arith;
  sample-with_sample_self = λ p x y c v hx hy hc hv. rw (here_refl x y c) (omega arith);
  sample-with_sample_other = λ p x y c v x' y' c' ne. rw (here_other x y c x' y' c' ne);
  width-with_sample = λ p x y c v. refl;
  height-with_sample = λ p x y c v. refl;
}

abbrev picture : Picture
picture = record { width = 8; height = 2; samples = λ x y c. x * 31 + y * 7 + c }

-- The bits of two bytes, out of order.
abbrev order : List ℕ
order = 40 ∷ 3 ∷ 17 ∷ 22 ∷ 1 ∷ 30 ∷ 9 ∷ 47 ∷ 12 ∷ 0 ∷ 5 ∷ 33 ∷ 26 ∷ 8 ∷ 45 ∷ 19 ∷ []

order-Fits : All (Fits rgba picture) (take 16 order)
unfolding take
order-Fits = (
  refl,
  (
    refl,
    (
      refl,
      (
        refl,
        (
          refl,
          (
            refl,
            (refl, (refl, (refl, (refl, (refl, (refl, (refl, (refl, (refl, (refl, tt)))))))))),
          ),
        ),
      ),
    ),
  ),
)

order-Distinct : Distinct (take 16 order)
unfolding take
order-Distinct = omega arith

read_bytes-write_bytes_example :
    (image' : Picture) × (write_bytes rgba picture order (200 ∷ []) (77 ∷ []) ≡ ok image')
    × (image'.width ≡ 8)
    × (image'.height ≡ 2)
    × (read_bytes rgba image' order 0 1 ≡ ok (200 ∷ []))
    × (read_bytes rgba image' order 8 1 ≡ ok (77 ∷ []))
read_bytes-write_bytes_example =
    read_bytes-write_bytes rgba picture order order (200 ∷ []) (77 ∷ []) (omega arith) (omega arith)
      (omega arith) (omega arith) (omega arith) refl order-Fits order-Distinct

-- An image with room for 96 bytes.
abbrev square : Picture
square = record { width = 16; height = 16; samples = λ x y c. x * 5 + y * 11 + c }

abbrev meta : ChunkMeta
meta = record { chunk_index = 3; flags = 1 }

square-roomy : 16 + 2 ≤ raw_capacity 16 16
unfolding slot_count
square-roomy = omega arith

square-fits : 2 ≤ raw_capacity 16 16
unfolding slot_count
square-fits = omega arith

extract-embed_framed_example :
    (image' : Picture) × (embed sixth_byte front_swapped rgba
        (ChunkWrite.framed meta)
        (9 ∷ 255 ∷ [])
        []
        square
      ≡ ok image')
    × (extract sixth_byte front_swapped rgba ChunkRead.framed [] image' ≡ ok (meta, 9 ∷ 255 ∷ []))
extract-embed_framed_example =
    extract-embed_framed sixth_byte front_swapped rgba square meta (9 ∷ 255 ∷ []) (omega arith)
      (omega arith) (omega arith) (omega arith) square-roomy

abbrev key : List ℕ
key = replicate 32 7

extract-embed-markerless_example :
    (image' : Picture) × (embed sixth_byte front_swapped rgba
        (ChunkWrite.markerless 4)
        (9 ∷ 255 ∷ [])
        key
        square
      ≡ ok image')
    × (extract sixth_byte front_swapped rgba (ChunkRead.markerless 4 2) key image'
        ≡ ok (record { chunk_index = 4; flags = 0 }, 9 ∷ 255 ∷ []))
extract-embed-markerless_example =
    extract-embed-markerless sixth_byte front_swapped rgba square 4 (9 ∷ 255 ∷ []) key
      (length-replicate {A = ℕ} 32 7) (omega arith) (omega arith) square-fits
