-- ===== src/Chunk/Examples.antt =====
-- A checksum, a shuffle, and the chunk header at concrete fields.
use mathlib.Core.List.{Permᴰ}
use album_fs.Common.{[], ◌∷◌, ℕ, ◌%◌, ◌^◌, ◌≡◌, refl, List, length, get_or, ok, arith}
use album_fs.Codec.{ChunkMeta}
use album_fs.Chunk.{Crc16, encode_header, decode_header}
use album_fs.Chunk.Order.{Shuffle}
use album_fs.Chunk.RoundTrip.{decode_header-encode_header}

abbrev pub sixth_byte : Crc16
sixth_byte = record {
  checksum = λ bytes. get_or bytes 5 0 % 2 ^ 16;
  checksum-IsU16 = λ bytes. omega arith;
}

abbrev meta : ChunkMeta
meta = record { chunk_index = 70000; flags = 1 }

decode_header-encode_header_example :
    (length (encode_header sixth_byte meta 81920) ≡ 16)
    × (decode_header sixth_byte (encode_header sixth_byte meta 81920) ≡ ok (meta, 81920))
decode_header-encode_header_example =
    decode_header-encode_header sixth_byte meta 81920 (omega arith) (omega arith)

-- It exchanges the first two.
pub swap_front : List ℕ → List ℕ
swap_front [] = []
swap_front (x ∷ []) = x ∷ []
swap_front (x ∷ y ∷ rest) = y ∷ x ∷ rest

pub swap_front-Perm : (xs : List ℕ) → Permᴰ xs (swap_front xs)
unfolding swap_front
swap_front-Perm [] = Permᴰ.nil
swap_front-Perm (x ∷ []) = Permᴰ.cons refl Permᴰ.nil
swap_front-Perm (x ∷ y ∷ rest) = Permᴰ.swap refl refl

abbrev pub front_swapped : Shuffle
front_swapped = record {
  derive_key = λ context material. material;
  shuffle = λ seed xs. swap_front xs;
  shuffle-Perm = λ seed xs. swap_front-Perm xs;
}
