-- ===== src/Block/Examples.antt =====
-- A checksum and a cipher that satisfy their laws, and the theorems about blocks at them.
use album_fs.Common.{
  ℕ, ◌%◌, ◌^◌, ◌≡◌, refl, sym, ap, List, [], ◌∷◌, length, some, replicate, length-replicate, get_or,
  ok, arith,
}
use mathlib.Core.Option
use album_fs.Fs.{pb}
use album_fs.Block.{Checksum, Aead, pad, build_physical_block, read_physical_block, encode, decode}
use album_fs.Block.RoundTrip.{read-build_physical_block, decode-encode_block}

abbrev pub first_byte : Checksum
first_byte = record {
  crc32 = λ bytes. get_or bytes 0 0 % 2 ^ 32;
  crc32-IsU32 = λ bytes. omega arith;
}

abbrev tag_zeros : List ℕ
tag_zeros = 0 ∷ 0 ∷ 0 ∷ 0 ∷ 0 ∷ 0 ∷ 0 ∷ 0 ∷ 0 ∷ 0 ∷ 0 ∷ 0 ∷ 0 ∷ 0 ∷ 0 ∷ 0 ∷ []

-- The text is not changed, and the tag is zeros.
abbrev pub plain : Aead
plain = record {
  seal = λ key nonce aad text. some (text, tag_zeros);
  unseal = λ key nonce aad sealed tag. some sealed;
  seal_some = λ key nonce aad text h. ((text, tag_zeros), refl);
  length-seal = λ key nonce aad text sealed tag e. (
    ap length (ap (λ (p : List ℕ × List ℕ). p.0) (mathlib.Core.Option.some-injective _ _ (sym e))),
    ap length (ap (λ (p : List ℕ × List ℕ). p.1) (mathlib.Core.Option.some-injective _ _ (sym e))),
  );
  unseal-seal =
      λ key nonce aad text sealed tag e. ap (Option.map (λ (p : List ℕ × List ℕ). p.0)) (sym e);
}

read-build_physical_block_example :
    (block : List ℕ) × (build_physical_block first_byte (7 ∷ 8 ∷ []) ≡ ok block)
    × (length block ≡ pb)
    × (read_physical_block first_byte 3 block ≡ ok (pad (7 ∷ 8 ∷ [])))
read-build_physical_block_example =
    read-build_physical_block first_byte 3 (7 ∷ 8 ∷ []) (omega arith)

decode-encode_block_example :
    (block : List ℕ) × (encode first_byte plain (1 ∷ []) (replicate 24 9) 3 (7 ∷ 8 ∷ []) ≡ ok block)
    × (length block ≡ pb)
    × (decode first_byte plain (1 ∷ []) 3 block ≡ ok (pad (7 ∷ 8 ∷ [])))
decode-encode_block_example =
    decode-encode_block first_byte plain (1 ∷ []) (replicate 24 9) 3 (7 ∷ 8 ∷ [])
      (length-replicate {A = ℕ} 24 9) (omega arith)
