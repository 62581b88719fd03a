-- ===== src/Bitmap/Invariant.antt =====
-- What keeps a bitmap well formed, and what each operation does to the set of blocks it stands for.
use album_fs.Common.{
  ◌-◌, drop-replicate, ℕ, ◌/◌, ◌%◌, ◌<◌, ◌≡◌, refl, ap, ◌∙◌, ◌≢◌, inl, inr, false, not, ◌&&◌, ◌||◌,
  List, [], length, get_or, set, replicate, All, IsByte, ltb, lt→ltb, ◌==◌, div_ceil, Bool-cases,
  length-set, get_or-set_self, get_or-set_ne, All-get_or, All-set, All-replicate, drop, ◌++◌,
  length-append, take-append_exact, length-replicate, length-take, take, copy_at, length-copy_at,
  min, All-copy_at, All-take, zero, suc, arith,
}
use mathlib.Core.List.{append-nil}
use native.Mathlib.Decide.{ℕ_discrete}
use album_fs.Bitmap.{
  Bitmap, test_bit, set_bit, clear_bit, new, from_bytes, as_bytes, is_set, set_block, clear_block,
}
use album_fs.Bitmap.Bits.{
  test_bit-set_bit, test_bit-clear_bit, set_bit-lt, clear_bit-lt, test_bit-zero,
}

-- A byte for every eight blocks.
pub record IsValid (b : Bitmap) : Type 0 where
  pub sized : length b.bits ≡ div_ceil b.total_blocks 8
  pub bytes : All IsByte b.bits

pub new-IsValid : (total : ℕ) → IsValid (new total)
unfolding new
new-IsValid total = record {
  sized = length-replicate (div_ceil total 8) 0;
  bytes = All-replicate IsByte _ 0 (omega arith);
}

pub from_bytes-IsValid :
    (bytes : List ℕ) (total : ℕ) → All IsByte bytes → IsValid (from_bytes bytes total)
unfolding from_bytes
from_bytes-IsValid bytes total h = record {
  sized =
      length-copy_at _ 0 _
        (omega (arith, length-take (min len (length bytes)) bytes, length-replicate {A = ℕ} len 0))
      ∙ length-replicate len 0;
  bytes =
      All-copy_at IsByte _ 0 _ (All-replicate IsByte len 0 (omega arith))
        (All-take IsByte (min len (length bytes)) bytes h);
}
  where
    len : ℕ
    len = div_ceil total 8

pub set_block-IsValid : (b : Bitmap) (block : ℕ) → IsValid b → IsValid (set_block b block)
unfolding set_block
set_block-IsValid b block v = elim (Bool-cases (ltb block b.total_blocks)) [
  | inl e ↦ rw e (record {
    sized = length-set b.bits _ _ ∙ v.sized;
    bytes =
        All-set IsByte b.bits _ _ v.bytes
          (set_bit-lt _ _ (All-get_or IsByte b.bits _ 0 v.bytes (omega arith)) (omega arith));
  })
  | inr e ↦ rw e v
]

pub clear_block-IsValid : (b : Bitmap) (block : ℕ) → IsValid b → IsValid (clear_block b block)
unfolding clear_block
clear_block-IsValid b block v = elim (Bool-cases (ltb block b.total_blocks)) [
  | inl e ↦ rw e (record {
    sized = length-set b.bits _ _ ∙ v.sized;
    bytes =
        All-set IsByte b.bits _ _ v.bytes
          (clear_bit-lt _ _ (All-get_or IsByte b.bits _ 0 v.bytes (omega arith)) (omega arith));
  })
  | inr e ↦ rw e v
]

-- One byte changed, seen through one bit of one byte.
module _ (bits : List ℕ) (i k j l v : ℕ) (inside : i < length bits) where
  test-set_same : i ≡ j → test_bit (get_or (set bits i v) j 0) l ≡ test_bit v l
  test-set_same p = rw (← p) (ap (λ x. test_bit x l) (get_or-set_self bits i v 0 inside))

  test-set_other : i ≢ j → test_bit (get_or (set bits i v) j 0) l ≡ test_bit (get_or bits j 0) l
  test-set_other p = ap (λ x. test_bit x l) (get_or-set_ne bits i j v 0 p)

byte_index :
    (b : Bitmap) (block : ℕ) → IsValid b → block < b.total_blocks → block / 8 < length b.bits
byte_index b block v h = rw v.sized (omega arith)

-- Two blocks are one exactly when they share the byte and the bit.
eq-div-mod : (i j : ℕ) → i / 8 ≡ j / 8 → i % 8 ≡ j % 8 → i ≡ j
eq-div-mod i j p q = omega arith

beq-mod : (i j : ℕ) → i / 8 ≡ j / 8 → (i % 8 == j % 8) ≡ (i == j)
beq-mod i j p = ground arith

beq-div : (i j : ℕ) → i / 8 ≢ j / 8 → (i == j) ≡ false
beq-div i j p = ground arith

module _ (b : Bitmap) (i j : ℕ) (v : IsValid b) (inside : i < b.total_blocks) where
  old : ℕ
  old = get_or b.bits (i / 8) 0

  old-lt : old < 256
  unfolding old
  old-lt = All-get_or IsByte b.bits (i / 8) 0 v.bytes (omega arith)

  -- On a well-formed bitmap, after `set` of a block below the total, a block is set exactly when it is
  -- that block or was set before.
  pub is_set-set_block : is_set (set_block b i) j ≡ ((i == j && ltb j b.total_blocks) || is_set b j)
  unfolding is_set set_block old
  is_set-set_block = rw (lt→ltb i b.total_blocks inside) (elim (ℕ_discrete (i / 8) (j / 8)) [
    | yes p ↦ ground (
      arith,
      test-set_same b.bits (i / 8) (i % 8) (j / 8) (j % 8) (set_bit old (i % 8))
          (byte_index b i v inside) p,
      test_bit-set_bit old (i % 8) (j % 8) old-lt,
      beq-mod i j p,
      ap (λ k. get_or b.bits k 0) p,
    )
    | no p ↦ ground (
      arith,
      test-set_other b.bits (i / 8) (i % 8) (j / 8) (j % 8) (set_bit old (i % 8))
          (byte_index b i v inside) p,
      beq-div i j p,
    )
  ])

  -- On a well-formed bitmap, after `clear` of a block below the total, a block is set exactly when it is
  -- another block that was set before.
  pub is_set-clear_block : is_set (clear_block b i) j ≡ (not (i == j) && is_set b j)
  unfolding is_set clear_block old
  is_set-clear_block = rw (lt→ltb i b.total_blocks inside) (elim (ℕ_discrete (i / 8) (j / 8)) [
    | yes p ↦ ground (
      arith,
      test-set_same b.bits (i / 8) (i % 8) (j / 8) (j % 8) (clear_bit old (i % 8))
          (byte_index b i v inside) p,
      test_bit-clear_bit old (i % 8) (j % 8) old-lt,
      beq-mod i j p,
      ap (λ k. get_or b.bits k 0) p,
    )
    | no p ↦ ground (
      arith,
      test-set_other b.bits (i / 8) (i % 8) (j / 8) (j % 8) (clear_bit old (i % 8))
          (byte_index b i v inside) p,
      beq-div i j p,
    )
  ])

get_or-replicate : (n i : ℕ) → get_or {A = ℕ} (replicate n 0) i 0 ≡ 0
unfolding get_or replicate
get_or-replicate zero i = refl
get_or-replicate (suc n) zero = refl
get_or-replicate (suc n) (suc i) = get_or-replicate n i

-- A new bitmap has no block set.
pub is_set-new : (total j : ℕ) → is_set (new total) j ≡ false
unfolding is_set new
is_set-new total j = ground (
  arith,
  ap (λ x. test_bit x (j % 8)) (get_or-replicate (div_ceil total 8) (j / 8)),
  test_bit-zero (j % 8) (omega arith),
)

take_whole : (xs ys : List ℕ) → copy_at xs 0 ys ≡ ys ++ drop (length ys) xs
unfolding copy_at take
take_whole xs ys = ap (λ n. ys ++ drop n xs) (omega arith)

no_zeros : replicate {A = ℕ} 0 0 ≡ []
unfolding replicate
no_zeros = refl

-- The bytes of a well-formed bitmap, with anything after them, give the bitmap back.
pub from_bytes-as_bytes :
    (b : Bitmap) (rest : List ℕ) → IsValid b → from_bytes (as_bytes b ++ rest) b.total_blocks ≡ b
unfolding from_bytes
from_bytes-as_bytes b rest v = λ i. record { bits = whole i; total_blocks = b.total_blocks }
  where
    len : ℕ
    len = div_ceil b.total_blocks 8

    enough : min len (length (b.bits ++ rest)) ≡ length b.bits
    enough = omega (arith, length-append b.bits rest, v.sized)

    front : take (min len (length (b.bits ++ rest))) (b.bits ++ rest) ≡ b.bits
    front = rw enough (take-append_exact b.bits rest)

    whole :
        copy_at (replicate len 0) 0 (take (min len (length (b.bits ++ rest))) (b.bits ++ rest))
        ≡ b.bits
    whole = rw front (
        take_whole (replicate len 0) b.bits
        ∙ rw v.sized (
            ap (◌++◌ b.bits) (
              drop-replicate len len 0
              ∙ ap (λ n. replicate n 0) {x = len - len} {y = 0} (omega arith)
              ∙ no_zeros)
            ∙ append-nil b.bits))
