-- ===== src/Png/Loops.antt =====
-- The two loops of the PNG carrier: what is written stays, and is what is read.
use album_fs.Common.{
  ℕ, zero, suc, ◌+◌, ◌-◌, ◌*◌, ◌/◌, ◌%◌, ◌<◌, ◌≤◌, ◌≡◌, ◌≢◌, ◌⊎◌, inl, inr, refl, sym, ap, ◌∙◌,
  bit_and, bit_or, true, ◌&&◌, List, [], ◌∷◌, length, get_elem?, get_or, ltb, ltb→lt, ltb→le,
  Bool-cases, IsByte, All, All-get_or, ok, panic, if◌then◌else◌, arith, ◌++◌, some,
}
use native.Mathlib.Nat.{div-add-mod}
use native.Mathlib.Decide.{ℕ_discrete}
use mathlib.Core.Path.{ap₂}
use album_fs.Chunk.Order.{Distinct}
use album_fs.Png.{
  RgbaImage, bit_of, part_byte, column, row, inside, get_bit, put_bit, write_bits, read_bits,
}
use album_fs.Png.Bits.{low-replaced, replaced-IsByte, bit_of-lt, cut, cut-next}

-- The bit of a byte string at a bit index.
abbrev pub bit_at : List ℕ → ℕ → ℕ
bit_at bytes i = bit_of (get_or bytes (i / 8) 0) (i % 8)

get_elem?-get_or : (xs : List ℕ) (i : ℕ) → i < length xs → get_elem? xs i ≡ some (get_or xs i 0)
unfolding get_or
get_elem?-get_or [] i h = elim h [ ]
get_elem?-get_or (x ∷ xs) zero h = refl
get_elem?-get_or (x ∷ xs) (suc i) h = get_elem?-get_or xs i (omega arith)

get_elem?-append_left :
    (xs ys : List ℕ) (i : ℕ) → i < length xs → get_elem? xs i ≡ some (get_or (xs ++ ys) i 0)
unfolding get_or
get_elem?-append_left [] ys i h = elim h [ ]
get_elem?-append_left (x ∷ xs) ys zero h = refl
get_elem?-append_left (x ∷ xs) ys (suc i) h = get_elem?-append_left xs ys i (omega arith)

pub get_or-append_right :
    (xs ys : List ℕ) (i : ℕ) → length xs ≤ i → get_or ys (i - length xs) 0 ≡ get_or (xs ++ ys) i 0
unfolding get_or
get_or-append_right [] ys i h = ap (λ k. get_or ys k 0) (omega arith)
get_or-append_right (x ∷ xs) ys zero h = absurd (omega arith)
get_or-append_right (x ∷ xs) ys (suc i) h =
    ap (λ k. get_or ys k 0) {x = suc i - suc (length xs)} (omega arith)
    ∙ get_or-append_right xs ys i (omega arith)

part_byte-eq :
    (first second : List ℕ) (i : ℕ)
    → i < length first + length second
    → part_byte first second i ≡ ok (get_or (first ++ second) i 0)
unfolding part_byte
part_byte-eq first second i h = elim (Bool-cases (ltb i (length first))) [
  | inl left ↦ rw (left, get_elem?-append_left first second i (ltb→lt i (length first) left))
  | inr right ↦
      let past = ltb→le i (length first) right in
      rw (right, get_elem?-get_or second (i - length first) (omega arith))
        (ap ok (get_or-append_right first second i past))
]

same_place : (p q w : ℕ) → (p / 3) % w ≡ (q / 3) % w → p / 3 / w ≡ q / 3 / w → p % 3 ≡ q % 3 → p ≡ q
same_place p q w x y c = omega (arith, pixels, c)
  where
    pixels : p / 3 ≡ q / 3
    pixels = sym (div-add-mod (p / 3) w) ∙ ap₂ (λ a b. w * a + b) y x ∙ div-add-mod (q / 3) w

module _ {Image : Type 0} (r : RgbaImage Image) where
  -- The image with a bit put in.
  abbrev pub put : Image → ℕ → ℕ → Image
  put image p b =
      r.with_sample image (column r image p) (row r image p) (p % 3)
        (bit_or (bit_and (r.sample image (column r image p) (row r image p) (p % 3)) 254) b)

  abbrev pub Fits : Image → ℕ → Type 0
  Fits image p = inside r image p ≡ true

  pub put_bit-eq :
      (image : Image) (p b : ℕ) → Fits image p → put_bit r image p b ≡ ok (put image p b)
  unfolding put_bit
  put_bit-eq image p b h = rw h

  pub column-put : (image : Image) (p b q : ℕ) → column r (put image p b) q ≡ column r image q
  column-put image p b q = ap (λ w. (q / 3) % w) (r.width-with_sample image _ _ _ _)

  pub row-put : (image : Image) (p b q : ℕ) → row r (put image p b) q ≡ row r image q
  row-put image p b q = ap (λ w. q / 3 / w) (r.width-with_sample image _ _ _ _)

  pub inside-put : (image : Image) (p b q : ℕ) → inside r (put image p b) q ≡ inside r image q
  inside-put image p b q =
      ap₂ (λ w h. ltb ((q / 3) % w) w && ltb (q / 3 / w) h) (r.width-with_sample image _ _ _ _)
        (r.height-with_sample image _ _ _ _)

  pub get_bit-put_self :
      (image : Image) (p b : ℕ) → Fits image p → b < 2 → get_bit r (put image p b) p ≡ ok b
  unfolding get_bit
  get_bit-put_self image p b h lt =
      rw (inside-put image p b p, h, column-put image p b p, row-put image p b p)
        (ap ok (
          ap (λ v. bit_and v 1)
            (r.sample-with_sample_self image _ _ _ _ (ground (arith, h)) (ground (arith, h))
              (omega arith) (replaced-IsByte _ b (r.sample-IsByte image _ _ _) lt))
          ∙ low-replaced _ b (r.sample-IsByte image _ _ _) lt))

  pub get_bit-put_other :
      (image : Image) (p b q : ℕ) → q ≢ p → get_bit r (put image p b) q ≡ get_bit r image q
  unfolding get_bit
  get_bit-put_other image p b q ne =
      rw (inside-put image p b q, column-put image p b q, row-put image p b q)
        (ap (λ v. if inside r image q then ok (bit_and v 1) else panic)
          (r.sample-with_sample_other image _ _ _ _ _ _ _ apart))
    where
      apart :
          (column r image p ≢ column r image q) ⊎ (row r image p ≢ row r image q) ⊎ (p % 3 ≢ q % 3)
      apart = elim (ℕ_discrete (column r image p) (column r image q)) [
        | no x ↦ inl x
        | yes x ↦ elim (ℕ_discrete (row r image p) (row r image q)) [
          | no y ↦ inr (inl y)
          | yes y ↦ inr (inr (λ c. ne (sym (same_place p q (r.width image) x y c))))
        ]
      ]

  -- The image holds, at the positions, the bits of the bytes from index `i` on.
  abbrev pub Carries : Image → List ℕ → ℕ → List ℕ → Type 0
  Carries image [] i bytes = Unit {0}
  Carries image (p ∷ ps) i bytes =
      (get_bit r image p ≡ ok (bit_at bytes i)) × Carries image ps (i + 1) bytes

  All-Fits-put :
      (image : Image) (p b : ℕ) (ps : List ℕ) → All (Fits image) ps → All (Fits (put image p b)) ps
  All-Fits-put image p b [] h = tt
  All-Fits-put image p b (q ∷ ps) h = (inside-put image p b q ∙ h.0, All-Fits-put image p b ps h.1)

  -- What `write_bits` leaves: the bits at the positions, and what it found elsewhere.
  pub record Written (image : Image) (ps : List ℕ) (i : ℕ) (first second : List ℕ) : Type 0 where
    pub image' : Image
    pub writes : write_bits r image ps i first second ≡ ok image'
    pub carries : Carries image' ps i (first ++ second)
    pub wide : r.width image' ≡ r.width image
    pub high : r.height image' ≡ r.height image
    pub keeps : (q : ℕ) → All (λ p. q ≢ p) ps → get_bit r image' q ≡ get_bit r image q

  module _ (first second : List ℕ) (bytes : All IsByte (first ++ second)) where
    pub write_bits-Written :
        (image : Image) (ps : List ℕ) (i : ℕ)
        → All (Fits image) ps
        → Distinct ps
        → i + length ps ≤ (length first + length second) * 8
        → Written image ps i first second
    unfolding write_bits
    write_bits-Written image [] i fits d h = record {
      image' = image;
      writes = refl;
      carries = tt;
      wide = refl;
      high = refl;
      keeps = λ q _. refl;
    }
    write_bits-Written image (p ∷ ps) i fits d h =
        let b : ℕ = bit_at (first ++ second) i in
        let lt : b < 2 =
          bit_of-lt _ (i % 8) (All-get_or IsByte (first ++ second) (i / 8) 0 bytes (omega arith))
            (omega arith) in
        let w =
          write_bits-Written (put image p b) ps (i + 1) (All-Fits-put image p b ps fits.1) d.1
            (omega arith) in
        record {
          image' = w.image';
          writes =
              rw (part_byte-eq first second (i / 8) (omega arith), put_bit-eq image p b fits.0)
                w.writes;
          carries = (w.keeps p d.0 ∙ get_bit-put_self image p b fits.0 lt, w.carries);
          wide = w.wide ∙ r.width-with_sample image _ _ _ _;
          high = w.high ∙ r.height-with_sample image _ _ _ _;
          keeps = λ q apart. w.keeps q apart.1 ∙ get_bit-put_other image p b q apart.0;
        }

  -- Reading the positions of an image that carries the bytes goes on from what has been read.
  pub read_bits-cut :
      (image : Image) (ps : List ℕ) (i : ℕ) (bytes : List ℕ)
      → All IsByte bytes
      → Carries image ps i bytes
      → i + length ps ≤ length bytes * 8
      → read_bits r image ps i (cut bytes i) ≡ ok (cut bytes (i + length ps))
  unfolding read_bits
  read_bits-cut image [] i bytes v c h = ap (λ n. ok (cut bytes n)) (omega arith)
  read_bits-cut image (p ∷ ps) i bytes v c h =
      rw (c.0, cut-next bytes i v (omega arith))
        (read_bits-cut image ps (i + 1) bytes v c.1 (omega arith)
          ∙ ap (λ n. ok (cut bytes n)) (omega arith))
