-- ===== src/Png/RoundTrip.antt =====
-- Bytes written into an image are read back.
use album_fs.Common.{
  ℕ, zero, suc, ◌+◌, ◌-◌, ◌*◌, ◌/◌, ◌%◌, ◌^◌, ◌<◌, ◌≤◌, ◌≡◌, refl, sym, ap, ◌∙◌, List, [], ◌∷◌,
  ◌++◌, length, get_or, take, drop, slice, length-take, length-drop, lt→leb, le→ltb, IsByte, All,
  All-append, ok, arith,
}
use mathlib.Core.Path.{subst}
use album_fs.Png.{RgbaImage, bit_of, write_bytes, read_bytes, read_bits}
use album_fs.Png.Bits.{cut, cut-zero, cut-all}
use album_fs.Chunk.Order.{Distinct}
use album_fs.Png.Loops.{Fits, Carries, write_bits-Written, read_bits-cut, get_or-append_right}

take-add : (a b : ℕ) (xs : List ℕ) → take (a + b) xs ≡ take a xs ++ take b (drop a xs)
unfolding take drop
take-add zero b xs = ap (λ k. take k xs) (omega arith)
take-add (suc a) zero [] = ap (λ k. take k []) {x = suc a + 0} {y = suc a} (omega arith)
take-add (suc a) (suc b) [] =
    ap (λ k. take k []) {x = suc a + suc b} {y = suc (a + suc b)} (omega arith)
take-add (suc a) b (x ∷ xs) =
    ap (λ k. take k (x ∷ xs)) {x = suc a + b} {y = suc (a + b)} (omega arith)
    ∙ ap (◌∷◌ x) (take-add a b xs)

get_or-append_left :
    (xs ys : List ℕ) (i : ℕ) → i < length xs → get_or (xs ++ ys) i 0 ≡ get_or xs i 0
unfolding get_or
get_or-append_left [] ys i h = elim h [ ]
get_or-append_left (x ∷ xs) ys zero h = refl
get_or-append_left (x ∷ xs) ys (suc i) h = get_or-append_left xs ys i (omega arith)

module _ {Image : Type 0} (r : RgbaImage Image) (image : Image) where
  Carries-split :
      (ps qs : List ℕ) (i : ℕ) (bytes : List ℕ)
      → Carries r image (ps ++ qs) i bytes
      → Carries r image ps i bytes × Carries r image qs (i + length ps) bytes
  Carries-split [] qs i bytes c = (tt, subst (λ n. Carries r image qs n bytes) (omega arith) c)
  Carries-split (p ∷ ps) qs i bytes c =
      let (front, rear) = Carries-split ps qs (i + 1) bytes c.1 in
      (
        (c.0, front),
        subst (λ n. Carries r image qs n bytes) {x = i + 1 + length ps} {y = i + suc (length ps)}
            (omega arith) rear,
      )

  Carries-left :
      (ps : List ℕ) (i : ℕ) (first second : List ℕ)
      → i + length ps ≤ length first * 8
      → Carries r image ps i (first ++ second)
      → Carries r image ps i first
  Carries-left [] i first second h c = tt
  Carries-left (p ∷ ps) i first second h c = (
    c.0 ∙ ap (λ x. ok (bit_of x (i % 8))) (get_or-append_left first second (i / 8) (omega arith)),
    Carries-left ps (i + 1) first second (omega arith) c.1,
  )

  Carries-right :
      (ps : List ℕ) (i j : ℕ) (first second : List ℕ)
      → j ≡ i + length first * 8
      → Carries r image ps j (first ++ second)
      → Carries r image ps i second
  Carries-right [] i j first second e c = tt
  Carries-right (p ∷ ps) i j first second e c =
      let place : j % 8 ≡ i % 8 = omega (arith, e) in
      let index : j / 8 - length first ≡ i / 8 = omega (arith, e) in
      (
        c.0
            ∙ ap (λ x. ok (bit_of x (j % 8)))
                (sym (get_or-append_right first second (j / 8) (omega (arith, e))))
            ∙ ap (λ k. ok (bit_of (get_or second k 0) (j % 8))) index
            ∙ ap (λ k. ok (bit_of (get_or second (i / 8) 0) k)) place,
        Carries-right ps (i + 1) (j + 1) first second (omega (arith, e)) c.1,
      )

  -- The bytes that the positions from a byte's place on carry are what `read_bytes` gives.
  read_bytes-Carries :
      (seats : List ℕ) (start : ℕ) (bytes : List ℕ)
      → All IsByte bytes
      → start + length bytes * 8 ≤ length seats
      → length seats < 2 ^ 64
      → Carries r image (take (length bytes * 8) (drop start seats)) 0 bytes
      → read_bytes r image seats start (length bytes) ≡ ok bytes
  unfolding read_bytes slice
  read_bytes-Carries seats start bytes v room small c =
      rw
        (
          lt→leb (length bytes * 8) (2 ^ 64) (omega arith),
          lt→leb (start + length bytes * 8) (2 ^ 64) (omega arith),
          le→ltb (length seats) (start + length bytes * 8) room,
          sym (cut-zero bytes v),
        )
        (ap (λ n. read_bits r image (take n (drop start seats)) 0 (cut bytes 0)) (omega arith)
          ∙ read_bits-cut r image (take (length bytes * 8) (drop start seats)) 0 bytes v c
              (omega (arith, long))
          ∙ ap ok (cut-all bytes _ (omega (arith, long))))
    where
      long : length (take (length bytes * 8) (drop start seats)) ≡ length bytes * 8
      long =
          omega (arith, length-take (length bytes * 8) (drop start seats), length-drop start seats)

module _ {Image : Type 0} (r : RgbaImage Image) where
  -- Where the positions of the bits are different pixels' channels of the image, and there are as many
  -- as the two parts have bits, `write_bytes` succeeds and keeps the image's size, and `read_bytes` then gives the first part at
  -- the beginning and the second part where the first ends. The list of positions that is read may go
  -- on past those that were written.
  pub read_bytes-write_bytes :
      (image : Image) (positions seats first second : List ℕ)
      → All IsByte first
      → All IsByte second
      → (length first + length second) * 8 ≤ length positions
      → (length first + length second) * 8 ≤ length seats
      → length seats < 2 ^ 64
      → take ((length first + length second) * 8) seats
        ≡ take ((length first + length second) * 8) positions
      → All (Fits r image) (take ((length first + length second) * 8) positions)
      → Distinct (take ((length first + length second) * 8) positions)
      → (image' : Image) × (write_bytes r image positions first second ≡ ok image')
        × (r.width image' ≡ r.width image)
        × (r.height image' ≡ r.height image)
        × (read_bytes r image' seats 0 (length first) ≡ ok first)
        × (read_bytes r image' seats (length first * 8) (length second) ≡ ok second)
  unfolding write_bytes drop
  read_bytes-write_bytes image positions seats first second vf vs room enough small same fits
        distinct =
      let total : ℕ = (length first + length second) * 8 in
      let w =
        write_bits-Written r first second (All-append IsByte first second vf vs) image
          (take total positions) 0 fits distinct (omega (arith, length-take total positions)) in
      let (front, rear) =
        Carries-split r w.image' (take (length first * 8) seats)
          (take (length second * 8) (drop (length first * 8) seats)) 0 (first ++ second)
          (subst (λ ps. Carries r w.image' ps 0 (first ++ second))
            (sym same
              ∙ ap (λ n. take n seats) {x = total} (omega arith)
              ∙ take-add (length first * 8) (length second * 8) seats)
            w.carries) in
      (
        w.image',
        rw (lt→leb total (2 ^ 64) (omega arith), le→ltb (length positions) total room) w.writes,
        w.wide,
        w.high,
        read_bytes-Carries r w.image' seats 0 first vf (omega arith) small (
            Carries-left r w.image' _ 0 first second
              (omega (arith, length-take (length first * 8) seats)) front),
        read_bytes-Carries r w.image' seats (length first * 8) second vs (omega arith) small (
            Carries-right r w.image' _ 0 (0 + length (take (length first * 8) seats)) first second
              (omega (arith, length-take (length first * 8) seats)) rear),
      )
