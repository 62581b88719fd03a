-- ===== src/Album/Contents.antt =====
-- `read` gives the bytes of the file: those of its blocks, and zeros where it has no block.
use album_fs.Common.{
  ℕ, zero, suc, ◌+◌, ◌-◌, ◌*◌, ◌/◌, ◌%◌, ◌^◌, ◌<◌, ◌≤◌, ◌≡◌, inl, inr, refl, sym, ◌∙◌, ap, List, [],
  ◌++◌, Bool-cases, false, ◌||◌, Option, none, some, ◌==◌, Result, ok, err, panic, leb, ltb, le→ltb,
  ltb→lt, ltb→le, if◌then◌else◌, length, replicate, slice, min, div_ceil, arith,
}
use mathlib.Core.Path.{subst}
use mathlib.Core.List.{append_assoc, append-nil}
use album_fs.Common.Actions.{continue, lift}
use album_fs.Device.{BlockDevice}
use album_fs.Fs.{FsError, ub}
use album_fs.Inode.{Inode, is_dir}
use album_fs.Fs.{range}
use album_fs.Album.{AlbumFs, getattr}
use album_fs.Album.Files.{read_opened, read_piece, read_from, read}
use album_fs.Album.Keeps.{getattr-Keeps}
use album_fs.Album.Safety.{Same, reads-Same, start}
use album_fs.Album.Gives.{look, ◌then◌, Gives, Gives-lift, Gives-read, Gives-test, Gives-bind}
use album_fs.Album.Lookup.{block_of, bmap-Gives}
use album_fs.Album.Bytes.{
  ok_bytes, bytes_of, bytes_of-append, slice-replicate, slice-bytes_of, range-within,
}

module _ {S : Type 0} (d : BlockDevice S) where
  -- What a file has at a block's number, zeros where it has no block.
  unfoldable pub block_bytes : S → Inode → ℕ → Result FsError (List ℕ)
  block_bytes s inode index = block_of (look d s) inode index then λ found. elim found [
    | none ↦ ok (replicate ub 0)
    | some block ↦ look d s block
  ]

  module _ (fs : AlbumFs S) (inode : Inode) where
    piece_of : Option ℕ → ℕ → ℕ → Result FsError (List ℕ)
    piece_of none within count = ok (replicate count 0)
    piece_of (some block) within count =
        look d fs.store block then λ payload. range payload within (within + count)

    read_piece-Gives :
        (found : Option ℕ) (within count : ℕ)
        → Gives d fs inode (read_piece d found within count) (piece_of found within count)
    unfolding read_piece piece_of
    read_piece-Gives none within count = Gives-lift d fs inode _
    read_piece-Gives (some block) within count =
        Gives-bind d fs inode (Gives-read d fs inode block)
          λ payload. Gives-lift d fs inode (range payload within (within + count))

    module _ (block : ℕ → List ℕ) (end : ℕ)
        (known : (l : ℕ)
          → l < div_ceil end ub
          → (block_bytes fs.store inode l ≡ ok (block l)) × (length (block l) ≡ ub)) where
      -- The piece of a block that one pass of the loop reads.
      piece-eq :
          (l within count : ℕ) (r : Result FsError (Option ℕ))
          → length (block l) ≡ ub
          → within + count ≤ ub
          → (r then λ found. elim found [ none ↦ ok (replicate ub 0) | some b ↦ look d fs.store b ])
            ≡ ok (block l)
          → (r then λ found. piece_of found within count)
            ≡ ok (bytes_of block (l * ub + within) count)
      unfolding piece_of
      piece-eq l within count (ok none) long room e = ap ok (
          sym (slice-replicate ub within count room)
          ∙ ap (λ xs. slice xs within (within + count)) (ok_bytes e)
          ∙ slice-bytes_of block l within count long room)
      piece-eq l within count (ok (some b)) long room e =
          ap (λ r. r then λ payload. range payload within (within + count)) {x = look d fs.store b}
            {y = ok (block l)} e
          ∙ range-within (block l) within (within + count) (omega (arith, long, room))
          ∙ ap ok (slice-bytes_of block l within count long room)
      piece-eq l within count (err x) long room e = cc
      piece-eq l within count panic long room e = cc

      then_assoc :
          {A B C : Type 0} (r : Result FsError A) (f : A → Result FsError B)
          (g : B → Result FsError C)
          → (r then λ a. f a then g) ≡ ((r then f) then g)
      then_assoc (ok a) f g = refl
      then_assoc (err e) f g = refl
      then_assoc panic f g = refl

      ended :
          (position : ℕ) (output : List ℕ)
          → end ≤ position
          → ◌≡◌ {A = Result FsError (List ℕ)}
              (ok output)
              (ok (output ++ bytes_of block position (end - position)))
      unfolding bytes_of
      ended position output h = ap ok (
          sym (append-nil output)
          ∙ ap (λ n. output ++ bytes_of block position n) {x = 0} {y = end - position}
              (omega arith))

      -- What one pass and the loop after it give.
      pass :
          (position : ℕ) (output : List ℕ)
          → position < end
          → let count = min (end - position) (ub - position % ub) in
            (block_of (look d fs.store) inode (position / ub) then λ found.
            piece_of found (position % ub) count then λ piece.
            ok ((output ++ piece) ++ bytes_of block (position + count) (end - (position + count))))
            ≡ ok (output ++ bytes_of block position (end - position))
      unfolding block_bytes
      pass position output h =
          let count = min (end - position) (ub - position % ub) in
          let (stored, long) = known (position / ub) (omega (arith, h)) in
          then_assoc (block_of (look d fs.store) inode (position / ub))
            (λ found. piece_of found (position % ub) count)
            (λ piece.
              ok
                ((output ++ piece) ++ bytes_of block (position + count) (end - (position + count))))
          ∙ ap
              (λ r. r then λ piece.
                ok (
                  (output ++ piece)
                  ++ bytes_of block (position + count) (end - (position + count))))
              (piece-eq (position / ub) (position % ub) count
                (block_of (look d fs.store) inode (position / ub)) long (omega arith) stored)
          ∙ ap ok (
              append_assoc output _ _
              ∙ ap (λ xs. output ++ xs)
                  (ap
                      (λ p.
                        bytes_of block p count
                        ++ bytes_of block (position + count) (end - (position + count)))
                      {x = position / ub * ub + position % ub} {y = position} (omega arith)
                    ∙ sym (bytes_of-append block position count (end - (position + count)))
                    ∙ ap (bytes_of block position) {x = count + (end - (position + count))}
                        {y = end - position} (omega (arith, h))))

      -- The loop from a position on, with what was read before.
      read_from-Gives :
          (fuel position : ℕ) (output : List ℕ)
          → end - position ≤ fuel
          → Gives d fs inode
              (read_from d fuel position end output)
              (ok (output ++ bytes_of block position (end - position)))
      unfolding read_from
      read_from-Gives zero position output h = rw (le→ltb position end (omega arith)) (
          subst (Gives d fs inode (lift (ok output))) (ended position output (omega arith))
            (Gives-lift d fs inode (ok output)))
      read_from-Gives (suc fuel) position output h =
          let within = position % ub in
          let count = min (end - position) (ub - within) in
          Gives-test d fs inode (ltb position end)
            (λ past.
              subst (Gives d fs inode (lift (ok output)))
                (ended position output (ltb→le position end past))
                (Gives-lift d fs inode (ok output)))
            λ more. subst (Gives d fs inode _) (pass position output (ltb→lt position end more)) (
              Gives-bind d fs inode (bmap-Gives d fs inode (position / ub)) λ found.
                Gives-bind d fs inode (read_piece-Gives found within count) λ piece.
                  read_from-Gives fuel (position + count) (output ++ piece)
                    (omega (arith, ltb→lt position end more)))

  -- The file's blocks up to its end.
  abbrev pub HasBlocks : S → Inode → (ℕ → List ℕ) → Type 0
  HasBlocks s inode block =
      (l : ℕ)
      → l < div_ceil inode.size ub
      → (block_bytes s inode l ≡ ok (block l)) × (length (block l) ≡ ub)

  module _ (fs : AlbumFs S) (inode : Inode) (offset len : ℕ) (block : ℕ → List ℕ)
      (file : is_dir inode ≡ false) (has : HasBlocks fs.store inode block) where
    last : ℕ
    last = min inode.size (min (offset + len) (2 ^ 64 - 1))

    opened-eq :
        (s : AlbumFs S)
        → Same d fs s
        → (read_opened d offset len inode s).0 ≡ ok (bytes_of block offset (last - offset))
    unfolding read_opened last bytes_of
    opened-eq s same = rw file (elim (Bool-cases (leb inode.size offset || len == 0)) [
      | inl empty ↦
          rw empty
            (ap (λ n. ok (bytes_of block offset n)) {x = 0} {y = last - offset} (ground arith))
      | inr some' ↦
          rw some'
            ((read_from-Gives fs inode block last (λ l h. has l (omega (arith, h))) (last - offset)
                offset [] (omega arith)).gives
              s same).0
    ])

    after_getattr :
        (p : Result FsError Inode × AlbumFs S)
        → p.0 ≡ ok inode
        → Same d fs p.1
        → (continue (read_opened d offset len) p).0 ≡ ok (bytes_of block offset (last - offset))
    after_getattr (ok i, s) e same =
        ap (λ r. (continue (read_opened d offset len) (r, s)).0) e ∙ opened-eq s same
    after_getattr (err x, s) e same = cc
    after_getattr (panic, s) e same = cc

    -- On a well-formed device, `read` of a file whose inode and blocks can be read gives the bytes of the file
    -- from the offset on, `len` of them or those up to the file's end where it has fewer; where the file
    -- has no block, they are zeros. The offset and the length add up to at most what 64 bits hold.
    pub read_lem :
        (ino : ℕ)
        → d.IsValid fs.store
        → (getattr d ino fs).0 ≡ ok inode
        → offset + len < 2 ^ 64
        → (read d ino offset len fs).0
          ≡ ok (bytes_of block offset (min inode.size (offset + len) - offset))
    unfolding read last
    read_lem ino valid got small =
        after_getattr (getattr d ino fs) got
          ((getattr-Keeps d (reads-Same d fs) ino).keeps fs (start d fs valid))
        ∙ ap (λ n. ok (bytes_of block offset n)) (omega (arith, small))
