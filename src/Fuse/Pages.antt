-- ===== src/Fuse/Pages.antt =====
-- A directory read in several requests, each from the offset that the last one gave.
use album_fs.Common.{ℕ, zero, suc, ◌+◌, ◌-◌, min, ◌≡◌, refl, ap, List, ◌++◌, ◌∷◌, [], arith, length}
use album_fs.Common.Int.{pos}
use album_fs.Fuse.Attributes.{page_from, readdir_page}

page_from_add :
    (start a b : ℕ) → page_from start (a + b) ≡ page_from start a ++ page_from (start + a) b
unfolding page_from
page_from_add start zero b =
    let e : start + 0 ≡ start = omega arith in let f : 0 + b ≡ b = omega arith in rw e (rw f refl)
page_from_add start (suc a) b =
    let e : suc a + b ≡ suc (a + b) = omega arith in
    let f : start + suc a ≡ (start + 1) + a = omega arith in
    rw e (rw f (ap (λ rest. (start, start + 1) ∷ rest) (page_from_add (start + 1) a b)))

length-page_from : (start n : ℕ) → length (page_from start n) ≡ n
unfolding page_from
length-page_from start zero = refl
length-page_from start (suc n) = ap suc (length-page_from (start + 1) n)

-- The offset that the last entry of a page came with, or the offset asked for where the page has none.
abbrev pub last_offset : ℕ → List (ℕ × ℕ) → ℕ
last_offset offset [] = offset
last_offset offset ((index, next_offset) ∷ rest) = last_offset next_offset rest

last_offset-page_from : (start n : ℕ) → last_offset start (page_from start n) ≡ start + n
unfolding page_from
last_offset-page_from start zero = omega arith
last_offset-page_from start (suc n) =
    let e : start + suc n ≡ (start + 1) + n = omega arith in
    rw e (last_offset-page_from (start + 1) n)

-- A request gives as many entries as it has room for, or those left. With what a request from the offset of its last
-- entry gives, these are the entries of one request with room for all, each once and in order.
pub readdir_page-resumes :
    (entry_count offset room : ℕ)
    → (length (readdir_page entry_count (pos offset) room) ≡ min room (entry_count - offset))
      × (readdir_page entry_count (pos offset) entry_count
          ≡ readdir_page entry_count (pos offset) room
            ++ readdir_page entry_count
                (pos (last_offset offset (readdir_page entry_count (pos offset) room)))
                entry_count)
unfolding readdir_page
readdir_page-resumes entry_count offset room =
    let given = min room (entry_count - offset) in
    let all : min entry_count (entry_count - offset) ≡ given + (entry_count - (offset + given)) =
      omega arith in
    let rest : min entry_count (entry_count - (offset + given)) ≡ entry_count - (offset + given) =
      omega arith in
    (
      length-page_from offset given,
      rw (last_offset-page_from offset given)
          (rw all (rw rest (page_from_add offset given (entry_count - (offset + given))))),
    )
