-- ===== src/Superblock/Names.antt =====
-- The file names in the manifest of a superblock.
use album_fs.Common.{
  bytes_eq_refl, ltb→le, sym, [], ◌∷◌, ◌≢◌, ◌≤◌, ℕ, zero, suc, ◌+◌, ◌≡◌, refl, ap, ◌∙◌, Bool, true,
  false, not, List, length, slice, from_le, ltb, leb, ◌==◌, ◌||◌, bytes_eq, copy_at, replicate,
  if◌then◌else◌, Result, ok, err, panic, ensure, ◌>>=◌, All, arith,
}
use album_fs.Fs.{FsError}
use album_fs.Fs.{manifest, bad_magic, superblock_crc}
use mathlib.Core.Path.{subst}
use album_fs.Block.{Checksum}
use album_fs.Dirent.{dot, dotdot}
use album_fs.Superblock.{
  has_byte, CarrierRange, Superblock, markerless_fs_version, sb_magic, header_len, validate_name,
  read_name, read_ranges, decode,
}

-- A name that is one component of a path and fits its length field: not empty, not "." or "..", with no byte
-- that is a slash (47) or a backslash (92), of at most 65535 bytes.
pub record IsComponent (name : List ℕ) : Type 0 where
  pub not_empty : name ≢ []
  pub not_dot : name ≢ b'.' ∷ []
  pub not_dotdot : name ≢ b'.' ∷ b'.' ∷ []
  pub no_separator : All (λ byte. (byte ≢ 47) × (byte ≢ 92)) name
  pub short : length name ≤ 65535

abbrev pub IsNamed : CarrierRange → Type 0
IsNamed carrier = IsComponent carrier.name

no_bytes :
    (name : List ℕ)
    → has_byte b'/' name ≡ false
    → has_byte b'\\' name ≡ false
    → All (λ byte. (byte ≢ 47) × (byte ≢ 92)) name
unfolding has_byte
no_bytes [] h k = tt
no_bytes (x ∷ xs) h k = (
  (λ e. ground (arith, e, h), λ e. ground (arith, e, k)),
  no_bytes xs (ground (arith, h)) (ground (arith, k)),
)

-- No test of `validate_name` holds of a name that passes.
passed :
    (name : List ℕ)
    → validate_name name ≡ ok tt
    → ((length name == 0) ≡ false)
      × (bytes_eq name dot ≡ false)
      × (bytes_eq name dotdot ≡ false)
      × (has_byte b'/' name ≡ false)
      × (has_byte b'\\' name ≡ false)
      × (ltb 65535 (length name) ≡ false)
unfolding validate_name
passed name e = ground arith

differs : (xs ys : List ℕ) → bytes_eq xs ys ≡ false → xs ≢ ys
differs xs ys e p =
    let same : bytes_eq xs ys ≡ true = ap (bytes_eq xs) (sym p) ∙ bytes_eq_refl xs in cc

validate_name-IsComponent : (name : List ℕ) → validate_name name ≡ ok tt → IsComponent name
validate_name-IsComponent name e =
    let (empty, one, two, slash, backslash, long) = passed name e in
    record {
      not_empty =
          λ p. let none_left : length name ≡ 0 = ap length p in ground (arith, none_left, empty);
      not_dot = differs name dot one;
      not_dotdot = differs name dotdot two;
      no_separator = no_bytes name slash backslash;
      short = ltb→le 65535 (length name) long;
    }

ok-inj : {A : Type 0} {x y : A} → ◌≡◌ {A = Result FsError A} (ok x) (ok y) → x ≡ y
ok-inj e = cc

else-ok :
    {A : Type 0} (b : Bool) (x : FsError) (r : Result FsError A) (a : A)
    → (if b then err x else r) ≡ ok a
    → r ≡ ok a
else-ok true x r a e = cc
else-ok false x r a e = e

bind-ok :
    {A B : Type 0} (r : Result FsError A) (next : A → Result FsError B) (b : B)
    → (r >>= next) ≡ ok b
    → (a : A) × (r ≡ ok a) × (next a ≡ ok b)
bind-ok (ok a) next b e = (a, refl, e)
bind-ok (err x) next b e = cc
bind-ok panic next b e = cc

module _ (is_utf8 : List ℕ → Bool) (version : ℕ) (buf : List ℕ)
    (named : leb markerless_fs_version version ≡ true) where
  read_name-valid :
      (offset end : ℕ) (name : List ℕ)
      → read_name is_utf8 version buf offset ≡ ok (name, end)
      → validate_name name ≡ ok tt
  unfolding read_name
  read_name-valid offset end name e = ground (arith, named)

  read_ranges-IsNamed :
      (n offset end : ℕ) (carriers : List CarrierRange)
      → read_ranges is_utf8 version buf n offset ≡ ok (carriers, end)
      → All IsNamed carriers
  unfolding read_ranges
  read_ranges-IsNamed zero offset end carriers e =
      subst (All IsNamed) (ap (λ (p : List CarrierRange × ℕ). p.0) (ok-inj e)) tt
  read_ranges-IsNamed (suc n) offset end carriers e =
      let ((name, start), got, e1) = bind-ok (read_name is_utf8 version buf offset) _ _ e in
      let (_, _, e2) = bind-ok (ensure (leb (start + 20) (length buf)) manifest) _ _ e1 in
      let ((rest, last), more, e3) =
        bind-ok (read_ranges is_utf8 version buf n (start + 20)) _ _ e2 in
      subst (All IsNamed) (ap (λ (p : List CarrierRange × ℕ). p.0) (ok-inj e3)) (
        validate_name-IsComponent name (read_name-valid offset start name got),
        read_ranges-IsNamed n (start + 20) last rest more,
      )

-- Every name in the manifest of a superblock of version 3 that decodes is one component of a path: not empty, not
-- "." or "..", without a slash or a backslash, and of at most 65535 bytes.
pub decode-IsNamed :
    (is_utf8 : List ℕ → Bool) (c : Checksum) (buf : List ℕ) (sb : Superblock)
    → decode is_utf8 c buf ≡ ok sb
    → sb.version ≡ markerless_fs_version
    → All IsNamed sb.carriers
unfolding decode
decode-IsNamed is_utf8 c buf sb e three =
    let version : ℕ = from_le (slice buf 8 12) in
    let e1 =
      else-ok (ltb (length buf) 80 || not (bytes_eq (slice buf 0 8) sb_magic)) bad_magic _ sb e in
    let e2 =
      else-ok (not (version == 1 || (version == 2 || version == markerless_fs_version))) manifest _
        sb e1 in
    let e3 = else-ok (ltb (length buf) (header_len version)) manifest _ sb e2 in
    let ((ranges, end), got, e4) =
      bind-ok (read_ranges is_utf8 version buf (from_le (slice buf 68 72)) (header_len version)) _ _
        e3 in
    let same = ok-inj (
      else-ok
        (not (c.crc32 (copy_at (slice buf 0 end) 76 (replicate 4 0)) == from_le (slice buf 76 80)))
        superblock_crc _ sb e4) in
    let named : leb markerless_fs_version version ≡ true =
      ap (leb markerless_fs_version) (ap (λ (x : Superblock). x.version) same ∙ three) in
    subst (All IsNamed) (ap (λ (x : Superblock). x.carriers) same) (
      read_ranges-IsNamed is_utf8 version buf named (from_le (slice buf 68 72)) (header_len version)
        end ranges got)
