-- ===== src/Store/Slots.antt =====
-- What the slots of a store hold, block by block, whether a slot is loaded or not.
use album_fs.Common.{
  All, ℕ, zero, suc, ◌+◌, ◌-◌, ◌*◌, ◌≤◌, ◌<◌, ◌≡◌, refl, sym, ap, ◌∙◌, inl, inr, Bool, true, List,
  [], ◌∷◌, length, Option, none, some, get_elem?, set, slice, if◌then◌else◌, Result, ok, err, ◌>>=◌,
  Bool-cases, Option-cases, arith,
}
use mathlib.Core.Path.{subst}
use mathlib.Core.Option.{some-injective}
use album_fs.Fs.{FsError, bad_block, pb}
use album_fs.Codec.{Separate}
use album_fs.Store.{CarrierSlot, Libraries, covers, position, load}

-- Each slot begins where the one before it ends, and the last ends at the total.
abbrev pub Contiguous : {FilePath : Type 0} → ℕ → List (CarrierSlot FilePath) → ℕ → Type 0
Contiguous start [] total = start ≡ total
Contiguous start (slot ∷ rest) total =
    (slot.block_start ≡ start) × Contiguous (start + slot.block_count) rest total

-- No two slots are the same file, nor is one the temporary file of another.
abbrev pub Apart :
    {FilePath : Type 0} → (FilePath → FilePath) → List (CarrierSlot FilePath) → Type 0
Apart temporary [] = Unit {0}
Apart temporary (slot ∷ rest) =
    All (λ other. Separate temporary other.path slot.path) rest × Apart temporary rest

module _ {FilePath : Type 0} where
  All_paths-set :
      (P : FilePath → Type 0) (idx : ℕ) (slots : List (CarrierSlot FilePath))
      (slot slot' : CarrierSlot FilePath)
      → get_elem? slots idx ≡ some slot
      → slot'.path ≡ slot.path
      → All (λ other. P other.path) slots
      → All (λ other. P other.path) (set slots idx slot')
  unfolding set
  All_paths-set P idx [] slot slot' e same h = tt
  All_paths-set P zero (s ∷ rest) slot slot' e same h =
      let p : s.path ≡ slot'.path =
        ap (λ (x : CarrierSlot FilePath). x.path) (some-injective _ _ e) ∙ sym same in
      (subst P p h.0, h.1)
  All_paths-set P (suc idx) (s ∷ rest) slot slot' e same h =
      (h.0, All_paths-set P idx rest slot slot' e same h.1)

  -- A slot of the same file in its stead.
  pub Apart-set :
      (temporary : FilePath → FilePath) (idx : ℕ) (slots : List (CarrierSlot FilePath))
      (slot slot' : CarrierSlot FilePath)
      → get_elem? slots idx ≡ some slot
      → slot'.path ≡ slot.path
      → Apart temporary slots
      → Apart temporary (set slots idx slot')
  unfolding set
  Apart-set temporary idx [] slot slot' e same h = tt
  Apart-set temporary zero (s ∷ rest) slot slot' e same h =
      let p : s.path ≡ slot'.path =
        ap (λ (x : CarrierSlot FilePath). x.path) (some-injective _ _ e) ∙ sym same in
      (subst (λ path. All (λ other. Separate temporary other.path path) rest) p h.0, h.1)
  Apart-set temporary (suc idx) (s ∷ rest) slot slot' e same h = (
    All_paths-set (λ path. Separate temporary path s.path) idx rest slot slot' e same h.0,
    Apart-set temporary idx rest slot slot' e same h.1,
  )

  pub position_total :
      (lba start total : ℕ) (slots : List (CarrierSlot FilePath))
      → Contiguous start slots total
      → start ≤ lba
      → lba < total
      → (idx : ℕ) × (position lba slots ≡ some idx)
  unfolding position
  position_total lba start total [] c lo hi = absurd (omega (arith, c))
  position_total lba start total (slot ∷ rest) c lo hi = elim (Bool-cases (covers slot lba)) [
    | inl e ↦ (0, rw e)
    | inr e ↦
        let (idx, found) =
          position_total lba (start + slot.block_count) total rest c.1 (ground (arith, c.0)) hi in
        (suc idx, rw (e, found))
  ]

  -- A slot of the same place and size in its stead.
  pub Contiguous-set :
      (start total idx : ℕ) (slots : List (CarrierSlot FilePath))
      (slot slot' : CarrierSlot FilePath)
      → get_elem? slots idx ≡ some slot
      → (slot'.block_start ≡ slot.block_start) × (slot'.block_count ≡ slot.block_count)
      → Contiguous start slots total
      → Contiguous start (set slots idx slot') total
  unfolding set
  Contiguous-set start total idx [] slot slot' e same c = c
  Contiguous-set start total zero (s ∷ rest) slot slot' e same c =
      let p : s ≡ slot = cc in
      (
        same.0 ∙ ap (λ (x : CarrierSlot FilePath). x.block_start) (sym p) ∙ c.0,
        subst (λ n. Contiguous (start + n) rest total)
            (sym (same.1 ∙ ap (λ (x : CarrierSlot FilePath). x.block_count) (sym p))) c.1,
      )
  Contiguous-set start total (suc idx) (s ∷ rest) slot slot' e same c =
      (c.0, Contiguous-set (start + s.block_count) total idx rest slot slot' e same c.1)

module _ {FilePath Disk : Type 0} (l : Libraries FilePath Disk) (encrypted : Bool)
    (order_key : Option (List ℕ)) (disk : Disk) where
  -- The slot's payload: its buffer, or what loading it would give.
  abbrev pub payload_of : Option (List ℕ) → CarrierSlot FilePath → Result FsError (List ℕ)
  payload_of (some buffer) slot = ok buffer
  payload_of none slot = load l encrypted order_key disk slot

  abbrev pub content : CarrierSlot FilePath → Result FsError (List ℕ)
  content slot = payload_of slot.buffer slot

  abbrev pub offset_of : CarrierSlot FilePath → ℕ → ℕ
  offset_of slot lba = (lba - slot.block_start) * pb

  -- The physical block that a slot holds under a number.
  abbrev pub held : CarrierSlot FilePath → ℕ → Result FsError (List ℕ)
  held slot lba = do
    buffer ← content slot
    ok (slice buffer (offset_of slot lba) (offset_of slot lba + pb))

  unfoldable pub raw : List (CarrierSlot FilePath) → ℕ → Result FsError (List ℕ)
  raw [] lba = err (bad_block lba)
  raw (slot ∷ rest) lba = if covers slot lba then held slot lba else raw rest lba

  -- A slot that is loaded, or can be, with as many bytes as its blocks have.
  abbrev pub IsReady : CarrierSlot FilePath → Type 0
  IsReady slot =
      (buffer : List ℕ) × (content slot ≡ ok buffer) × (length buffer ≡ slot.block_count * pb)

  pub raw-position :
      (lba idx : ℕ) (slots : List (CarrierSlot FilePath))
      → position lba slots ≡ some idx
      → (slot : CarrierSlot FilePath) × (get_elem? slots idx ≡ some slot)
        × (covers slot lba ≡ true)
        × (raw slots lba ≡ held slot lba)
  unfolding raw position
  raw-position lba idx [] e = cc
  raw-position lba idx (s ∷ rest) e = elim (Bool-cases (covers s lba)) [
    | inl hit ↦ (s, first (rw hit at e), hit, rw hit)
    | inr miss ↦ elim (Option-cases (position lba rest)) [
      | inl none' ↦ cc (rw (miss, none') at e)
      | inr (k, found) ↦
          let (slot, at, cov, same) = raw-position lba k rest found in
          (
            slot,
            subst (λ n. get_elem? (s ∷ rest) n ≡ some slot)
                (some-injective _ _ (rw (miss, found) at e)) at,
            cov,
            rw miss same,
          )
    ]
  ]
    where
      first : some 0 ≡ some idx → get_elem? (s ∷ rest) idx ≡ some s
      first p = subst (λ n. get_elem? (s ∷ rest) n ≡ some s) (some-injective _ _ p) refl

  -- A slot replaced by one that covers the same blocks and holds the same under `j`.
  pub raw-set_other :
      (j idx : ℕ) (slots : List (CarrierSlot FilePath)) (slot slot' : CarrierSlot FilePath)
      → get_elem? slots idx ≡ some slot
      → covers slot' j ≡ covers slot j
      → (covers slot j ≡ true → held slot' j ≡ held slot j)
      → raw (set slots idx slot') j ≡ raw slots j
  unfolding raw set
  raw-set_other j idx [] slot slot' e c h = refl
  raw-set_other j zero (s ∷ rest) slot slot' e c h =
      subst
        (λ x.
          (if covers slot' j then held slot' j else raw rest j)
          ≡ (if covers x j then held x j else raw rest j))
        {x = slot} {y = s} (cc)
        (rw c (elim (Bool-cases (covers slot j)) [ inl t ↦ rw t (h t) | inr f ↦ rw f ]))
  raw-set_other j (suc idx) (s ∷ rest) slot slot' e c h =
      ap (λ r. if covers s j then held s j else r) (raw-set_other j idx rest slot slot' e c h)

  -- The slot that a block is found in, replaced by another that covers it.
  pub raw-set_self :
      (lba idx : ℕ) (slots : List (CarrierSlot FilePath)) (slot' : CarrierSlot FilePath)
      → position lba slots ≡ some idx
      → covers slot' lba ≡ true
      → raw (set slots idx slot') lba ≡ held slot' lba
  unfolding raw position set
  raw-set_self lba idx [] slot' e c = cc
  raw-set_self lba idx (s ∷ rest) slot' e c = elim (Bool-cases (covers s lba)) [
    | inl hit ↦
        subst (λ n. raw (set (s ∷ rest) n slot') lba ≡ held slot' lba)
          (some-injective _ _ (rw hit at e)) (rw c)
    | inr miss ↦ elim (Option-cases (position lba rest)) [
      | inl none' ↦ cc (rw (miss, none') at e)
      | inr (k, found) ↦
          subst (λ n. raw (set (s ∷ rest) n slot') lba ≡ held slot' lba)
            (some-injective _ _ (rw (miss, found) at e))
            (rw miss (raw-set_self lba k rest slot' found c))
    ]
  ]
