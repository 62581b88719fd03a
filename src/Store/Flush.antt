-- ===== src/Store/Flush.antt =====
-- `flush` writes the dirty carriers and changes nothing that can be read, whether it succeeds or not.
use album_fs.Common.{
  ok_or, ◌≤◌, ensure, ℕ, suc, ◌+◌, ◌≤◌, ◌≡◌, refl, ap, ◌∙◌, inl, inr, Bool, true, false, List, [],
  ◌∷◌, some, get_elem?, if◌then◌else◌, ok, Bool-cases, Option-cases, arith, get_elem?-set_ne,
}
use album_fs.Common.Actions.{◌>>=◌, Action, continue-rule, continue-at, lift, modify, ◌>>◌}
use album_fs.Fs.{FsError, manifest}
use album_fs.Codec.{ChunkWrite}
use album_fs.Store.{CarrierSlot, Machine, Libraries}
use album_fs.Store.Methods.{Step, put_slot, write_chunk, write_mode, flush_slot, flush_from, flush}
use album_fs.Store.Reads.{IsValid, view}
use album_fs.Store.Keeps.{Keeps, Keeps-refl, Keeps-trans, after_write, wrote-Keeps, cleaned-Keeps}

module _ {FilePath Disk : Type 0} (l : Libraries FilePath Disk) where
  -- Nothing that is read has changed, nor a slot from `from` on.
  record Flushed (m m' : Machine FilePath Disk) (from : ℕ) : Type 0 where
    keeps : Keeps l m m'
    later : (j : ℕ) → from ≤ j → get_elem? m'.store.carriers j ≡ get_elem? m.store.carriers j

  unchanged : (m : Machine FilePath Disk) (from : ℕ) → Flushed m m from
  unchanged m from = record { keeps = Keeps-refl l m; later = λ j h. refl }

  pub write_mode-state :
      (m : Machine FilePath Disk) (slot : CarrierSlot FilePath) → (write_mode l slot m).1 ≡ m
  unfolding write_mode
  write_mode-state m slot = elim (Bool-cases m.store.encrypted) [
    | inr plain ↦ rw plain refl
    | inl coded ↦ elim (Option-cases m.store.order_key) [
      | inl no_key ↦ rw (coded, no_key) refl
      | inr (key, has) ↦ rw (coded, has) refl
    ]
  ]

  module _ (m : Machine FilePath Disk) (idx : ℕ) (slot : CarrierSlot FilePath) (b : List ℕ)
      (e : get_elem? m.store.carriers idx ≡ some slot) (f : slot.buffer ≡ some b) where
    -- The steps of `flush_slot`, each with what follows it.
    finish : Step FilePath Disk (Unit {0})
    finish = modify (put_slot idx (record slot { dirty = false }))

    store_it : List ℕ → ChunkWrite × List ℕ → Step FilePath Disk (Unit {0})
    store_it payload (mode, key) = write_chunk l slot mode payload key >> finish

    choose : List ℕ → Step FilePath Disk (Unit {0})
    choose payload = write_mode l slot >>= store_it payload

    store_it-Flushed :
        (payload : List ℕ) (how : ChunkWrite × List ℕ)
        → Flushed m (store_it payload how m).1 (suc idx)
    unfolding write_chunk store_it finish after_write
    store_it-Flushed payload (mode, key) =
        let m' : Machine FilePath Disk = record m {
          disk =
              after_write l m.store.encrypted m.store.order_key slot.path mode payload key m.disk;
        } in
        let wrote = wrote-Keeps l m idx slot b mode payload key e f in
        continue-at (λ s. Flushed m s (suc idx)) (λ _. finish)
          (write_chunk l slot mode payload key m) m' refl
          (record { keeps = wrote; later = λ j h. refl })
          λ _. record {
            keeps = Keeps-trans l m m' _ wrote (cleaned-Keeps l m' idx slot b e f);
            later = λ j h.
                get_elem?-set_ne m.store.carriers idx j (record slot { dirty = false })
                  (λ same. omega (arith, same, h));
          }

    flush_loaded-Flushed : Flushed m (flush_slot l idx slot m).1 (suc idx)
    unfolding flush_slot choose store_it finish
    flush_loaded-Flushed =
        let stop = unchanged m (suc idx) in
        let supported = ensure (l.carrier_codec.for_path slot.path) manifest in
        continue-at (λ s. Flushed m s (suc idx)) (λ payload. lift supported >> choose payload)
          (ok_or slot.buffer manifest, m) m refl stop
          λ payload.
            continue-at (λ s. Flushed m s (suc idx)) (λ _. choose payload) (supported, m) m refl
              stop
              λ _.
                continue-at (λ s. Flushed m s (suc idx)) (store_it payload) (write_mode l slot m) m
                  (write_mode-state m slot) stop (store_it-Flushed payload)

  flush_slot-Flushed :
      (m : Machine FilePath Disk) (idx : ℕ) (slot : CarrierSlot FilePath)
      → get_elem? m.store.carriers idx ≡ some slot
      → Flushed m (flush_slot l idx slot m).1 (suc idx)
  unfolding flush_slot
  flush_slot-Flushed m idx slot e = elim (Option-cases slot.buffer) [
    | inl empty ↦ rw empty (unchanged m (suc idx))
    | inr (b, found) ↦ flush_loaded-Flushed m idx slot b e found
  ]

  either :
      (dirty : Bool) (m : Machine FilePath Disk) (from : ℕ)
      (act : Action FsError (Machine FilePath Disk) (Unit {0}))
      → Flushed m (act m).1 from
      → Flushed m ((if dirty then act else lift (ok tt)) m).1 from
  either true m from act h = h
  either false m from act h = unchanged m from

  flush_from-Keeps :
      (rest : List (CarrierSlot FilePath)) (m : Machine FilePath Disk) (idx : ℕ)
      → ((k : ℕ) → get_elem? m.store.carriers (idx + k) ≡ get_elem? rest k)
      → Keeps l m (flush_from l idx rest m).1
  unfolding flush_from
  flush_from-Keeps [] m idx at = Keeps-refl l m
  flush_from-Keeps (slot ∷ rest) m idx at =
      let here : get_elem? m.store.carriers idx ≡ some slot =
        ap (get_elem? m.store.carriers) {y = idx + 0} (omega arith) ∙ at 0 in
      let one : Flushed m ((if slot.dirty then flush_slot l idx slot else lift (ok tt)) m).1
          (suc idx) =
        either slot.dirty m (suc idx) _ (flush_slot-Flushed m idx slot here) in
      continue-rule (λ s. Flushed m s (suc idx)) (λ s. Keeps l m s)
        (λ _. flush_from l (suc idx) rest) _ one (λ s h. h.keeps)
        λ _ s h. Keeps-trans l m s _ h.keeps (
          flush_from-Keeps rest s (suc idx) λ k.
            h.later (suc idx + k) (omega arith)
            ∙ ap (get_elem? m.store.carriers) {y = idx + suc k} (omega arith)
            ∙ at (suc k))

  -- Whether it succeeds or not, `flush` on a well-formed store keeps it well formed, its number of
  -- blocks, and what it holds under every number.
  pub flush_lem :
      (m : Machine FilePath Disk) (j : ℕ)
      → IsValid l m
      → IsValid l (flush l m).1
        × (view l (flush l m).1 j ≡ view l m j)
        × ((flush l m).1.store.total_blocks ≡ m.store.total_blocks)
  unfolding flush
  flush_lem m j v =
      let h =
        flush_from-Keeps m.store.carriers m 0
          (λ k. ap (get_elem? m.store.carriers) {y = k} (omega arith)) in
      (h.valid v, h.same v j, h.total)
