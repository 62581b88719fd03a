-- ===== src/Store/Examples.antt =====
-- A store of two carriers with a block each, encrypted, one of them not loaded yet, and the theorems
-- about the store at it.
use album_fs.Common.{
  ◌+◌, ℕ, ◌%◌, ◌≡◌, ne→==, refl, true, false, List, [], ◌∷◌, length, none, some, replicate,
  length-replicate, if◌then◌else◌, ◌==◌, ok, arith,
}
use album_fs.Fs.{pb}
use album_fs.Block.{pad}
use album_fs.Block.Examples.{first_byte, plain}
use album_fs.Codec.{Separate, CarrierCodec}
use album_fs.Store.{CarrierSlot, Machine, Libraries, load, read_mode}
use album_fs.Store.Methods.{read_block, write_block}
use album_fs.Superblock.{CarrierRange}
use album_fs.Store.Format.{new_for_format, new_for_format-IsValid}
use album_fs.Store.Reads.{IsValid, view}
use album_fs.Store.Device.{read_block_lem, write_block_lem}

-- A file is its bytes, those written last; its number is that of its chunk.
abbrev pub files : CarrierCodec ℕ (ℕ → List ℕ)
files = record {
  for_path = λ path. true;
  raw_capacity_bytes = λ path disk. ok (length (disk path));
  write_chunk =
      λ path mode payload key disk. (ok tt, λ other. if other == path then payload else disk other);
  read_chunk = λ path mode key disk. ok (record { chunk_index = path; flags = 0 }, disk path);
  write_prefix = λ path bytes disk. (ok tt, disk);
  read_prefix = λ path n disk. ok (disk path);
  temporary = λ path. path + 1000;
  read_chunk-write_chunk_other =
      λ path path' mode mode' payload key key' disk ne apart. rw (ne→== path' path ne) refl;
}

abbrev pub libraries : Libraries ℕ (ℕ → List ℕ)
libraries = record {
  checksum = first_byte;
  aead = plain;
  nonce = λ k. replicate 24 (k % 256);
  length-nonce = λ k. length-replicate {A = ℕ} 24 (k % 256);
  carrier_codec = files;
}

separate : Separate (λ path. path + 1000) 1 0
separate =
    (λ e. absurd (omega (arith, e)), λ e. absurd (omega (arith, e)), λ e. absurd (omega (arith, e)))

abbrev pub loaded_slot : CarrierSlot ℕ
loaded_slot = record {
  path = 0;
  chunk_index = 0;
  is_primary = true;
  block_start = 0;
  block_count = 1;
  buffer = some (replicate pb 0);
  dirty = false;
}

abbrev pub other_slot : CarrierSlot ℕ
other_slot = record {
  path = 1;
  chunk_index = 1;
  is_primary = false;
  block_start = 1;
  block_count = 1;
  buffer = none;
  dirty = false;
}

abbrev pub machine : Machine ℕ (ℕ → List ℕ)
machine = record {
  store = record {
    carriers = loaded_slot ∷ other_slot ∷ [];
    total_blocks = 2;
    encrypted = true;
    cipher = some (1 ∷ []);
    order_key = some (2 ∷ []);
  };
  disk = λ path. replicate pb 0;
  draws = 0;
}

pub machine-IsValid : IsValid libraries machine
unfolding load read_mode replicate
machine-IsValid = record {
  contiguous = (refl, (refl, refl));
  ready = ((replicate pb 0, refl, refl), ((replicate pb 0, refl, refl), tt));
  apart = ((separate, tt), (tt, tt));
  keyed = λ _. (1 ∷ [], refl);
}

read_block_lem_example :
    ((read_block libraries 1 machine).0 ≡ view libraries machine 1)
    × IsValid libraries (read_block libraries 1 machine).1
    × (view libraries (read_block libraries 1 machine).1 0 ≡ view libraries machine 0)
    × ((read_block libraries 1 machine).1.store.total_blocks ≡ 2)
read_block_lem_example = read_block_lem libraries machine 1 0 machine-IsValid (omega arith)

write_block_lem_example :
    ((write_block libraries 1 (5 ∷ []) machine).0 ≡ ok tt)
    × IsValid libraries (write_block libraries 1 (5 ∷ []) machine).1
    × (view libraries (write_block libraries 1 (5 ∷ []) machine).1 0
        ≡ (if 0 == 1 then ok (pad (5 ∷ [])) else view libraries machine 0))
    × ((write_block libraries 1 (5 ∷ []) machine).1.store.total_blocks ≡ 2)
write_block_lem_example =
    write_block_lem libraries machine 1 0 (5 ∷ []) machine-IsValid (omega arith) (omega arith)

abbrev written : Machine ℕ (ℕ → List ℕ)
written = (write_block libraries 1 (5 ∷ []) machine).1

written-IsValid : IsValid libraries written
written-IsValid =
    (write_block_lem libraries machine 1 0 (5 ∷ []) machine-IsValid (omega arith) (omega arith)).1

abbrev ranges : List CarrierRange
ranges =
    record { name = []; chunk_index = 0; block_start = 0; block_count = 3 }
    ∷ record { name = []; chunk_index = 1; block_start = 3; block_count = 2 }
    ∷ []

new_for_format-IsValid_example : IsValid libraries (record {
  store = new_for_format (0 ∷ 1 ∷ []) ranges (some (1 ∷ [], 2 ∷ []));
  disk = λ path. [];
  draws = 0;
})
new_for_format-IsValid_example =
    new_for_format-IsValid libraries (0 ∷ 1 ∷ []) ranges (some (1 ∷ [], 2 ∷ [])) (λ path. []) 0 refl
      ((separate, tt), (tt, tt)) (refl, (refl, tt))
