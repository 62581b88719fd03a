-- ===== src/Bootstrap/Examples.antt =====
-- The theorem about the bootstrap at a key derivation that joins its arguments.
use album_fs.Common.{
  ℕ, ◌≡◌, refl, List, [], ◌∷◌, ◌++◌, length, some, replicate, length-replicate, ok, arith,
}
use album_fs.Block.{pad}
use album_fs.Block.Examples.{plain}
use album_fs.Bootstrap.{Kdf, StoreKeys, bootstrap_len, create_bootstrap, open_bootstrap}
use album_fs.Bootstrap.RoundTrip.{open_bootstrap-create_bootstrap}

abbrev joined : Kdf
joined = record {
  hash_password = λ passphrase salt. some (passphrase ++ salt);
  derive_key = λ context master. context ++ master;
}

open_bootstrap-create_bootstrap_example :
    (bootstrap : List ℕ) × (keys : StoreKeys) × (create_bootstrap joined plain
        (replicate 16 5)
        (replicate 24 9)
        (112 ∷ 119 ∷ [])
        (1 ∷ 2 ∷ 3 ∷ [])
      ≡ ok (bootstrap, keys))
    × (length bootstrap ≡ bootstrap_len)
    × (open_bootstrap joined plain (112 ∷ 119 ∷ []) bootstrap ≡ ok (pad (1 ∷ 2 ∷ 3 ∷ []), keys))
open_bootstrap-create_bootstrap_example =
    open_bootstrap-create_bootstrap joined plain (replicate 16 5) (replicate 24 9) (112 ∷ 119 ∷ [])
      (1 ∷ 2 ∷ 3 ∷ []) ((112 ∷ 119 ∷ []) ++ replicate 16 5) (length-replicate {A = ℕ} 16 5)
      (length-replicate {A = ℕ} 24 9) (omega arith) refl
