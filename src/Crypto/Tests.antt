-- ===== src/Crypto/Tests.antt =====
-- A key file of src/crypto.rs, written and read.
use rustchain.Base.{ℕ, zero, suc, ◌≡◌, refl, true, none, some, [], ◌∷◌}
use rustchain.Crypto.{Keys, KeyDir, get_or_create_key, get_or_create_key_twice}
use rustchain.Data.{Bytes}

abbrev same_bytes : Keys
same_bytes = record { to_bytes = λ key. key; from_bytes = λ bytes. some bytes }

abbrev repeat : ℕ → ℕ → Bytes
repeat zero b = []
repeat (suc n) b = b ∷ repeat n b

abbrev fresh : KeyDir
fresh = record { creatable = true; key_file = none; readable = true; writable = true }

get_or_create_key_twice_example :
    get_or_create_key same_bytes (record fresh { key_file = some (repeat 32 7) }) (repeat 32 9)
    ≡ some (record fresh { key_file = some (repeat 32 7) }, repeat 32 7)
unfolding get_or_create_key
get_or_create_key_twice_example =
    get_or_create_key_twice same_bytes fresh (record fresh { key_file = some (repeat 32 7) })
      (repeat 32 7) (repeat 32 9) (repeat 32 7) (refl, refl) refl refl
