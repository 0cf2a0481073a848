-- ===== src/Crypto.antt =====
-- `KeyManager` of src/crypto.rs: the key of a peer or a client and the file that keeps it. k256 is the
-- record `Keys`; `create_key` draws a key, which is an argument here. `none` is a panic.
mod Tests
use rustchain.Base.{
  ℕ, ◌≡◌, Bool, true, Option, none, some, if◌then◌else◌, ◌==◌, nat_eq, length, arith, refl,
  Option-cases, Bool-cases, inl, inr,
}
use rustchain.Data.{Bytes, SigningKey}

pub record Keys : Type 0 where
  pub to_bytes : SigningKey → Bytes
  pub from_bytes : Bytes → Option SigningKey

-- The directory of a key: whether it can be made, and its key file.
pub record KeyDir : Type 0 where
  pub creatable : Bool
  pub key_file : Option Bytes
  pub readable : Bool
  pub writable : Bool

module _ (keys : Keys) where
  -- the bytes of a key file as a key
  unfoldable pub parse_key : Bytes → Option SigningKey
  parse_key key_bytes = if length key_bytes == 32 then keys.from_bytes key_bytes else none

  -- no file, or none that can be read: a new key
  unfoldable pub write_new_key : KeyDir → SigningKey → Option (KeyDir × SigningKey)
  write_new_key dir key =
      if dir.writable then some (record dir { key_file = some (keys.to_bytes key) }, key) else none

  unfoldable pub load_key : KeyDir → Bytes → SigningKey → Option (KeyDir × SigningKey)
  unfolding parse_key write_new_key
  load_key dir key_bytes created =
      if dir.readable
      then (elim (parse_key key_bytes) [ none ↦ none | some key ↦ some (dir, key) ])
      else write_new_key dir created

  unfoldable pub get_or_create_key : KeyDir → SigningKey → Option (KeyDir × SigningKey)
  unfolding load_key write_new_key
  get_or_create_key dir created =
      let found : Option (KeyDir × SigningKey) = elim dir.key_file [
        | some key_bytes ↦ load_key dir key_bytes created
        | none ↦ write_new_key dir created
      ] in
      if dir.creatable then found else none

  -- What the code relies on of k256.
  abbrev pub RoundTrips : SigningKey → Type 0
  RoundTrips key =
      (length (keys.to_bytes key) ≡ 32) × (keys.from_bytes (keys.to_bytes key) ≡ some key)

  -- A key that has been read or created is read again, and the directory is not changed again, if
  -- the file can be read and the bytes of a created key are 32 and are read as the key.
  pub get_or_create_key_twice :
      (dir after : KeyDir) (created other key : SigningKey)
      → RoundTrips created
      → dir.readable ≡ true
      → get_or_create_key dir created ≡ some (after, key)
      → get_or_create_key after other ≡ some (after, key)
  unfolding get_or_create_key
  get_or_create_key_twice dir after created other key trips readable first =
      elim (Option-cases dir.key_file) [
        | inl absent ↦ ground (arith, absent)
        | inr (bytes, there) ↦ ground (arith, there)
      ]
