-- ===== src/Storage/Holding.antt =====
-- src/Storage.cpp: no reference is leaked or released twice, and what is written is read back.
use lib_aspl.Prelude.{ℕ, ◌≡◌, true, Option, Option-cases, inl, inr, some, arith}
use lib_aspl.Status.{no_error, is_ok}
use lib_aspl.Storage.{
  Host, Codec, converts, passes, StorageState, copy_from_storage, write_to_storage,
  delete_from_storage,
}

-- A write owes the same releases afterwards as before, for both kinds of value, on success and on
-- every error.
pub held-write_to_storage :
    {S T : Type 0} (encode_key : ℕ → Option ℕ) (host : Option (Host S)) (codec : Codec T) (key : ℕ)
    (value : T) (s : StorageState S)
    → (write_to_storage encode_key host codec key value s).1.held ≡ s.held
unfolding write_to_storage
held-write_to_storage encode_key host (converts to from) key value s = ground arith
held-write_to_storage encode_key host (passes to from) key value s = ground arith

-- A deletion likewise holds afterwards what was held before, on success and on every error.
pub held-delete_from_storage :
    {S : Type 0} (encode_key : ℕ → Option ℕ) (host : Option (Host S)) (key : ℕ) (s : StorageState S)
    → (delete_from_storage encode_key host key s).1.held ≡ s.held
unfolding delete_from_storage
held-delete_from_storage encode_key host key s = ground arith

-- A read of a converted value owes the same releases afterwards as before, on success and on every
-- error.
pub held-copy_from_storage :
    {S T : Type 0} (encode_key : ℕ → Option ℕ) (host : Option (Host S)) (to : T → Option ℕ)
    (from : ℕ → Option T) (key : ℕ) (s : StorageState S)
    → (copy_from_storage encode_key host (converts to from) key s).1.held ≡ s.held
unfolding copy_from_storage
held-copy_from_storage encode_key host to from key s = ground arith

-- A converted value that was written successfully is read back, if the host returns a reference to
-- what it has just stored under the key, and decoding inverts encoding.
pub copy-write_to_storage :
    {S T : Type 0} (encode_key : ℕ → Option ℕ) (h : Host S) (to : T → Option ℕ)
    (from : ℕ → Option T) (key : ℕ) (value : T) (s : StorageState S)
    → ((k v : ℕ) (t : S)
        → is_ok (h.write k v t).0 ≡ true
        → h.read k (h.write k v t).1 ≡ (no_error, some v))
    → ((v : T) (r : ℕ) → to v ≡ some r → from r ≡ some v)
    → let w = write_to_storage encode_key (some h) (converts to from) key value s in
      w.0 ≡ true → (copy_from_storage encode_key (some h) (converts to from) key w.1).0 ≡ some value
unfolding write_to_storage copy_from_storage
copy-write_to_storage encode_key h to from key value s host_keeps round ok =
    elim (Option-cases (encode_key key)) [
      | inl missing ↦ ground (arith, missing)
      | inr (key_string, e) ↦ elim (Option-cases (to value)) [
        | inl missing ↦ ground (arith, e, missing)
        | inr (plist, f) ↦
            ground (arith, e, f, host_keeps key_string plist s.stored, round value plist f)
      ]
    ]
