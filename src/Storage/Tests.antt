-- ===== src/Storage/Tests.antt =====
-- A host that keeps one value, and the theorems at it.
use lib_aspl.Prelude.{
  ℕ, ◌+◌, ◌-◌, ◌≡◌, refl, true, Option, none, some, [], arith, ◌==◌, if◌then◌else◌,
}
use lib_aspl.Status.{Status, no_error, unspecified_error, is_ok}
use lib_aspl.Storage.{Host, converts, StorageState, copy_from_storage, write_to_storage}
use lib_aspl.Storage.Holding.{copy-write_to_storage}

-- The state is the last key and value.
abbrev read_one : (key : ℕ) → ℕ × ℕ → Status × Option ℕ
read_one key s = if key == s.0 then (no_error, some s.1) else (unspecified_error, none)

abbrev write_one : (key value : ℕ) → ℕ × ℕ → Status × (ℕ × ℕ)
write_one key value s = (no_error, (key, value))

abbrev delete_one : (key : ℕ) → ℕ × ℕ → Status × (ℕ × ℕ)
delete_one key s = (no_error, (0, 0))

abbrev one_value : Host (ℕ × ℕ)
one_value = record { read = read_one; write = write_one; delete = delete_one }

abbrev encode : ℕ → Option ℕ
encode n = some (n + 100)

abbrev decode_number : ℕ → Option ℕ
decode_number r = some (r - 100)

abbrev empty_storage : StorageState (ℕ × ℕ)
empty_storage = record { stored = (0, 0); held = [] }

one_value_keeps :
    (k v : ℕ) (t : ℕ × ℕ)
    → is_ok (one_value.write k v t).0 ≡ true
    → one_value.read k (one_value.write k v t).1 ≡ (no_error, some v)
one_value_keeps k v t e = ground arith

number_round : (v r : ℕ) → encode v ≡ some r → decode_number r ≡ some v
number_round v r e = ground arith

copy-write_to_storage_example :
    let codec = converts encode decode_number in
    let w = write_to_storage encode (some one_value) codec 4 9 empty_storage in
    (copy_from_storage encode (some one_value) codec 4 w.1).0 ≡ some 9
unfolding write_to_storage
copy-write_to_storage_example =
    copy-write_to_storage encode one_value encode decode_number 4 9 empty_storage one_value_keeps
      number_round refl
