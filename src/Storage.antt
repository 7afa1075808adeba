-- ===== src/Storage.antt =====
-- src/Storage.cpp: the persistent storage of the host. Strings of keys are numbers; CoreFoundation's
-- references are numbers too, and `held` lists those that the library has to release, one entry for
-- each release that is owed. The host and the conversions of CoreFoundation are parameters. The
-- tracer's calls are left out.
pub mod Holding
mod Tests
use lib_aspl.Prelude.{ℕ, Bool, true, false, Option, none, some, List, [], ◌∷◌, if◌then◌else◌, ◌==◌}
use lib_aspl.Status.{Status, is_ok}

-- AudioServerPlugInHostInterface, over the host's own state.
pub record Host (S : Type 0) : Type 0 where
  pub read : (key : ℕ) → S → Status × Option ℕ
  pub write : (key value : ℕ) → S → Status × S
  pub delete : (key : ℕ) → S → Status × S

-- A type of values: converted from and to new references, or CFPropertyListRef, which is passed on.
pub data Codec (T : Type 0) : Type 0 where
  converts : (to_foundation : T → Option ℕ) (from_foundation : ℕ → Option T) → Codec T
  passes : (to_reference : T → ℕ) (from_reference : ℕ → T) → Codec T

pub record StorageState (S : Type 0) : Type 0 where
  pub stored : S
  pub held : List ℕ

abbrev pub remove : ℕ → List ℕ → List ℕ
remove r [] = []
remove r (q ∷ qs) = if r == q then qs else q ∷ remove r qs

module _ {S : Type 0} where
  abbrev pub acquire : ℕ → StorageState S → StorageState S
  acquire r s = record s { held = r ∷ s.held }

  -- CFRelease
  abbrev pub release : ℕ → StorageState S → StorageState S
  release r s = record s { held = remove r s.held }

abbrev pub decode : {T : Type 0} → Codec T → ℕ → Option T
decode (converts to from) r = from r
decode (passes to from) r = some (from r)

module _ {S T : Type 0} where
  -- The release of the value, which a CFPropertyListRef is spared.
  abbrev pub release_value : Codec T → ℕ → StorageState S → StorageState S
  release_value (converts to from) r s = release r s
  release_value (passes to from) r s = s

  -- `CopyFromStorage_` after the host's answer.
  abbrev pub finish_copy :
      Codec T → (key : ℕ) → Status × Option ℕ → StorageState S → Option T × StorageState S
  finish_copy codec key (status, none) s = (none, release key s)
  finish_copy codec key (status, some plist) s =
      let t = acquire plist s in
      (if is_ok status then decode codec plist else none, release_value codec plist (release key t))

  module _ (encode_key : ℕ → Option ℕ) (host : Option (Host S)) (codec : Codec T) where
    -- `none` is the pair of an empty value and false.
    unfoldable pub copy_from_storage : (key : ℕ) → StorageState S → Option T × StorageState S
    copy_from_storage key s = elim (encode_key key) [
      | none ↦ (none, s)
      | some key_string ↦
          let t = acquire key_string s in
          elim host [
            | none ↦ (none, release key_string t)
            | some h ↦ finish_copy codec key_string (h.read key_string t.stored) t
          ]
    ]

    -- `WriteToStorage_` with both references.
    abbrev pub write_value : (key_string value_plist : ℕ) → StorageState S → Bool × StorageState S
    write_value key_string value_plist s = elim host [
      | none ↦ (false, release_value codec value_plist (release key_string s))
      | some h ↦
          let r = h.write key_string value_plist s.stored in
          (
            is_ok r.0,
            release_value codec value_plist (release key_string (record s { stored = r.1 })),
          )
    ]

    abbrev pub encode_value :
        Codec T → (key_string : ℕ) → T → StorageState S → Bool × StorageState S
    encode_value (converts to from) key_string value s = elim (to value) [
      | none ↦ (false, release key_string s)
      | some value_plist ↦ write_value key_string value_plist (acquire value_plist s)
    ]
    encode_value (passes to from) key_string value s = write_value key_string (to value) s

    unfoldable pub write_to_storage : (key : ℕ) (value : T) → StorageState S → Bool × StorageState S
    write_to_storage key value s = elim (encode_key key) [
      | none ↦ (false, s)
      | some key_string ↦ encode_value codec key_string value (acquire key_string s)
    ]

module _ {S : Type 0} (encode_key : ℕ → Option ℕ) (host : Option (Host S)) where
  unfoldable pub delete_from_storage : (key : ℕ) → StorageState S → Bool × StorageState S
  delete_from_storage key s = elim (encode_key key) [
    | none ↦ (false, s)
    | some key_string ↦
        let t = record s { held = key_string ∷ s.held } in
        elim host [
          | none ↦ (false, record t { held = remove key_string t.held })
          | some h ↦
              let r = h.delete key_string t.stored in
              (is_ok r.0, record t { stored = r.1; held = remove key_string t.held })
        ]
  ]
