-- ===== src/Device/Clients.antt =====
-- src/Device.cpp: the clients of a device, made and dropped by its control handler. `writeMutex_`
-- serializes the calls. The tracer's calls are left out.
pub mod Handed
use lib_aspl.Prelude.{
  ◌%◌, ◌^◌, ℕ, Bool, true, false, not, Option, none, some, List, [], ◌∷◌, if◌then◌else◌, ◌==◌, Map,
  lookup, contains, insert, erase, length,
}
use lib_aspl.Status.{Status, no_error, unspecified_error, bad_object_error, illegal_operation_error}

-- `ClientInfo`; `bundle_id` is a reference to the string.
pub record ClientInfo : Type 0 where
  pub client_id : ℕ
  pub process_id : ℕ
  pub is_native_endian : Bool
  pub bundle_id : ℕ

-- The device's map, and what passed between the device and its control handler, newest first: the
-- objects that `OnAddClient` returned and those given to `OnRemoveClient`.
pub record ClientTable : Type 0 where
  pub client_by_id : Map ℕ
  pub added : List ℕ
  pub removed : List ℕ

abbrev pub new_clients : ClientTable
new_clients = record { client_by_id = []; added = []; removed = [] }

-- `answer` is what the control handler's `OnAddClient` returns; a null pointer is `none`.
unfoldable pub add_client :
    (answer : Option ℕ) (self_id object_id : ℕ) (info : Option ClientInfo)
    → ClientTable
    → Status × ClientTable
add_client answer self_id object_id none s =
    if not (object_id == self_id) then (bad_object_error, s) else (illegal_operation_error, s)
add_client answer self_id object_id (some info) s =
    if not (object_id == self_id) then (bad_object_error, s) else elim answer [
      | none ↦ (unspecified_error, s)
      | some client ↦ (
        no_error,
        record s {
          client_by_id = insert info.client_id client s.client_by_id;
          added = client ∷ s.added;
        },
      )
    ]

unfoldable pub remove_client :
    (self_id object_id : ℕ) (info : Option ClientInfo) → ClientTable → Status × ClientTable
remove_client self_id object_id none s =
    if not (object_id == self_id) then (bad_object_error, s) else (illegal_operation_error, s)
remove_client self_id object_id (some info) s =
    if not (object_id == self_id)
    then (bad_object_error, s)
    else elim (lookup info.client_id s.client_by_id) [
      | none ↦ (illegal_operation_error, s)
      | some client ↦ (
        no_error,
        record s {
          client_by_id = erase info.client_id s.client_by_id;
          removed = client ∷ s.removed;
        },
      )
    ]

abbrev pub get_client_count : ClientTable → ℕ
get_client_count s = length s.client_by_id % 2 ^ 32

abbrev pub clients_of : Map ℕ → List ℕ
clients_of [] = []
clients_of ((id, client) ∷ m) = client ∷ clients_of m

-- `entries` gives the entries of a map in the order in which std::unordered_map iterates over them.
abbrev pub get_clients : (entries : Map ℕ → Map ℕ) → ClientTable → List ℕ
get_clients entries s = clients_of (entries s.client_by_id)

abbrev pub get_client_by_id : (client_id : ℕ) → ClientTable → Option ℕ
get_client_by_id client_id s = lookup client_id s.client_by_id
