-- ===== src/Driver.antt =====
-- src/Driver.cpp: the service methods of the plug-in interface. The two UUIDs that are supported are
-- parameters, as is the handler of the driver's author. The tracer's calls are left out.
pub mod Bridge
pub mod References
mod Tests
use lib_aspl.Prelude.{
  ℕ, ◌+◌, ◌-◌, ◌%◌, ◌^◌, Bool, true, false, ◌||◌, Option, none, some, if◌then◌else◌, ◌==◌,
}
use lib_aspl.Status.{Status, no_error, unsupported_operation_error}

-- `H` is the state of the handler. `host` is Context::Host.
pub record DriverState (H : Type 0) : Type 0 where
  pub ref_counter : ℕ
  pub host : Option ℕ
  pub handler_state : H

-- ULONG has 32 bits.
abbrev pub ulong : ℕ → ℕ
ulong n = n % 2 ^ 32

-- The HRESULT codes of COM.
pub data Result : Type 0 where
  s_ok : Result
  e_no_interface : Result

module _ {H : Type 0} where
  -- The second component is whether *outInterface was set to the reference of the driver.
  unfoldable pub query_interface :
      (unknown_uuid interface_uuid iid : ℕ) → DriverState H → Result × Bool × DriverState H
  query_interface unknown_uuid interface_uuid iid d =
      if (iid == unknown_uuid) || (iid == interface_uuid)
      then (s_ok, true, record d { ref_counter = ulong (d.ref_counter + 1) })
      else (e_no_interface, false, d)

  unfoldable pub add_ref : DriverState H → ℕ × DriverState H
  add_ref d =
      let counter = ulong (d.ref_counter + 1) in (counter, record d { ref_counter = counter })

  unfoldable pub release : DriverState H → ℕ × DriverState H
  release d =
      let counter = ulong (d.ref_counter + (2 ^ 32 - 1)) in
      (counter, record d { ref_counter = counter })

  -- `OnInitialize` of the handler, which may look at the host.
  unfoldable pub initialize :
      (handler : Option (Option ℕ → H → Status × H)) → DriverState H → Status × DriverState H
  initialize none d = (no_error, d)
  initialize (some on_initialize) d =
      let r = on_initialize d.host d.handler_state in (r.0, record d { handler_state = r.1 })

  unfoldable pub initialize_jumper :
      (handler : Option (Option ℕ → H → Status × H)) (host_ref : ℕ)
      → DriverState H
      → Status × DriverState H
  unfolding initialize
  initialize_jumper handler host_ref d = initialize handler (record d { host = some host_ref })

  -- `CreateDevice`, `DestroyDevice`, with their jumpers.
  unfoldable pub create_device : DriverState H → Status × DriverState H
  create_device d = (unsupported_operation_error, d)

  unfoldable pub destroy_device : (object_id : ℕ) → DriverState H → Status × DriverState H
  destroy_device object_id d = (unsupported_operation_error, d)
