-- ===== src/Driver/Bridge/Redirected.antt =====
-- src/Bridge.g.cpp with src/Dispatcher.cpp: what every entry point does with an identifier.
use lib_aspl.Prelude.{ℕ, ◌≡◌, ◌≢◌, Bool, true, false, Option, none, some, lookup-erase, arith}
use lib_aspl.Status.{Status, bad_object_error}
use lib_aspl.Dispatcher.Ids.{object_unknown}
use lib_aspl.Dispatcher.{Dispatcher, find_object, unregister_object}
use lib_aspl.Driver.Bridge.{
  Methods, redirect, redirect_device, has_property, is_property_settable, get_property_data_size,
  get_property_data, set_property_data, add_client, remove_client, start_io, stop_io,
  get_zero_time_stamp, will_do_io_operation, begin_io_operation, do_io_operation, end_io_operation,
  perform_configuration_change, abort_configuration_change,
}

-- The entry points of AudioServerPlugInDriverInterface that go through the bridge.
pub data EntryPoint : Type 0 where
  on_has_property : EntryPoint
  on_is_property_settable : EntryPoint
  on_get_property_data_size : EntryPoint
  on_get_property_data : EntryPoint
  on_set_property_data : EntryPoint
  on_add_client : EntryPoint
  on_remove_client : EntryPoint
  on_start_io : EntryPoint
  on_stop_io : EntryPoint
  on_get_zero_time_stamp : EntryPoint
  on_will_do_io_operation : EntryPoint
  on_begin_io_operation : EntryPoint
  on_do_io_operation : EntryPoint
  on_end_io_operation : EntryPoint
  on_perform_configuration_change : EntryPoint
  on_abort_configuration_change : EntryPoint

-- What the HAL is given back.
pub data Answer : Type 0 where
  answered : Bool → Answer
  returned : Status → Answer

abbrev pub as_answer : {S : Type 0} → Status × S → Answer × S
as_answer (status, s) = (returned status, s)

abbrev pub as_outcome : {S : Type 0} → Option (Status × S) → Option (Answer × S)
as_outcome none = none
as_outcome (some r) = some (as_answer r)

abbrev pub refusal : EntryPoint → Answer
refusal on_has_property = answered false
refusal _ = returned bad_object_error

module _ {A E P S : Type 0} (m : Methods A E P S) (as_device : A → Option E) (alive : A → Bool)
    (p : P) (s : S) where
  abbrev pub enter : Dispatcher A → (object_id : ℕ) → EntryPoint → Option (Answer × S)
  enter d object_id on_has_property =
      let r = has_property m as_device alive d true object_id p s in some (answered r.0, r.1)
  enter d object_id on_is_property_settable =
      some (as_answer (is_property_settable m as_device alive d true object_id p s))
  enter d object_id on_get_property_data_size =
      some (as_answer (get_property_data_size m as_device alive d true object_id p s))
  enter d object_id on_get_property_data =
      some (as_answer (get_property_data m as_device alive d true object_id p s))
  enter d object_id on_set_property_data =
      some (as_answer (set_property_data m as_device alive d true object_id p s))
  enter d object_id on_add_client = as_outcome (add_client m as_device alive d true object_id p s)
  enter d object_id on_remove_client =
      as_outcome (remove_client m as_device alive d true object_id p s)
  enter d object_id on_start_io = as_outcome (start_io m as_device alive d true object_id p s)
  enter d object_id on_stop_io = as_outcome (stop_io m as_device alive d true object_id p s)
  enter d object_id on_get_zero_time_stamp =
      as_outcome (get_zero_time_stamp m as_device alive d true object_id p s)
  enter d object_id on_will_do_io_operation =
      as_outcome (will_do_io_operation m as_device alive d true object_id p s)
  enter d object_id on_begin_io_operation =
      as_outcome (begin_io_operation m as_device alive d true object_id p s)
  enter d object_id on_do_io_operation =
      as_outcome (do_io_operation m as_device alive d true object_id p s)
  enter d object_id on_end_io_operation =
      as_outcome (end_io_operation m as_device alive d true object_id p s)
  enter d object_id on_perform_configuration_change =
      as_outcome (perform_configuration_change m as_device alive d true object_id p s)
  enter d object_id on_abort_configuration_change =
      as_outcome (abort_configuration_change m as_device alive d true object_id p s)

  unregistered :
      (d : Dispatcher A) (object_id : ℕ) (e : EntryPoint)
      → find_object alive d object_id ≡ none
      → enter d object_id e ≡ some (refusal e, s)
  unfolding redirect redirect_device has_property is_property_settable get_property_data_size
      get_property_data set_property_data add_client remove_client start_io stop_io
      get_zero_time_stamp will_do_io_operation begin_io_operation do_io_operation end_io_operation
      perform_configuration_change abort_configuration_change
  unregistered d object_id on_has_property missing = ground (arith, missing)
  unregistered d object_id on_is_property_settable missing = ground (arith, missing)
  unregistered d object_id on_get_property_data_size missing = ground (arith, missing)
  unregistered d object_id on_get_property_data missing = ground (arith, missing)
  unregistered d object_id on_set_property_data missing = ground (arith, missing)
  unregistered d object_id on_add_client missing = ground (arith, missing)
  unregistered d object_id on_remove_client missing = ground (arith, missing)
  unregistered d object_id on_start_io missing = ground (arith, missing)
  unregistered d object_id on_stop_io missing = ground (arith, missing)
  unregistered d object_id on_get_zero_time_stamp missing = ground (arith, missing)
  unregistered d object_id on_will_do_io_operation missing = ground (arith, missing)
  unregistered d object_id on_begin_io_operation missing = ground (arith, missing)
  unregistered d object_id on_do_io_operation missing = ground (arith, missing)
  unregistered d object_id on_end_io_operation missing = ground (arith, missing)
  unregistered d object_id on_perform_configuration_change missing = ground (arith, missing)
  unregistered d object_id on_abort_configuration_change missing = ground (arith, missing)

  -- The registry is used for `FindObject` only.
  same_found :
      (d d' : Dispatcher A) (object_id : ℕ) (e : EntryPoint)
      → find_object alive d object_id ≡ find_object alive d' object_id
      → enter d object_id e ≡ enter d' object_id e
  unfolding redirect redirect_device has_property is_property_settable get_property_data_size
      get_property_data set_property_data add_client remove_client start_io stop_io
      get_zero_time_stamp will_do_io_operation begin_io_operation do_io_operation end_io_operation
      perform_configuration_change abort_configuration_change
  same_found d d' object_id on_has_property same = ground (arith, same)
  same_found d d' object_id on_is_property_settable same = ground (arith, same)
  same_found d d' object_id on_get_property_data_size same = ground (arith, same)
  same_found d d' object_id on_get_property_data same = ground (arith, same)
  same_found d d' object_id on_set_property_data same = ground (arith, same)
  same_found d d' object_id on_add_client same = ground (arith, same)
  same_found d d' object_id on_remove_client same = ground (arith, same)
  same_found d d' object_id on_start_io same = ground (arith, same)
  same_found d d' object_id on_stop_io same = ground (arith, same)
  same_found d d' object_id on_get_zero_time_stamp same = ground (arith, same)
  same_found d d' object_id on_will_do_io_operation same = ground (arith, same)
  same_found d d' object_id on_begin_io_operation same = ground (arith, same)
  same_found d d' object_id on_do_io_operation same = ground (arith, same)
  same_found d d' object_id on_end_io_operation same = ground (arith, same)
  same_found d d' object_id on_perform_configuration_change same = ground (arith, same)
  same_found d d' object_id on_abort_configuration_change same = ground (arith, same)

  -- After an object is unregistered, every entry point refuses its identifier, with false or as a
  -- bad object, without touching the state, and does with every other identifier what it did
  -- before.
  pub enter-unregister_object :
      (d : Dispatcher A) (object_id : ℕ) (e : EntryPoint)
      → object_id ≢ object_unknown
      → (enter (unregister_object d object_id) object_id e ≡ some (refusal e, s))
        × ((other : ℕ)
            → other ≢ object_id
            → enter (unregister_object d object_id) other e ≡ enter d other e)
  unfolding unregister_object find_object
  enter-unregister_object d object_id e known =
      let after : Dispatcher A = unregister_object d object_id in
      let erased = lookup-erase object_id d.registered_objects in
      (
        unregistered after object_id e (ground (arith, known, erased object_id)),
        λ other ne. same_found after d other e (ground (arith, known, ne, erased other)),
      )
