-- ===== src/Driver/Bridge.antt =====
-- src/Bridge.g.cpp: the entry points of the plug-in interface that are redirected to an object. `A` is
-- the objects that the dispatcher holds, `E` the devices among them, `P` the other arguments of a call
-- with its output buffers, `S` the state of all objects. The tracer's calls are left out.
pub mod Redirected
use lib_aspl.Prelude.{ℕ, Bool, true, false, Option, none, some, if◌then◌else◌}
use lib_aspl.Status.{Status, unspecified_error, bad_object_error}
use lib_aspl.Dispatcher.{Dispatcher, find_object}

-- The virtual methods of Object and Device.
pub record Methods (A E P S : Type 0) : Type 0 where
  pub has_property_method : A → ℕ → P → S → Bool × S
  pub is_property_settable_method : A → ℕ → P → S → Status × S
  pub get_property_data_size_method : A → ℕ → P → S → Status × S
  pub get_property_data_method : A → ℕ → P → S → Status × S
  pub set_property_data_method : A → ℕ → P → S → Status × S
  pub add_client_method : E → ℕ → P → S → Status × S
  pub remove_client_method : E → ℕ → P → S → Status × S
  pub start_io_method : E → ℕ → P → S → Status × S
  pub stop_io_method : E → ℕ → P → S → Status × S
  pub get_zero_time_stamp_method : E → ℕ → P → S → Status × S
  pub will_do_io_operation_method : E → ℕ → P → S → Status × S
  pub begin_io_operation_method : E → ℕ → P → S → Status × S
  pub do_io_operation_method : E → ℕ → P → S → Status × S
  pub end_io_operation_method : E → ℕ → P → S → Status × S
  pub perform_configuration_change_method : E → ℕ → P → S → Status × S
  pub abort_configuration_change_method : E → ℕ → P → S → Status × S

-- `driver` is whether `GetDriver` found the driver; `found` is what `FindObject` returned.
unfoldable pub redirect :
    {A S R : Type 0} (no_driver no_object : R) (driver : Bool) (found : Option A)
    (call : A → S → R × S)
    → S
    → R × S
redirect no_driver no_object driver found call s =
    if driver
    then elim found [ none ↦ (no_object, s) | some object ↦ call object s ]
    else (no_driver, s)

-- `static_pointer_cast<Device>` is `as_device`. The behaviour is undefined, `none`, if the object is
-- not a device.
unfoldable pub redirect_device :
    {A E S : Type 0} (as_device : A → Option E) (driver : Bool) (found : Option A)
    (call : E → S → Status × S)
    → S
    → Option (Status × S)
redirect_device as_device driver found call s =
    if driver
    then elim found [
      | none ↦ some (bad_object_error, s)
      | some object ↦ elim (as_device object) [ none ↦ none | some device ↦ some (call device s) ]
    ]
    else some (unspecified_error, s)

module _ {A E P S : Type 0} (m : Methods A E P S) (as_device : A → Option E) (alive : A → Bool)
    (d : Dispatcher A) (driver : Bool) (object_id : ℕ) (p : P) (s : S) where
  unfoldable pub has_property : Bool × S
  unfolding redirect find_object
  has_property =
      redirect false false driver (find_object alive d object_id)
        (λ object. m.has_property_method object object_id p) s

  unfoldable pub is_property_settable : Status × S
  unfolding redirect find_object
  is_property_settable =
      redirect unspecified_error bad_object_error driver (find_object alive d object_id)
        (λ object. m.is_property_settable_method object object_id p) s

  unfoldable pub get_property_data_size : Status × S
  unfolding redirect find_object
  get_property_data_size =
      redirect unspecified_error bad_object_error driver (find_object alive d object_id)
        (λ object. m.get_property_data_size_method object object_id p) s

  unfoldable pub get_property_data : Status × S
  unfolding redirect find_object
  get_property_data =
      redirect unspecified_error bad_object_error driver (find_object alive d object_id)
        (λ object. m.get_property_data_method object object_id p) s

  unfoldable pub set_property_data : Status × S
  unfolding redirect find_object
  set_property_data =
      redirect unspecified_error bad_object_error driver (find_object alive d object_id)
        (λ object. m.set_property_data_method object object_id p) s

  unfoldable pub add_client : Option (Status × S)
  unfolding redirect_device find_object
  add_client =
      redirect_device as_device driver (find_object alive d object_id)
        (λ device. m.add_client_method device object_id p) s

  unfoldable pub remove_client : Option (Status × S)
  unfolding redirect_device find_object
  remove_client =
      redirect_device as_device driver (find_object alive d object_id)
        (λ device. m.remove_client_method device object_id p) s

  unfoldable pub start_io : Option (Status × S)
  unfolding redirect_device find_object
  start_io =
      redirect_device as_device driver (find_object alive d object_id)
        (λ device. m.start_io_method device object_id p) s

  unfoldable pub stop_io : Option (Status × S)
  unfolding redirect_device find_object
  stop_io =
      redirect_device as_device driver (find_object alive d object_id)
        (λ device. m.stop_io_method device object_id p) s

  unfoldable pub get_zero_time_stamp : Option (Status × S)
  unfolding redirect_device find_object
  get_zero_time_stamp =
      redirect_device as_device driver (find_object alive d object_id)
        (λ device. m.get_zero_time_stamp_method device object_id p) s

  unfoldable pub will_do_io_operation : Option (Status × S)
  unfolding redirect_device find_object
  will_do_io_operation =
      redirect_device as_device driver (find_object alive d object_id)
        (λ device. m.will_do_io_operation_method device object_id p) s

  unfoldable pub begin_io_operation : Option (Status × S)
  unfolding redirect_device find_object
  begin_io_operation =
      redirect_device as_device driver (find_object alive d object_id)
        (λ device. m.begin_io_operation_method device object_id p) s

  unfoldable pub do_io_operation : Option (Status × S)
  unfolding redirect_device find_object
  do_io_operation =
      redirect_device as_device driver (find_object alive d object_id)
        (λ device. m.do_io_operation_method device object_id p) s

  unfoldable pub end_io_operation : Option (Status × S)
  unfolding redirect_device find_object
  end_io_operation =
      redirect_device as_device driver (find_object alive d object_id)
        (λ device. m.end_io_operation_method device object_id p) s

  unfoldable pub perform_configuration_change : Option (Status × S)
  unfolding redirect_device find_object
  perform_configuration_change =
      redirect_device as_device driver (find_object alive d object_id)
        (λ device. m.perform_configuration_change_method device object_id p) s

  unfoldable pub abort_configuration_change : Option (Status × S)
  unfolding redirect_device find_object
  abort_configuration_change =
      redirect_device as_device driver (find_object alive d object_id)
        (λ device. m.abort_configuration_change_method device object_id p) s
