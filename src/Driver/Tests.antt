-- ===== src/Driver/Tests.antt =====
-- A driver with one object, and the theorems at it.
use lib_aspl.Prelude.{
  ℕ, ◌-◌, ◌%◌, ◌^◌, ◌≡◌, ◌≢◌, refl, Bool, true, Option, none, some, List, [], ◌∷◌, arith,
}
use lib_aspl.Status.{Status, no_error}
use lib_aspl.Dispatcher.{Dispatcher, registration, new_dispatcher, unregister_object}
use lib_aspl.Driver.{DriverState}
use lib_aspl.Driver.References.{
  ServiceCall, queries, adds_ref, releases, initializes, service_run, taken, given_back, total,
  service_run-ref_counter,
}
use lib_aspl.Driver.Bridge.{Methods}
use lib_aspl.Driver.Bridge.Redirected.{refusal, on_start_io, enter, enter-unregister_object}

abbrev new_driver : DriverState ℕ
new_driver = record { ref_counter = 0; host = none; handler_state = 0 }

abbrev on_initialize : Option ℕ → ℕ → Status × ℕ
on_initialize host h = (no_error, 1)

abbrev calls : List ServiceCall
calls = queries 20 ∷ initializes 8 ∷ adds_ref ∷ queries 33 ∷ releases ∷ []

service_run-ref_counter_example :
    (service_run 10 20 (some on_initialize) calls new_driver).ref_counter % 2 ^ 32
    ≡ total 10 20 (some on_initialize) (taken 10 20 (some on_initialize)) calls
      - total 10 20 (some on_initialize) (given_back 10 20 (some on_initialize)) calls
unfolding total
service_run-ref_counter_example =
    service_run-ref_counter 10 20 (some on_initialize) calls new_driver refl (omega arith)
      (omega arith)

abbrev succeed : ℕ → ℕ → ℕ → ℕ → Status × ℕ
succeed object object_id p s = (no_error, p)

abbrev methods : Methods ℕ ℕ ℕ ℕ
methods = record {
  has_property_method = λ object object_id p s. (true, s);
  is_property_settable_method = succeed;
  get_property_data_size_method = succeed;
  get_property_data_method = succeed;
  set_property_data_method = succeed;
  add_client_method = succeed;
  remove_client_method = succeed;
  start_io_method = succeed;
  stop_io_method = succeed;
  get_zero_time_stamp_method = succeed;
  will_do_io_operation_method = succeed;
  begin_io_operation_method = succeed;
  do_io_operation_method = succeed;
  end_io_operation_method = succeed;
  perform_configuration_change_method = succeed;
  abort_configuration_change_method = succeed;
}

-- Every object is a device.
abbrev as_device : ℕ → Option ℕ
as_device object = some object

abbrev alive : ℕ → Bool
alive object = true

abbrev one_object : Dispatcher ℕ
one_object = record (new_dispatcher 0) { registered_objects = (7, registration 60) ∷ [] }

enter-unregister_object_example :
    (enter methods as_device alive 4 9 (unregister_object one_object 7) 7 on_start_io
      ≡ some (refusal on_start_io, 9))
    × ((other : ℕ)
        → other ≢ 7
        → enter methods as_device alive 4 9 (unregister_object one_object 7) other on_start_io
          ≡ enter methods as_device alive 4 9 one_object other on_start_io)
enter-unregister_object_example =
    enter-unregister_object methods as_device alive 4 9 one_object 7 on_start_io (omega arith)
