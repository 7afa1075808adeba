-- ===== src/Dispatcher/Tests.antt =====
-- The dispatcher's theorems at concrete inputs, and runs of its code.
use lib_aspl.Prelude.{some, ◌≢◌, ℕ, ◌≡◌, refl, true, false, List, [], ◌∷◌, arith, lookup, contains}
use lib_aspl.Dispatcher.Ids.{
  IdAllocator, object_unknown, is_free, find_free_id, allocate_id, scan_chunks, scan_bits,
  skip_reserved,
}
use lib_aspl.Dispatcher.Ids.Allocate.{allocate_id-is_free, IsWithin}
use lib_aspl.Dispatcher.{Dispatcher, new_dispatcher, register_object, find_object}
use lib_aspl.Dispatcher.Registry.{
  Event, registers, registers_plugin, unregisters, IsManaged, new_dispatcher-IsManaged, step, run,
  registrations, run-IsManaged,
}
use lib_aspl.Dispatcher.Directory.{DirectoryStep, view, step-DirectoryStep}
use lib_aspl.Dispatcher.Lookup.{
  away, found, holding, using_object, returned, Race, finder, find_registration, try_lock,
  load_null, clear, remove_entry, lock_unique, unregister_returns, registered, Races, starts,
  goes_on, unregistered_unused,
}
use lib_aspl.Dispatcher.Explicit.{register_object-clash}

-- One chunk, in which the identifiers 2, 3 and 5 are marked.
abbrev one_chunk : List ℕ
one_chunk = 0b101100 ∷ []

-- The search starts at the given identifier, and goes round to the gap below it.
find_free_id_run : (find_free_id one_chunk 5 ≡ 6) × (find_free_id one_chunk 0 ≡ 4)
unfolding find_free_id scan_chunks scan_bits
find_free_id_run = (refl, refl)

abbrev one_chunk_ids : IdAllocator
one_chunk_ids = record {
  allocated_bits = one_chunk;
  num_allocated_ids = 3;
  last_allocated_id = 4;
  desired_maximum_id = 5;
}

allocate_id-is_free_example : is_free one_chunk (allocate_id one_chunk_ids).0 ≡ true
allocate_id-is_free_example = allocate_id-is_free one_chunk_ids (omega arith)

abbrev history : List (Event ℕ)
history = registers_plugin 10 ∷ registers 20 ∷ registers 30 ∷ unregisters 2 ∷ []

run-IsManaged_example : IsManaged 2 (run (new_dispatcher 50) history)
unfolding registrations
run-IsManaged_example =
    run-IsManaged 0 (new_dispatcher 50) history (omega arith) (new_dispatcher-IsManaged 50)

step-DirectoryStep_example :
    DirectoryStep {A = ℕ}
      (view (new_dispatcher 50))
      (view (step (new_dispatcher 50) (registers 20)))
      (registers 20)
step-DirectoryStep_example =
    step-DirectoryStep 0 (new_dispatcher 50) (registers 20) (omega arith)
      (new_dispatcher-IsManaged 50)

history-IsManaged : IsManaged 2 (run (new_dispatcher 50) history)
unfolding registrations
history-IsManaged =
    run-IsManaged 0 (new_dispatcher 50) history (omega arith) (new_dispatcher-IsManaged 50)

-- An object that was given the identifier 2 before the allocator picked it.
abbrev fresh : Dispatcher ℕ
fresh = record {
  registered_objects = [];
  ids = record {
    allocated_bits = [];
    num_allocated_ids = 0;
    last_allocated_id = 0;
    desired_maximum_id = 50;
  };
}

fresh_id : (allocate_id fresh.ids).0 ≡ 2
unfolding allocate_id find_free_id is_free skip_reserved
fresh_id = refl

fresh-IsWithin : IsWithin 0 fresh.ids
fresh-IsWithin = record { short = omega arith; low = omega arith; words = λ n. omega arith }

fresh_two : contains (allocate_id fresh.ids).0 fresh.registered_objects ≡ false
unfolding lookup
fresh_two = refl

register_object-clash_example :
    let id = (allocate_id fresh.ids).0 in
    let chosen = register_object fresh 10 id in
    let default = register_object chosen.1 20 object_unknown in
    (chosen.0 ≡ id)
    × (default.0 ≡ object_unknown)
    × ((j : ℕ) → find_object (λ o. true) default.1 j ≡ find_object (λ o. true) chosen.1 j)
    × (find_object (λ o. true) default.1 id ≡ some 10)
    × ((allocate_id default.1.ids).0 ≢ id)
register_object-clash_example =
    register_object-clash (λ o. true) 0 fresh 10 20 (omega arith) fresh-IsWithin fresh_two refl

nothing_registered : (id : ℕ) → contains id fresh.registered_objects ≡ false
unfolding lookup
nothing_registered id = refl

-- Finder 0 has the registration when the object is cleared, sees null under its lock and leaves; then
-- the unique lock is free.
abbrev lost_race : Race
lost_race = record (finder (finder (finder registered 0 found) 0 holding) 0 away) {
  unregister = returned;
  object_set = false;
  in_map = false;
}

lost_race_reached : Races lost_race
lost_race_reached =
    goes_on
      (goes_on
        (goes_on
          (goes_on
            (goes_on (goes_on (goes_on starts (find_registration 0 refl refl)) (clear refl))
              (try_lock 0 refl (λ e. cc)))
            (remove_entry refl))
          (load_null 0 refl refl))
        (lock_unique refl (λ j. ground arith)))
      (unregister_returns refl)

unregistered_unused_example : lost_race.finders 0 ≢ using_object
unregistered_unused_example = unregistered_unused lost_race_reached refl 0
