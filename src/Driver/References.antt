-- ===== src/Driver/References.antt =====
-- src/Driver.cpp: the reference counter over the calls of a client.
use lib_aspl.Prelude.{
  ℕ, ◌+◌, ◌-◌, ◌%◌, ◌^◌, ◌≤◌, ◌<◌, ◌≡◌, ◌||◌, Option, List, [], ◌∷◌, if◌then◌else◌, ◌==◌, arith,
}
use lib_aspl.Status.{Status}
use lib_aspl.Driver.{DriverState, query_interface, add_ref, release, initialize, initialize_jumper}

pub data ServiceCall : Type 0 where
  queries : (iid : ℕ) → ServiceCall
  adds_ref : ServiceCall
  releases : ServiceCall
  initializes : (host_ref : ℕ) → ServiceCall

module _ {H : Type 0} (unknown_uuid interface_uuid : ℕ)
    (handler : Option (Option ℕ → H → Status × H)) where
  abbrev pub service_step : ServiceCall → DriverState H → DriverState H
  service_step (queries iid) d = (query_interface unknown_uuid interface_uuid iid d).2
  service_step adds_ref d = (add_ref d).1
  service_step releases d = (release d).1
  service_step (initializes host_ref) d = (initialize_jumper handler host_ref d).1

  abbrev pub service_run : List ServiceCall → DriverState H → DriverState H
  service_run [] d = d
  service_run (c ∷ cs) d = service_run cs (service_step c d)

  -- The references that are taken and given back.
  abbrev pub taken : ServiceCall → ℕ
  taken (queries iid) = if (iid == unknown_uuid) || (iid == interface_uuid) then 1 else 0
  taken adds_ref = 1
  taken releases = 0
  taken (initializes host_ref) = 0

  abbrev pub given_back : ServiceCall → ℕ
  given_back releases = 1
  given_back _ = 0

  unfoldable pub total : (ServiceCall → ℕ) → List ServiceCall → ℕ
  total count [] = 0
  total count (c ∷ cs) = count c + total count cs

  service_step_lem :
      (c : ServiceCall) (d : DriverState H)
      → ((service_step c d).ref_counter + given_back c) % 2 ^ 32
        ≡ (d.ref_counter + taken c) % 2 ^ 32
  unfolding query_interface add_ref release initialize_jumper initialize
  service_step_lem (queries iid) d = ground arith
  service_step_lem adds_ref d = ground arith
  service_step_lem releases d = ground arith
  service_step_lem (initializes host_ref) d = ground arith

  service_run_mod :
      (cs : List ServiceCall) (d : DriverState H)
      → ((service_run cs d).ref_counter + total given_back cs) % 2 ^ 32
        ≡ (d.ref_counter + total taken cs) % 2 ^ 32
  unfolding total
  service_run_mod [] d = ground arith
  service_run_mod (c ∷ cs) d =
      ground (arith, service_step_lem c d, service_run_mod cs (service_step c d))

  -- From a counter at 0, over any calls of the service methods that take fewer than 2 ^ 32
  -- references and give back no more than they take, the counter is the number of references
  -- taken less those given back; an interface that is not supported takes none.
  pub service_run-ref_counter :
      (cs : List ServiceCall) (d : DriverState H)
      → d.ref_counter ≡ 0
      → total given_back cs ≤ total taken cs
      → total taken cs < 2 ^ 32
      → (service_run cs d).ref_counter % 2 ^ 32 ≡ total taken cs - total given_back cs
  service_run-ref_counter cs d fresh balanced small = let e = service_run_mod cs d in omega arith
