-- ===== src/Device/Controls/Settled.antt =====
-- src/Device.cpp: calls on a device's controls, and what the device owns when all is made that waits.
use lib_aspl.Prelude.{
  ℕ, ◌≡◌, ◌≢◌, refl, ◌∙◌, Bool, true, false, Option, none, some, List, [], ◌∷◌, ◌++◌, Map, lookup,
  arith, ◌⊎◌, inl, inr,
}
use lib_aspl.Object.{Outcome, done, deadlock, ◌>>=◌}
use lib_aspl.Device.Controls.{
  ControlChange, DeviceControls, Traits, apply_change, request_change, add_volume_control_async,
  remove_volume_control_async, add_mute_control_async, remove_mute_control_async,
  get_volume_control_by_id, get_mute_control_by_id,
}

pub data ControlEvent : Type 0 where
  adds_volume : (enqueues : Bool) (control : ℕ) → ControlEvent
  removes_volume : (enqueues : Bool) (control : ℕ) → ControlEvent
  adds_mute : (enqueues : Bool) (control : ℕ) → ControlEvent
  removes_mute : (enqueues : Bool) (control : ℕ) → ControlEvent
  performs_change : ControlEvent

-- The HAL's performance of the change that has waited longest.
abbrev pub perform_first : DeviceControls → Outcome DeviceControls
perform_first s = elim s.pending [
  | [] ↦ done s
  | change ∷ rest ↦ do
    owned ← apply_change change s.owned
    done (record s { owned = owned; pending = rest })
]

-- What the device owns when the changes have been made.
unfoldable pub settle : List ControlChange → Map ℕ → Outcome (Map ℕ)
settle [] owned = done owned
settle (change ∷ changes) owned = apply_change change owned >>= settle changes

pub Outcome-cases : {A : Type 0} (o : Outcome A) → (o ≡ deadlock) ⊎ ((a : A) × (o ≡ done a))
Outcome-cases (done a) = inr (a, refl)
Outcome-cases deadlock = inl refl

settle-append :
    (changes : List ControlChange) (change : ControlChange) (owned after : Map ℕ)
    → settle changes owned ≡ done after
    → settle (changes ++ change ∷ []) owned ≡ apply_change change after
unfolding settle
settle-append [] change owned after e = elim (Outcome-cases (apply_change change owned)) [
  | inl stuck ↦ ground (arith, stuck, e)
  | inr (next, made) ↦ ground (arith, made, e)
]
settle-append (c ∷ changes) change owned after e = elim (Outcome-cases (apply_change c owned)) [
  | inl stuck ↦ ground (arith, stuck, e)
  | inr (next, made) ↦ ground (arith, made, e, settle-append changes change next after)
]

-- Under a direct change nothing waits: the device has no owner, so all was made in place or at the
-- moment when it lost it.
abbrev pub IsDirect : (enqueues : Bool) → DeviceControls → Type 0
IsDirect enqueues s = enqueues ≡ false → s.pending ≡ []

module _ (volume mute : Traits) (apart : (v m : ℕ) → volume.id v ≢ mute.id m) where
  abbrev pub control_step : ControlEvent → DeviceControls → Outcome DeviceControls
  control_step (adds_volume enqueues control) s =
      add_volume_control_async volume enqueues (some control) s
  control_step (removes_volume enqueues control) s =
      remove_volume_control_async volume enqueues (some control) s
  control_step (adds_mute enqueues control) s =
      add_mute_control_async mute enqueues (some control) s
  control_step (removes_mute enqueues control) s =
      remove_mute_control_async mute enqueues (some control) s
  control_step performs_change s = perform_first s

  abbrev pub control_run : List ControlEvent → DeviceControls → Outcome DeviceControls
  control_run [] s = done s
  control_run (e ∷ es) s = control_step e s >>= control_run es

  -- A control that is added is not listed. A change is made directly only if none waits.
  abbrev pub IsUsable : ControlEvent → DeviceControls → Type 0
  IsUsable (adds_volume enqueues control) s =
      IsDirect enqueues s × (get_volume_control_by_id (volume.id control) s ≡ none)
  IsUsable (removes_volume enqueues control) s = IsDirect enqueues s
  IsUsable (adds_mute enqueues control) s =
      IsDirect enqueues s × (get_mute_control_by_id (mute.id control) s ≡ none)
  IsUsable (removes_mute enqueues control) s = IsDirect enqueues s
  IsUsable performs_change s = Unit

  -- So it is at each call of a run, as far as the calls return.
  abbrev pub AreUsable : List ControlEvent → Outcome DeviceControls → Type 0
  AreUsable es deadlock = Unit
  AreUsable [] (done s) = Unit
  AreUsable (e ∷ es) (done s) = IsUsable e s × AreUsable es (control_step e s)

  -- The scope of the control that the getters find under an identifier.
  abbrev pub listed_scope : ℕ → DeviceControls → Option ℕ
  listed_scope i s = elim (get_volume_control_by_id i s) [
    | some v ↦ some (volume.scope v)
    | none ↦ elim (get_mute_control_by_id i s) [ some m ↦ some (mute.scope m) | none ↦ none ]
  ]

  -- The changes that wait can all be made, and then the device owns what it lists.
  pub record IsOwner (s : DeviceControls) : Type 0 where
    pub volume_ids : (i v : ℕ) → get_volume_control_by_id i s ≡ some v → volume.id v ≡ i
    pub mute_ids : (i m : ℕ) → get_mute_control_by_id i s ≡ some m → mute.id m ≡ i
    pub after : Map ℕ
    pub settles : settle s.pending s.owned ≡ done after
    pub owns_listed : (i : ℕ) → lookup i after ≡ listed_scope i s

  -- The call returns, and the device is in order.
  abbrev pub Returns : Outcome DeviceControls → Type 0
  Returns r = (t : DeviceControls) × (r ≡ done t) × IsOwner t

  -- A device whose tables are changed asks for the change that makes up for it.
  pub request_change-Returns :
      (enqueues : Bool) (change : ControlChange) (s : DeviceControls) (before after : Map ℕ)
      → IsDirect enqueues s
      → settle s.pending s.owned ≡ done before
      → apply_change change before ≡ done after
      → ((i v : ℕ) → get_volume_control_by_id i s ≡ some v → volume.id v ≡ i)
      → ((i m : ℕ) → get_mute_control_by_id i s ≡ some m → mute.id m ≡ i)
      → ((i : ℕ) → lookup i after ≡ listed_scope i s)
      → Returns (request_change enqueues change s)
  unfolding request_change settle
  request_change-Returns true change s before after direct settles made vs ms listed =
      let t : DeviceControls = record s { pending = s.pending ++ change ∷ [] } in
      (
        t,
        refl,
        record {
          volume_ids = vs;
          mute_ids = ms;
          after = after;
          settles = settle-append s.pending change s.owned before settles ∙ made;
          owns_listed = listed;
        },
      )
  request_change-Returns false change s before after direct settles made vs ms listed =
      let t : DeviceControls = record s { owned = after } in
      (
        t,
        ground (arith, direct refl, settles, made),
        record {
          volume_ids = vs;
          mute_ids = ms;
          after = after;
          settles = ground (arith, direct refl);
          owns_listed = listed;
        },
      )
