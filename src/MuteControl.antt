-- ===== src/MuteControl.antt =====
-- src/MuteControl.cpp, and the setter in src/MuteControl.g.cpp. `F` is Float32, with the 0 that memset
-- leaves.
pub mod Accessors
use lib_aspl.Prelude.{
  ℕ, zero, suc, ◌*◌, ◌/◌, ◌%◌, ◌^◌, Bool, true, false, List, [], ◌∷◌, if◌then◌else◌,
}
use lib_aspl.Status.{Status, no_error}
use lib_aspl.Device.Attributes.Setters.{same_bool}
use lib_aspl.Accessor.Setters.{Notifying, set_value}

pub record MuteState : Type 0 where
  pub is_muted : Bool

abbrev pub set_is_muted_impl : Bool → MuteState → Status × MuteState
set_is_muted_impl value m = (no_error, record m { is_muted = value })

unfoldable pub set_is_muted :
    (selector : ℕ) (value : Bool) → Notifying MuteState → Status × Notifying MuteState
unfolding set_value
set_is_muted selector value s =
    set_value same_bool (λ m. m.is_muted) set_is_muted_impl selector value s

-- memset over the first `count` samples of a buffer.
unfoldable pub fill : {F : Type 0} → F → (count : ℕ) → List F → List F
fill x zero l = l
fill x (suc n) [] = []
fill x (suc n) (a ∷ l) = x ∷ fill x n l

-- `MuteControl::ApplyProcessing`. The number of bytes, sizeof(Float32) = 4 for each sample, is a
-- size_t of 64 bits.
unfoldable pub silence :
    {F : Type 0} (nought : F) (frame_count channel_count : ℕ) → MuteState → List F → List F
unfolding fill
silence nought frame_count channel_count m frames =
    if m.is_muted then fill nought (4 * frame_count * channel_count % 2 ^ 64 / 4) frames else frames
