-- ===== src/Stream/Formats.antt =====
-- src/Stream.cpp and src/Compare.hpp: which formats are supported, and conversions there and back.
use native.Mathlib.Nat.{mul-div_cancel, div-mul-le_self, mod-eq-sub-div-mul}
use lib_aspl.Prelude.{
  ℕ, ◌+◌, ◌*◌, ◌%◌, ◌^◌, ◌<◌, ◌≡◌, refl, Bool, true, false, ◌⊎◌, inl, inr, ◌↔◌, Option, List, [],
  ◌∷◌, if◌then◌else◌, arith,
}
use lib_aspl.Status.{no_error, unsupported_format_error}
use lib_aspl.Stream.{
  Format, RangedFormat, ChannelDescription, same_format, same_channel, get_available_formats,
  is_listed, is_empty, check_format, convert_frames_to_bytes, convert_bytes_to_frames,
}

-- With frames of at least one byte, a number of frames whose bytes fit 32 bits is converted there
-- and back unchanged.
pub convert_bytes_to_frames-convert_frames_to_bytes :
    {F : Type 0} (physical : Format F) (frames : ℕ)
    → 0 < physical.bytes_per_frame
    → frames * physical.bytes_per_frame < 2 ^ 32
    → convert_bytes_to_frames physical (convert_frames_to_bytes physical frames) ≡ frames
unfolding convert_bytes_to_frames convert_frames_to_bytes
convert_bytes_to_frames-convert_frames_to_bytes physical frames pos lt =
    ground (arith, mul-div_cancel frames pos)

-- Bytes are converted to whole frames: there and back they are the bytes less what is left over.
pub convert_frames_to_bytes-convert_bytes_to_frames :
    {F : Type 0} (physical : Format F) (bytes : ℕ)
    → 0 < physical.bytes_per_frame
    → bytes < 2 ^ 32
    → convert_frames_to_bytes physical (convert_bytes_to_frames physical bytes)
        + bytes % physical.bytes_per_frame
      ≡ bytes
unfolding convert_bytes_to_frames convert_frames_to_bytes
convert_frames_to_bytes-convert_bytes_to_frames physical bytes pos lt = ground (
  arith,
  div-mul-le_self bytes physical.bytes_per_frame,
  mod-eq-sub-div-mul bytes physical.bytes_per_frame,
)

module _ {F : Type 0} (equal : F → F → Bool) where
  -- The format is one of the list.
  abbrev pub IsAmong : Format F → List (RangedFormat F) → Type 0
  IsAmong format [] = (true ≡ false)
  IsAmong format (it ∷ formats) =
      (same_format equal it.format format ≡ true) ⊎ IsAmong format formats

  is_listed-IsAmong :
      (format : Format F) (formats : List (RangedFormat F))
      → is_listed equal format formats ≡ true
      → IsAmong format formats
  is_listed-IsAmong format [] e = cc
  is_listed-IsAmong format (it ∷ formats) e = ground (arith, is_listed-IsAmong format formats)

  IsAmong-is_listed :
      (format : Format F) (formats : List (RangedFormat F))
      → IsAmong format formats
      → is_listed equal format formats ≡ true
  IsAmong-is_listed format [] i = cc
  IsAmong-is_listed format (it ∷ formats) (inl e) = ground (arith, e)
  IsAmong-is_listed format (it ∷ formats) (inr i) =
      ground (arith, IsAmong-is_listed format formats i)

  accepted :
      (format : Format F) (formats : List (RangedFormat F))
      → ((if is_empty equal formats
            then no_error
            else if is_listed equal format formats
            then no_error
            else unsupported_format_error)
          ≡ no_error)
        ↔ ((formats ≡ []) ⊎ IsAmong format formats)
  accepted format [] = (λ e. inl refl, λ i. refl)
  accepted format (it ∷ formats) = (
    λ e. inr (is_listed-IsAmong format (it ∷ formats) (ground (arith, e))),
    λ i. elim i [
      | inl e ↦ cc
      | inr among ↦ ground (arith, IsAmong-is_listed format (it ∷ formats) among)
    ],
  )

  -- A format is accepted exactly if it is one of those available, or if the list that was set is empty.
  pub check_format-IsAmong :
      (set : Option (List (RangedFormat F))) (current format : Format F)
      → let available = get_available_formats equal set current in
        (check_format equal set current format ≡ no_error)
        ↔ ((available ≡ []) ⊎ IsAmong format available)
  unfolding check_format get_available_formats
  check_format-IsAmong set current format =
      accepted format (get_available_formats equal set current)

-- If the float's equality test takes the first coordinate as equal to itself, a channel description
-- is taken as equal to itself exactly if the test takes its second and third coordinates as equal.
pub same_channel_refl :
    {F : Type 0} (equal : F → F → Bool) (a : ChannelDescription F)
    → equal a.coordinate_0 a.coordinate_0 ≡ true
    → same_channel equal a a ≡ equal a.coordinate_1 a.coordinate_2
unfolding same_channel
same_channel_refl equal a e = ground arith
