-- ===== src/Stream.antt =====
-- src/Stream.cpp and src/Compare.hpp: the formats of a stream and the comparisons of CoreAudio's
-- structures. `F` stands for Float64 and Float32, with their equality test as a parameter. The two
-- formats, physical and virtual, have the same operations. The tracer's calls are left out.
pub mod Accessors
pub mod Attributes
pub mod Formats
pub mod Processing
mod Tests
use lib_aspl.Prelude.{
  ℕ, ◌+◌, ◌*◌, ◌/◌, ◌%◌, ◌^◌, Bool, true, false, not, ◌&&◌, ◌||◌, Option, none, some, List, [], ◌∷◌,
  if◌then◌else◌, ◌==◌,
}
use lib_aspl.Status.{Status, no_error, unsupported_format_error}

-- AudioStreamBasicDescription
pub record Format (F : Type 0) : Type 0 where
  pub sample_rate : F
  pub format_id : ℕ
  pub format_flags : ℕ
  pub bits_per_channel : ℕ
  pub channels_per_frame : ℕ
  pub bytes_per_frame : ℕ
  pub frames_per_packet : ℕ
  pub bytes_per_packet : ℕ

-- AudioStreamRangedDescription, with its AudioValueRange.
pub record RangedFormat (F : Type 0) : Type 0 where
  pub format : Format F
  pub minimum : F
  pub maximum : F

-- AudioChannelDescription
pub record ChannelDescription (F : Type 0) : Type 0 where
  pub channel_label : ℕ
  pub channel_flags : ℕ
  pub coordinate_0 : F
  pub coordinate_1 : F
  pub coordinate_2 : F

module _ {F : Type 0} (equal : F → F → Bool) where
  unfoldable pub same_format : Format F → Format F → Bool
  same_format a b =
      equal a.sample_rate b.sample_rate
      && (a.format_id == b.format_id)
      && (a.format_flags == b.format_flags)
      && (a.bits_per_channel == b.bits_per_channel)
      && (a.channels_per_frame == b.channels_per_frame)
      && (a.bytes_per_frame == b.bytes_per_frame)
      && (a.frames_per_packet == b.frames_per_packet)
      && (a.bytes_per_packet == b.bytes_per_packet)

  unfoldable pub same_channel : ChannelDescription F → ChannelDescription F → Bool
  same_channel a b =
      (a.channel_label == b.channel_label)
      && (a.channel_flags == b.channel_flags)
      && equal a.coordinate_0 b.coordinate_0
      && equal a.coordinate_1 b.coordinate_2
      && equal a.coordinate_1 b.coordinate_2

  -- GetAvailablePhysicalFormats, GetAvailableVirtualFormats: `set` is the list that was set, if any.
  unfoldable pub get_available_formats :
      (set : Option (List (RangedFormat F))) (current : Format F) → List (RangedFormat F)
  get_available_formats none current =
      record { format = current; minimum = current.sample_rate; maximum = current.sample_rate } ∷ []
  get_available_formats (some formats) current = formats

  -- std::find_if over the formats, from the first on.
  abbrev pub is_listed : Format F → List (RangedFormat F) → Bool
  is_listed format [] = false
  is_listed format (it ∷ formats) = same_format it.format format || is_listed format formats

  abbrev pub is_empty : List (RangedFormat F) → Bool
  is_empty [] = true
  is_empty (it ∷ formats) = false

  -- CheckPhysicalFormat, CheckVirtualFormat
  unfoldable pub check_format :
      (set : Option (List (RangedFormat F))) (current format : Format F) → Status
  unfolding get_available_formats
  check_format set current format =
      let available = get_available_formats set current in
      if is_empty available
      then no_error
      else if is_listed format available
      then no_error
      else unsupported_format_error

module _ {F : Type 0} (physical : Format F) where
  unfoldable pub convert_frames_to_bytes : ℕ → ℕ
  convert_frames_to_bytes frames = frames * physical.bytes_per_frame % 2 ^ 32

  unfoldable pub convert_bytes_to_frames : ℕ → ℕ
  convert_bytes_to_frames bytes =
      if physical.bytes_per_frame == 0 then 0 else bytes / physical.bytes_per_frame
