-- ===== src/Device/Attributes/Channels.antt =====
-- src/Device.cpp: the three ways to say which channels a device prefers agree.
use mathlib.Core.Path.{subst}
use lib_aspl.Prelude.{
  Option-cases, inl, inr, sym, ℕ, zero, suc, ◌+◌, ◌^◌, ◌≤◌, ◌<◌, ◌≡◌, ◌≢◌, refl, true, Option, none,
  some, [], length, get_elem?, arith,
}
use lib_aspl.Accessor.Fits.{length-take}
use lib_aspl.Device.Attributes.{
  ChannelLayout, holding, DeviceAttributes, described_channels, get_preferred_channel_count,
  default_channel, default_channels, get_preferred_channels, get_preferred_channel_layout,
}

module _ {F : Type 0} (left : ℕ) (nought : F) where
  length-default_channels : (n count : ℕ) → length (default_channels left nought n count) ≡ count
  unfolding default_channels
  length-default_channels n zero = refl
  length-default_channels n (suc count) = ground (arith, length-default_channels (suc n) count)

  get_elem?-default_channels :
      (n count i : ℕ)
      → i < count
      → get_elem? (default_channels left nought n count) i
        ≡ some (default_channel left nought (n + i))
  unfolding default_channels
  get_elem?-default_channels n zero i lt = ground arith
  get_elem?-default_channels n (suc count) zero lt = ground arith
  get_elem?-default_channels n (suc count) (suc i) lt =
      ground (arith, get_elem?-default_channels (suc n) count i (omega arith))

-- A layout has at least the descriptions that it says it has.
abbrev pub IsComplete : {F : Type 0} → Option (ChannelLayout F) → Type 0
IsComplete none = Unit
IsComplete (some layout) = layout.number_channel_descriptions ≤ length layout.channel_descriptions

module _ {F : Type 0} (left : ℕ) (nought : F) (channel_count : ℕ) where
  -- If no channel count was set, the list of channels that was set is not empty, a layout that
  -- was set has the descriptions it counts, and there are fewer than 2 ^ 32 channels, then the
  -- preferred channel count is the length of the preferred channels.
  pub get_preferred_channel_count-channels :
      (d : DeviceAttributes F)
      → d.preferred_channel_count ≡ none
      → IsComplete (described_channels d.preferred_channel_layout)
      → d.preferred_channels ≢ some []
      → length (get_preferred_channels left nought channel_count d) < 2 ^ 32
      → get_preferred_channel_count channel_count d
        ≡ length (get_preferred_channels left nought channel_count d)
  unfolding get_preferred_channel_count get_preferred_channels
  get_preferred_channel_count-channels d unset complete nonempty small =
      elim (Option-cases (described_channels d.preferred_channel_layout)) [
        | inl plain ↦ ground (
          arith,
          length-default_channels left nought 0 (get_preferred_channel_count channel_count d),
        )
        | inr (layout, e) ↦
            let enough : layout.number_channel_descriptions ≤ length layout.channel_descriptions =
              subst IsComplete e complete in
            ground (
              arith,
              enough,
              length-take layout.number_channel_descriptions layout.channel_descriptions,
            )
      ]

  -- If neither a count nor a layout was set, the list of channels that was set is not empty, and
  -- there are fewer than 2 ^ 32 channels, the preferred layout consists of the preferred channels
  -- and counts as many as the preferred channel count.
  pub get_preferred_channel_layout-channels :
      (d : DeviceAttributes F)
      → d.preferred_channel_count ≡ none
      → d.preferred_channel_layout ≡ none
      → d.preferred_channels ≢ some []
      → length (get_preferred_channels left nought channel_count d) < 2 ^ 32
      → get_preferred_channel_layout left nought channel_count d
        ≡ holding (record {
          uses_descriptions = true;
          number_channel_descriptions = get_preferred_channel_count channel_count d;
          channel_descriptions = get_preferred_channels left nought channel_count d;
        })
  unfolding get_preferred_channel_layout
  get_preferred_channel_layout-channels d unset plain nonempty small =
      let agree =
        get_preferred_channel_count-channels d unset
          (subst (λ l. IsComplete (described_channels l)) (sym plain) tt) nonempty small in
      ground (arith, agree)
