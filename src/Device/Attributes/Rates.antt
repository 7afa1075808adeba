-- ===== src/Device/Attributes/Rates.antt =====
-- src/Device.cpp: which sample rates a device accepts.
use lib_aspl.Prelude.{
  ◌≡◌, ◌⊎◌, ◌↔◌, refl, Bool, true, false, List, [], ◌∷◌, arith, inl, inr, if◌then◌else◌,
}
use lib_aspl.Status.{Status, no_error, unsupported_operation_error}
use lib_aspl.Device.Attributes.{
  DeviceAttributes, get_available_sample_rates, is_in_some, check_nominal_sample_rate,
}

module _ {F : Type 0} (le : F → F → Bool) (rate : F) where
  -- A range of the list holds the rate.
  abbrev pub IsWithinSome : List (F × F) → Type 0
  IsWithinSome [] = (true ≡ false)
  IsWithinSome (range ∷ ranges) =
      ((le range.0 rate ≡ true) × (le rate range.1 ≡ true)) ⊎ IsWithinSome ranges

  is_in_some-IsWithinSome :
      (ranges : List (F × F)) → is_in_some le rate ranges ≡ true → IsWithinSome ranges
  is_in_some-IsWithinSome [] e = cc
  is_in_some-IsWithinSome (range ∷ ranges) e = ground (arith, is_in_some-IsWithinSome ranges)

  IsWithinSome-is_in_some :
      (ranges : List (F × F)) → IsWithinSome ranges → is_in_some le rate ranges ≡ true
  IsWithinSome-is_in_some [] i = cc
  IsWithinSome-is_in_some (range ∷ ranges) (inl both) = ground (arith, both)
  IsWithinSome-is_in_some (range ∷ ranges) (inr i) =
      ground (arith, IsWithinSome-is_in_some ranges i)

  accepted :
      (ranges : List (F × F))
      → ((elim ranges as (λ x. Status) [
        | [] ↦ no_error
        | r ∷ rs ↦ if is_in_some le rate (r ∷ rs) then no_error else unsupported_operation_error
      ])
          ≡ no_error)
        ↔ ((ranges ≡ []) ⊎ IsWithinSome ranges)
  accepted [] = (λ e. inl refl, λ i. refl)
  accepted (range ∷ ranges) = (
    λ e. inr (is_in_some-IsWithinSome (range ∷ ranges) (ground (arith, e))),
    λ i. elim i [
      | inl e ↦ cc
      | inr within ↦ ground (arith, IsWithinSome-is_in_some (range ∷ ranges) within)
    ],
  )

  -- A sample rate is accepted exactly if one of the available ranges contains it or the list of
  -- available ranges is empty.
  pub check_nominal_sample_rate-IsWithinSome :
      (d : DeviceAttributes F)
      → let available = get_available_sample_rates d in
        (check_nominal_sample_rate le rate d ≡ no_error)
        ↔ ((available ≡ []) ⊎ IsWithinSome available)
  unfolding check_nominal_sample_rate get_available_sample_rates
  check_nominal_sample_rate-IsWithinSome d = accepted (get_available_sample_rates d)
