-- ===== src/Accessor/Fits.antt =====
-- The shapes of a `case`: how the two calls that read a property agree, and that no reply is larger
-- than the caller's buffer.
use lib_aspl.Prelude.{
  ℕ, zero, suc, ◌*◌, ◌/◌, ◌^◌, ◌≤◌, ◌<◌, ◌≡◌, min, Bool, true, false, some, List, [], ◌∷◌,
  if◌then◌else◌, length, arith,
}
use native.Mathlib.Nat.{div-mul-le_self, le-div_iff_mul-le, mul-le-mul_right}
use lib_aspl.Status.{no_error}
use lib_aspl.Accessor.{
  Value, uint32, float32, float64, cf_string, cf_url, value_range, format, uint32_array, byte_array,
  range_array, format_array, info_array, reference, Buffers, Reply, DataReply, write, reply,
  byte_size, take, reply_value, reply_array, reply_whole,
}

-- sizeof of what stands in a buffer.
unfoldable pub size_of : {F W V : Type 0} → Value F W V → ℕ
size_of (uint32 n) = 4
size_of (float32 x) = 4
size_of (float64 x) = 8
size_of (cf_string w) = 8
size_of (cf_url w) = 8
size_of (value_range r) = 16
size_of (format f) = 40
size_of (uint32_array l) = length l * 4
size_of (byte_array l) = length l * 1
size_of (range_array l) = length l * 16
size_of (format_array l) = length l * 56
size_of (info_array l) = length l * 12
size_of (reference v) = 8

-- The reply stays within the buffer: the size that is reported, and the bytes that are written.
pub record IsWithin {F W V : Type 0} (b : Buffers) (r : DataReply (Value F W V)) : Type 0 where
  pub size_le : (n : ℕ) → r.1 ≡ some n → n ≤ b.in_size
  pub data_le : (v : Value F W V) → r.2 ≡ some v → size_of v ≤ b.in_size

pub length-take : {A : Type 0} → (n : ℕ) (l : List A) → length (take n l) ≡ min n (length l)
unfolding take
length-take zero l = ground arith
length-take (suc n) [] = ground arith
length-take (suc n) (a ∷ l) = ground (arith, length-take n l)

pub take-all : {A : Type 0} → (n : ℕ) (l : List A) → length l ≤ n → take n l ≡ l
unfolding take
take-all zero [] le = ground arith
take-all zero (a ∷ l) le = ground arith
take-all (suc n) [] le = ground arith
take-all (suc n) (a ∷ l) le = ground (arith, take-all n l (ground arith))

-- The elements that a buffer has room for fit into it.
pub room_le : (n size count : ℕ) → min (n / size) count * size ≤ n
room_le n size count =
    let le : min (n / size) count ≤ n / size = omega arith in
    ground (arith, mul-le-mul_right size le, div-mul-le_self n size)

pub byte_size_le : (size count : ℕ) → byte_size size count ≤ count * size
byte_size_le size count = omega arith

module _ {F W V : Type 0} (size : ℕ) (b : Buffers) where
  pub reply_value-IsWithin :
      (v : Value F W V) → size_of v ≤ size → IsWithin b (reply_value size b v)
  unfolding reply_value write
  reply_value-IsWithin v le = record {
    size_le = λ n e. ground arith;
    data_le = λ w e. ground arith;
  }

  pub reply_array-IsWithin :
      {E : Type 0} (of_list : List E → Value F W V) (values : List E)
      → ((l : List E) → size_of (of_list l) ≡ length l * size)
      → IsWithin b (reply_array size b of_list values)
  unfolding reply_array write
  reply_array-IsWithin of_list values sized =
      let count : ℕ = min (b.in_size / size) (length values) in
      record {
        size_le =
            λ n e. ground (arith, byte_size_le size count, room_le b.in_size size (length values));
        data_le = λ w e. ground (
          arith,
          sized (take count values),
          length-take count values,
          room_le b.in_size size (length values),
        );
      }

  pub reply_whole-IsWithin :
      {E : Type 0} (of_list : List E → Value F W V) (values : List E)
      → size_of (of_list values) ≡ length values * size
      → IsWithin b (reply_whole size b of_list values)
  unfolding reply_whole write
  reply_whole-IsWithin of_list values sized = record {
    size_le = λ n e. ground (arith, byte_size_le size (length values));
    data_le = λ w e. ground arith;
  }

module _ (size : ℕ) (b : Buffers) where
  -- A buffer of the reported size is large enough for the whole property.
  pub reply_value-all :
      {A : Type 0} (v : A)
      → size ≤ b.in_size
      → reply_value size b v ≡ (no_error, write b.size_wanted size, write b.data_wanted v)
  unfolding reply_value
  reply_value-all v le = ground arith

  pub reply_array-all :
      {A E : Type 0} (of_list : List E → A) (values : List E)
      → 0 < size
      → length values * size < 2 ^ 32
      → byte_size size (length values) ≤ b.in_size
      → reply_array size b of_list values ≡ (
        no_error,
        write b.size_wanted (byte_size size (length values)),
        write b.data_wanted (of_list values),
      )
  unfolding reply_array
  reply_array-all of_list values pos small le =
      let fits : length values ≤ b.in_size / size = (le-div_iff_mul-le pos).1 (omega arith) in
      let all : min (b.in_size / size) (length values) ≡ length values = omega arith in
      ground (arith, all, take-all (length values) values (omega arith))

  pub reply_whole-all :
      {A E : Type 0} (of_list : List E → A) (values : List E)
      → length values * size < 2 ^ 32
      → byte_size size (length values) ≤ b.in_size
      → reply_whole size b of_list values ≡ (
        no_error,
        write b.size_wanted (byte_size size (length values)),
        write b.data_wanted (of_list values),
      )
  unfolding reply_whole
  reply_whole-all of_list values small le = ground arith

-- What a caller gets that asks for the size of a value and passes a buffer `b` of that size or more:
-- `q` is the reply to the first call, `r` to the second.
abbrev pub ReadsWhole :
    {F W V : Type 0} → Value F W V → Buffers → Reply ℕ → DataReply (Value F W V) → Type 0
ReadsWhole v b q r =
    (q ≡ (no_error, some (size_of v)))
    × (size_of v ≤ b.in_size
        → r ≡ (no_error, write b.size_wanted (size_of v), write b.data_wanted v))

module _ {F W V : Type 0} (size : ℕ) (b : Buffers) where
  pub reply_value-ReadsWhole :
      (v : Value F W V) → size_of v ≡ size → ReadsWhole v b (reply true size) (reply_value size b v)
  unfolding reply write
  reply_value-ReadsWhole v sized =
      (ground arith, λ le. ground (arith, reply_value-all size b v (omega arith)))

  module _ {E : Type 0} (of_list : List E → Value F W V) (values : List E)
      (sized : size_of (of_list values) ≡ length values * size)
      (small : size_of (of_list values) < 2 ^ 32) where
    pub reply_array-ReadsWhole :
        0 < size
        → ReadsWhole
            (of_list values)
            b
            (reply true (byte_size size (length values)))
            (reply_array size b of_list values)
    unfolding reply write
    reply_array-ReadsWhole pos =
        let e : byte_size size (length values) ≡ size_of (of_list values) = omega arith in
        (
          ground (arith, e),
          λ le.
              ground
                (arith, e, reply_array-all size b of_list values pos (omega arith) (omega arith)),
        )

    pub reply_whole-ReadsWhole :
        ReadsWhole
          (of_list values)
          b
          (reply true (byte_size size (length values)))
          (reply_whole size b of_list values)
    unfolding reply write
    reply_whole-ReadsWhole =
        let e : byte_size size (length values) ≡ size_of (of_list values) = omega arith in
        (
          ground (arith, e),
          λ le.
              ground (arith, e, reply_whole-all size b of_list values (omega arith) (omega arith)),
        )

-- The object that is asked is the one that is meant.
pub own-ReadsWhole :
    {F W V : Type 0} (v : Value F W V) (b : Buffers) (c : Bool) (q q₁ : Reply ℕ)
    (r r₁ : DataReply (Value F W V))
    → c ≡ true
    → ReadsWhole v b q r
    → ReadsWhole v b (if c then q else q₁) (if c then r else r₁)
own-ReadsWhole v b true q q₁ r r₁ e w = w
own-ReadsWhole v b false q q₁ r r₁ e w = ground arith
