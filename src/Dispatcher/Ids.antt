-- ===== src/Dispatcher/Ids.antt =====
-- src/Dispatcher.cpp: the allocation of object identifiers in a bitset of 64-bit chunks.
-- The `tracer_` calls have no effect on the state and are left out.
pub mod Bitset
pub mod Search
pub mod Allocate
use lib_aspl.Prelude.{
  ℕ, zero, suc, ◌+◌, ◌-◌, ◌*◌, ◌/◌, ◌%◌, ◌^◌, bit_and, bit_or, Bool, true, false, not, ◌&&◌, ◌||◌,
  Option, none, some, List, [], ◌∷◌, ◌++◌, ltb, leb, ◌==◌, if◌then◌else◌, length, get_or, set,
  replicate,
}

-- AudioObjectID, a UInt32: the values that CoreAudio documents.
abbrev pub object_unknown : ℕ
object_unknown = 0

abbrev pub plugin_object : ℕ
plugin_object = 1

abbrev pub u32 : ℕ → ℕ
u32 n = n % 2 ^ 32

abbrev pub bits_per_chunk : ℕ
bits_per_chunk = 64

-- `BitChunk(-1)`, which is also the mask of `~`.
abbrev pub full_chunk : ℕ
full_chunk = 2 ^ 64 - 1

-- The members of `Dispatcher` that deal with identifiers.
pub record IdAllocator : Type 0 where
  pub allocated_bits : List ℕ
  pub num_allocated_ids : ℕ
  pub last_allocated_id : ℕ
  pub desired_maximum_id : ℕ

-- The constructor, with `hintMaximumID`.
unfoldable pub new_ids : ℕ → IdAllocator
new_ids hint = record {
  allocated_bits = [];
  num_allocated_ids = 0;
  last_allocated_id = 0;
  desired_maximum_id = hint;
}

-- reservedIDs_.count
abbrev pub is_reserved : ℕ → Bool
is_reserved id = id == object_unknown || id == plugin_object

-- `(chunkBits & (BitChunk(1) << bit)) == 0`
abbrev pub is_clear : ℕ → ℕ → Bool
is_clear chunk b = bit_and chunk (2 ^ b) == 0

unfoldable pub is_free : List ℕ → ℕ → Bool
is_free bits id =
    if is_reserved id
    then false
    else (if leb (length bits) (id / bits_per_chunk)
        then true
        else is_clear (get_or bits (id / bits_per_chunk) 0) (id % bits_per_chunk))

-- `allocatedBits_.resize(chunk + 1)`, when there are fewer chunks.
unfoldable pub grown : List ℕ → ℕ → List ℕ
grown bits chunk =
    if leb (length bits) chunk then bits ++ replicate (chunk + 1 - length bits) 0 else bits

unfoldable pub set_free : List ℕ → ℕ → Bool → List ℕ
set_free bits id free =
    let chunk = id / bits_per_chunk in
    let mask = 2 ^ (id % bits_per_chunk) in
    let resized = grown bits chunk in
    let old = get_or resized chunk 0 in
    set resized chunk (if free then bit_and old (full_chunk - mask) else bit_or old mask)

-- The inner loop of `FindFreeID`, with `rounds` bits left to look at in one chunk.
unfoldable pub scan_bits : (first : Bool) (start_id chunk chunk_bits rounds : ℕ) → Option ℕ
scan_bits first start_id chunk chunk_bits zero = none
scan_bits first start_id chunk chunk_bits (suc rounds) =
    let b = bits_per_chunk - suc rounds in
    let id = u32 (chunk * bits_per_chunk + b) in
    let rest = scan_bits first start_id chunk chunk_bits rounds in
    if is_clear chunk_bits b
    then (if (first && ltb id start_id) then rest else (if is_reserved id then rest else some id))
    else rest

-- The outer loop, with `rounds` chunks left: `n` runs from 0 to `allocatedBits_.size()`.
unfoldable pub scan_chunks : (bits : List ℕ) (start_id rounds : ℕ) → Option ℕ
scan_chunks bits start_id zero = none
scan_chunks bits start_id (suc rounds) =
    let n = length bits - rounds in
    let chunk = (start_id / bits_per_chunk + n) % length bits in
    let chunk_bits = get_or bits chunk 0 in
    let here = scan_bits (n == 0) start_id chunk chunk_bits bits_per_chunk in
    let rest = scan_chunks bits start_id rounds in
    if chunk_bits == full_chunk then rest else elim here [ none ↦ rest | some id ↦ some id ]

-- `while (reservedIDs_.count(objectID)) objectID++;`. Two identifiers are reserved, so three rounds
-- suffice (`Search.skip_reserved_free`).
unfoldable pub skip_reserved : ℕ → ℕ → ℕ
skip_reserved zero id = id
skip_reserved (suc fuel) id =
    let rest = skip_reserved fuel (u32 (id + 1)) in if is_reserved id then rest else id

abbrev pub after_bitset : List ℕ → ℕ
after_bitset bits = skip_reserved 3 (u32 (length bits * bits_per_chunk))

unfoldable pub find_free_id : List ℕ → ℕ → ℕ
find_free_id bits start_id =
    if length bits == 0
    then after_bitset bits
    else elim (scan_chunks bits start_id (length bits + 1)) [
      | none ↦ after_bitset bits
      | some id ↦ id
    ]

unfoldable pub allocate_id : IdAllocator → ℕ × IdAllocator
allocate_id s =
    let next = u32 (s.last_allocated_id + 1) in
    let desired =
      (if (leb s.desired_maximum_id next
          && ltb (s.desired_maximum_id / 2) s.num_allocated_ids
          && leb s.desired_maximum_id ((2 ^ 32 - 1) / 2))
        then s.desired_maximum_id * 2
        else s.desired_maximum_id) in
    let id =
      (if leb desired next
        then find_free_id s.allocated_bits 0
        else (if is_free s.allocated_bits next
            then next
            else find_free_id s.allocated_bits (u32 (next + 1)))) in
    (
      id,
      record {
        allocated_bits = set_free s.allocated_bits id false;
        num_allocated_ids = (s.num_allocated_ids + 1) % 2 ^ 64;
        last_allocated_id = id;
        desired_maximum_id = desired;
      },
    )

-- `numAllocatedIDs_--` on a size_t wraps round at zero.
unfoldable pub free_id : IdAllocator → ℕ → IdAllocator
free_id s id = record s {
  allocated_bits = set_free s.allocated_bits id true;
  num_allocated_ids = (s.num_allocated_ids + 2 ^ 64 - 1) % 2 ^ 64;
}
