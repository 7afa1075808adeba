-- ===== src/Dispatcher/Ids/Allocate.antt =====
-- src/Dispatcher.cpp, `AllocateID` and `FreeID`.
use lib_aspl.Prelude.{
  ℕ, ◌+◌, ◌*◌, ◌%◌, ◌^◌, ◌≤◌, ◌<◌, ◌≡◌, refl, true, false, ◌==◌, if◌then◌else◌, length, arith,
}
use lib_aspl.Dispatcher.Ids.{IdAllocator, new_ids, u32, is_free, allocate_id, free_id, set_free}
use lib_aspl.Dispatcher.Ids.Bitset.{
  is_set, IsWords-nil, IsWords, is_set-set_free, set_free-IsWords, length-set_free,
}
use lib_aspl.Dispatcher.Ids.Search.{find_free_id_lem, find_free_id-le}

-- The identifier that `AllocateID` picks was free, as long as the bitset has fewer than 2 ^ 26
-- chunks.
pub allocate_id-is_free :
    (s : IdAllocator)
    → length s.allocated_bits < 2 ^ 26
    → is_free s.allocated_bits (allocate_id s).0 ≡ true
unfolding allocate_id
allocate_id-is_free s small =
    let next = u32 (s.last_allocated_id + 1) in
    ground (
      arith,
      (find_free_id_lem s.allocated_bits 0 small).0,
      (find_free_id_lem s.allocated_bits (u32 (next + 1)) small).0,
    )

pub is_set-allocate_id :
    (s : IdAllocator) (j : ℕ)
    → is_set (allocate_id s).1.allocated_bits j
      ≡ (if j == (allocate_id s).0 then true else is_set s.allocated_bits j)
unfolding allocate_id
is_set-allocate_id s j = is_set-set_free s.allocated_bits (allocate_id s).0 false j

pub is_set-free_id :
    (s : IdAllocator) (id j : ℕ)
    → is_set (free_id s id).allocated_bits j
      ≡ (if j == id then false else is_set s.allocated_bits j)
unfolding free_id
is_set-free_id s id j = is_set-set_free s.allocated_bits id true j

-- The bitset grows by at most a chunk for each identifier that is given out.
pub record IsWithin (n : ℕ) (s : IdAllocator) : Type 0 where
  pub short : length s.allocated_bits ≤ n + 1
  pub low : s.last_allocated_id < 64 * (n + 1)
  pub words : IsWords s.allocated_bits

allocate_id-lt :
    (n : ℕ) (s : IdAllocator) → n + 1 < 2 ^ 26 → IsWithin n s → (allocate_id s).0 < 64 * (n + 2)
unfolding allocate_id
allocate_id-lt n s small w =
    let next = u32 (s.last_allocated_id + 1) in
    ground
      (arith, find_free_id-le s.allocated_bits 0, find_free_id-le s.allocated_bits (u32 (next + 1)))

-- What the new state holds, by the identifier that was chosen.
allocate_id-fields :
    (s : IdAllocator)
    → ((allocate_id s).1.allocated_bits ≡ set_free s.allocated_bits (allocate_id s).0 false)
      × ((allocate_id s).1.last_allocated_id ≡ (allocate_id s).0)
unfolding allocate_id
allocate_id-fields s = (refl, refl)

pub allocate_id-IsWithin :
    (n : ℕ) (s : IdAllocator) → n + 1 < 2 ^ 26 → IsWithin n s → IsWithin (n + 1) (allocate_id s).1
allocate_id-IsWithin n s small w =
    let lt = allocate_id-lt n s small w in
    let (bits, last) = allocate_id-fields s in
    record {
      short =
          rw bits
            (omega (arith, w.short, length-set_free s.allocated_bits (allocate_id s).0 false));
      low = omega arith;
      words = rw bits (set_free-IsWords s.allocated_bits (allocate_id s).0 false w.words);
    }

pub free_id-IsWithin :
    (n : ℕ) (s : IdAllocator) (id : ℕ)
    → id < 64 * (n + 1)
    → IsWithin n s
    → IsWithin n (free_id s id)
unfolding free_id
free_id-IsWithin n s id lt w = record {
  short = omega (arith, w.short, length-set_free s.allocated_bits id true);
  low = w.low;
  words = set_free-IsWords s.allocated_bits id true w.words;
}

pub new_ids-IsWithin : (hint : ℕ) → IsWithin 0 (new_ids hint)
unfolding new_ids
new_ids-IsWithin hint = record { short = omega arith; low = omega arith; words = IsWords-nil }

pub num_allocated_ids-allocate_id :
    (s : IdAllocator) → (allocate_id s).1.num_allocated_ids ≡ (s.num_allocated_ids + 1) % 2 ^ 64
unfolding allocate_id
num_allocated_ids-allocate_id s = refl
