-- ===== src/Dispatcher/Ids/Bitset.antt =====
-- src/Dispatcher.cpp, `IsFree` and `SetFree`: the chunks as a set of identifiers.
use lib_aspl.Prelude.{
  ℕ, ◌+◌, ◌-◌, ◌*◌, ◌/◌, ◌%◌, ◌^◌, ◌<◌, bit_and, bit_or, ◌≡◌, ◌∙◌, Bool, true, false, not, ◌&&◌,
  List, [], ◌==◌, if◌then◌else◌, length, get_or, replicate, arith, bit, bit-zero, bit-bit_or,
  bit-bit_and, bit-two_pow, bit_or-lt, bit_and-lt, two_pow-lt, max, get_or-length, get_or-set,
  get_or-append-replicate, length-append, length-set, length-replicate, bit-complement,
  bit_and-two_pow,
}
use lib_aspl.Dispatcher.Ids.{is_reserved, is_free, grown, set_free, full_chunk}

-- Whether the identifier is marked as allocated: the abstract view of the chunks.
unfoldable pub is_set : List ℕ → ℕ → Bool
is_set bits id = bit (get_or bits (id / 64) 0) (id % 64)

-- `IsFree` says that an identifier is neither reserved nor marked.
pub is_free-is_set :
    (bits : List ℕ) (id : ℕ) → is_free bits id ≡ (not (is_reserved id) && not (is_set bits id))
unfolding is_free is_set
is_free-is_set bits id = ground (
  arith,
  get_or-length bits (id / 64) 0,
  bit-zero (id % 64),
  bit_and-two_pow (get_or bits (id / 64) 0) (id % 64),
)

-- Every chunk is a UInt64.
abbrev pub IsWords : List ℕ → Type 0
IsWords bits = (c : ℕ) → get_or bits c 0 < 2 ^ 64

pub IsWords-nil : IsWords []
IsWords-nil c = omega arith

get_or-grown : (bits : List ℕ) (chunk c : ℕ) → get_or (grown bits chunk) c 0 ≡ get_or bits c 0
unfolding grown
get_or-grown bits chunk c =
    ground (arith, get_or-append-replicate bits (chunk + 1 - length bits) c 0)

length-grown :
    (bits : List ℕ) (chunk : ℕ) → length (grown bits chunk) ≡ max (length bits) (chunk + 1)
unfolding grown
length-grown bits chunk = ground (
  arith,
  length-append bits (replicate (chunk + 1 - length bits) 0),
  length-replicate {A = ℕ} (chunk + 1 - length bits) 0,
)

pub length-set_free :
    (bits : List ℕ) (id : ℕ) (free : Bool)
    → length (set_free bits id free) ≡ max (length bits) (id / 64 + 1)
unfolding set_free
length-set_free bits id free = length-set (grown bits (id / 64)) _ _ ∙ length-grown bits (id / 64)

-- The new value of the chunk that is written.
new_chunk : ℕ → ℕ → Bool → ℕ
new_chunk old b free = if free then bit_and old (full_chunk - 2 ^ b) else bit_or old (2 ^ b)

bit-new_chunk :
    (old b : ℕ) (free : Bool) (k : ℕ)
    → b < 64
    → k < 64
    → bit (new_chunk old b free) k ≡ (if k == b then not free else bit old k)
unfolding new_chunk
bit-new_chunk old b free k hb hk = ground (
  arith,
  bit-bit_or old (2 ^ b) k,
  bit-bit_and old (full_chunk - 2 ^ b) k,
  bit-complement 64 (2 ^ b) k (two_pow-lt 64 b hb),
  bit-two_pow b k,
)

new_chunk-lt : (old b : ℕ) (free : Bool) → b < 64 → old < 2 ^ 64 → new_chunk old b free < 2 ^ 64
unfolding new_chunk
new_chunk-lt old b true hb h = bit_and-lt 64 old _ h
new_chunk-lt old b false hb h = bit_or-lt 64 old (2 ^ b) h (two_pow-lt 64 b hb)

get_or-set_free :
    (bits : List ℕ) (id : ℕ) (free : Bool) (c : ℕ)
    → get_or (set_free bits id free) c 0 ≡ (
        if c == id / 64
        then new_chunk (get_or bits (id / 64) 0) (id % 64) free
        else get_or bits c 0)
unfolding set_free new_chunk
get_or-set_free bits id free c =
    get_or-set (grown bits (id / 64)) (id / 64) _ c 0 (omega (arith, length-grown bits (id / 64)))
    ∙ simp get_or-grown

pub set_free-IsWords :
    (bits : List ℕ) (id : ℕ) (free : Bool) → IsWords bits → IsWords (set_free bits id free)
set_free-IsWords bits id free w c = ground (
  arith,
  get_or-set_free bits id free c,
  new_chunk-lt (get_or bits (id / 64) 0) (id % 64) free,
  w c,
  w (id / 64),
)

-- `SetFree` marks or unmarks exactly the given identifier.
pub is_set-set_free :
    (bits : List ℕ) (id : ℕ) (free : Bool) (j : ℕ)
    → is_set (set_free bits id free) j ≡ (if j == id then not free else is_set bits j)
unfolding is_set
is_set-set_free bits id free j = ground (
  arith,
  get_or-set_free bits id free (j / 64),
  bit-new_chunk (get_or bits (id / 64) 0) (id % 64) free (j % 64),
)

-- A marked identifier lies inside the chunks.
pub is_set-lt : (bits : List ℕ) (id : ℕ) → is_set bits id ≡ true → id < length bits * 64
unfolding is_set
is_set-lt bits id h = ground (arith, get_or-length bits (id / 64) 0, bit-zero (id % 64))
