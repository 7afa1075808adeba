-- ===== src/Dispatcher/Ids/Search.antt =====
-- src/Dispatcher.cpp, `FindFreeID`: what the search over the chunks returns.
use native.Mathlib.Nat.{mod-add-mod, add-mod_right, mod-eq_of_lt}
use lib_aspl.Prelude.{
  sym, ℕ, zero, suc, ◌+◌, ◌-◌, ◌*◌, ◌/◌, ◌%◌, ◌^◌, ◌≤◌, ◌<◌, ◌≡◌, ◌≢◌, ◌∙◌, Bool, true, false, ◌&&◌,
  none, some, List, ltb, ◌==◌, length, get_or, arith, inl, inr, Option-cases, bit-zero,
  bit-complement, dec_lt, ℕ_discrete,
}
use lib_aspl.Dispatcher.Ids.{
  is_free, full_chunk, scan_bits, scan_chunks, skip_reserved, after_bitset, find_free_id,
}
use lib_aspl.Dispatcher.Ids.Bitset.{is_set, is_free-is_set}

-- What a scan promises: an identifier inside the bitset that may be handed out.
abbrev Selects : List ℕ → ℕ → Type 0
Selects bits id = (id < length bits * 64) × (is_free bits id ≡ true)

module _ (bits : List ℕ) (small : length bits < 2 ^ 26) (first : Bool) (start_id chunk : ℕ) where
  scan_bits-Selects :
      (rounds id : ℕ)
      → chunk < length bits
      → rounds ≤ 64
      → scan_bits first start_id chunk (get_or bits chunk 0) rounds ≡ some id
      → Selects bits id
  unfolding scan_bits is_free
  scan_bits-Selects zero id hc hr e = cc
  scan_bits-Selects (suc rounds) id hc hr e =
      ground (arith, scan_bits-Selects rounds id hc (omega arith))

  -- A scan that finds nothing has passed over every bit that the rounds cover.
  scan_bits-none :
      (rounds b : ℕ)
      → scan_bits first start_id chunk (get_or bits chunk 0) rounds ≡ none
      → chunk < length bits
      → rounds ≤ 64
      → b < 64
      → 64 ≤ b + rounds
      → (first && ltb (chunk * 64 + b) start_id) ≡ false
      → is_free bits (chunk * 64 + b) ≡ false
  unfolding scan_bits is_free
  scan_bits-none zero b e hc hr hb le skip = absurd (omega arith)
  scan_bits-none (suc rounds) b e hc hr hb le skip = elim (dec_lt b (64 - rounds)) [
    | yes here ↦ let eq : b ≡ 64 - suc rounds = omega arith in ground arith
    | no later ↦ scan_bits-none rounds b (ground arith) hc (omega arith) hb (omega arith) skip
  ]

full_chunk-is_set :
    (bits : List ℕ) (c b : ℕ)
    → get_or bits c 0 ≡ full_chunk
    → b < 64
    → is_set bits (c * 64 + b) ≡ true
unfolding is_set
full_chunk-is_set bits c b e hb =
    let hi : (c * 64 + b) / 64 ≡ c = omega arith in
    let lo : (c * 64 + b) % 64 ≡ b = omega arith in
    rw (hi, lo, e) (bit-complement 64 0 b (omega arith) hb ∙ rw (bit-zero b))

full_chunk-is_free :
    (bits : List ℕ) (c b : ℕ)
    → get_or bits c 0 ≡ full_chunk
    → b < 64
    → is_free bits (c * 64 + b) ≡ false
full_chunk-is_free bits c b e hb =
    ground (arith, is_free-is_set bits (c * 64 + b), full_chunk-is_set bits c b e hb)

module _ (bits : List ℕ) (small : length bits < 2 ^ 26) (start_id : ℕ) where
  scan_chunks-Selects :
      (rounds id : ℕ)
      → 0 < length bits
      → scan_chunks bits start_id rounds ≡ some id
      → Selects bits id
  unfolding scan_chunks
  scan_chunks-Selects zero id pos e = cc
  scan_chunks-Selects (suc rounds) id pos e =
      let n = length bits - rounds in
      let chunk = (start_id / 64 + n) % length bits in
      ground (
        arith,
        scan_chunks-Selects rounds id pos,
        scan_bits-Selects bits small (n == 0) start_id chunk 64 id (omega arith) (omega arith),
      )

  scan_chunks-none :
      (rounds n b : ℕ)
      → scan_chunks bits start_id rounds ≡ none
      → 0 < n
      → n ≤ length bits
      → length bits < n + rounds
      → b < 64
      → is_free bits ((start_id / 64 + n) % length bits * 64 + b) ≡ false
  unfolding scan_chunks
  scan_chunks-none zero n b e pos hn cover hb = absurd (omega arith)
  scan_chunks-none (suc rounds) n b e pos hn cover hb =
      let chunk = (start_id / 64 + n) % length bits in
      elim (ℕ_discrete (length bits - rounds) n) [
        | yes here ↦ ground (
          arith,
          full_chunk-is_free bits chunk b,
          scan_bits-none bits small (n == 0) start_id chunk 64 b,
        )
        | no later ↦ scan_chunks-none rounds n b (ground arith) pos hn (omega arith) hb
      ]

-- The loop over the chunks, which starts in the middle and wraps round, comes to every chunk.
reaches : (s len c : ℕ) → c < len → (n : ℕ) × (0 < n) × (n ≤ len) × ((s + n) % len ≡ c)
reaches s len c h = elim (dec_lt (s % len) c) [
  | yes below ↦ (
    c - s % len,
    omega arith,
    omega arith,
    let q : s % len + (c - s % len) ≡ c = omega arith in
        sym (mod-add-mod s len _) ∙ rw q (mod-eq_of_lt h),
  )
  | no above ↦ (
    c + len - s % len,
    omega arith,
    omega arith,
    let q : s % len + (c + len - s % len) ≡ c + len = omega arith in
        sym (mod-add-mod s len _) ∙ rw q (add-mod_right c len ∙ mod-eq_of_lt h),
  )
]

scan_chunks-finds :
    (bits : List ℕ) (start_id id : ℕ)
    → length bits < 2 ^ 26
    → Selects bits id
    → scan_chunks bits start_id (length bits + 1) ≢ none
scan_chunks-finds bits start_id id small gap e =
    let (n, pos, hn, eq) = reaches (start_id / 64) (length bits) (id / 64) (omega arith) in
    let missed = scan_chunks-none bits small start_id (length bits + 1) n (id % 64) e pos hn in
    ground (arith, rw eq at missed)

-- Three rounds of the last loop pass both reserved identifiers.
skip_reserved_free :
    (bits : List ℕ) → length bits < 2 ^ 26 → is_free bits (after_bitset bits) ≡ true
unfolding skip_reserved is_free
skip_reserved_free bits small = ground arith

-- The identifier that `FindFreeID` picks is free, wherever the search starts, as long as the bitset
-- has fewer than 2 ^ 26 chunks; and while there is a gap inside the bitset it picks a gap.
pub find_free_id_lem :
    (bits : List ℕ) (start_id : ℕ)
    → length bits < 2 ^ 26
    → (is_free bits (find_free_id bits start_id) ≡ true)
      × ((id : ℕ)
          → id < length bits * 64
          → is_free bits id ≡ true
          → find_free_id bits start_id < length bits * 64)
unfolding find_free_id
find_free_id_lem bits start_id small =
    elim (Option-cases (scan_chunks bits start_id (length bits + 1))) [
      | inl e ↦ (
        rw (e, find_free_id) (ground (arith, skip_reserved_free bits small)),
        λ id lt free. absurd (scan_chunks-finds bits start_id id small (lt, free) e),
      )
      | inr (id, e) ↦
          let found = λ (pos : 0 < length bits).
            scan_chunks-Selects bits small start_id (length bits + 1) id pos e in
          (
            rw (e, find_free_id) (ground (arith, found, skip_reserved_free bits small)),
            λ j lt free. rw (e, find_free_id) (ground (arith, found)),
          )
    ]

-- At worst the search goes just past the end of the bitset.
pub find_free_id-le :
    (bits : List ℕ) (start_id : ℕ)
    → length bits < 2 ^ 26
    → find_free_id bits start_id ≤ length bits * 64 + 2
unfolding find_free_id skip_reserved
find_free_id-le bits start_id small =
    elim (Option-cases (scan_chunks bits start_id (length bits + 1))) [
      | inl e ↦ rw (e, find_free_id) (ground arith)
      | inr (id, e) ↦
          let found = λ (pos : 0 < length bits).
            scan_chunks-Selects bits small start_id (length bits + 1) id pos e in
          rw (e, find_free_id) (ground (arith, found))
    ]
