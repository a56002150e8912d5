-- ===== src/Speculator/Arm64.antt =====
-- `ARM64CondSpeculator` of rvzr/model_unicorn/speculators_basic.py: the decoding of conditional
-- branches. An instruction is the number of its four bytes.
use side_channel_fuzzer.Prelude.{
  ℕ, zero, suc, ◌+◌, ◌-◌, ◌*◌, ◌/◌, ◌%◌, ◌^◌, ◌<◌, ◌≡◌, refl, ap, Bool, true, false, not, ◌&&◌,
  ◌||◌, arith, if◌then◌else◌, ◌==◌, leb, bit_and,
}
use side_channel_fuzzer.Prelude.Bits.{bit_and-ones, bit_and-halves}

-- flags & (1 << bit) != 0
abbrev pub flag : ℕ → ℕ → Bool
flag bit flags = not (bit_and flags (2 ^ bit) == 0)

abbrev same : Bool → Bool → Bool
same true b = b
same false b = not b

-- ARM64CondSpeculator._twos_complement, on 64 bits
unfoldable pub twos_complement : ℕ → ℕ → ℕ
twos_complement n n_bits =
    let m = bit_and n (2 ^ n_bits - 1) in
    if not (bit_and m (2 ^ (n_bits - 1)) == 0) then m + 2 ^ 64 - 2 * 2 ^ (n_bits - 1) else m

-- the table of _decode_b_cond
unfoldable pub b_cond_taken : ℕ → Bool → Bool → Bool → Bool → Bool
b_cond_taken condition n z c v =
    if condition == 0
    then z
    else if condition == 1
    then not z
    else if condition == 2
    then c
    else if condition == 3
    then not c
    else if condition == 4
    then n
    else if condition == 5
    then not n
    else if condition == 6
    then v
    else if condition == 7
    then not v
    else if condition == 8
    then c && not z
    else if condition == 9
    then not c || z
    else if condition == 10
    then same n v
    else if condition == 11
    then not (same n v)
    else if condition == 12
    then not z && same n v
    else if condition == 13
    then z || not (same n v)
    else condition == 14

-- ARM64CondSpeculator._decode_b_cond
unfoldable pub decode_b_cond : ℕ → ℕ → ℕ × Bool
unfolding twos_complement b_cond_taken
decode_b_cond instruction flags = (
  twos_complement (instruction / 2 ^ 5) 19,
  b_cond_taken (bit_and instruction 0xf) (flag 31 flags) (flag 30 flags) (flag 29 flags)
      (flag 28 flags),
)

-- ARM64CondSpeculator._decode_cb_tb; `read_register i` is the value of the register Xi
unfoldable pub decode_cb_tb : (ℕ → ℕ) → ℕ → ℕ → ℕ × Bool
unfolding twos_complement
decode_cb_tb read_register instruction first_byte =
    let register_index = bit_and instruction 0x1f in
    let is_32bit = first_byte / 2 ^ 4 == 0x3 in
    let value = if register_index == 31 then 0 else read_register register_index in
    let register_value = if is_32bit then bit_and value 0xffffffff else value in
    let kind = bit_and first_byte 0xf in
    let bit_number = bit_and (instruction / 2 ^ 19) 0x1f + (if is_32bit then 0 else 32) in
    let bit = bit_and register_value (2 ^ bit_number) in
    if leb kind 0x5
    then (
      twos_complement (instruction / 2 ^ 5) 19,
      if kind == 4 then register_value == 0 else not (register_value == 0),
    )
    else (twos_complement (instruction / 2 ^ 5) 14, if kind == 6 then bit == 0 else not (bit == 0))

-- ARM64CondSpeculator.decode
unfoldable pub decode_arm64 : (ℕ → ℕ) → ℕ → ℕ → ℕ × Bool
unfolding decode_b_cond decode_cb_tb
decode_arm64 read_register instruction flags =
    let first_byte = instruction / 2 ^ 24 in
    if first_byte == 0x54 && bit_and instruction 0x10 == 0
    then decode_b_cond instruction flags
    else if leb 0xb4 first_byte && leb first_byte 0xb7 || leb 0x34 first_byte && leb first_byte 0x37
    then decode_cb_tb read_register instruction first_byte
    else (0, false)

taken_opposite :
    (k : ℕ) (n z c v : Bool)
    → k < 8
    → b_cond_taken (2 * k + 1) n z c v ≡ not (b_cond_taken (2 * k) n z c v)
unfolding b_cond_taken
taken_opposite zero n z c v h = ground arith
taken_opposite (suc zero) n z c v h = ground arith
taken_opposite (suc (suc zero)) n z c v h = ground arith
taken_opposite (suc (suc (suc zero))) n z c v h = ground arith
taken_opposite (suc (suc (suc (suc zero)))) n z c v h = ground arith
taken_opposite (suc (suc (suc (suc (suc zero))))) n z c v h = ground arith
taken_opposite (suc (suc (suc (suc (suc (suc zero)))))) n z c v h = ground arith
taken_opposite (suc (suc (suc (suc (suc (suc (suc zero))))))) n z c v h = ground arith
taken_opposite (suc (suc (suc (suc (suc (suc (suc (suc k)))))))) n z c v h = absurd (omega arith)

-- B.cond instructions whose conditions differ in the lowest bit have the same target, and exactly
-- one of them is taken.
pub decode_arm64-opposite :
    (read_register : ℕ → ℕ) (j flags : ℕ)
    → 2 * j / 2 ^ 24 ≡ 0x54
    → bit_and (2 * j) 0x10 ≡ 0
    → ((decode_arm64 read_register (2 * j + 1) flags).0
        ≡ (decode_arm64 read_register (2 * j) flags).0)
      × ((decode_arm64 read_register (2 * j + 1) flags).1
          ≡ not (decode_arm64 read_register (2 * j) flags).1)
unfolding decode_arm64 decode_b_cond
decode_arm64-opposite read_register j flags is_b_cond no_bit =
    let byte : (2 * j + 1) / 2 ^ 24 ≡ 0x54 = omega arith in
    let bit : bit_and (2 * j + 1) 0x10 ≡ 0 = omega (
      arith,
      bit_and-halves (2 * j) 0x10,
      bit_and-halves (2 * j + 1) 0x10,
      half_odd,
      half_even,
      ap (λ q. bit_and q 8) half_odd,
      ap (λ q. bit_and q 8) half_even,
    ) in
    let shifted : (2 * j + 1) / 2 ^ 5 ≡ 2 * j / 2 ^ 5 = omega arith in
    let odd : bit_and (2 * j + 1) 0xf ≡ 2 * (j % 8) + 1 =
      omega (arith, bit_and-ones 4 (2 * j + 1)) in
    let even : bit_and (2 * j) 0xf ≡ 2 * (j % 8) = omega (arith, bit_and-ones 4 (2 * j)) in
    (
      rw (byte, bit, is_b_cond, no_bit, shifted) refl,
      rw (byte, bit, is_b_cond, no_bit, odd, even)
          (taken_opposite (j % 8) (flag 31 flags) (flag 30 flags) (flag 29 flags) (flag 28 flags)
            (omega arith)),
    )
  where
    half_odd : (2 * j + 1) / 2 ≡ j
    half_odd = omega arith

    half_even : 2 * j / 2 ≡ j
    half_even = omega arith
