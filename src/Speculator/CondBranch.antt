-- ===== src/Speculator/CondBranch.antt =====
-- `X86CondSpeculator` of rvzr/model_unicorn/speculators_basic.py: which conditional jumps it
-- decodes, and where it sends them. Addresses are 64-bit, and a negative displacement is its two's
-- complement.
use side_channel_fuzzer.Prelude.{
  ℕ, ◌+◌, ◌-◌, ◌*◌, ◌%◌, ◌^◌, Bool, true, false, not, ◌&&◌, ◌||◌, List, [], ◌∷◌, if◌then◌else◌,
  ◌==◌, leb, ltb, length, bit_and,
}
use side_channel_fuzzer.Speculator.{Services, Speculator, checkpoint, max_nesting_reached}

-- f & mask != 0
abbrev is_set : ℕ → ℕ → Bool
is_set mask f = not (bit_and f mask == 0)

abbrev flags_cf : ℕ
flags_cf = 0b000000000001

abbrev flags_pf : ℕ
flags_pf = 0b000000000100

abbrev flags_zf : ℕ
flags_zf = 0b000001000000

abbrev flags_sf : ℕ
flags_sf = 0b000010000000

abbrev flags_of : ℕ
flags_of = 0b100000000000

-- the comparison of two Booleans
abbrev same : Bool → Bool → Bool
same true b = b
same false b = not b

-- The conditions of `jumps` from 0x70 and of `multibyte_jmp` from 0x80 on: `code` is the low digit.
unfoldable pub is_taken : ℕ → ℕ → Bool
is_taken code f =
    if code == 0
    then is_set flags_of f
    else if code == 1
    then not (is_set flags_of f)
    else if code == 2
    then is_set flags_cf f
    else if code == 3
    then not (is_set flags_cf f)
    else if code == 4
    then is_set flags_zf f
    else if code == 5
    then not (is_set flags_zf f)
    else if code == 6
    then is_set flags_cf f || is_set flags_zf f
    else if code == 7
    then not (is_set flags_cf f) && not (is_set flags_zf f)
    else if code == 8
    then is_set flags_sf f
    else if code == 9
    then not (is_set flags_sf f)
    else if code == 10
    then is_set flags_pf f
    else if code == 11
    then not (is_set flags_pf f)
    else if code == 12
    then not (same (not (is_set flags_sf f)) (not (is_set flags_of f)))
    else if code == 13
    then same (not (is_set flags_sf f)) (not (is_set flags_of f))
    else if code == 14
    then is_set flags_zf f || not (same (not (is_set flags_sf f)) (not (is_set flags_of f)))
    else not (is_set flags_zf f) && same (not (is_set flags_sf f)) (not (is_set flags_of f))

-- the bytes of the displacement, whether the jump is taken, and whether it is a LOOP
abbrev pub Decoded : Type 0
Decoded = List ℕ × Bool × Bool

abbrev pub no_jump : Decoded
no_jump = (0 ∷ [], false, false)

-- multibyte_jmp.get(c[1], …)
unfoldable pub multibyte_jmp : List ℕ → ℕ → Decoded
unfolding is_taken
multibyte_jmp [] f = no_jump
multibyte_jmp (second ∷ rest) f =
    if leb 0x80 second && leb second 0x8F
    then (rest, is_taken (second - 0x80) f, false)
    else no_jump

-- jumps.get(code[0], …)
unfoldable pub jumps : List ℕ → ℕ → ℕ → Decoded
unfolding is_taken multibyte_jmp
jumps [] f r = no_jump
jumps (op ∷ rest) f r =
    if leb 0x70 op && leb op 0x7F
    then (rest, is_taken (op - 0x70) f, false)
    else if op == 0xE0
    then (rest, not (r == 1) && not (is_set flags_zf f), true)
    else if op == 0xE1
    then (rest, not (r == 1) && is_set flags_zf f, true)
    else if op == 0xE2
    then (rest, not (r == 1), true)
    else if op == 0xE3
    then (rest, r == 0, false)
    else if op == 0x0F
    then multibyte_jmp rest f
    else no_jump

-- int.from_bytes(target, byteorder='little')
unfoldable pub from_bytes : List ℕ → ℕ
from_bytes [] = 0
from_bytes (b ∷ bytes) = b + 2 ^ 8 * from_bytes bytes

-- the same with signed=True, on 64 bits
unfoldable pub signed_from_bytes : List ℕ → ℕ
unfolding from_bytes
signed_from_bytes bytes =
    let n = from_bytes bytes in
    if ltb (2 * n) (2 ^ (8 * length bytes)) then n else n + 2 ^ 64 - 2 ^ (8 * length bytes)

-- The end of X86CondSpeculator.decode: one byte is taken as it is.
unfoldable pub displacement : List ℕ → ℕ
unfolding signed_from_bytes
displacement (b ∷ []) = b
displacement bytes = signed_from_bytes bytes

-- X86CondSpeculator.decode
unfoldable pub decode : List ℕ → ℕ → ℕ → ℕ × Bool × Bool
unfolding jumps displacement
decode code flags rcx =
    let (target, will_jump, is_loop) = jumps code flags rcx in
    (displacement target, will_jump, is_loop)

-- The registers that the speculator reads and writes.
pub record JumpRegisters (R : Type 0) : Type 0 where
  pub read_rcx : R → ℕ
  pub write_rcx : ℕ → R → R
  pub write_rip : ℕ → R → R

module _ {R T : Type 0} (v : Services R T) (j : JumpRegisters R) where
  -- the misprediction of a jump that was decoded
  unfoldable pub mispredict : ℕ → ℕ → ℕ × Bool × Bool → Speculator R T → Speculator R T
  unfolding checkpoint
  mispredict address size (target, will_jump, is_loop) s =
      if target == 0
      then s
      else (let rcx = j.read_rcx s.registers in
          let s1 =
            if is_loop
            then record s { registers = j.write_rcx ((rcx + 2 ^ 64 - 1) % 2 ^ 64) s.registers }
            else s in
          let jump_to = (address + size + target) % 2 ^ 64 in
          let s2 = checkpoint v (if will_jump then jump_to else address + size) true s1 in
          record s2 {
            registers = j.write_rip (if will_jump then address + size else jump_to) s2.registers;
          })

  -- X86CondSpeculator._speculate_instruction; `code` are the bytes of the instruction
  unfoldable pub speculate_instruction : ℕ → List ℕ → Speculator R T → Speculator R T
  unfolding max_nesting_reached mispredict decode
  speculate_instruction address code s =
      if max_nesting_reached s || ltb 15 (length code)
      then s
      else mispredict address (length code)
          (decode code (v.read_flags s.registers) (j.read_rcx s.registers)) s
