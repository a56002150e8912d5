-- ===== src/Speculator/CondTargets.antt =====
-- Where the conditional jumps are sent.
use side_channel_fuzzer.Prelude.{
  ℕ, zero, suc, ◌+◌, ◌-◌, ◌*◌, ◌^◌, ◌≤◌, ◌<◌, ◌≡◌, refl, true, false, not, List, [], ◌∷◌, arith,
  leb,
}
use side_channel_fuzzer.Speculator.CondBranch.{
  is_taken, multibyte_jmp, jumps, from_bytes, signed_from_bytes, displacement, decode,
}

is_taken_opposite : (n f : ℕ) → n < 8 → is_taken (2 * n + 1) f ≡ not (is_taken (2 * n) f)
unfolding is_taken
is_taken_opposite zero f h = ground arith
is_taken_opposite (suc zero) f h = ground arith
is_taken_opposite (suc (suc zero)) f h = ground arith
is_taken_opposite (suc (suc (suc zero))) f h = ground arith
is_taken_opposite (suc (suc (suc (suc zero)))) f h = ground arith
is_taken_opposite (suc (suc (suc (suc (suc zero))))) f h = ground arith
is_taken_opposite (suc (suc (suc (suc (suc (suc zero)))))) f h = ground arith
is_taken_opposite (suc (suc (suc (suc (suc (suc (suc zero))))))) f h = ground arith
is_taken_opposite (suc (suc (suc (suc (suc (suc (suc (suc n)))))))) f h = absurd (omega arith)

decode_short :
    (code f rcx : ℕ) (rest : List ℕ)
    → code < 16
    → decode ((0x70 + code) ∷ rest) f rcx ≡ (displacement rest, is_taken code f, false)
unfolding decode jumps
decode_short code f rcx rest h =
    let e : 0x70 + code - 0x70 ≡ code = omega arith in
    let low : leb 0x70 (0x70 + code) ≡ true = ground arith in
    let high : leb (0x70 + code) 0x7F ≡ true = ground arith in rw (low, high, e)

decode_near :
    (code f rcx : ℕ) (rest : List ℕ)
    → code < 16
    → decode (0x0F ∷ (0x80 + code) ∷ rest) f rcx ≡ (displacement rest, is_taken code f, false)
unfolding decode jumps multibyte_jmp
decode_near code f rcx rest h =
    let e : 0x80 + code - 0x80 ≡ code = omega arith in
    let low : leb 0x80 (0x80 + code) ≡ true = ground arith in
    let high : leb (0x80 + code) 0x8F ≡ true = ground arith in rw (low, high, e)

-- Jumps of opposite conditions, with the same displacement and flags: both are decoded to the same
-- target, in the short and in the near encoding, and exactly one of them is taken, so the one is
-- mispredicted to where the other goes.
pub decode-opposite :
    (n f rcx : ℕ) (rest : List ℕ)
    → n < 8
    → ((decode ((0x70 + (2 * n + 1)) ∷ rest) f rcx).0 ≡ (decode ((0x70 + 2 * n) ∷ rest) f rcx).0)
      × ((decode ((0x70 + (2 * n + 1)) ∷ rest) f rcx).1
          ≡ not (decode ((0x70 + 2 * n) ∷ rest) f rcx).1)
      × ((decode (0x0F ∷ (0x80 + (2 * n + 1)) ∷ rest) f rcx).0
          ≡ (decode (0x0F ∷ (0x80 + 2 * n) ∷ rest) f rcx).0)
      × ((decode (0x0F ∷ (0x80 + (2 * n + 1)) ∷ rest) f rcx).1
          ≡ not (decode (0x0F ∷ (0x80 + 2 * n) ∷ rest) f rcx).1)
decode-opposite n f rcx rest h =
    let odd : 2 * n + 1 < 16 = omega arith in
    let even : 2 * n < 16 = omega arith in
    let short_odd = decode_short (2 * n + 1) f rcx rest odd in
    let short_even = decode_short (2 * n) f rcx rest even in
    let near_odd = decode_near (2 * n + 1) f rcx rest odd in
    let near_even = decode_near (2 * n) f rcx rest even in
    (
      rw (short_odd, short_even),
      rw (short_odd, short_even) (is_taken_opposite n f h),
      rw (near_odd, near_even),
      rw (near_odd, near_even) (is_taken_opposite n f h),
    )

-- A backward jump over `256 - d` bytes, in the short and in the near encoding: the condition is
-- decoded alike, but the near one goes back and the short one goes forward by `d`, 256 too far.
pub short_backward_lost :
    (code d f rcx : ℕ)
    → code < 16
    → 128 ≤ d
    → d < 256
    → ((decode (0x0F ∷ (0x80 + code) ∷ d ∷ 0xFF ∷ 0xFF ∷ 0xFF ∷ []) f rcx).0 ≡ d + (2 ^ 64 - 256))
      × ((decode ((0x70 + code) ∷ d ∷ []) f rcx).0 ≡ d)
      × ((decode ((0x70 + code) ∷ d ∷ []) f rcx).1
          ≡ (decode (0x0F ∷ (0x80 + code) ∷ d ∷ 0xFF ∷ 0xFF ∷ 0xFF ∷ []) f rcx).1)
unfolding displacement signed_from_bytes from_bytes
short_backward_lost code d f rcx h low high =
    let short = decode_short code f rcx (d ∷ []) h in
    let near = decode_near code f rcx (d ∷ 0xFF ∷ 0xFF ∷ 0xFF ∷ []) h in
    (rw near (ground arith), rw short refl, rw (short, near) refl)
