-- ===== src/Speculator/Bytes.antt =====
-- The memory of the emulator, byte by byte.
use side_channel_fuzzer.Prelude.{
  ℕ, zero, suc, ◌+◌, ◌≤◌, ◌<◌, ◌≡◌, refl, ap, false, List, [], ◌∷◌, arith, ◌==◌, if◌then◌else◌,
  length, ==→eq, ◌⊎◌, inl, inr, sym, Bool-cases, ltb,
}
use mathlib.Core.Path.{fun_ext}

abbrev pub Memory : Type 0
Memory = ℕ → ℕ

-- Uc.mem_write
unfoldable pub mem_write : ℕ → List ℕ → Memory → Memory
mem_write address [] m = m
mem_write address (b ∷ bytes) m = λ a. if a == address then b else mem_write (address + 1) bytes m a

-- Uc.mem_read
unfoldable pub mem_read : ℕ → ℕ → Memory → List ℕ
mem_read address zero m = []
mem_read address (suc n) m = m address ∷ mem_read (address + 1) n m

write_outside :
    (address a : ℕ) (bytes : List ℕ) (m : Memory)
    → (a < address) ⊎ (address + length bytes ≤ a)
    → mem_write address bytes m a ≡ m a
unfolding mem_write
write_outside address a [] m h = refl
write_outside address a (b ∷ bytes) m (inl h) =
    ground (arith, write_outside (address + 1) a bytes m (inl (omega arith)))
write_outside address a (b ∷ bytes) m (inr h) =
    ground (arith, write_outside (address + 1) a bytes m (inr (omega arith)))

-- Writing the `n` bytes of `m` over a memory that is `m` outside of them gives `m`, at each address.
write_over :
    (n address a : ℕ) (m m' : Memory)
    → ((a < address) ⊎ (address + n ≤ a) → m' a ≡ m a)
    → mem_write address (mem_read address n m) m' a ≡ m a
unfolding mem_write mem_read
write_over zero address a m m' h = h (below_or_not a address)
  where
    below_or_not : (a address : ℕ) → (a < address) ⊎ (address + 0 ≤ a)
    below_or_not a address = elim (Bool-cases (ltb a address)) [
      | inl e ↦ inl (ground arith)
      | inr e ↦ inr (ground arith)
    ]
write_over (suc n) address a m m' h = elim (Bool-cases (a == address)) [
  | inl e ↦ rw e (ap m (sym (==→eq a address e)))
  | inr e ↦ rw e (write_over n (address + 1) a m m' (λ k. h (away n a address e k)))
]
  where
    away :
        (n a address : ℕ)
        → (a == address) ≡ false
        → (a < address + 1) ⊎ (address + 1 + n ≤ a)
        → (a < address) ⊎ (address + suc n ≤ a)
    away n a address e (inl k) = inl (ground arith)
    away n a address e (inr k) = inr (omega arith)

-- Writing back what was read in front of a store undoes it, if at least as much was read.
pub write-back :
    (n address : ℕ) (bytes : List ℕ) (m : Memory)
    → length bytes ≤ n
    → mem_write address (mem_read address n m) (mem_write address bytes m) ≡ m
write-back n address bytes m h = fun_ext (λ a.
    write_over n address a m (mem_write address bytes m)
      (λ k. write_outside address a bytes m (outside a k)))
  where
    outside :
        (a : ℕ) → (a < address) ⊎ (address + n ≤ a) → (a < address) ⊎ (address + length bytes ≤ a)
    outside a (inl k) = inl k
    outside a (inr k) = inr (omega arith)
