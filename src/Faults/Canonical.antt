-- ===== src/Faults/Canonical.antt =====
-- rvzr/model_unicorn/speculators_fault.py, X86NonCanonicalAddress: the faulting instruction is run
-- again with a canonical address in its register, which gets its old value back afterwards.
use side_channel_fuzzer.Prelude.{
  ℕ, ◌/◌, ◌%◌, ◌^◌, ◌≡◌, refl, ap, subst, Bool, true, false, not, ◌||◌, Option, none, some, List,
  [], ◌∷◌, bit_and, bit_or, if◌then◌else◌, ◌==◌, ltb, ◌>>=◌, >>=-eq-some, arith, Bool-cases, inl,
  inr,
}
use side_channel_fuzzer.Prelude.Bits.{bit_and-ones}
use side_channel_fuzzer.Prelude.Texts.{Text}
use side_channel_fuzzer.Operands.{Operand, op_value}
use side_channel_fuzzer.Instruction.{Instruction, get_mem_operands}
use side_channel_fuzzer.TaintTracker.Propagation.{split_address}
use side_channel_fuzzer.Speculator.{Services, reset}
use side_channel_fuzzer.Faults.{
  FaultSpeculator, fault_triggers_speculation, fault_checkpoint, note_instruction,
}

-- the test of X86NonCanonicalAddress._speculate_instruction
unfoldable pub is_canonical : ℕ → Bool
is_canonical load_address =
    ltb 0xffff800000000000 load_address || ltb load_address 0x00007fffffffffff

-- the address that is loaded from instead
unfoldable pub canonical_address : ℕ → ℕ
canonical_address load_address =
    if not (bit_and load_address (2 ^ 47) == 0)
    then bit_or load_address 0xffff800000000000
    else bit_and load_address 0x00007ffffffffff

-- X86NonCanonicalAddress: an address or register of -1 is `none`
pub record CanonicalSpeculator (R T : Type 0) : Type 0 where
  pub fault : FaultSpeculator R T
  pub faulty_instruction_addr : Option ℕ
  pub address_register : Option ℕ
  pub register_value : ℕ

-- address == faulty_instruction_addr
abbrev pub is_at : ℕ → Option ℕ → Bool
is_at address none = false
is_at address (some a) = a == address

-- the registers of the emulator, and the constant of a register's name (a missing one is a KeyError)
pub record Registers (R : Type 0) : Type 0 where
  pub reg_read : ℕ → R → ℕ
  pub reg_write : ℕ → ℕ → R → R
  pub reg_str_to_constant : Text → Option ℕ

module _ {R T : Type 0} where
  -- X86NonCanonicalAddress.reset
  unfoldable pub canonical_reset : ℕ → CanonicalSpeculator R T → CanonicalSpeculator R T
  unfolding reset
  canonical_reset max_window c =
      let f = c.fault in
      record {
        fault = record f { spec = reset max_window f.spec };
        faulty_instruction_addr = none;
        address_register = none;
        register_value = 0;
      }

  -- X86NonCanonicalAddress._speculate_fault
  unfoldable pub canonical_fault :
      Services R T → ℕ → CanonicalSpeculator R T → ℕ × CanonicalSpeculator R T
  unfolding fault_triggers_speculation fault_checkpoint
  canonical_fault v errno c =
      if fault_triggers_speculation errno c.fault
      then (
        c.fault.curr_instruction_addr,
        record c {
          fault = fault_checkpoint v c.fault.fault_handler_addr c.fault;
          faulty_instruction_addr = some c.fault.curr_instruction_addr;
        },
      )
      else (0, c)

  -- a write of a register in the emulator
  abbrev pub write_register :
      Registers R → ℕ → ℕ → CanonicalSpeculator R T → CanonicalSpeculator R T
  write_register e reg n c =
      let f = c.fault in
      let s = f.spec in
      record c {
        fault = record f { spec = record s { registers = e.reg_write reg n s.registers } };
      }

  -- the fix of one register: `rest` is the rest of the loop
  unfoldable pub fix_register :
      Registers R
      → ℕ
      → Option (CanonicalSpeculator R T)
      → CanonicalSpeculator R T
      → Option (CanonicalSpeculator R T)
  unfolding is_canonical canonical_address
  fix_register e uc_reg rest c =
      let load_address = e.reg_read uc_reg c.fault.spec.registers in
      if is_canonical load_address
      then rest
      else some (
          write_register e uc_reg (canonical_address load_address)
            (record c { address_register = some uc_reg; register_value = load_address }))

  -- an address of one token is a register; others are passed over
  unfoldable pub fix_tokens :
      Registers R
      → List Text
      → Option (CanonicalSpeculator R T)
      → CanonicalSpeculator R T
      → Option (CanonicalSpeculator R T)
  unfolding fix_register
  fix_tokens e (token ∷ []) rest c =
      e.reg_str_to_constant token >>= λ uc_reg. fix_register e uc_reg rest c
  fix_tokens e _ rest c = rest

  -- the loop over the memory operands; `none` is a KeyError
  unfoldable pub fix_address :
      Registers R → List Operand → CanonicalSpeculator R T → Option (CanonicalSpeculator R T)
  unfolding split_address op_value fix_tokens
  fix_address e [] c = some c
  fix_address e (op ∷ ops) c = fix_tokens e (split_address [] (op_value op)) (fix_address e ops c) c

  -- the end of X86NonCanonicalAddress._speculate_instruction
  unfoldable pub fix_or_restore :
      Registers R
      → Instruction
      → ℕ
      → Option ℕ
      → CanonicalSpeculator R T
      → Option (CanonicalSpeculator R T)
  unfolding fix_address get_mem_operands
  fix_or_restore e inst address (some reg) c =
      some (write_register e reg c.register_value (record c { address_register = none }))
  fix_or_restore e inst address none c =
      if is_at address c.faulty_instruction_addr
      then (get_mem_operands true false inst >>= λ ops. fix_address e ops c)
      else some c

  -- X86NonCanonicalAddress._speculate_instruction
  unfoldable pub canonical_instruction :
      Registers R → Instruction → ℕ → CanonicalSpeculator R T → Option (CanonicalSpeculator R T)
  unfolding note_instruction fix_or_restore
  canonical_instruction e inst address c =
      let c1 = record c { fault = note_instruction address c.fault } in
      if not c.fault.spec.in_speculation
      then some c1
      else fix_or_restore e inst address c.address_register c1

-- An address whose bit 47 is clear becomes a canonical one, but by a mask of 43 bits: if one of the
-- bits 43 to 46 is set, it is another address than the one of the low 47 bits.
pub low_address_truncated :
    (a : ℕ)
    → bit_and a (2 ^ 47) ≡ 0
    → (canonical_address a ≡ a % 2 ^ 43)
      × (is_canonical (canonical_address a) ≡ true)
      × ((canonical_address a == a % 2 ^ 47) ≡ (a / 2 ^ 43 % 16 == 0))
unfolding canonical_address is_canonical
low_address_truncated a clear =
    let masked = bit_and-ones 43 a in
    (ground (arith, clear, masked), ground (arith, clear, masked), ground (arith, clear, masked))

module _ {R T : Type 0} (e : Registers R) where
  -- What the loop has done if it saved a register: the register held an address that is not
  -- canonical, this address is the saved value, and the canonical one is in its place.
  record Fixed (c c1 : CanonicalSpeculator R T) (reg : ℕ) : Type 0 where
    faulty : is_canonical (e.reg_read reg c.fault.spec.registers) ≡ false
    saved_value : c1.register_value ≡ e.reg_read reg c.fault.spec.registers
    written :
        c1.fault.spec.registers
        ≡ e.reg_write reg
            (canonical_address (e.reg_read reg c.fault.spec.registers))
            c.fault.spec.registers
    still : c1.fault.spec.in_speculation ≡ c.fault.spec.in_speculation

  fix_register-Fixed :
      (uc_reg reg : ℕ) (rest : Option (CanonicalSpeculator R T)) (c c1 : CanonicalSpeculator R T)
      → c1.address_register ≡ some reg
      → (rest ≡ some c1 → Fixed c c1 reg)
      → fix_register e uc_reg rest c ≡ some c1
      → Fixed c c1 reg
  unfolding fix_register
  fix_register-Fixed uc_reg reg rest c c1 saved later h =
      let load_address = e.reg_read uc_reg c.fault.spec.registers in
      elim (Bool-cases (is_canonical load_address)) [
        | inl fine ↦ later (rw fine at h)
        | inr bad ↦
            let same : write_register e uc_reg (canonical_address load_address)
                  (record c { address_register = some uc_reg; register_value = load_address })
                ≡ c1 =
              ground (arith, bad) in
            let same_reg : uc_reg ≡ reg = ground (arith, same, saved) in
            subst (λ r. Fixed c c1 r) same_reg
              (subst (λ (k : CanonicalSpeculator R T). Fixed c k uc_reg) same
                (record { faulty = bad; saved_value = refl; written = refl; still = refl }))
      ]

  fix_tokens-Fixed :
      (tokens : List Text) (reg : ℕ) (rest : Option (CanonicalSpeculator R T))
      (c c1 : CanonicalSpeculator R T)
      → c1.address_register ≡ some reg
      → (rest ≡ some c1 → Fixed c c1 reg)
      → fix_tokens e tokens rest c ≡ some c1
      → Fixed c c1 reg
  unfolding fix_tokens
  fix_tokens-Fixed [] reg rest c c1 saved later h = later h
  fix_tokens-Fixed (s ∷ t ∷ tokens) reg rest c c1 saved later h = later h
  fix_tokens-Fixed (token ∷ []) reg rest c c1 saved later h =
      let (uc_reg, known, h1) =
        >>=-eq-some (e.reg_str_to_constant token) (λ uc_reg. fix_register e uc_reg rest c) h in
      fix_register-Fixed uc_reg reg rest c c1 saved later h1

  fix_address-Fixed :
      (ops : List Operand) (reg : ℕ) (c c1 : CanonicalSpeculator R T)
      → c.address_register ≡ none
      → c1.address_register ≡ some reg
      → fix_address e ops c ≡ some c1
      → Fixed c c1 reg
  unfolding fix_address
  fix_address-Fixed [] reg c c1 free saved h =
      let same : c ≡ c1 = ground (arith, h) in
      absurd (ground (arith, ap (λ (k : CanonicalSpeculator R T). k.address_register) same))
  fix_address-Fixed (op ∷ ops) reg c c1 free saved h =
      fix_tokens-Fixed (split_address [] (op_value op)) reg (fix_address e ops c) c c1 saved
        (fix_address-Fixed ops reg c c1 free saved) h

  -- the registers after the emulator has run an instruction
  abbrev pub executed : R → CanonicalSpeculator R T → CanonicalSpeculator R T
  executed after c =
      let f = c.fault in
      let s = f.spec in record c { fault = record f { spec = record s { registers = after } } }

  -- If the loop fixes a register for the faulting instruction, then the register held an address that
  -- is not canonical, and the fixed instruction runs with the canonical one in its place. Whatever
  -- registers `after` the instruction leaves, the hook of the next instruction, whichever it is,
  -- writes the faulty address back to that register, also if the register is a destination of the
  -- instruction.
  pub canonical_instruction-restores :
      (inst next_inst : Instruction) (address next_address reg : ℕ) (c c1 : CanonicalSpeculator R T)
      (after : R)
      → c.fault.spec.in_speculation ≡ true
      → c.address_register ≡ none
      → canonical_instruction e inst address c ≡ some c1
      → c1.address_register ≡ some reg
      → (is_canonical (e.reg_read reg c.fault.spec.registers) ≡ false)
        × (c1.fault.spec.registers
            ≡ e.reg_write reg
                (canonical_address (e.reg_read reg c.fault.spec.registers))
                c.fault.spec.registers)
        × (c2 : CanonicalSpeculator R T) × (canonical_instruction e next_inst next_address
              (executed after c1)
            ≡ some c2)
        × (c2.fault.spec.registers ≡ e.reg_write reg (e.reg_read reg c.fault.spec.registers) after)
        × (c2.address_register ≡ none)
  unfolding canonical_instruction fix_or_restore
  canonical_instruction-restores inst next_inst address next_address reg c c1 after speculating free
        h saved =
      let noted = record c { fault = note_instruction address c.fault } in
      elim (Bool-cases (is_at address c.faulty_instruction_addr)) [
        | inr elsewhere ↦
            let same : noted ≡ c1 = ground (arith, speculating, free, elsewhere, h) in
            absurd (
              ground
                (arith, ap (λ (k : CanonicalSpeculator R T). k.address_register) same, free, saved))
        | inl here ↦
            let h1 : (get_mem_operands true false inst >>= λ ops. fix_address e ops noted)
                ≡ some c1 =
              ground (arith, speculating, free, here, h) in
            let (ops, found, fixed) =
              >>=-eq-some (get_mem_operands true false inst) (λ ops. fix_address e ops noted) h1 in
            let f : Fixed noted c1 reg = fix_address-Fixed ops reg noted c1 free saved fixed in
            (
              f.faulty,
              f.written,
              write_register e reg c1.register_value (record (executed after c1) {
                fault = note_instruction next_address (executed after c1).fault;
                address_register = none;
              }),
              ground (arith, f.still, speculating, saved),
              ap (λ n. e.reg_write reg n after) f.saved_value,
              refl,
            )
      ]
