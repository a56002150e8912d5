-- ===== src/TaintTracker/Loading.antt =====
-- `X86UnicornModel._load_input` of rvzr/model_unicorn/model.py: the state in which a run starts, as
-- the value of every place.
pub mod Agreement
use side_channel_fuzzer.Prelude.{
  ℕ, suc, ◌+◌, ◌-◌, ◌*◌, ◌/◌, ◌%◌, ◌^◌, Bool, true, false, not, ◌&&◌, ◌||◌, Option, none, some,
  List, [], ◌∷◌, ◌==◌, ◌>>=◌, if◌then◌else◌, ltb, leb, get_elem?, bit_and, bit_or,
}
use side_channel_fuzzer.Prelude.Texts.{Text}
use side_channel_fuzzer.Sandbox.{data_size_per_actor}
use side_channel_fuzzer.InputData.{InputData, n_data_entries_per_actor}
use side_channel_fuzzer.TaintTracker.Labels.{Label, mem, name}
use side_channel_fuzzer.TaintTracker.Flow.{reg, flag, word}
use side_channel_fuzzer.TaintTracker.Machine.{Values}
use side_channel_fuzzer.TaintTracker.Output.{UnicornTargetDesc, page_entries}
use side_channel_fuzzer.TaintTracker.Entries.{gpr_start, simd_start}

-- an entry of an input
abbrev pub input_entry : InputData → ℕ → ℕ → Option ℕ
input_entry x actor_id k = get_elem? x.actors actor_id >>= λ fragment. get_elem? fragment k

-- What the loading uses of the emulator: constants of registers, the addresses that it writes to
-- them, and the state before. A flag is a bit of the register that its name stands for.
pub record Emulator : Type 0 where
  pub eflags : ℕ
  pub rsp : ℕ
  pub rbp : ℕ
  pub r14 : ℕ
  pub rsp_init : ℕ
  pub main_start : ℕ
  pub registers_before : ℕ → ℕ
  pub memory_before : ℕ → ℕ
  pub flag_bit : Text → ℕ → ℕ

-- patch_flags
abbrev pub patch_flags : ℕ → ℕ
patch_flags flags = bit_or (bit_and flags 2263) 2

-- the index of the flags among the entries of `gpr`
abbrev pub flags_entry : ℕ
flags_entry = gpr_start + 6

-- an entry after `input_fragment['gpr'][6]` is patched
unfoldable pub loaded_entry : InputData → ℕ → ℕ → ℕ
loaded_entry x b k =
    let value : ℕ = elim (input_entry x b k) [ some v ↦ v | none ↦ 0 ] in
    if k == flags_entry then patch_flags value else value

-- em.reg_write
unfoldable pub reg_write : ℕ → ℕ → (ℕ → ℕ) → ℕ → ℕ
reg_write r v registers = λ q. if r == q then v else registers q

-- the loop over `gpr`, from entry `i` on; there are as many registers as entries
unfoldable pub write_gprs : InputData → List ℕ → ℕ → (ℕ → ℕ) → ℕ → ℕ
unfolding reg_write loaded_entry
write_gprs x [] i registers = registers
write_gprs x (r ∷ regs) i registers =
    write_gprs x regs (suc i) (reg_write r (loaded_entry x 0 (gpr_start + i)) registers)

-- The loop over the SIMD registers: two of four entries make a value, and there are as many registers
-- as values.
unfoldable pub write_simds : InputData → List ℕ → ℕ → (ℕ → ℕ) → ℕ → ℕ
unfolding reg_write loaded_entry
write_simds x [] i registers = registers
write_simds x (r ∷ regs) i registers = write_simds x regs (suc i) (
    reg_write r
      (loaded_entry x 0 (simd_start + 4 * i) + 2 ^ 64 * loaded_entry x 0 (simd_start + 4 * i + 1))
      registers)

module _ (uc : UnicornTargetDesc) (e : Emulator) where
  unfoldable pub loaded_registers : InputData → ℕ → ℕ
  unfolding write_simds write_gprs reg_write loaded_entry
  loaded_registers x = write_simds x uc.usable_simd128_registers 0 (
      reg_write e.r14 e.main_start (
        reg_write e.rbp e.rsp_init (
          reg_write e.rsp e.rsp_init (
            reg_write e.eflags (loaded_entry x 0 flags_entry)
              (write_gprs x uc.usable_registers 0 e.registers_before)))))

  -- The word at a sandbox address: the pads are zero, and the macro stack is not written.
  unfoldable pub loaded_word : InputData → ℕ → ℕ → ℕ
  unfolding loaded_entry
  loaded_word x n a =
      let actor_id = a / data_size_per_actor in
      let position = a % data_size_per_actor / 8 in
      if not (ltb actor_id n) || ltb position 8
      then e.memory_before a
      else if leb page_entries position && ltb position (page_entries + n_data_entries_per_actor)
      then loaded_entry x actor_id (position - page_entries)
      else 0

  unfoldable pub named : InputData → Text → (ℕ → ℕ) → ℕ
  unfolding loaded_registers
  named x r value = elim (uc.reg_norm_to_constant r) [
    | some c ↦ value (loaded_registers x c)
    | none ↦ 0
  ]

  -- X86UnicornModel._load_input, for a test case with `n` actors
  unfoldable pub load_input : ℕ → InputData → Values
  unfolding named loaded_word
  load_input n x (reg r) = named x r (λ v. v)
  load_input n x (flag f) = named x f (e.flag_bit f)
  load_input n x (word a) = loaded_word x n a

-- not in a list of registers
abbrev pub is_absent : ℕ → List ℕ → Bool
is_absent r [] = true
is_absent r (q ∷ regs) = not (q == r) && is_absent r regs

abbrev pub are_distinct : List ℕ → Bool
are_distinct [] = true
are_distinct (r ∷ regs) = is_absent r regs && are_distinct regs

abbrev pub is_simd : UnicornTargetDesc → Label → Bool
is_simd uc (mem a) = false
is_simd uc (name r) = elim (uc.reg_norm_to_constant r) [
  | some c ↦ not (is_absent c uc.usable_simd128_registers)
  | none ↦ false
]
