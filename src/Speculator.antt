-- ===== src/Speculator.antt =====
-- rvzr/model_unicorn/speculator_abc.py: checkpoints of the emulator, the log of stores, and the
-- rollback. A stack is a list with its top first.
pub mod Bytes
pub mod Rollback
pub mod StoreBypass
pub mod CondBranch
pub mod CondTargets
pub mod Arm64
use side_channel_fuzzer.Prelude.{
  ℕ, ◌+◌, Bool, true, false, ◌&&◌, ◌||◌, Option, none, some, List, [], ◌∷◌, if◌then◌else◌, leb, ltb,
  length, ◌>>=◌,
}
use side_channel_fuzzer.Grouping.Members.{is_nonempty}
use side_channel_fuzzer.Speculator.Bytes.{Memory, mem_read, mem_write}

-- The registers `R` of the emulator and the state `T` of the taint tracker, with the calls that a
-- speculator makes of them.
pub record Services (R T : Type 0) : Type 0 where
  pub read_flags : R → ℕ
  pub write_flags : ℕ → R → R
  pub taint_checkpoint : Bool → T → T
  pub taint_rollback : T → T

-- _Checkpoint
pub record Checkpoint (R : Type 0) : Type 0 where
  pub context : R
  pub next_instr : ℕ
  pub flags : ℕ
  pub spec_window : ℕ

-- _StoreLogEntry: an address and the bytes to write there
abbrev pub StoreLogEntry : Type 0
StoreLogEntry = ℕ × List ℕ

-- A speculator with the emulator and the taint tracker that it drives.
pub record Speculator (R T : Type 0) : Type 0 where
  pub memory : Memory
  pub registers : R
  pub stopped : Bool
  pub taints : T
  pub checkpoints : List (Checkpoint R)
  pub store_logs : List (List StoreLogEntry)
  pub in_speculation : Bool
  pub max_nesting : ℕ
  pub speculation_window : ℕ
  pub max_spec_window : ℕ

-- l.pop() on a stack
abbrev pub uncons : {A : Type 0} → List A → Option (A × List A)
uncons [] = none
uncons (x ∷ l) = some (x, l)

-- the loop of rollback over the log, the last entry first
unfoldable pub undo : List StoreLogEntry → Memory → Memory
undo [] m = m
undo ((addr, val) ∷ log) m = undo log (mem_write addr val m)

module _ {R T : Type 0} where
  -- UnicornSpeculator.reset: `max_window` is CONF.model_max_spec_window
  unfoldable pub reset : ℕ → Speculator R T → Speculator R T
  reset max_window s = record s {
    checkpoints = [];
    store_logs = [];
    in_speculation = false;
    speculation_window = 0;
    max_spec_window = max_window;
  }

  -- UnicornSpeculator.nesting
  unfoldable pub nesting : Speculator R T → ℕ
  nesting s = length s.checkpoints

  -- UnicornSpeculator._max_nesting_reached
  unfoldable pub max_nesting_reached : Speculator R T → Bool
  max_nesting_reached s = leb s.max_nesting (length s.checkpoints)

  -- the log that UnicornSpeculator.handle_mem_access keeps of a store, ahead of the store
  unfoldable pub log_store : ℕ → Speculator R T → Speculator R T
  log_store address s = elim s.store_logs [
    | [] ↦ s
    | log ∷ logs ↦ record s { store_logs = ((address, mem_read address 8 s.memory) ∷ log) ∷ logs }
  ]

  -- The head of UnicornSpeculator.handle_instruction: a barrier, or a window that has expired, stops
  -- the emulator.
  unfoldable pub handle_instruction : Bool → Speculator R T → Speculator R T
  handle_instruction is_barrier s =
      if s.in_speculation
      then record s {
        speculation_window = s.speculation_window + 1;
        stopped = s.stopped || (is_barrier || ltb s.max_spec_window (s.speculation_window + 1));
      }
      else s

  module _ (v : Services R T) where
    -- UnicornSpeculator._checkpoint
    unfoldable pub checkpoint : ℕ → Bool → Speculator R T → Speculator R T
    checkpoint next_instruction_addr include_current_inst s = record s {
      checkpoints =
          record {
            context = s.registers;
            next_instr = next_instruction_addr;
            flags = v.read_flags s.registers;
            spec_window = s.speculation_window;
          }
          ∷ s.checkpoints;
      store_logs = [] ∷ s.store_logs;
      in_speculation = true;
      taints = v.taint_checkpoint include_current_inst s.taints;
    }

    -- UnicornSpeculator.rollback, with the address that it returns; an empty stack is an IndexError
    unfoldable pub rollback : Speculator R T → Option (ℕ × Speculator R T)
    unfolding undo
    rollback s = do
      (c, checkpoints) ← uncons s.checkpoints
      (log, logs) ← uncons s.store_logs
      some (
        c.next_instr,
        record s {
          checkpoints = checkpoints;
          store_logs = logs;
          in_speculation = is_nonempty checkpoints && s.in_speculation;
          speculation_window = c.spec_window;
          memory = undo log s.memory;
          registers = v.write_flags c.flags c.context;
          taints = v.taint_rollback s.taints;
        },
      )
