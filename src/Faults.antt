-- ===== src/Faults.antt =====
-- rvzr/model_unicorn/speculators_fault.py: speculation on faults. `R` are the registers of the
-- emulator and `T` the state of the taint tracker, as for the other speculators.
pub mod Injection
pub mod Delayed
pub mod Dependents
pub mod Canonical
use side_channel_fuzzer.Prelude.{
  ℕ, ◌+◌, Bool, true, false, not, ◌&&◌, Option, none, some, List, [], ◌∷◌, ◌++◌, if◌then◌else◌,
  ◌==◌, ◌>>=◌, ◌>>◌, guard, any, replicate,
}
use side_channel_fuzzer.Prelude.Texts.{Text, codes, has_part}
use side_channel_fuzzer.Speculator.Bytes.{Memory, mem_read, mem_write}
use side_channel_fuzzer.Speculator.{
  Services, Speculator, StoreLogEntry, checkpoint, rollback, reset, max_nesting_reached,
}

-- FaultSpeculator, with the permissions (read, write) of the faulty area of the current actor, those
-- that it had at the start, and the address of the fault handler.
pub record FaultSpeculator (R T : Type 0) : Type 0 where
  pub spec : Speculator R T
  pub errno_that_trigger : List ℕ
  pub curr_instruction_addr : ℕ
  pub permissions : Bool × Bool
  pub page_permissions : Option (Bool × Bool)
  pub fault_handler_addr : ℕ

module _ {R T : Type 0} where
  -- FaultSpeculator._fault_triggers_speculation
  unfoldable pub fault_triggers_speculation : ℕ → FaultSpeculator R T → Bool
  unfolding max_nesting_reached
  fault_triggers_speculation errno f =
      if not (any (λ e. e == errno) f.errno_that_trigger)
      then false
      else if max_nesting_reached f.spec
      then false
      else true

  -- FaultSpeculator._speculate_instruction
  unfoldable pub note_instruction : ℕ → FaultSpeculator R T → FaultSpeculator R T
  note_instruction address f = record f { curr_instruction_addr = address }

  -- UnicornModel.set_faulty_area_rw, for the current actor
  unfoldable pub set_faulty_area_rw : Bool → Bool → FaultSpeculator R T → FaultSpeculator R T
  set_faulty_area_rw r w f = record f {
    permissions = if not r then (false, false) else if not w then (true, false) else (true, true);
  }

  -- FaultSpeculator._restore_faulty_page_permissions
  unfoldable pub restore_faulty_page_permissions :
      FaultSpeculator R T → Option (FaultSpeculator R T)
  unfolding set_faulty_area_rw
  restore_faulty_page_permissions f = do p ← f.page_permissions; some (set_faulty_area_rw p.0 p.1 f)

  -- SequentialAssistSpeculator._speculate_fault
  unfoldable pub assist_fault : ℕ → FaultSpeculator R T → ℕ × FaultSpeculator R T
  unfolding fault_triggers_speculation set_faulty_area_rw
  assist_fault errno f =
      if fault_triggers_speculation errno f
      then (f.curr_instruction_addr, set_faulty_area_rw true true f)
      else (0, f)

  module _ (v : Services R T) where
    -- `self._checkpoint(address)`
    unfoldable pub fault_checkpoint : ℕ → FaultSpeculator R T → FaultSpeculator R T
    unfolding checkpoint
    fault_checkpoint address f = record f { spec = checkpoint v address true f.spec }

    -- X86Meltdown._speculate_fault
    unfoldable pub meltdown_fault : ℕ → FaultSpeculator R T → ℕ × FaultSpeculator R T
    unfolding fault_triggers_speculation fault_checkpoint set_faulty_area_rw
    meltdown_fault errno f =
        if fault_triggers_speculation errno f
        then (
          f.curr_instruction_addr,
          set_faulty_area_rw true true (fault_checkpoint f.fault_handler_addr f),
        )
        else (0, f)

-- the entry that is added to the log of the newest checkpoint
abbrev pub log_to_top : StoreLogEntry → List (List StoreLogEntry) → List (List StoreLogEntry)
log_to_top entry [] = []
log_to_top entry (log ∷ logs) = (entry ∷ log) ∷ logs

-- X86UnicornNull: `rolls_to_instruction` tells X86UnicornNullAssist from it
pub record NullSpeculator (R T : Type 0) : Type 0 where
  pub fault : FaultSpeculator R T
  pub rolls_to_instruction : Bool
  pub curr_load : ℕ × ℕ
  pub pending_re_execution : Bool
  pub pending_restore_permissions : Bool

module _ {R T : Type 0} where
  -- X86UnicornNull.reset, with the names of the instructions of the test case; `none` is the
  -- ValueError
  unfoldable pub null_reset : ℕ → List Text → NullSpeculator R T → Option (NullSpeculator R T)
  unfolding reset has_part
  null_reset max_window names n = do
    guard (not (any (has_part (codes "rep")) names))
    let f = n.fault
    some (record n { fault = record f { spec = reset max_window f.spec } })

  -- X86UnicornNull._speculate_mem_access
  unfoldable pub null_mem_access : Bool → ℕ → ℕ → NullSpeculator R T → NullSpeculator R T
  null_mem_access is_write address size n =
      if is_write then n else record n { curr_load = (address, size) }

  -- FaultSpeculator._get_rollback_address, and that of X86UnicornNullAssist
  unfoldable pub get_rollback_address : NullSpeculator R T → ℕ
  get_rollback_address n =
      if n.rolls_to_instruction then n.fault.curr_instruction_addr else n.fault.fault_handler_addr

  -- the injection of X86UnicornNull._speculate_fault
  unfoldable pub inject_zeros : ℕ → ℕ → Speculator R T → Speculator R T
  inject_zeros address size s = record s {
    store_logs = log_to_top (address, mem_read address 8 s.memory) s.store_logs;
    memory = mem_write address (replicate size 0) s.memory;
  }

  module _ (v : Services R T) where
    -- X86UnicornNull._speculate_fault
    unfoldable pub null_fault : ℕ → NullSpeculator R T → ℕ × NullSpeculator R T
    unfolding fault_triggers_speculation fault_checkpoint set_faulty_area_rw get_rollback_address
        inject_zeros
    null_fault errno n =
        if fault_triggers_speculation errno n.fault
        then (let f = fault_checkpoint v (get_rollback_address n) n.fault in
            let (address, size) = n.curr_load in
            let s = if address == 0 then f.spec else inject_zeros address size f.spec in
            (
              n.fault.curr_instruction_addr,
              record n {
                fault = set_faulty_area_rw true true (record f { spec = s });
                pending_re_execution = true;
              },
            ))
        else (0, n)

    -- X86UnicornNull.rollback
    unfoldable pub null_rollback : NullSpeculator R T → Option (ℕ × NullSpeculator R T)
    unfolding rollback set_faulty_area_rw
    null_rollback n = do
      let f = set_faulty_area_rw true true n.fault
      (next, s) ← rollback v f.spec
      some (next, record n { fault = record f { spec = s } })

  -- X86UnicornNull._speculate_instruction
  unfoldable pub null_instruction : ℕ → NullSpeculator R T → Option (NullSpeculator R T)
  unfolding note_instruction restore_faulty_page_permissions
  null_instruction address n =
      let f = note_instruction address n.fault in
      let n1 = record n { fault = f; curr_load = (0, 0) } in
      if n.pending_re_execution
      then some (record n1 { pending_re_execution = false; pending_restore_permissions = true })
      else if n.pending_restore_permissions
      then (do
        f1 ← restore_faulty_page_permissions f
        some (record n1 { fault = f1; pending_restore_permissions = false }))
      else some n1
