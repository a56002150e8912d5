-- ===== src/Speculator/Rollback.antt =====
-- A speculation from its checkpoint to its rollback, with its stores and the speculations in it.
use side_channel_fuzzer.Prelude.{
  ℕ, ◌≤◌, ◌≡◌, refl, sym, ap, ◌∙◌, Bool, some, List, [], ◌∷◌, arith, length, Option-cases, inl, inr,
}
use side_channel_fuzzer.Grouping.Members.{is_nonempty}
use side_channel_fuzzer.Speculator.Bytes.{mem_read, mem_write, write-back}
use side_channel_fuzzer.Speculator.{
  Services, StoreLogEntry, Speculator, undo, log_store, handle_instruction, checkpoint, rollback,
}

module _ {R T : Type 0} (v : Services R T) where
  -- a store of the emulator: the hook, then the write
  unfoldable pub store : ℕ → List ℕ → Speculator R T → Speculator R T
  unfolding log_store
  store address bytes s =
      let s1 = log_store address s in record s1 { memory = mem_write address bytes s1.memory }

  -- What happens between a checkpoint and its rollback: stores of at most 8 bytes, instructions with
  -- any effect on the registers and the taints, and whole speculations.
  pub data Steps : Speculator R T → Speculator R T → Type 0 where
    stay : (s : Speculator R T) → Steps s s
    stores :
        (s s1 : Speculator R T) (address : ℕ) (bytes : List ℕ)
        → Steps s s1
        → length bytes ≤ 8
        → Steps s (store address bytes s1)
    executes :
        (s s1 : Speculator R T) (is_barrier : Bool) (registers : R) (taints : T)
        → Steps s s1
        → Steps s
            (record (handle_instruction is_barrier s1) { registers = registers; taints = taints })
    speculates :
        (s s1 s2 s3 : Speculator R T) (next returns_to : ℕ) (include_current_inst : Bool)
        → Steps s s1
        → Steps (checkpoint v next include_current_inst s1) s2
        → rollback v s2 ≡ some (returns_to, s3)
        → Steps s s3

  -- From `s` to `s'` the stack stays, and undoing the top log gives the same memory.
  record Kept (s s' : Speculator R T) (log : List StoreLogEntry) (logs : List (List StoreLogEntry))
      : Type 0 where
    same_checkpoints : s'.checkpoints ≡ s.checkpoints
    log' : List StoreLogEntry
    new_logs : s'.store_logs ≡ log' ∷ logs
    same_memory : undo log' s'.memory ≡ undo log s.memory
    flag : s'.in_speculation ≡ is_nonempty s'.checkpoints

  store-Kept :
      (s s1 : Speculator R T) (log : List StoreLogEntry) (logs : List (List StoreLogEntry))
      (address : ℕ) (bytes : List ℕ)
      → length bytes ≤ 8
      → Kept s s1 log logs
      → Kept s (store address bytes s1) log logs
  unfolding store log_store undo
  store-Kept s s1 log logs address bytes small k = record {
    same_checkpoints = ground (arith, k.same_checkpoints, k.new_logs);
    log' = (address, mem_read address 8 s1.memory) ∷ k.log';
    new_logs = rw (k.new_logs);
    same_memory = rw (k.new_logs, write-back 8 address bytes s1.memory small) k.same_memory;
    flag = ground (arith, k.flag, k.new_logs);
  }

  executes-Kept :
      (s s1 : Speculator R T) (log : List StoreLogEntry) (logs : List (List StoreLogEntry))
      (is_barrier : Bool) (registers : R) (taints : T)
      → Kept s s1 log logs
      → Kept s
          (record (handle_instruction is_barrier s1) { registers = registers; taints = taints })
          log
          logs
  unfolding handle_instruction
  executes-Kept s s1 log logs is_barrier registers taints k = record {
    same_checkpoints = ground (arith, k.same_checkpoints);
    log' = k.log';
    new_logs = ground (arith, k.new_logs);
    same_memory = ground (arith, k.same_memory);
    flag = ground (arith, k.flag);
  }

  -- what a rollback leaves of the state `s1` that the checkpoint was taken in
  pub record Restored (s1 s3 : Speculator R T) : Type 0 where
    pub same_memory : s3.memory ≡ s1.memory
    pub same_checkpoints : s3.checkpoints ≡ s1.checkpoints
    pub same_logs : s3.store_logs ≡ s1.store_logs
    pub same_flag : s3.in_speculation ≡ is_nonempty s1.checkpoints
    pub same_window : s3.speculation_window ≡ s1.speculation_window
    pub flags_written : s3.registers ≡ v.write_flags (v.read_flags s1.registers) s1.registers

  rollback-Restored :
      (s1 s2 s3 : Speculator R T) (next returns_to : ℕ) (include_current_inst : Bool)
      → Kept (checkpoint v next include_current_inst s1) s2 [] (s1.store_logs)
      → rollback v s2 ≡ some (returns_to, s3)
      → (returns_to ≡ next) × Restored s1 s3
  unfolding rollback checkpoint undo
  rollback-Restored s1 s2 s3 next returns_to include_current_inst k h = (
    ground (arith, k.same_checkpoints, k.new_logs),
    record {
      same_memory = ground (arith, k.same_checkpoints, k.new_logs, k.same_memory);
      same_checkpoints = ground (arith, k.same_checkpoints, k.new_logs);
      same_logs = ground (arith, k.same_checkpoints, k.new_logs);
      same_flag = ground (arith, k.same_checkpoints, k.new_logs, k.flag);
      same_window = ground (arith, k.same_checkpoints, k.new_logs);
      flags_written = ground (arith, k.same_checkpoints, k.new_logs);
    },
  )

  rollback-runs :
      (s1 s2 : Speculator R T) (next : ℕ) (include_current_inst : Bool)
      → Kept (checkpoint v next include_current_inst s1) s2 [] (s1.store_logs)
      → (s3 : Speculator R T) × (rollback v s2 ≡ some (next, s3))
  unfolding rollback checkpoint
  rollback-runs s1 s2 next include_current_inst k = elim (Option-cases (rollback v s2)) [
    | inl raised ↦ absurd (ground (arith, k.same_checkpoints, k.new_logs))
    | inr ((returns_to, s3), e) ↦ (
      s3,
      e
          ∙ ap (λ q. some (q, s3))
              (rollback-Restored s1 s2 s3 next returns_to include_current_inst k e).0,
    )
  ]

  steps-Kept :
      {s s' : Speculator R T} (log : List StoreLogEntry) (logs : List (List StoreLogEntry))
      → s.store_logs ≡ log ∷ logs
      → s.in_speculation ≡ is_nonempty s.checkpoints
      → Steps s s'
      → Kept s s' log logs
  steps-Kept log logs top f (stay s) = record {
    same_checkpoints = refl;
    log' = log;
    new_logs = top;
    same_memory = refl;
    flag = f;
  }
  steps-Kept log logs top f (stores s s1 address bytes steps small) =
      store-Kept s s1 log logs address bytes small (steps-Kept log logs top f steps)
  steps-Kept log logs top f (executes s s1 is_barrier registers taints steps) =
      executes-Kept s s1 log logs is_barrier registers taints (steps-Kept log logs top f steps)
  steps-Kept log logs top f
        (speculates s s1 s2 s3 next returns_to include_current_inst steps inner rolled) =
      let k = steps-Kept log logs top f steps in
      let k2 =
        steps-Kept {s = checkpoint v next include_current_inst s1} {s' = s2} [] (s1.store_logs)
          (unfold checkpoint in refl) (unfold checkpoint in refl) inner in
      let r = (rollback-Restored s1 s2 s3 next returns_to include_current_inst k2 rolled).1 in
      record {
        same_checkpoints = r.same_checkpoints ∙ k.same_checkpoints;
        log' = k.log';
        new_logs = r.same_logs ∙ k.new_logs;
        same_memory = ap (undo k.log') r.same_memory ∙ k.same_memory;
        flag = r.same_flag ∙ ap is_nonempty (sym r.same_checkpoints);
      }

  -- With an emulator that keeps its registers when the flags are written as they are, a rollback
  -- after any course of a speculation succeeds and returns to the address of the checkpoint, and the
  -- memory, the registers, both stacks, the flag and the window are what they were at the checkpoint.
  pub rollback-restores :
      ((r : R) → v.write_flags (v.read_flags r) r ≡ r)
      → (s s' : Speculator R T) (next : ℕ) (include_current_inst : Bool)
      → s.in_speculation ≡ is_nonempty s.checkpoints
      → Steps (checkpoint v next include_current_inst s) s'
      → (s3 : Speculator R T) × (rollback v s' ≡ some (next, s3))
        × (s3.memory ≡ s.memory)
        × (s3.registers ≡ s.registers)
        × (s3.checkpoints ≡ s.checkpoints)
        × (s3.store_logs ≡ s.store_logs)
        × (s3.in_speculation ≡ s.in_speculation)
        × (s3.speculation_window ≡ s.speculation_window)
  rollback-restores same_flags s s' next include_current_inst f steps =
      let k =
        steps-Kept {s = checkpoint v next include_current_inst s} {s' = s'} [] (s.store_logs)
          (unfold checkpoint in refl) (unfold checkpoint in refl) steps in
      let (s3, run) = rollback-runs s s' next include_current_inst k in
      let r = (rollback-Restored s s' s3 next next include_current_inst k run).1 in
      (
        s3,
        run,
        r.same_memory,
        r.flags_written ∙ same_flags s.registers,
        r.same_checkpoints,
        r.same_logs,
        r.same_flag ∙ sym f,
        r.same_window,
      )
