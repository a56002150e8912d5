-- ===== src/Faults/Injection.antt =====
-- X86UnicornNull: zeros are injected into a faulting load until the rollback.
use side_channel_fuzzer.Prelude.{
  ℕ, zero, suc, ◌+◌, ◌≤◌, ◌≡◌, refl, ap, ◌∙◌, subst, true, false, some, List, [], ◌∷◌, arith,
  length, replicate, length-replicate, ◌==◌, if◌then◌else◌,
}
use side_channel_fuzzer.Grouping.Members.{is_nonempty}
use side_channel_fuzzer.Speculator.Bytes.{Memory, mem_read, mem_write}
use side_channel_fuzzer.Speculator.{Services, Speculator, checkpoint, rollback, log_store}
use side_channel_fuzzer.Speculator.Rollback.{Steps, store, rollback-restores}
use side_channel_fuzzer.Faults.{
  NullSpeculator, fault_triggers_speculation, fault_checkpoint, set_faulty_area_rw,
  get_rollback_address, inject_zeros, null_fault,
}

mem_read_ext :
    (n address : ℕ) (m m' : Memory)
    → ((a : ℕ) → address ≤ a → m a ≡ m' a)
    → mem_read address n m ≡ mem_read address n m'
unfolding mem_read
mem_read_ext zero address m m' same = refl
mem_read_ext (suc n) address m m' same =
    cc (same address (omega arith), mem_read_ext n (address + 1) m m' (λ a h. same a (omega arith)))

-- What was written is read back.
mem_read-mem_write :
    (address : ℕ) (bytes : List ℕ) (m : Memory)
    → mem_read address (length bytes) (mem_write address bytes m) ≡ bytes
unfolding mem_read mem_write
mem_read-mem_write address [] m = refl
mem_read-mem_write address (b ∷ bytes) m = cc (
  at_start,
  mem_read_ext (length bytes) (address + 1)
      (λ a. if a == address then b else mem_write (address + 1) bytes m a)
      (mem_write (address + 1) bytes m) above,
  mem_read-mem_write (address + 1) bytes m,
)
  where
    at_start : (if address == address then b else mem_write (address + 1) bytes m address) ≡ b
    at_start = ground arith

    above :
        (a : ℕ)
        → address + 1 ≤ a
        → (if a == address then b else mem_write (address + 1) bytes m a)
          ≡ mem_write (address + 1) bytes m a
    above a h = ground arith

module _ {R T : Type 0} (v : Services R T) where
  Steps-trans : {s1 s2 s3 : Speculator R T} → Steps v s1 s2 → Steps v s2 s3 → Steps v s1 s3
  Steps-trans f (Steps.stay s) = f
  Steps-trans {s1} f (Steps.stores s2 s address bytes g small) =
      Steps.stores s1 s address bytes (Steps-trans f g) small
  Steps-trans {s1} f (Steps.executes s2 s is_barrier registers taints g) =
      Steps.executes s1 s is_barrier registers taints (Steps-trans f g)
  Steps-trans {s1} f (Steps.speculates s2 s s' s'' next to include g inner rolled) =
      Steps.speculates s1 s s' s'' next to include (Steps-trans f g) inner rolled

  -- The injection is a store into the checkpoint's log.
  inject-store :
      (address size next : ℕ) (s : Speculator R T)
      → inject_zeros address size (checkpoint v next true s)
        ≡ store v address (replicate size 0) (checkpoint v next true s)
  unfolding inject_zeros store log_store checkpoint
  inject-store address size next s = refl

  -- The state of the speculator after a fault.
  null_fault-spec :
      (errno address size : ℕ) (n : NullSpeculator R T)
      → fault_triggers_speculation errno n.fault ≡ true
      → n.curr_load ≡ (address, size)
      → (address == 0) ≡ false
      → ((null_fault v errno n).0 ≡ n.fault.curr_instruction_addr)
        × ((null_fault v errno n).1.fault.permissions ≡ (true, true))
        × ((null_fault v errno n).1.fault.spec
            ≡ store v address
                (replicate size 0)
                (checkpoint v (get_rollback_address n) true n.fault.spec))
  unfolding null_fault set_faulty_area_rw fault_checkpoint
  null_fault-spec errno address size n triggers load elsewhere = (
    ground (arith, triggers),
    ground (arith, triggers),
    ground (
      arith,
      triggers,
      load,
      elsewhere,
      inject-store address size (get_rollback_address n) n.fault.spec,
    ),
  )

  zeros-read :
      (address size : ℕ) (s : Speculator R T)
      → mem_read address size (store v address (replicate size 0) s).memory ≡ replicate size 0
  unfolding store
  zeros-read address size s =
      subst
        (λ k.
          mem_read address k (mem_write address (replicate size 0) (log_store address s).memory)
          ≡ replicate size 0)
        (length-replicate size 0)
        (mem_read-mem_write address (replicate size 0) (log_store address s).memory)

  -- If a fault triggers speculation on a load of at most 8 bytes at an address other than 0, and the
  -- emulator keeps its registers when the flags are written as they are, the instruction is started
  -- again on an accessible page with zeros at the address; after any course of the speculation the
  -- rollback goes to the rollback address, with the memory and the registers as before the fault.
  pub null_fault-zeros :
      (errno address size : ℕ) (n : NullSpeculator R T) (s' : Speculator R T)
      → ((r : R) → v.write_flags (v.read_flags r) r ≡ r)
      → fault_triggers_speculation errno n.fault ≡ true
      → n.curr_load ≡ (address, size)
      → (address == 0) ≡ false
      → size ≤ 8
      → n.fault.spec.in_speculation ≡ is_nonempty n.fault.spec.checkpoints
      → Steps v (null_fault v errno n).1.fault.spec s'
      → let n1 = (null_fault v errno n).1 in
        ((null_fault v errno n).0 ≡ n.fault.curr_instruction_addr)
        × (n1.fault.permissions ≡ (true, true))
        × (mem_read address size n1.fault.spec.memory ≡ replicate size 0)
        × ((s3 : Speculator R T) × (rollback v s' ≡ some (get_rollback_address n, s3))
            × (s3.memory ≡ n.fault.spec.memory)
            × (s3.registers ≡ n.fault.spec.registers))
  null_fault-zeros errno address size n s' same_flags triggers load elsewhere small flag steps =
      let (next, permissions, spec1) =
        null_fault-spec errno address size n triggers load elsewhere in
      let c = checkpoint v (get_rollback_address n) true n.fault.spec in
      let start =
        Steps.stores c c address (replicate size 0) (Steps.stay c)
          (omega (arith, length-replicate {A = ℕ} size 0)) in
      let all_ = Steps-trans start (subst (λ s. Steps v s s') spec1 steps) in
      let (s3, run, same_memory, same_registers, checkpoints, logs, flag', window) =
        rollback-restores v same_flags n.fault.spec s' (get_rollback_address n) true flag all_ in
      (
        next,
        permissions,
        ap (λ (s : Speculator R T). mem_read address size s.memory) spec1
            ∙ zeros-read address size c,
        (s3, run, same_memory, same_registers),
      )
