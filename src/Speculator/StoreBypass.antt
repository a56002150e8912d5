-- ===== src/Speculator/StoreBypass.antt =====
-- `StoreBpasSpeculator` of rvzr/model_unicorn/speculators_basic.py: speculative bypasses of
-- stores. The value of a store is the list of its bytes. `none` is a NotImplementedError.
use side_channel_fuzzer.Prelude.{
  ℕ, ◌+◌, ◌-◌, ◌≡◌, refl, ap, ◌∙◌, false, ◌&&◌, Option, none, some, List, [], ◌∷◌, arith,
  if◌then◌else◌, leb, length, ◌>>=◌, ◌>>◌, get_elem?, ◌==◌,
}
use side_channel_fuzzer.Speculator.Bytes.{mem_read, mem_write, write-back}
use side_channel_fuzzer.Speculator.CondBranch.{from_bytes}
use side_channel_fuzzer.Speculator.{
  Services, Checkpoint, StoreLogEntry, Speculator, undo, log_store, max_nesting_reached, checkpoint,
  rollback, reset,
}

-- _previous_store: the address, the old bytes and the new ones; the size is their length
pub record PreviousStore : Type 0 where
  pub address : ℕ
  pub old_val : List ℕ
  pub value : List ℕ

pub record StoreBpas (R T : Type 0) : Type 0 where
  pub base : Speculator R T
  pub previous_store : Option PreviousStore

-- A second store of an instruction: it is a duplicate if it lies in the first one and its value is
-- the byte that stands there.
unfoldable pub check_duplicate : ℕ → List ℕ → PreviousStore → Option (Unit {0})
unfolding from_bytes
check_duplicate address bytes p =
    if leb p.address address && leb (address + length bytes) (p.address + length p.value)
    then (do
      b ← get_elem? p.value (address - p.address)
      if b == from_bytes bytes then some tt else none)
    else none

-- self._store_logs[-1].append(entry)
abbrev pub append_log : StoreLogEntry → List (List StoreLogEntry) → List (List StoreLogEntry)
append_log entry [] = []
append_log entry (log ∷ logs) = (entry ∷ log) ∷ logs

module _ {R T : Type 0} where
  -- StoreBpasSpeculator._speculate_mem_access for a store, behind the log of the base class
  unfoldable pub speculate_store : ℕ → List ℕ → StoreBpas R T → Option (StoreBpas R T)
  unfolding check_duplicate
  speculate_store address bytes s = elim s.previous_store [
    | some p ↦ do check_duplicate address bytes p; some s
    | none ↦ some (record s {
      previous_store = some (record {
        address = address;
        old_val = mem_read address (length bytes) s.base.memory;
        value = bytes;
      });
    })
  ]

  -- a store of the emulator: the two hooks, then the write
  unfoldable pub bypass_store : ℕ → List ℕ → StoreBpas R T → Option (StoreBpas R T)
  unfolding log_store speculate_store
  bypass_store address bytes s = do
    s1 ← speculate_store address bytes (record s { base = log_store address s.base })
    some (record s1 { base = record (s1.base) { memory = mem_write address bytes s1.base.memory } })

  -- StoreBpasSpeculator.reset
  unfoldable pub bypass_reset : ℕ → StoreBpas R T → StoreBpas R T
  unfolding reset
  bypass_reset max_window s = record { base = reset max_window s.base; previous_store = none }

  module _ (v : Services R T) where
    -- StoreBpasSpeculator._speculate_instruction
    unfoldable pub bypass_instruction : ℕ → StoreBpas R T → StoreBpas R T
    unfolding max_nesting_reached checkpoint
    bypass_instruction address s =
        if max_nesting_reached s.base
        then record s { previous_store = none }
        else elim s.previous_store [
          | none ↦ s
          | some p ↦
              let s1 = checkpoint v address false s.base in
              record {
                base = record s1 {
                  memory = mem_write p.address p.old_val s1.memory;
                  store_logs = append_log (p.address, p.value) s1.store_logs;
                };
                previous_store = none;
              }
        ]

    -- StoreBpasSpeculator.rollback
    unfoldable pub bypass_rollback : StoreBpas R T → Option (ℕ × StoreBpas R T)
    unfolding rollback
    bypass_rollback s = do
      (next, base) ← rollback v s.base
      some (next, record { base = base; previous_store = none })

    -- the state behind the two hooks and the store
    abbrev stored : ℕ → List ℕ → Speculator R T → StoreBpas R T
    stored address bytes b = record {
      base = record b { memory = mem_write address bytes b.memory };
      previous_store = some (record {
        address = address;
        old_val = mem_read address (length bytes) b.memory;
        value = bytes;
      });
    }

    bypass_store-stored :
        (s : StoreBpas R T) (address : ℕ) (bytes : List ℕ)
        → s.previous_store ≡ none
        → bypass_store address bytes s ≡ some (stored address bytes (log_store address s.base))
    unfolding bypass_store speculate_store
    bypass_store-stored s address bytes fresh = ground (arith, fresh)

    -- the state in which the store is skipped
    skipping : ℕ → ℕ → List ℕ → Speculator R T → StoreBpas R T
    unfolding checkpoint
    skipping address next bytes b =
        let s1 = checkpoint v next false (record b { memory = mem_write address bytes b.memory }) in
        record {
          base = record s1 {
            memory = mem_write address (mem_read address (length bytes) b.memory) s1.memory;
            store_logs = ((address, bytes) ∷ []) ∷ b.store_logs;
          };
          previous_store = none;
        }

    bypass_instruction-skipping :
        (b : Speculator R T) (address next : ℕ) (bytes : List ℕ)
        → leb b.max_nesting (length b.checkpoints) ≡ false
        → bypass_instruction next (stored address bytes b) ≡ skipping address next bytes b
    unfolding bypass_instruction max_nesting_reached checkpoint skipping
    bypass_instruction-skipping b address next bytes shallow = rw shallow

    skipping-memory :
        (b : Speculator R T) (address next : ℕ) (bytes : List ℕ)
        → (skipping address next bytes b).base.memory ≡ b.memory
    unfolding skipping checkpoint
    skipping-memory b address next bytes =
        write-back (length bytes) address bytes b.memory (omega arith)

    skipping-checkpoints :
        (b : Speculator R T) (address next : ℕ) (bytes : List ℕ)
        → length ((skipping address next bytes b).base.checkpoints) ≡ 1 + length b.checkpoints
    unfolding skipping checkpoint
    skipping-checkpoints b address next bytes = omega arith

    bypass_rollback-skipping :
        (b : Speculator R T) (address next : ℕ) (bytes : List ℕ)
        → (s3 : StoreBpas R T) × (bypass_rollback (skipping address next bytes b) ≡ some (next, s3))
          × (s3.base.memory ≡ mem_write address bytes b.memory)
          × (s3.base.checkpoints ≡ b.checkpoints)
    unfolding bypass_rollback rollback skipping checkpoint undo
    bypass_rollback-skipping b address next bytes =
        (_, refl, ap (mem_write address bytes) (skipping-memory b address next bytes), refl)

    log_store-same :
        (address : ℕ) (b : Speculator R T)
        → ((log_store address b).memory ≡ b.memory)
          × ((log_store address b).checkpoints ≡ b.checkpoints)
          × ((log_store address b).max_nesting ≡ b.max_nesting)
    unfolding log_store
    log_store-same address b = (ground arith, ground arith, ground arith)

    -- A store is bypassed by the next instruction while the nesting allows it: during the
    -- speculation the memory is the one before the store, the stack grows by one, and the rollback
    -- that ends it returns to that instruction with the memory behind the store and the old stack.
    pub store-bypassed :
        (s : StoreBpas R T) (address next : ℕ) (bytes : List ℕ)
        → s.previous_store ≡ none
        → max_nesting_reached s.base ≡ false
        → (s1 : StoreBpas R T) × (s3 : StoreBpas R T) × (bypass_store address bytes s ≡ some s1)
          × ((bypass_instruction next s1).base.memory ≡ s.base.memory)
          × (length ((bypass_instruction next s1).base.checkpoints)
              ≡ 1 + length (s.base.checkpoints))
          × (bypass_rollback (bypass_instruction next s1) ≡ some (next, s3))
          × (s3.base.memory ≡ mem_write address bytes s.base.memory)
          × (s3.base.checkpoints ≡ s.base.checkpoints)
    unfolding max_nesting_reached
    store-bypassed s address next bytes fresh shallow =
        let b = log_store address s.base in
        let (mem, cps, nest) = log_store-same address s.base in
        let skips = bypass_instruction-skipping b address next bytes (
          ap (λ n. leb n (length b.checkpoints)) nest
          ∙ ap (λ (l : List (Checkpoint R)). leb s.base.max_nesting (length l)) cps
          ∙ shallow) in
        let (s3, rolled, after, old) = bypass_rollback-skipping b address next bytes in
        (
          stored address bytes b,
          s3,
          bypass_store-stored s address bytes fresh,
          ap (λ (x : StoreBpas R T). x.base.memory) skips
              ∙ skipping-memory b address next bytes
              ∙ mem,
          ap (λ (x : StoreBpas R T). length x.base.checkpoints) skips
              ∙ skipping-checkpoints b address next bytes
              ∙ ap (λ (l : List (Checkpoint R)). 1 + length l) cps,
          ap bypass_rollback skips ∙ rolled,
          after ∙ ap (mem_write address bytes) mem,
          old ∙ cps,
        )
