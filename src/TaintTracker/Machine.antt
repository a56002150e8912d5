-- ===== src/TaintTracker/Machine.antt =====
-- A machine beside the tracker: what a contract with the CT clause observes of it, and what the
-- tracker is told. The emulator, with the list of operands of each instruction, is a parameter.
use side_channel_fuzzer.Prelude.{
  ℕ, suc, zero, ◌≡◌, refl, ◌∙◌, Bool, true, false, ◌||◌, Option, none, some, List, [], ◌∷◌, arith,
  ◌>>=◌, map,
}
use side_channel_fuzzer.Prelude.Texts.{Text, codes}
use side_channel_fuzzer.Instruction.{Instruction}
use side_channel_fuzzer.TaintTracker.Labels.{Label, name, text_key, label_key, is_in, put, find-put}
use side_channel_fuzzer.TaintTracker.Propagation.{
  TargetDesc, TrackedInstruction, Dependencies, reg_deps, flag_deps, mem_deps,
}
use side_channel_fuzzer.TaintTracker.Flow.{Place, reg, flag, word, deps, is_source, is_dest}
use side_channel_fuzzer.TaintTracker.Finalizing.{is_replaced}
use side_channel_fuzzer.TaintTracker.Tracking.{Access, track_step, tracked}
use side_channel_fuzzer.TaintTracker.{TaintTracker, overwritten, overwrite_flags, with_rep_count}

-- the value of every place
abbrev pub Values : Type 0
Values = Place → ℕ

abbrev pub rip : Place
rip = reg (codes "RIP")

-- The emulator: the instruction at an address (`none` is the exit), its memory accesses, and its
-- effect.
pub record Machine : Type 0 where
  pub fetch : ℕ → Option Instruction
  pub accesses : Instruction → Values → List Access
  pub next : Instruction → Values → Values

-- an instruction of the program
abbrev pub IsFetched : Machine → Instruction → Type 0
IsFetched m inst = (pc : ℕ) × (m.fetch pc ≡ some inst)

-- the registers that the addresses of an instruction depend on
abbrev pub address_labels : TrackedInstruction → List Label
address_labels i = with_rep_count i (map name i.mem_address_regs)

-- a flag that an instruction overwrites
abbrev pub is_overwritten : List Text → Place → Bool
is_overwritten flags (reg r) = false
is_overwritten flags (flag f) = is_in f flags
is_overwritten flags (word a) = false

abbrev pub is_rip : Place → Bool
is_rip (reg r) = text_key.same r (codes "RIP")
is_rip (flag f) = false
is_rip (word a) = false

-- Two states that agree on the sources of an instruction.
abbrev pub SameSources : TrackedInstruction → Values → Values → Type 0
SameSources i v v' = (l : Place) → is_source i l ≡ true → v l ≡ v' l

-- The operands that an instruction of the program has in its specification are those that the
-- machine uses.
-- `base` is the start of the data, which the words of memory are counted from.
pub record Lawful (desc : TargetDesc) (m : Machine) (base : ℕ) : Type 0 where
  -- An instruction accesses memory in every state or in none, and the registers of its address
  -- decide which memory.
  pub none_or_all :
      (inst : Instruction) (v v' : Values)
      → IsFetched m inst
      → m.accesses inst v ≡ []
      → m.accesses inst v' ≡ []
  pub same_addresses :
      (inst : Instruction) (v v' : Values) (i : TrackedInstruction)
      → IsFetched m inst
      → tracked desc base inst (m.accesses inst v) ≡ some i
      → ((r : Text) → is_in (name r) (address_labels i) ≡ true → v (reg r) ≡ v' (reg r))
      → m.accesses inst v ≡ m.accesses inst v'
  -- What is not a destination keeps its value.
  pub frame :
      (inst : Instruction) (v : Values) (i : TrackedInstruction) (l : Place)
      → IsFetched m inst
      → tracked desc base inst (m.accesses inst v) ≡ some i
      → is_dest i l ≡ false
      → is_rip l ≡ false
      → m.next inst v l ≡ v l
  -- A destination gets a value that depends on the sources and on its own value,
  pub flow :
      (inst : Instruction) (v v' : Values) (i : TrackedInstruction) (l : Place)
      → IsFetched m inst
      → tracked desc base inst (m.accesses inst v) ≡ some i
      → m.accesses inst v ≡ m.accesses inst v'
      → SameSources i v v'
      → is_dest i l ≡ true
      → v l ≡ v' l
      → m.next inst v l ≡ m.next inst v' l
  -- and on the sources only if it is an overwritten flag, or the register of a 64-bit move.
  pub overwrite :
      (inst : Instruction) (v v' : Values) (i : TrackedInstruction) (l : Place)
      → IsFetched m inst
      → tracked desc base inst (m.accesses inst v) ≡ some i
      → m.accesses inst v ≡ m.accesses inst v'
      → SameSources i v v'
      → is_dest i l ≡ true
      → (is_overwritten (overwritten desc inst) l || is_replaced desc i l) ≡ true
      → m.next inst v l ≡ m.next inst v' l
  -- An overwritten flag is a destination and no source.
  pub overwritten_flags :
      (inst : Instruction) (v : Values) (i : TrackedInstruction) (l : Place)
      → IsFetched m inst
      → tracked desc base inst (m.accesses inst v) ≡ some i
      → is_overwritten (overwritten desc inst) l ≡ true
      → (is_source i l ≡ false) × (is_dest i l ≡ true)
  -- The program counter is a destination of control flow; it moves on otherwise.
  pub jumps :
      (inst : Instruction) (v : Values) (i : TrackedInstruction)
      → IsFetched m inst
      → tracked desc base inst (m.accesses inst v) ≡ some i
      → inst.is_control_flow ≡ true
      → is_dest i rip ≡ true
  pub moves_on :
      (inst : Instruction) (v v' : Values)
      → IsFetched m inst
      → inst.is_control_flow ≡ false
      → v rip ≡ v' rip
      → m.next inst v rip ≡ m.next inst v' rip

abbrev pub fetched {ℓ} : {A : Type ℓ} → A → (Instruction → A) → Option Instruction → A
fetched exit go none = exit
fetched exit go (some inst) = go inst

module _ (m : Machine) where
  -- The observations of `n` instructions: the program counter and the accesses of each.
  unfoldable pub observe : ℕ → Values → List (ℕ × List Access)
  observe zero v = []
  observe (suc n) v =
      fetched [] (λ inst. (v rip, m.accesses inst v) ∷ observe n (m.next inst v)) (m.fetch (v rip))

  -- The tracker over `n` instructions.
  unfoldable pub track : TargetDesc → ℕ → Values → TaintTracker → Option TaintTracker
  unfolding track_step
  track desc zero v t = some t
  track desc (suc n) v t =
      fetched (some t)
        (λ inst. track_step desc inst (m.accesses inst v) t >>= track desc n (m.next inst v))
        (m.fetch (v rip))

-- Overwritten flags are the only places whose labels track_instruction changes.
pub deps-overwrite_flags :
    (desc : TargetDesc) (flags : List Text) (d : Dependencies) (l : Place)
    → is_overwritten flags l ≡ false
    → deps (overwrite_flags desc flags d) l ≡ deps d l
unfolding overwrite_flags is_in reg_deps flag_deps mem_deps
deps-overwrite_flags desc [] d l h = refl
deps-overwrite_flags desc (g ∷ flags) d (reg r) h =
    deps-overwrite_flags desc flags (record d { flag = put g (name g ∷ []) d.flag }) (reg r) h
deps-overwrite_flags desc (g ∷ flags) d (word a) h =
    deps-overwrite_flags desc flags (record d { flag = put g (name g ∷ []) d.flag }) (word a) h
deps-overwrite_flags desc (g ∷ flags) d (flag f) h =
    deps-overwrite_flags desc flags (record d { flag = put g (name g ∷ []) d.flag }) (flag f)
      (ground arith)
    ∙ rw (find-put g f (name g ∷ []) d.flag) (ground arith)
