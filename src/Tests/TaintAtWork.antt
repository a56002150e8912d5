-- ===== src/Tests/TaintAtWork.antt =====
-- A program of one load, `mov rax, [rbx]`, and the tracker beside it.
use side_channel_fuzzer.Prelude.{
  ℕ, zero, suc, ◌+◌, ◌*◌, ◌≡◌, ◌≢◌, refl, sym, ap, ◌∙◌, subst, Bool, true, false, Option, none,
  some, List, [], ◌∷◌, arith, if◌then◌else◌, ◌==◌, set, replicate, any, not, ◌||◌, Bool-cases, inl,
  inr, ==→eq,
}
use side_channel_fuzzer.Prelude.Texts.{codes, text_eq, text_eq→eq}
use side_channel_fuzzer.Operands.{reg_op, mem_op}
use side_channel_fuzzer.Instruction.{Instruction, instruction_init, get_flags_operand, first}
use side_channel_fuzzer.InputData.{InputData, InputTaint, entries_per_actor, input_new}
use side_channel_fuzzer.TaintTracker.Labels.{Label, text_key, label_key, is_in}
use side_channel_fuzzer.TaintTracker.Propagation.{TargetDesc, TrackedInstruction}
use side_channel_fuzzer.TaintTracker.Flow.{Place, reg, flag, word, is_dest}
use side_channel_fuzzer.TaintTracker.Tracking.{Access, tracked, with_accesses}
use side_channel_fuzzer.TaintTracker.Machine.{
  Values, rip, Machine, IsFetched, Lawful, observe, track, is_rip, is_overwritten, address_labels,
}
use side_channel_fuzzer.TaintTracker.Output.{
  index, register_addresses, UnicornTargetDesc, label_addresses, get_taint, shifted_offset,
  page_entries,
}
use side_channel_fuzzer.TaintTracker.Marking.{entry, get_elem?-set}
use side_channel_fuzzer.TaintTracker.Speculation.{Calls, saved, rollback-dependencies}
use side_channel_fuzzer.TaintTracker.Inputs.{IsX86, get_taint-observe}
use side_channel_fuzzer.TaintTracker.Entries.{
  Fits, has_entry, get_taint-marks, simd_register_one_entry, simd_start,
}
use side_channel_fuzzer.TaintTracker.Loading.{
  Emulator, input_entry, load_input, loaded_registers, loaded_word, loaded_entry, named, write_gprs,
  write_simds, reg_write, is_simd,
}
use side_channel_fuzzer.TaintTracker.{
  TaintTracker, tracker_init, reset, checkpoint, rollback, track_instruction, settle, overwritten,
  with_rep_count,
}

abbrev load_inst : Instruction
load_inst = record (instruction_init (codes "mov") (codes "BASE-DATAXFER") false false false) {
  operands = reg_op (codes "rax") 64 false true ∷ mem_op (codes "rbx + 0") 64 true false ∷ [];
}

abbrev desc : TargetDesc
desc = record {
  reg_normalized = λ r.
      if text_eq r (codes "rax")
      then some (codes "A")
      else if text_eq r (codes "rbx")
      then some (codes "B")
      else none;
  register_sizes = λ r. if text_eq r (codes "rax") then 64 else 0;
}

abbrev base : ℕ
base = 4096

load_accesses : Values → List Access
load_accesses v = record { address = base + v (reg (codes "B")); size = 8; is_write = false } ∷ []

abbrev is_rax : Place → Bool
is_rax (reg r) = text_key.same (codes "A") r
is_rax (flag f) = false
is_rax (word a) = false

load_next : Values → Values
unfolding text_eq
load_next v l = if is_rip l then v rip + 1 else if is_rax l then 7 else v l

abbrev machine : Machine
machine = record {
  fetch = λ pc. if pc == 0 then some load_inst else none;
  accesses = λ inst. load_accesses;
  next = λ inst. load_next;
}

fetched_load : (inst : Instruction) → IsFetched machine inst → inst ≡ load_inst
fetched_load inst (pc, h) = ground arith

-- its operands
load_operands : Values → TrackedInstruction
load_operands v = with_accesses base (load_accesses v) record {
  inst = load_inst;
  src_regs = [];
  dest_regs = codes "A" ∷ [];
  src_flags = [];
  dest_flags = [];
  src_mems = [];
  dest_mems = [];
  mem_address_regs = codes "B" ∷ [];
}

load_tracked : (v : Values) → tracked desc base load_inst (load_accesses v) ≡ some (load_operands v)
unfolding load_operands tracked
load_tracked v = refl

operands_of :
    (inst : Instruction) (v : Values) (i : TrackedInstruction)
    → IsFetched machine inst
    → tracked desc base inst (load_accesses v) ≡ some i
    → i ≡ load_operands v
operands_of inst v i runs h =
    let h' : tracked desc base load_inst (load_accesses v) ≡ some i =
      subst (λ k. tracked desc base k (load_accesses v) ≡ some i) (fetched_load inst runs) h in
    ground (arith, load_tracked v, h')

-- rax is its only destination, and rbx its address
load_dest : (v : Values) (l : Place) → is_dest (load_operands v) l ≡ is_rax l
unfolding load_operands load_accesses with_accesses is_in
load_dest v (reg r) = ground arith
load_dest v (flag f) = refl
load_dest v (word a) = refl

load_address :
    (v : Values) → is_in (Label.name (codes "B")) (address_labels (load_operands v)) ≡ true
unfolding load_operands load_accesses with_accesses is_in with_rep_count text_eq
load_address v = refl

load_word : (v : Values) (l : Place) → is_rax l ≡ false → is_rip l ≡ false → load_next v l ≡ v l
unfolding load_next
load_word v l other here = ground arith

load_overwrites : (v v' : Values) (l : Place) → is_rax l ≡ true → load_next v l ≡ load_next v' l
unfolding load_next text_eq
load_overwrites v v' (flag f) h = cc
load_overwrites v v' (word a) h = cc
load_overwrites v v' (reg r) h = rw (← text_eq→eq (codes "A") r h) refl

load_moves : (v v' : Values) → v rip ≡ v' rip → load_next v rip ≡ load_next v' rip
unfolding load_next text_eq
load_moves v v' same = ap (λ n. n + 1) same

accesses_something : (v : Values) → load_accesses v ≢ []
unfolding load_accesses
accesses_something v h = ground arith

no_flags : (l : Place) → is_overwritten (overwritten desc load_inst) l ≢ true
unfolding get_flags_operand first is_in
no_flags (reg r) h = ground arith
no_flags (flag f) h = ground arith
no_flags (word a) h = ground arith

laws : Lawful desc machine base
unfolding load_accesses
laws = record {
  none_or_all = λ inst v v' runs h. absurd (accesses_something v h);
  same_addresses = λ inst v v' i runs h same.
      ap (λ n. record { address = base + n; size = 8; is_write = false } ∷ [])
        (same (codes "B") (
          subst (λ k. is_in (Label.name (codes "B")) (address_labels k) ≡ true)
            (sym (operands_of inst v i runs h)) (load_address v)));
  frame = λ inst v i l runs h kept other.
      load_word v l
        (sym (load_dest v l) ∙ subst (λ k. is_dest k l ≡ false) (operands_of inst v i runs h) kept)
        other;
  flow = λ inst v v' i l runs h same sources dest own.
      load_overwrites v v' l
        (sym (load_dest v l) ∙ subst (λ k. is_dest k l ≡ true) (operands_of inst v i runs h) dest);
  overwrite = λ inst v v' i l runs h same sources dest over.
      load_overwrites v v' l
        (sym (load_dest v l) ∙ subst (λ k. is_dest k l ≡ true) (operands_of inst v i runs h) dest);
  overwritten_flags = λ inst v i l runs h over. absurd (
      no_flags l
        (subst (λ k. is_overwritten (overwritten desc k) l ≡ true) (fetched_load inst runs) over));
  jumps = λ inst v i runs h jump. absurd (
      straight
        (subst (λ (k : Instruction). k.is_control_flow ≡ true) (fetched_load inst runs) jump));
  moves_on = λ inst v v' runs h same. load_moves v v' same;
}
  where
    straight : load_inst.is_control_flow ≢ true
    straight h = ground arith

-- rax and rbx are the first two registers of an input.
abbrev uc : UnicornTargetDesc
uc = record {
  reg_norm_to_constant = λ r.
      if text_eq r (codes "A")
      then some 35
      else if text_eq r (codes "B")
      then some 37
      else if text_eq r (codes "RIP")
      then some 41
      else none;
  usable_registers = 35 ∷ 37 ∷ 38 ∷ 40 ∷ 45 ∷ 39 ∷ 25 ∷ 44 ∷ [];
  usable_simd128_registers = 122 ∷ 123 ∷ 124 ∷ 125 ∷ 126 ∷ 127 ∷ 128 ∷ 129 ∷ [];
}

abbrev emulator : Emulator
emulator = record {
  eflags = 25;
  rsp = 44;
  rbp = 36;
  r14 = 112;
  rsp_init = 0x12ff8;
  main_start = 0x11000;
  registers_before = λ r. 0;
  memory_before = λ a. 0;
  flag_bit = λ f v. v;
}

uc-IsX86 : IsX86 uc emulator
unfolding index
uc-IsX86 = record { gpr_values = refl; simd_values = refl; distinct = refl; flags_at = refl }

uc-Fits : Fits uc
uc-Fits = record { gprs = omega arith; simds = omega arith }

-- Two inputs with an empty page, whose sixth entry differs.
abbrev first_input : InputData
first_input = input_new (replicate entries_per_actor 0 ∷ [])

abbrev second_input : InputData
second_input = input_new (set (replicate entries_per_actor 0) 5 9 ∷ [])

abbrev new_tracker : TaintTracker
new_tracker = tracker_init false true base

-- the tracker after the load, and what it reports
abbrev unless {ℓ} : {A : Type ℓ} → A → Option A → A
unless a none = a
unless a (some b) = b

abbrev followed : TaintTracker
followed =
    unless new_tracker
      (track machine desc 1 (load_input uc emulator 1 first_input) (reset new_tracker))

abbrev output : InputTaint × TaintTracker
output = unless ([], new_tracker) (get_taint desc uc 1 followed)

is_followed :
    track machine desc 1 (load_input uc emulator 1 first_input) (reset new_tracker) ≡ some followed
unfolding track load_input loaded_registers loaded_word loaded_entry named write_gprs write_simds
    reg_write label_addresses reset tracker_init load_accesses
is_followed = refl

is_output : get_taint desc uc 1 followed ≡ some (output.0, output.1)
unfolding get_taint track load_input loaded_registers loaded_word loaded_entry named write_gprs
    write_simds reg_write reset tracker_init load_accesses
is_output = refl

-- The entry of rbx and the first word of the data are marked, and the sixth entry is not.
marked_entries :
    (entry output.0 0 1025 ≡ some true)
    × (entry output.0 0 0 ≡ some false)
    × (entry output.0 0 5 ≡ some false)
unfolding get_taint track load_input loaded_registers loaded_word loaded_entry named write_gprs
    write_simds reg_write reset tracker_init load_accesses
marked_entries = (refl, refl, refl)

sixth_is_free : entry output.0 0 5 ≢ some true
sixth_is_free h = ground (arith, marked_entries.2, h)

agree :
    (b k : ℕ)
    → entry output.0 b k ≡ some true
    → input_entry first_input b k ≡ input_entry second_input b k
agree (suc b) k h = refl
agree zero k h = elim (Bool-cases (5 == k)) [
  | inl sixth ↦
      absurd (sixth_is_free (subst (λ j. entry output.0 0 j ≡ some true) (sym (==→eq 5 k sixth)) h))
  | inr other ↦ sym (get_elem?-set (replicate entries_per_actor 0) 5 k 9 0 refl ∙ rw other refl)
]

same_start : load_input uc emulator 1 first_input rip ≡ load_input uc emulator 1 second_input rip
unfolding load_input loaded_registers loaded_word loaded_entry named write_gprs write_simds
    reg_write label_addresses text_eq
same_start = refl

no_simd : any (is_simd uc) (settle desc followed).tainted_labels ≡ false
unfolding track load_input loaded_registers loaded_word loaded_entry named write_gprs write_simds
    reg_write reset tracker_init load_accesses settle
no_simd = refl

get_taint-observe_example :
    observe machine 1 (load_input uc emulator 1 first_input)
    ≡ observe machine 1 (load_input uc emulator 1 second_input)
unfolding tracker_init
get_taint-observe_example =
    get_taint-observe desc uc machine base laws emulator 1 1 first_input second_input new_tracker
      followed output.1 output.0 uc-IsX86 (omega arith) refl refl is_followed no_simd is_output
      agree same_start

get_taint-marks_example :
    entry output.0 0 1025 ≡ some (any (has_entry uc 0 1025) (settle desc followed).tainted_labels)
unfolding track load_input loaded_registers loaded_word loaded_entry named write_gprs write_simds
    reg_write reset tracker_init load_accesses
get_taint-marks_example =
    get_taint-marks desc uc 1 0 1025 followed output.1 output.0 uc-Fits refl is_output (omega arith)
      (omega arith)

not_general : index 123 uc.usable_registers ≡ none
unfolding index
not_general = refl

second_simd : index 123 uc.usable_simd128_registers ≡ some 1
unfolding index
second_simd = refl

-- XMM1
simd_register_one_entry_example :
    (p q : ℕ) × (register_addresses uc 123 ≡ p ∷ q ∷ [])
    × (shifted_offset p ≡ page_entries + simd_start + 2 * 1)
    × (shifted_offset q ≡ page_entries + simd_start + 2 * 1)
simd_register_one_entry_example =
    simd_register_one_entry uc 123 1 (omega arith) not_general second_simd

-- a speculation of one more load, after the load
abbrev at_checkpoint : TaintTracker
at_checkpoint = checkpoint desc true followed

abbrev speculated : TaintTracker
speculated = unless new_tracker (track_instruction desc load_inst at_checkpoint)

is_speculated : track_instruction desc load_inst at_checkpoint ≡ some speculated
unfolding checkpoint track_instruction track load_input loaded_registers loaded_word loaded_entry
    named write_gprs write_simds reg_write reset tracker_init load_accesses label_addresses
is_speculated = refl

rollback-dependencies_example :
    (t3 : TaintTracker) × (rollback desc speculated ≡ some t3)
    × (t3.dependencies ≡ saved desc true followed)
    × (t3.checkpoints ≡ followed.checkpoints)
    × ((not (
            is_in (Label.name (codes "B")) followed.tainted_labels
            || is_in (Label.name (codes "B")) speculated.tainted_labels)
          || is_in (Label.name (codes "B")) t3.tainted_labels)
        ≡ true)
unfolding track load_input loaded_registers loaded_word loaded_entry named write_gprs write_simds
    reg_write reset tracker_init load_accesses label_addresses
rollback-dependencies_example =
    rollback-dependencies desc true followed speculated (Label.name (codes "B")) refl (
      Calls.tracks at_checkpoint at_checkpoint speculated load_inst (Calls.nothing at_checkpoint)
        is_speculated)
