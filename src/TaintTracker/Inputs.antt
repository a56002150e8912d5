-- ===== src/TaintTracker/Inputs.antt =====
-- From the taint of an input to its contract trace: inputs that agree where the taint says so, loaded
-- as the x86 model loads them.
use side_channel_fuzzer.Prelude.{ℕ, ◌<◌, ◌≡◌, length, ap, ◌∙◌, true, false, some, any, arith}
use side_channel_fuzzer.InputData.{InputData, InputTaint}
use side_channel_fuzzer.TaintTracker.Labels.{label_key, is_in}
use side_channel_fuzzer.TaintTracker.Propagation.{TargetDesc}
use side_channel_fuzzer.TaintTracker.Flow.{Place, label_of, any_of_is_in, any-false_of_is_in}
use side_channel_fuzzer.TaintTracker.Machine.{rip, Machine, Lawful, observe, track}
use side_channel_fuzzer.TaintTracker.Runs.{tainted-observe, track-enable_tracking}
use side_channel_fuzzer.TaintTracker.Output.{UnicornTargetDesc, index, get_taint}
use side_channel_fuzzer.TaintTracker.Marking.{entry}
use side_channel_fuzzer.TaintTracker.Entries.{Fits, has_entry, get_taint-marks}
use side_channel_fuzzer.TaintTracker.Loading.{
  Emulator, input_entry, load_input, are_distinct, is_simd,
}
use side_channel_fuzzer.TaintTracker.Loading.Agreement.{load_input-agrees}
use side_channel_fuzzer.TaintTracker.{TaintTracker, settle, reset}

-- The tables of the x86 target: eight distinct general registers, the flags the seventh, and eight
-- SIMD registers.
pub record IsX86 (uc : UnicornTargetDesc) (e : Emulator) : Type 0 where
  pub gpr_values : length uc.usable_registers ≡ 8
  pub simd_values : length uc.usable_simd128_registers ≡ 8
  pub distinct : are_distinct uc.usable_registers ≡ true
  pub flags_at : index e.eflags uc.usable_registers ≡ some 6

IsX86-Fits : (uc : UnicornTargetDesc) (e : Emulator) → IsX86 uc e → Fits uc
IsX86-Fits uc e x86 =
    let gprs = x86.gpr_values in
    let simds = x86.simd_values in record { gprs = omega arith; simds = omega arith }

-- On an x86 target, and a machine whose instructions read and write the operands of their
-- specification, let an input of at least one actor be loaded, let the tracker, enabled and reset,
-- follow `n` instructions, and let get_taint return a taint. If no SIMD register is tainted, then an
-- input with the same values in all entries that are marked, and the same start address, has the
-- same contract trace for `n` instructions.
pub get_taint-observe :
    (desc : TargetDesc) (uc : UnicornTargetDesc) (m : Machine) (base : ℕ)
    (laws : Lawful desc m base) (e : Emulator) (n n_actors : ℕ) (x y : InputData)
    (t t1 t' : TaintTracker) (taint : InputTaint)
    → IsX86 uc e
    → 0 < n_actors
    → t.enable_tracking ≡ true
    → t.data_start ≡ base
    → track m desc n (load_input uc e n_actors x) (reset t) ≡ some t1
    → any (is_simd uc) (settle desc t1).tainted_labels ≡ false
    → get_taint desc uc n_actors t1 ≡ some (taint, t')
    → ((b k : ℕ) → entry taint b k ≡ some true → input_entry x b k ≡ input_entry y b k)
    → load_input uc e n_actors x rip ≡ load_input uc e n_actors y rip
    → observe m n (load_input uc e n_actors x) ≡ observe m n (load_input uc e n_actors y)
get_taint-observe desc uc m base laws e n n_actors x y t t1 t' taint x86 positive on start h plain
      output agree same_pc =
    tainted-observe desc m base laws (load_input uc e n_actors x) (load_input uc e n_actors y) n t
      t1 on start h place_same same_pc
  where
    place_same :
        (l : Place)
        → is_in (label_of l) (settle desc t1).tainted_labels ≡ true
        → load_input uc e n_actors x l ≡ load_input uc e n_actors y l
    place_same l tainted =
        let fits = IsX86-Fits uc e x86 in
        let on1 =
          track-enable_tracking desc m n (load_input uc e n_actors x) (reset t) t1
            (unfold reset in on) h in
        load_input-agrees uc e n_actors positive fits.gprs x86.distinct x86.flags_at x y l
          (λ b k actor small has. agree b k (
            get_taint-marks desc uc n_actors b k t1 t' taint fits on1 output actor small
            ∙ ap some (
                any_of_is_in (label_of l) (settle desc t1).tainted_labels (has_entry uc b k) tainted
                  has)))
          (any-false_of_is_in (label_of l) (settle desc t1).tainted_labels (is_simd uc) tainted
            plain)
