-- ===== src/TaintTracker/Entries.antt =====
-- Which entry of an input a label stands for, by the layout of the input, and what get_taint makes
-- of it.
use side_channel_fuzzer.Prelude.{
  ℕ, suc, ◌+◌, ◌*◌, ◌/◌, ◌%◌, ◌≤◌, ◌<◌, ◌≡◌, ap, ◌∙◌, Bool, true, false, ◌&&◌, ◌||◌, none, some,
  List, [], ◌∷◌, ◌++◌, ◌==◌, ◌>>=◌, >>=-eq-some, any, arith, any-append, length, Bool-cases,
  Option-cases, inl, inr,
}
use side_channel_fuzzer.Sandbox.{DataArea, data_size_per_actor, data_area_offset}
use side_channel_fuzzer.InputData.{
  InputTaint, entries_per_actor, main_entries, faulty_entries, gpr_entries,
}
use side_channel_fuzzer.TaintTracker.Labels.{Label, mem, name}
use side_channel_fuzzer.TaintTracker.Propagation.{TargetDesc}
use side_channel_fuzzer.TaintTracker.Output.{
  UnicornTargetDesc, index, register_addresses, label_addresses, sandbox_addresses, page_entries,
  shifted_offset, get_taint,
}
use side_channel_fuzzer.TaintTracker.Marking.{entry, get_taint-addresses}
use side_channel_fuzzer.TaintTracker.{TaintTracker, settle}

-- the first entries of `gpr` and `simd` in the input of an actor
abbrev pub gpr_start : ℕ
gpr_start = main_entries + faulty_entries

abbrev pub simd_start : ℕ
simd_start = main_entries + faulty_entries + gpr_entries

-- The word at a sandbox address has the entry `k` of actor `b`: the input begins behind the first
-- page of an actor; a word of the first page of the next actor has an entry of the padding of `b`.
abbrev pub word_has_entry : ℕ → ℕ → ℕ → Bool
word_has_entry b k a =
    (a / data_size_per_actor == b && a % data_size_per_actor / 8 == k + page_entries)
    || (a / data_size_per_actor == b + 1
        && a % data_size_per_actor / 8 + entries_per_actor == k + page_entries)

-- A general register has the entry of its number, and a SIMD register the entry of twice its number,
-- of the first actor.
unfoldable pub register_has_entry : UnicornTargetDesc → ℕ → ℕ → ℕ → Bool
unfolding index
register_has_entry uc b k reg = elim (index reg uc.usable_registers) [
  | some i ↦ b == 0 && k == gpr_start + i
  | none ↦ elim (index reg uc.usable_simd128_registers) [
    | some i ↦ b == 0 && k == simd_start + 2 * i
    | none ↦ false
  ]
]

unfoldable pub has_entry : UnicornTargetDesc → ℕ → ℕ → Label → Bool
unfolding register_has_entry
has_entry uc b k (mem a) = word_has_entry b k a
has_entry uc b k (name r) = elim (uc.reg_norm_to_constant r) [
  | some reg ↦ register_has_entry uc b k reg
  | none ↦ false
]

-- an address that get_taint turns into the entry
abbrev at_entry : ℕ → ℕ → ℕ → Bool
at_entry b k p = shifted_offset p == k + b * entries_per_actor + page_entries

word_lem : (b k p : ℕ) → k < entries_per_actor → at_entry b k p ≡ word_has_entry b k p
unfolding shifted_offset
word_lem b k p small = ground arith

pub index-length : (x i : ℕ) (l : List ℕ) → index x l ≡ some i → i < length l
unfolding index
index-length x i [] h = cc
index-length x i (y ∷ l) h = elim (Bool-cases (y == x)) [
  | inl here ↦ ground (arith, here)
  | inr other ↦
      let rest : (index x l >>= λ j. some (suc j)) ≡ some i = ground (arith, other, h) in
      let (j, later, e) = >>=-eq-some (index x l) (λ j. some (suc j)) rest in
      ground (arith, index-length x j l later)
]

-- the layout has room for eight general registers, and for sixteen SIMD registers of 16 bytes
pub record Fits (uc : UnicornTargetDesc) : Type 0 where
  pub gprs : length uc.usable_registers ≤ 8
  pub simds : length uc.usable_simd128_registers ≤ 16

gpr_lem :
    (b k i : ℕ)
    → k < entries_per_actor
    → i < 8
    → at_entry b k (data_area_offset DataArea.gpr + i * 8) ≡ (b == 0 && k == gpr_start + i)
unfolding shifted_offset
gpr_lem b k i small bound = ground arith

simd_lem :
    (b k i : ℕ)
    → k < entries_per_actor
    → i < 16
    → (at_entry b k (data_area_offset DataArea.simd + i * 16)
        || at_entry b k (data_area_offset DataArea.simd + i * 16 + 1))
      ≡ (b == 0 && k == simd_start + 2 * i)
unfolding shifted_offset
simd_lem b k i small bound = ground arith

module _ (uc : UnicornTargetDesc) (f : Fits uc) (b k : ℕ) (small : k < entries_per_actor) where
  register_lem :
      (reg : ℕ) → any (at_entry b k) (register_addresses uc reg) ≡ register_has_entry uc b k reg
  unfolding register_addresses register_has_entry
  register_lem reg = elim (Option-cases (index reg uc.usable_registers)) [
    | inr (i, found) ↦
        let bound = index-length reg i uc.usable_registers found in
        let gprs = f.gprs in ground (arith, found, gpr_lem b k i small (omega arith))
    | inl absent ↦ elim (Option-cases (index reg uc.usable_simd128_registers)) [
      | inr (i, found) ↦
          let bound = index-length reg i uc.usable_simd128_registers found in
          let simds = f.simds in ground (arith, absent, found, simd_lem b k i small (omega arith))
      | inl nowhere ↦ ground (arith, absent, nowhere)
    ]
  ]

  label_lem :
      (label : Label) (addresses : List ℕ)
      → label_addresses uc label ≡ some addresses
      → any (at_entry b k) addresses ≡ has_entry uc b k label
  unfolding label_addresses has_entry
  label_lem (mem a) addresses h = ground (arith, word_lem b k a small)
  label_lem (name r) addresses h =
      let (reg, known, e) =
        >>=-eq-some (uc.reg_norm_to_constant r) (λ reg. some (register_addresses uc reg)) h in
      ground (arith, known, register_lem reg)

  sandbox_lem :
      (labels : List Label) (addresses : List ℕ)
      → sandbox_addresses uc labels ≡ some addresses
      → any (at_entry b k) addresses ≡ any (has_entry uc b k) labels
  unfolding sandbox_addresses
  sandbox_lem [] addresses h = ground arith
  sandbox_lem (label ∷ labels) addresses h =
      let (here, first, h1) =
        >>=-eq-some (label_addresses uc label)
          (λ here. sandbox_addresses uc labels >>= λ rest. some (here ++ rest)) h in
      let (rest, later, h2) =
        >>=-eq-some (sandbox_addresses uc labels) (λ rest. some (here ++ rest)) h1 in
      let joined : addresses ≡ here ++ rest = ground arith in
      rw (joined, any-append (at_entry b k) here rest)
        (ground (arith, label_lem label here first, sandbox_lem labels rest later))

-- If tracking is enabled, the registers fit the layout, and the taint is produced, then an entry of
-- an actor is marked exactly if a tainted label has this entry: a general register that of its
-- number, a SIMD register only that of twice its number, a word the one at its place behind the first
-- page, and a word in the first page of an actor one of the actor before it.
pub get_taint-marks :
    (desc : TargetDesc) (uc : UnicornTargetDesc) (n b k : ℕ) (t t' : TaintTracker)
    (taint : InputTaint)
    → Fits uc
    → t.enable_tracking ≡ true
    → get_taint desc uc n t ≡ some (taint, t')
    → b < n
    → k < entries_per_actor
    → entry taint b k ≡ some (any (has_entry uc b k) (settle desc t).tainted_labels)
get_taint-marks desc uc n b k t t' taint f on h actor small =
    let (addresses, found, e) = get_taint-addresses desc uc n b k t t' taint on h actor small in
    e ∙ ap some (sandbox_lem uc f b k small (settle desc t).tainted_labels addresses found)

-- Both addresses that get_taint collects for a SIMD register of number `i`, for its two halves, lie
-- in one entry, the one of number 2 * i among the entries of `simd`.
pub simd_register_one_entry :
    (uc : UnicornTargetDesc) (reg i : ℕ)
    → i < 16
    → index reg uc.usable_registers ≡ none
    → index reg uc.usable_simd128_registers ≡ some i
    → (p q : ℕ) × (register_addresses uc reg ≡ p ∷ q ∷ [])
      × (shifted_offset p ≡ page_entries + simd_start + 2 * i)
      × (shifted_offset q ≡ page_entries + simd_start + 2 * i)
unfolding register_addresses shifted_offset
simd_register_one_entry uc reg i small absent found = (
  data_area_offset DataArea.simd + i * 16,
  data_area_offset DataArea.simd + i * 16 + 1,
  ground (arith, absent, found),
  omega arith,
  omega arith,
)
