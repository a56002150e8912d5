-- ===== src/TaintTracker/Loading/Agreement.antt =====
-- Inputs that agree on the entries of a label are loaded with the same value at its place.
use side_channel_fuzzer.Prelude.{
  ℕ, suc, ◌+◌, ◌-◌, ◌*◌, ◌/◌, ◌%◌, ◌^◌, ◌≤◌, ◌<◌, ◌≡◌, refl, sym, ap, ◌∙◌, Bool, true, false, not,
  ◌&&◌, ◌||◌, none, some, List, [], ◌∷◌, ◌==◌, ◌>>=◌, >>=-eq-some, ltb, leb, arith, length,
  Bool-cases, Option-cases, inl, inr, ==→eq,
}
use side_channel_fuzzer.Prelude.Texts.{Text}
use side_channel_fuzzer.Sandbox.{data_size_per_actor}
use side_channel_fuzzer.InputData.{InputData, entries_per_actor, n_data_entries_per_actor}
use side_channel_fuzzer.TaintTracker.Labels.{Label, mem, name}
use side_channel_fuzzer.TaintTracker.Flow.{Place, reg, flag, word, label_of}
use side_channel_fuzzer.TaintTracker.Output.{UnicornTargetDesc, index, page_entries}
use side_channel_fuzzer.TaintTracker.Entries.{
  index-length, gpr_start, simd_start, register_has_entry, has_entry,
}
use side_channel_fuzzer.TaintTracker.Loading.{
  Emulator, input_entry, flags_entry, loaded_entry, reg_write, write_gprs, write_simds,
  loaded_registers, loaded_word, named, load_input, is_absent, are_distinct, is_simd,
}

-- Two inputs agree on the entries of a label.
abbrev pub AgreeOn : UnicornTargetDesc → ℕ → InputData → InputData → Label → Type 0
AgreeOn uc n x y label =
    (b k : ℕ)
    → b < n
    → k < entries_per_actor
    → has_entry uc b k label ≡ true
    → input_entry x b k ≡ input_entry y b k

loaded_entry-agrees :
    (x y : InputData) (b k : ℕ)
    → input_entry x b k ≡ input_entry y b k
    → loaded_entry x b k ≡ loaded_entry y b k
unfolding loaded_entry
loaded_entry-agrees x y b k h = ground arith

write_simds-other :
    (x : InputData) (regs : List ℕ) (i c : ℕ) (registers : ℕ → ℕ)
    → is_absent c regs ≡ true
    → write_simds x regs i registers c ≡ registers c
unfolding write_simds reg_write
write_simds-other x [] i c registers h = refl
write_simds-other x (r ∷ regs) i c registers h =
    write_simds-other x regs (suc i) c
      (reg_write r
        (loaded_entry x 0 (simd_start + 4 * i) + 2 ^ 64 * loaded_entry x 0 (simd_start + 4 * i + 1))
        registers)
      (ground arith)
    ∙ ground arith

write_gprs-other :
    (x : InputData) (regs : List ℕ) (i c : ℕ) (registers : ℕ → ℕ)
    → is_absent c regs ≡ true
    → write_gprs x regs i registers c ≡ registers c
unfolding write_gprs reg_write
write_gprs-other x [] i c registers h = refl
write_gprs-other x (r ∷ regs) i c registers h =
    write_gprs-other x regs (suc i) c (reg_write r (loaded_entry x 0 (gpr_start + i)) registers)
      (ground arith)
    ∙ ground arith

absent_of_index : (c : ℕ) (regs : List ℕ) → index c regs ≡ none → is_absent c regs ≡ true
unfolding index
absent_of_index c [] h = refl
absent_of_index c (r ∷ regs) h = ground (arith, absent_of_index c regs)

write_gprs-index :
    (x : InputData) (regs : List ℕ) (i j c : ℕ) (registers : ℕ → ℕ)
    → are_distinct regs ≡ true
    → index c regs ≡ some j
    → write_gprs x regs i registers c ≡ loaded_entry x 0 (gpr_start + (i + j))
unfolding write_gprs reg_write index
write_gprs-index x [] i j c registers d h = cc
write_gprs-index x (r ∷ regs) i j c registers d h = elim (Bool-cases (r == c)) [
  | inl here ↦
      let same : r ≡ c = ==→eq r c here in
      let first : j ≡ 0 = ground arith in
      write_gprs-other x regs (suc i) c (reg_write r (loaded_entry x 0 (gpr_start + i)) registers)
        (ground (arith, ap (λ q. is_absent q regs) same))
      ∙ ground (arith, ap (λ m. loaded_entry x 0 (gpr_start + (i + m))) first)
  | inr other ↦
      let rest : (index c regs >>= λ m. some (suc m)) ≡ some j = ground (arith, other, h) in
      let (m, later, e) = >>=-eq-some (index c regs) (λ m. some (suc m)) rest in
      let next : suc m ≡ j = ground arith in
      write_gprs-index x regs (suc i) m c (reg_write r (loaded_entry x 0 (gpr_start + i)) registers)
        (ground arith) later
      ∙ ap (λ q. loaded_entry x 0 (gpr_start + q)) (omega arith)
]

write_gprs-first :
    (x : InputData) (regs : List ℕ) (j c : ℕ) (registers : ℕ → ℕ)
    → are_distinct regs ≡ true
    → index c regs ≡ some j
    → write_gprs x regs 0 registers c ≡ loaded_entry x 0 (gpr_start + j)
write_gprs-first x regs j c registers d h =
    write_gprs-index x regs 0 j c registers d h
    ∙ ap (λ q. loaded_entry x 0 (gpr_start + q)) (omega arith)

module _ (uc : UnicornTargetDesc) (e : Emulator) (n : ℕ) (positive : 0 < n)
    (small : length uc.usable_registers ≤ 8) (distinct : are_distinct uc.usable_registers ≡ true)
    (flags_at : index e.eflags uc.usable_registers ≡ some 6) (x y : InputData) where
  abbrev RegistersAgree : ℕ → Type 0
  RegistersAgree c =
      (b k : ℕ)
      → b < n
      → k < entries_per_actor
      → register_has_entry uc b k c ≡ true
      → input_entry x b k ≡ input_entry y b k

  gpr_agrees :
      (c i : ℕ)
      → RegistersAgree c
      → index c uc.usable_registers ≡ some i
      → i < 8
      → loaded_entry x 0 (gpr_start + i) ≡ loaded_entry y 0 (gpr_start + i)
  gpr_agrees c i agree found bound = loaded_entry-agrees x y 0 (gpr_start + i) (
      agree 0 (gpr_start + i) positive (omega arith)
        (unfold register_has_entry in ground (arith, found)))

  gprs_agree :
      (c : ℕ)
      → RegistersAgree c
      → write_gprs x uc.usable_registers 0 e.registers_before c
        ≡ write_gprs y uc.usable_registers 0 e.registers_before c
  gprs_agree c agree = elim (Option-cases (index c uc.usable_registers)) [
    | inl absent ↦
        let a = absent_of_index c uc.usable_registers absent in
        write_gprs-other x uc.usable_registers 0 c e.registers_before a
        ∙ sym (write_gprs-other y uc.usable_registers 0 c e.registers_before a)
    | inr (i, found) ↦
        let bound = index-length c i uc.usable_registers found in
        write_gprs-first x uc.usable_registers i c e.registers_before distinct found
        ∙ gpr_agrees c i agree found (omega arith)
        ∙ sym (write_gprs-first y uc.usable_registers i c e.registers_before distinct found)
  ]

  flags_agree :
      (c : ℕ)
      → RegistersAgree c
      → e.eflags ≡ c
      → loaded_entry x 0 flags_entry ≡ loaded_entry y 0 flags_entry
  flags_agree c agree same =
      gpr_agrees c 6 agree (ap (λ q. index q uc.usable_registers) (sym same) ∙ flags_at)
        (omega arith)

  registers_agree :
      (c : ℕ)
      → RegistersAgree c
      → is_absent c uc.usable_simd128_registers ≡ true
      → loaded_registers uc e x c ≡ loaded_registers uc e y c
  unfolding loaded_registers reg_write
  registers_agree c agree plain =
      let gprs = gprs_agree c agree in
      write_simds-other x uc.usable_simd128_registers 0 c _ plain
      ∙ elim (Bool-cases (e.eflags == c)) [
        | inl same ↦ let flags = flags_agree c agree (==→eq e.eflags c same) in ground arith
        | inr other ↦ ground arith
      ]
      ∙ sym (write_simds-other y uc.usable_simd128_registers 0 c _ plain)

  named_agree :
      (r : Text) (value : ℕ → ℕ)
      → AgreeOn uc n x y (name r)
      → is_simd uc (name r) ≡ false
      → named uc e x r value ≡ named uc e y r value
  unfolding named has_entry
  named_agree r value agree plain = elim (Option-cases (uc.reg_norm_to_constant r)) [
    | inl unknown ↦ ground arith
    | inr (c, known) ↦
        let same : loaded_registers uc e x c ≡ loaded_registers uc e y c =
          registers_agree c (λ b k actor bound h. agree b k actor bound (ground arith))
            (ground arith) in
        ground arith
  ]

  word_agrees : (a : ℕ) → AgreeOn uc n x y (mem a) → loaded_word uc e x n a ≡ loaded_word uc e y n a
  unfolding loaded_word has_entry
  word_agrees a agree =
      let actor_id = a / data_size_per_actor in
      let position = a % data_size_per_actor / 8 in
      let covered : Bool =
        leb page_entries position && ltb position (page_entries + n_data_entries_per_actor) in
      elim (Bool-cases (not (ltb actor_id n) || ltb position 8)) [
        | inl outside ↦ ground (arith, outside)
        | inr inside ↦ elim (Bool-cases covered) [
          | inr pad ↦ ground (arith, inside, pad)
          | inl within ↦
              let same = loaded_entry-agrees x y actor_id (position - page_entries) (
                agree actor_id (position - page_entries) (ground arith) (ground arith)
                  (ground arith)) in
              ground (arith, inside, within, same)
        ]
      ]

  -- With eight distinct general registers, the flags the seventh: a place whose label is not a SIMD
  -- register is loaded with the same value from two inputs that agree on the entries of its label.
  pub load_input-agrees :
      (l : Place)
      → AgreeOn uc n x y (label_of l)
      → is_simd uc (label_of l) ≡ false
      → load_input uc e n x l ≡ load_input uc e n y l
  unfolding load_input
  load_input-agrees (reg r) agree plain = named_agree r (λ v. v) agree plain
  load_input-agrees (flag f) agree plain = named_agree f (e.flag_bit f) agree plain
  load_input-agrees (word a) agree plain = word_agrees a agree
