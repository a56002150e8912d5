-- ===== src/Faults/Dependents.antt =====
-- What the instructions do to the dependencies on a faulting instruction.
use side_channel_fuzzer.Prelude.{
  Option, ◌≡◌, refl, sym, ap, ◌∙◌, Bool, true, false, not, ◌&&◌, ◌||◌, some, List, [], ◌∷◌, arith,
  filter, Bool-cases, inl, inr, subst, if◌then◌else◌,
}
use side_channel_fuzzer.Prelude.Texts.{
  codes, has_part, is_one_of, Text, text_eq, text_eq→eq, text_eq_refl,
}
use side_channel_fuzzer.Instruction.{Instruction}
use side_channel_fuzzer.TaintTracker.Labels.{text_key, is_in, update, is_in-update, is_in-filter}
use side_channel_fuzzer.Faults.Delayed.{
  reset_names, corner_cases, Registers, remove_overwritten, is_dependent, follow,
}

text_eq_comm : (s t : Text) → text_eq s t ≡ text_eq t s
text_eq_comm s t = elim (Bool-cases (text_eq s t)) [
  | inl h ↦ ap (λ u. text_eq u t) (text_eq→eq s t h) ∙ ap (text_eq t) (sym (text_eq→eq s t h))
  | inr h ↦ elim (Bool-cases (text_eq t s)) [
    | inl k ↦ absurd (
        ground (arith, subst (λ u. text_eq u t ≡ false) (sym (text_eq→eq t s k)) h, text_eq_refl t))
    | inr k ↦ h ∙ sym k
  ]
]

-- What is overwritten and not read goes.
remove_overwritten_lem :
    (x : Text) (srcs dests d : List Text)
    → is_in x (remove_overwritten srcs dests d)
      ≡ (is_in x d && not (is_in x dests && not (is_in x srcs)))
unfolding remove_overwritten is_in
remove_overwritten_lem x srcs [] d = ground arith
remove_overwritten_lem x srcs (r ∷ dests) d = elim (Bool-cases (not (is_in r srcs) && is_in r d)) [
  | inl gone ↦ rw gone (
      remove_overwritten_lem x srcs dests (filter (λ y. not (text_eq y r)) d)
      ∙ rw (is_in-filter x (λ y. not (text_eq y r)) d, text_eq_comm x r) (at_key gone))
  | inr kept ↦ rw kept (remove_overwritten_lem x srcs dests d ∙ at_other kept)
]
  where
    at_key :
        (not (is_in r srcs) && is_in r d) ≡ true
        → ((is_in x d && not (text_eq r x)) && not (is_in x dests && not (is_in x srcs)))
          ≡ (is_in x d && not ((text_eq r x || is_in x dests) && not (is_in x srcs)))
    at_key gone = elim (Bool-cases (text_eq r x)) [
      | inl same ↦ ground (arith, ap (λ y. is_in y srcs) (text_eq→eq r x same))
      | inr other ↦ ground arith
    ]

    at_other :
        (not (is_in r srcs) && is_in r d) ≡ false
        → (is_in x d && not (is_in x dests && not (is_in x srcs)))
          ≡ (is_in x d && not ((text_eq r x || is_in x dests) && not (is_in x srcs)))
    at_other kept = elim (Bool-cases (text_eq r x)) [
      | inl same ↦ ground (
        arith,
        ap (λ y. is_in y srcs) (text_eq→eq r x same),
        ap (λ y. is_in y d) (text_eq→eq r x same),
      )
      | inr other ↦ ground arith
    ]

not_read :
    (x : Text) (srcs d : List Text)
    → is_dependent srcs d ≡ false
    → is_in x d ≡ true
    → is_in x srcs ≡ false
unfolding is_dependent is_in
not_read x [] d h q = refl
not_read x (r ∷ srcs) d h q = elim (Bool-cases (text_eq r x)) [
  | inl same ↦ absurd (ground (arith, ap (λ y. is_in y d) (text_eq→eq r x same)))
  | inr other ↦ ground (arith, not_read x srcs d)
]

-- the instructions with a corner case on x86
abbrev pub is_special : Text → Bool
is_special inst_name =
    has_part (codes "cmpxchg") inst_name
    || has_part (codes "xchg") inst_name
    || has_part (codes "xadd") inst_name
    || is_one_of inst_name reset_names

corner_cases_plain :
    (reg_normalized : Text → Option Text) (inst : Instruction) (old dests new : List Text)
    → is_special inst.name ≡ false
    → corner_cases reg_normalized inst old dests new ≡ some new
unfolding corner_cases
corner_cases_plain reg_normalized inst old dests new h = ground arith

-- On x86, an instruction without a corner case that reads a dependent register makes all its
-- destinations dependent and is skipped, except that one with a memory operand whose address does
-- not depend is carried out, also if it stores a dependent register; an instruction that reads none
-- is carried out, and its destinations depend no longer.
pub follow_lem :
    (reg_normalized : Text → Option Text) (inst : Instruction) (r : Registers) (has_memory : Bool)
    (d : List Text) (x : Text)
    → is_special inst.name ≡ false
    → (d' : List Text) × (follow (corner_cases reg_normalized inst) r has_memory d
        ≡ some (d', is_dependent r.srcs d && (not has_memory || is_dependent r.address d)))
      × (is_in x d' ≡ (
          if is_dependent r.srcs d
          then is_in x d || is_in x r.dests
          else is_in x d && not (is_in x r.dests)))
unfolding follow
follow_lem reg_normalized inst r has_memory d x plain = elim (Bool-cases (is_dependent r.srcs d)) [
  | inl dependent ↦ (
    update (remove_overwritten r.srcs r.dests d) r.dests,
    ground (
      arith,
      dependent,
      corner_cases_plain reg_normalized inst d r.dests
          (update (remove_overwritten r.srcs r.dests d) r.dests) plain,
    ),
    rw dependent (
        is_in-update x (remove_overwritten r.srcs r.dests d) r.dests
        ∙ rw (remove_overwritten_lem x r.srcs r.dests d) (ground arith)),
  )
  | inr free ↦ (
    remove_overwritten r.srcs r.dests d,
    ground (arith, free),
    rw free (remove_overwritten_lem x r.srcs r.dests d ∙ ground (arith, not_read x r.srcs d free)),
  )
]
