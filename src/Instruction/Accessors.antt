-- ===== src/Instruction/Accessors.antt =====
-- The searches over the operands beside the collections.
use side_channel_fuzzer.Prelude.{
  ◌≡◌, refl, ap, sym, ◌∙◌, Bool, true, false, ◌&&◌, some, List, [], ◌∷◌, arith, any, filter,
  any-append, any-filter, filter-append,
}
use side_channel_fuzzer.Operands.{Operand, op_src, op_dest, is_mem}
use side_channel_fuzzer.Instruction.{
  Instruction, has_write, has_read, get_src_operands, get_dest_operands, get_mem_operands,
  get_all_operands, found, collected,
}

any-collected :
    (p q : Operand → Bool) (include_implicit : Bool) (i : Instruction)
    → found (λ o. p o && q o) include_implicit i ≡ any q (collected p include_implicit i)
any-collected p q true i = ground (
  arith,
  any-append q (filter p i.operands) (filter p i.implicit_operands),
  any-filter q p i.operands,
  any-filter q p i.implicit_operands,
)
any-collected p q false i =
    ground (arith, any-append q (filter p i.operands) [], any-filter q p i.operands)

commuted :
    (p q : Operand → Bool) (os : List Operand) → any (λ o. p o && q o) os ≡ any (λ o. q o && p o) os
commuted p q [] = refl
commuted p q (o ∷ os) = ground (arith, commuted p q os)

found_commuted :
    (p q : Operand → Bool) (include_implicit : Bool) (i : Instruction)
    → found (λ o. p o && q o) include_implicit i ≡ found (λ o. q o && p o) include_implicit i
found_commuted p q include_implicit i =
    rw (commuted p q i.operands, commuted p q i.implicit_operands)

-- An instruction writes to memory exactly if there is a memory operand among its destinations, and
-- reads it exactly if there is one among its sources, with or without the implicit operands; the
-- memory operands of both kinds are those among all operands.
pub accessors_agree :
    (include_implicit : Bool) (i : Instruction)
    → (has_write include_implicit i ≡ any is_mem (get_dest_operands include_implicit i))
      × (has_read include_implicit i ≡ any is_mem (get_src_operands include_implicit i))
      × (get_mem_operands true true i ≡ some (filter is_mem (get_all_operands i)))
unfolding has_write has_read get_dest_operands get_src_operands get_mem_operands get_all_operands
accessors_agree include_implicit i = (
  found_commuted is_mem op_dest include_implicit i
      ∙ any-collected op_dest is_mem include_implicit i,
  found_commuted is_mem op_src include_implicit i ∙ any-collected op_src is_mem include_implicit i,
  ap some (sym (filter-append is_mem i.operands i.implicit_operands)),
)
