-- ===== src/Instruction/Assigning.antt =====
-- Properties that are assigned once.
use side_channel_fuzzer.Prelude.{ℕ, ◌≡◌, Bool, Option, none, some, arith, ◌>>=◌}
use side_channel_fuzzer.Prelude.Texts.{Text}
use side_channel_fuzzer.Instruction.{
  Instruction, assign_line_num, assign_binary_properties, copy_inst_with_modification,
}

-- If the binary properties of an instruction can be assigned, it then has the values given, keeps
-- them in every modified copy, and another assignment to the copy raises an error; so does another
-- line number after the first.
pub assigned_once :
    (i j : Instruction) (section_id offset size section_id' offset' size' line_num line_num' : ℕ)
    (name category : Option Text) (is_control_flow is_instrumentation is_noremove : Option Bool)
    → assign_binary_properties section_id offset size i ≡ some j
    → let k =
        copy_inst_with_modification name category is_control_flow is_instrumentation is_noremove
          j in
      (k.section_id ≡ some section_id)
      × (k.section_offset ≡ some offset)
      × (k.size ≡ some size)
      × (assign_binary_properties section_id' offset' size' k ≡ none)
      × ((assign_line_num line_num k >>= assign_line_num line_num') ≡ none)
unfolding assign_binary_properties copy_inst_with_modification assign_line_num
assigned_once i j section_id offset size section_id' offset' size' line_num line_num' name category
      is_control_flow is_instrumentation is_noremove h =
    ground arith
