-- ===== src/Tests/Addresses.antt =====
-- Addresses in the sandbox, and entries of the taint, at concrete numbers.
use side_channel_fuzzer.Prelude.{ℕ, ◌+◌, ◌*◌, ◌≡◌, ◌↔◌, refl, true, some, arith, ◌/◌}
use side_channel_fuzzer.Sandbox.{
  DataArea, data_size_per_actor, code_size_per_actor, SandboxLayout, sandbox_init, get_data_addr,
  is_data_addr, data_addr_to_actor_id,
}
use side_channel_fuzzer.Sandbox.Areas.{data_area_in_actor}
use side_channel_fuzzer.InputData.{taint_offset_from_sandbox_address}
use side_channel_fuzzer.InputData.Offsets.{taint_offset_injective}

abbrev bases : ℕ × ℕ
bases = (0x10000, 0x80000)

abbrev layout : SandboxLayout
layout = record {
  data_start = 0x10000;
  data_size = data_size_per_actor * 2;
  data_end = 0x10000 + data_size_per_actor * 2;
  code_start = 0x80000;
  code_size = code_size_per_actor * 2;
  code_end = 0x80000 + code_size_per_actor * 2;
}

layout_made : sandbox_init bases 2 ≡ some layout
unfolding sandbox_init
layout_made = refl

data_area_in_actor_example :
    (is_data_addr layout (get_data_addr layout DataArea.faulty 1 + 9) ≡ true)
    × (data_addr_to_actor_id layout (get_data_addr layout DataArea.faulty 1 + 9) ≡ 1)
data_area_in_actor_example =
    data_area_in_actor bases 2 layout DataArea.faulty 4096 1 9 layout_made refl (omega arith)
      (omega arith)

abbrev actor : ℕ
actor = 1

abbrev first_byte : ℕ
first_byte = 4096

abbrev last_byte : ℕ
last_byte = 4103

taint_offset_injective_example :
    (taint_offset_from_sandbox_address (actor * data_size_per_actor + first_byte)
      ≡ taint_offset_from_sandbox_address (actor * data_size_per_actor + last_byte))
    ↔ ((actor ≡ actor) × (first_byte / 8 ≡ last_byte / 8))
taint_offset_injective_example =
    taint_offset_injective actor actor first_byte last_byte (omega arith) (omega arith)
      (omega arith) (omega arith)
