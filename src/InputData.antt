-- ===== src/InputData.antt =====
-- rvzr/tc_components/test_case_data.py: inputs, taints, and the offset of a sandbox address in a
-- taint. A word of 8 bytes is one entry.
pub mod Offsets
use side_channel_fuzzer.Prelude.{
  ℕ, zero, suc, ◌+◌, ◌-◌, ◌*◌, ◌/◌, ◌%◌, Bool, true, false, Option, none, some, List, [], ◌∷◌, ◌++◌,
  map, ◌==◌, if◌then◌else◌, ◌>>=◌, ◌>>◌, guard, length, get_elem?, set, replicate, ltb, leb,
}
use side_channel_fuzzer.Sandbox.{page_size, data_size_per_actor}

-- the entries of each field of _ActorInput, and of the whole structure
abbrev pub main_entries : ℕ
main_entries = page_size / 8

abbrev pub faulty_entries : ℕ
faulty_entries = page_size / 8

abbrev pub gpr_entries : ℕ
gpr_entries = 64 / 8

abbrev pub simd_entries : ℕ
simd_entries = 256 / 8

abbrev pub padding_entries : ℕ
padding_entries = (page_size - 64 - 256) / 8

-- _ActorInput.itemsize // 8, and InputTaint.per_actor_taint_size
abbrev pub entries_per_actor : ℕ
entries_per_actor = main_entries + faulty_entries + gpr_entries + simd_entries + padding_entries

-- InputData.n_data_entries_per_actor: `itemsize` of a field is the size of one of its elements in
-- _ACTOR_DATA_SIZE, which is taken from sub-array types, so it is the size of the whole field.
abbrev pub n_data_entries_per_actor : ℕ
n_data_entries_per_actor = main_entries + faulty_entries + gpr_entries + simd_entries

-- An input: its seed, and the linear view of each actor.
pub record InputData : Type 0 where
  pub seed : ℕ
  pub actors : List (List ℕ)

-- InputData.__new__ leaves the memory as it is: `memory` is what it holds.
abbrev pub input_new : List (List ℕ) → InputData
input_new memory = record { seed = 0; actors = memory }

-- the last entries of a list set to zero from index `n` on
unfoldable pub zero_from : ℕ → List ℕ → List ℕ
zero_from n [] = []
zero_from zero (x ∷ xs) = 0 ∷ zero_from zero xs
zero_from (suc n) (x ∷ xs) = x ∷ zero_from n xs

-- InputData.set_actor_data: the shape is asserted, the data is copied, the padding is zeroed
unfoldable pub set_actor_data : ℕ → List ℕ → InputData → Option InputData
unfolding zero_from
set_actor_data actor_id entries input = do
  guard (length entries == entries_per_actor)
  guard (ltb actor_id (length input.actors))
  some (record input {
    actors = set input.actors actor_id (zero_from n_data_entries_per_actor entries);
  })

-- A taint: a Boolean for each entry of each actor.
abbrev pub InputTaint : Type 0
InputTaint = List (List Bool)

-- InputTaint.__new__
unfoldable pub taint_new : ℕ → InputTaint
taint_new n_actors = replicate n_actors (replicate entries_per_actor false)

-- the loop of InputTaint.taint_actor_offsets; an offset out of bounds is an IndexError
unfoldable pub taint_offsets : List ℕ → List Bool → Option (List Bool)
taint_offsets [] view = some view
taint_offsets (offset ∷ rest) view = do
  guard (ltb offset (length view))
  taint_offsets rest (set view offset true)

-- InputTaint.taint_actor_offsets
unfoldable pub taint_actor_offsets : ℕ → List ℕ → InputTaint → Option InputTaint
unfolding taint_offsets
taint_actor_offsets actor_id offsets taint = do
  view ← get_elem? taint actor_id
  view' ← taint_offsets offsets view
  some (set taint actor_id view')

-- Python's `int`, for an offset that can be negative: `negsuc n` is -(n + 1)
pub data ℤ : Type 0 where
  pos : ℕ → ℤ
  negsuc : ℕ → ℤ

-- a - b
abbrev pub difference : ℕ → ℕ → ℤ
difference a b = if leb b a then ℤ.pos (a - b) else ℤ.negsuc (b - a - 1)

-- z // n, which rounds down
unfoldable pub floor_div : ℤ → ℕ → ℤ
floor_div (ℤ.pos a) n = ℤ.pos (a / n)
floor_div (ℤ.negsuc a) n = ℤ.negsuc (a / n)

-- z + n
unfoldable pub add_nat : ℤ → ℕ → ℤ
add_nat (ℤ.pos a) n = ℤ.pos (a + n)
add_nat (ℤ.negsuc a) n = difference n (a + 1)

-- InputTaint.taint_offset_from_sandbox_address; negative for a word of the first page of the first
-- actor
unfoldable pub taint_offset_from_sandbox_address : ℕ → ℤ
unfolding floor_div add_nat
taint_offset_from_sandbox_address sb_address =
    let actor_id = sb_address / data_size_per_actor in
    let sandbox_offset = sb_address % data_size_per_actor in
    add_nat (floor_div (difference sandbox_offset page_size) 8) (actor_id * entries_per_actor)
