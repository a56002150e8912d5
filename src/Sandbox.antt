-- ===== src/Sandbox.antt =====
-- rvzr/sandbox.py: the layout of the data and code sandboxes.
pub mod Areas
use side_channel_fuzzer.Prelude.{
  ℕ, suc, ◌+◌, ◌-◌, ◌*◌, ◌/◌, ◌%◌, ◌≤◌, ◌<◌, ◌≡◌, Bool, true, false, ◌&&◌, Option, none, some, leb,
  ltb, ◌==◌, ◌>>=◌, ◌>>◌, guard,
}

abbrev pub page_size : ℕ
page_size = 4096

pub data DataArea : Type 0 where
  start macro_stack underflow_pad main faulty reg_init gpr simd overflow_pad rsp_init : DataArea

pub data CodeArea : Type 0 where
  start main macro : CodeArea

-- _DataAreaLayout[area.name].itemsize; the names that are no fields of the layout raise a KeyError
abbrev pub data_area_size : DataArea → Option ℕ
data_area_size DataArea.macro_stack = some 64
data_area_size DataArea.underflow_pad = some (page_size - 64)
data_area_size DataArea.main = some page_size
data_area_size DataArea.faulty = some page_size
data_area_size DataArea.gpr = some 64
data_area_size DataArea.simd = some 256
data_area_size DataArea.overflow_pad = some (page_size - 64 - 256)
data_area_size _ = none

-- SandboxLayout.data_area_offset; a field's offset is the sum of the sizes before it
abbrev pub data_area_offset : DataArea → ℕ
data_area_offset DataArea.start = 0
data_area_offset DataArea.macro_stack = 0
data_area_offset DataArea.underflow_pad = 64
data_area_offset DataArea.main = 64 + (page_size - 64)
data_area_offset DataArea.faulty = 64 + (page_size - 64) + page_size
data_area_offset DataArea.reg_init = 64 + (page_size - 64) + page_size + page_size
data_area_offset DataArea.gpr = 64 + (page_size - 64) + page_size + page_size
data_area_offset DataArea.simd = 64 + (page_size - 64) + page_size + page_size + 64
data_area_offset DataArea.overflow_pad = 64 + (page_size - 64) + page_size + page_size + 64 + 256
data_area_offset DataArea.rsp_init = 64 + (page_size - 64) + page_size - 8

-- SandboxLayout.data_size_per_actor: the size of the whole layout
abbrev pub data_size_per_actor : ℕ
data_size_per_actor =
    64 + (page_size - 64) + page_size + page_size + 64 + 256 + (page_size - 64 - 256)

abbrev pub code_area_size : CodeArea → Option ℕ
code_area_size CodeArea.main = some (2 * page_size)
code_area_size CodeArea.macro = some page_size
code_area_size CodeArea.start = none

abbrev pub code_area_offset : CodeArea → ℕ
code_area_offset CodeArea.start = 0
code_area_offset CodeArea.main = 0
code_area_offset CodeArea.macro = 2 * page_size

abbrev pub code_size_per_actor : ℕ
code_size_per_actor = 2 * page_size + page_size

pub record SandboxLayout : Type 0 where
  pub data_start : ℕ
  pub data_size : ℕ
  pub data_end : ℕ
  pub code_start : ℕ
  pub code_size : ℕ
  pub code_end : ℕ

-- SandboxLayout.__init__, with its two assertions. The precomputed tables are not read.
unfoldable pub sandbox_init : ℕ × ℕ → ℕ → Option SandboxLayout
sandbox_init bases n_actors =
    let data_size = data_size_per_actor * n_actors in
    let code_size = code_size_per_actor * n_actors in
    do
      guard (data_size % page_size == 0)
      guard (code_size % page_size == 0)
      some (record {
        data_start = bases.0;
        data_size = data_size;
        data_end = bases.0 + data_size;
        code_start = bases.1;
        code_size = code_size;
        code_end = bases.1 + code_size;
      })

module _ (l : SandboxLayout) where
  unfoldable pub get_data_addr : DataArea → ℕ → ℕ
  get_data_addr area actor_id =
      l.data_start + actor_id * data_size_per_actor + data_area_offset area

  unfoldable pub get_code_addr : CodeArea → ℕ → ℕ
  get_code_addr area actor_id =
      l.code_start + actor_id * code_size_per_actor + code_area_offset area

  unfoldable pub is_data_addr : ℕ → Bool
  is_data_addr addr = leb l.data_start addr && ltb addr l.data_end

  unfoldable pub is_code_addr : ℕ → Bool
  is_code_addr addr = leb l.code_start addr && ltb addr l.code_end

  -- The offsets and the actor ids below are for addresses behind the start of their sandbox: a
  -- negative offset is 0 here.
  unfoldable pub data_addr_to_offset : ℕ → ℕ
  data_addr_to_offset addr = addr - l.data_start

  unfoldable pub code_addr_to_offset : ℕ → ℕ
  code_addr_to_offset addr = addr - l.code_start

  unfoldable pub code_addr_to_actor_id : ℕ → ℕ
  code_addr_to_actor_id addr = (addr - l.code_start) / code_size_per_actor

  unfoldable pub data_addr_to_actor_id : ℕ → ℕ
  data_addr_to_actor_id addr = (addr - l.data_start) / data_size_per_actor
