-- ===== src/Sandbox/Areas.antt =====
-- `SandboxLayout`: the areas of an actor, and the addresses in them.
use side_channel_fuzzer.Prelude.{ℕ, ◌+◌, ◌*◌, ◌≤◌, ◌<◌, ◌≡◌, refl, true, some, arith}
use side_channel_fuzzer.Sandbox.{
  DataArea, data_area_size, data_area_offset, data_size_per_actor, code_size_per_actor,
  SandboxLayout, sandbox_init, get_data_addr, is_data_addr, data_addr_to_actor_id,
}

-- The constructor raises for no number of actors.
sandbox_init_total :
    (bases : ℕ × ℕ) (n : ℕ)
    → (l : SandboxLayout) × (sandbox_init bases n ≡ some l)
      × (l.data_start ≡ bases.0)
      × (l.data_end ≡ bases.0 + n * data_size_per_actor)
      × (l.code_start ≡ bases.1)
      × (l.code_end ≡ bases.1 + n * code_size_per_actor)
unfolding sandbox_init
sandbox_init_total bases n = (
  record {
    data_start = bases.0;
    data_size = data_size_per_actor * n;
    data_end = bases.0 + data_size_per_actor * n;
    code_start = bases.1;
    code_size = code_size_per_actor * n;
    code_end = bases.1 + code_size_per_actor * n;
  },
  ground arith,
  refl,
  omega arith,
  refl,
  omega arith,
)

area_bound :
    (area : DataArea) (size : ℕ)
    → data_area_size area ≡ some size
    → data_area_offset area + size ≤ data_size_per_actor
area_bound area size h = ground arith

-- Every byte of an area of an actor below `n` is a data address, and leads back to that actor.
pub data_area_in_actor :
    (bases : ℕ × ℕ) (n : ℕ) (l : SandboxLayout) (area : DataArea) (size actor_id byte : ℕ)
    → sandbox_init bases n ≡ some l
    → data_area_size area ≡ some size
    → actor_id < n
    → byte < size
    → (is_data_addr l (get_data_addr l area actor_id + byte) ≡ true)
      × (data_addr_to_actor_id l (get_data_addr l area actor_id + byte) ≡ actor_id)
unfolding sandbox_init is_data_addr get_data_addr data_addr_to_actor_id
data_area_in_actor bases n l area size actor_id byte made sized a b =
    (ground (arith, area_bound area size sized), ground (arith, area_bound area size sized))
