-- ===== src/InputData/Offsets.antt =====
-- Sandbox addresses and entries of the input.
use side_channel_fuzzer.Prelude.{ℕ, ◌+◌, ◌-◌, ◌*◌, ◌/◌, ◌≤◌, ◌<◌, ◌≡◌, ◌↔◌, ◌∙◌, sym, ap, arith}
use side_channel_fuzzer.Sandbox.{page_size, data_size_per_actor}
use side_channel_fuzzer.InputData.{
  ℤ, floor_div, add_nat, entries_per_actor, taint_offset_from_sandbox_address,
}

-- The entry that the taint has for the byte at `offset` of an actor, counted from the main area.
pub taint_offset_lem :
    (actor_id offset : ℕ)
    → page_size ≤ offset
    → offset < data_size_per_actor
    → taint_offset_from_sandbox_address (actor_id * data_size_per_actor + offset)
      ≡ ℤ.pos ((offset - page_size) / 8 + actor_id * entries_per_actor)
unfolding taint_offset_from_sandbox_address floor_div add_nat
taint_offset_lem actor_id offset low high = ground arith

pos_injective : {n k : ℕ} → ℤ.pos n ≡ ℤ.pos k → n ≡ k
pos_injective h = cc

-- Two bytes in the initialised part of the sandbox have one taint entry exactly if they lie in one
-- aligned word of one actor: the taint neither mixes actors nor areas.
pub taint_offset_injective :
    (a b x y : ℕ)
    → page_size ≤ x
    → x < data_size_per_actor
    → page_size ≤ y
    → y < data_size_per_actor
    → (taint_offset_from_sandbox_address (a * data_size_per_actor + x)
        ≡ taint_offset_from_sandbox_address (b * data_size_per_actor + y))
      ↔ ((a ≡ b) × (x / 8 ≡ y / 8))
taint_offset_injective a b x y lx hx ly hy = (
  λ e.
      let same : (x - page_size) / 8 + a * entries_per_actor
          ≡ (y - page_size) / 8 + b * entries_per_actor =
        pos_injective (sym (taint_offset_lem a x lx hx) ∙ e ∙ taint_offset_lem b y ly hy) in
      omega arith,
  λ p.
      let same : (x - page_size) / 8 + a * entries_per_actor
          ≡ (y - page_size) / 8 + b * entries_per_actor =
        omega (arith, p.0, p.1) in
      taint_offset_lem a x lx hx ∙ ap ℤ.pos same ∙ sym (taint_offset_lem b y ly hy),
)
