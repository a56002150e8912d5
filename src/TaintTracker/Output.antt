-- ===== src/TaintTracker/Output.antt =====
-- UnicornTaintTracker.get_taint: the entries of the input that the tainted labels stand for.
use side_channel_fuzzer.Prelude.{
  ℕ, zero, suc, ◌+◌, ◌-◌, ◌*◌, ◌/◌, ◌%◌, ◌≡◌, arith, false, ◌&&◌, Option, none, some, List, [], ◌∷◌,
  ◌++◌, map, ◌==◌, if◌then◌else◌, ◌>>=◌, leb, ltb, filter,
}
use side_channel_fuzzer.Prelude.Texts.{Text}
use side_channel_fuzzer.Sandbox.{DataArea, page_size, data_size_per_actor, data_area_offset}
use side_channel_fuzzer.InputData.{
  difference, floor_div, add_nat, taint_offset_from_sandbox_address, InputTaint, taint_new,
  taint_actor_offsets, entries_per_actor,
}
use side_channel_fuzzer.TaintTracker.Labels.{Label, mem, name}
use side_channel_fuzzer.TaintTracker.Propagation.{TargetDesc}
use side_channel_fuzzer.TaintTracker.{TaintTracker, settle}

-- the fields of UnicornTargetDesc that are read here; a missing name is a KeyError
pub record UnicornTargetDesc : Type 0 where
  pub reg_norm_to_constant : Text → Option ℕ
  pub usable_registers : List ℕ
  pub usable_simd128_registers : List ℕ

-- l.index(x), if `x in l`
unfoldable pub index : ℕ → List ℕ → Option ℕ
index x [] = none
index x (y ∷ l) = if y == x then some 0 else index x l >>= λ i. some (suc i)

-- the sandbox addresses of a register
unfoldable pub register_addresses : UnicornTargetDesc → ℕ → List ℕ
unfolding index
register_addresses uc reg = elim (index reg uc.usable_registers) [
  | some i ↦ (data_area_offset DataArea.gpr + i * 8) ∷ []
  | none ↦ elim (index reg uc.usable_simd128_registers) [
    | some i ↦
        let sandbox_address = data_area_offset DataArea.simd + i * 16 in
        sandbox_address ∷ (sandbox_address + 1) ∷ []
    | none ↦ []
  ]
]

-- the body of the loop over the labels
unfoldable pub label_addresses : UnicornTargetDesc → Label → Option (List ℕ)
unfolding register_addresses
label_addresses uc (mem a) = some (a ∷ [])
label_addresses uc (name r) = uc.reg_norm_to_constant r >>= λ reg. some (register_addresses uc reg)

-- the loop over the labels
unfoldable pub sandbox_addresses : UnicornTargetDesc → List Label → Option (List ℕ)
unfolding label_addresses
sandbox_addresses uc [] = some []
sandbox_addresses uc (label ∷ labels) = do
  here ← label_addresses uc label
  rest ← sandbox_addresses uc labels
  some (here ++ rest)

-- l.sort(), for numbers
unfoldable pub insert_sorted : ℕ → List ℕ → List ℕ
insert_sorted x [] = x ∷ []
insert_sorted x (y ∷ l) = let rest = insert_sorted x l in if leb x y then x ∷ y ∷ l else y ∷ rest

unfoldable pub sort : List ℕ → List ℕ
unfolding insert_sorted
sort [] = []
sort (x ∷ l) = insert_sorted x (sort l)

-- the entries in a page, by which an offset can be negative
abbrev pub page_entries : ℕ
page_entries = page_size / 8

-- InputTaint.taint_offset_from_sandbox_address plus `page_entries`, which is not negative.
unfoldable pub shifted_offset : ℕ → ℕ
shifted_offset sb_address =
    sb_address % data_size_per_actor / 8 + sb_address / data_size_per_actor * entries_per_actor

shifted_offset_lem :
    (p : ℕ) → taint_offset_from_sandbox_address p ≡ difference (shifted_offset p) page_entries
unfolding shifted_offset taint_offset_from_sandbox_address floor_div add_nat
shifted_offset_lem p = ground arith

-- the offsets of one actor, shifted as above
abbrev pub actor_taints : ℕ → List ℕ → List ℕ
actor_taints actor_id offsets =
    let actor_area_start = actor_id * entries_per_actor + page_entries in
    map (λ pos. pos - actor_area_start)
      (filter (λ pos. leb actor_area_start pos && ltb pos (actor_area_start + entries_per_actor))
        offsets)

-- the loop over the actors: `n` are left from `actor_id` on
unfoldable pub taint_loop : ℕ → ℕ → List ℕ → InputTaint → Option InputTaint
unfolding taint_actor_offsets
taint_loop zero actor_id offsets taint = some taint
taint_loop (suc n) actor_id offsets taint = do
  taint' ← taint_actor_offsets actor_id (actor_taints actor_id offsets) taint
  taint_loop n (suc actor_id) offsets taint'

module _ (desc : TargetDesc) (uc : UnicornTargetDesc) where
  -- UnicornTaintTracker.get_taint
  unfoldable pub get_taint : ℕ → TaintTracker → Option (InputTaint × TaintTracker)
  unfolding settle sandbox_addresses sort shifted_offset taint_loop taint_new
  get_taint n_actors t =
      if t.enable_tracking
      then (let t' = settle desc t in
          do
            addresses ← sandbox_addresses uc t'.tainted_labels
            let offsets = map shifted_offset (sort addresses)
            taint ← taint_loop n_actors 0 offsets (taint_new n_actors)
            some (taint, record t' { tracking_in_progress = false }))
      else some (taint_new n_actors, record t { tracking_in_progress = false })
