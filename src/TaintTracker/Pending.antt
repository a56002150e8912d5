-- ===== src/TaintTracker/Pending.antt =====
-- The labels that are pending when an instruction is finalized.
use side_channel_fuzzer.Prelude.{◌≡◌, refl, true, List, [], ◌∷◌, arith, map}
use side_channel_fuzzer.Prelude.Texts.{Text, codes}
use side_channel_fuzzer.Grouping.Members.{is_nonempty}
use side_channel_fuzzer.TaintTracker.Labels.{
  Label, name, text_key, label_key, is_in, update, is_in-add, is_in-update, label_eq_refl,
}
use side_channel_fuzzer.TaintTracker.Propagation.{TrackedInstruction}
use side_channel_fuzzer.TaintTracker.Flow.{IsWithin}
use side_channel_fuzzer.TaintTracker.Tracking.{Access, pending_after}
use side_channel_fuzzer.TaintTracker.{with_rep_count}

pub is_in-map_name : (r : Text) (rs : List Text) → is_in (name r) (map name rs) ≡ is_in r rs
unfolding is_in
is_in-map_name r [] = refl
is_in-map_name r (s ∷ rs) = ground (arith, is_in-map_name r rs)

pub pending_after-grows :
    (accesses : List Access) (labels pending : List Label)
    → IsWithin pending (pending_after accesses labels pending)
pending_after-grows [] labels pending x h = h
pending_after-grows (a ∷ accesses) labels pending x h =
    pending_after-grows accesses labels (update pending labels) x
      (ground (arith, is_in-update x pending labels))

-- The address registers are pending after an access.
pub pending_after-labels :
    (a : Access) (accesses : List Access) (labels pending : List Label)
    → IsWithin labels (pending_after (a ∷ accesses) labels pending)
pending_after-labels a accesses labels pending x h =
    pending_after-grows accesses labels (update pending labels) x
      (ground (arith, is_in-update x pending labels))

pub with_rep_count-grows :
    (i : TrackedInstruction) (pending : List Label) → IsWithin pending (with_rep_count i pending)
unfolding with_rep_count
with_rep_count-grows i pending x h = ground (arith, is_in-add (name (codes "C")) x pending)

is_nonempty-within : (p q : List Label) → IsWithin p q → is_nonempty p ≡ true → is_nonempty q ≡ true
unfolding is_in
is_nonempty-within [] q w h = cc
is_nonempty-within (x ∷ p) [] w h = ground (arith, w x, label_eq_refl x)
is_nonempty-within (x ∷ p) (y ∷ q) w h = refl

-- More pending labels stay more with the counter of a REP instruction.
pub with_rep_count_mono :
    (i : TrackedInstruction) (p q : List Label)
    → IsWithin p q
    → IsWithin (with_rep_count i p) (with_rep_count i q)
unfolding with_rep_count
with_rep_count_mono i p q w x h = ground (
  arith,
  is_in-add (name (codes "C")) x p,
  is_in-add (name (codes "C")) x q,
  w x,
  is_nonempty-within p q w,
)
