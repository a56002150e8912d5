-- ===== src/TaintTracker/Flow.antt =====
-- What the bookkeeping of one instruction does to the set of labels of each place.
use side_channel_fuzzer.Prelude.{
  ℕ, ◌≡◌, sym, ap, ◌∙◌, subst, Bool, true, false, ◌&&◌, ◌||◌, Option, none, some, List, [], ◌∷◌,
  arith, Bool-cases, inl, inr, any,
}
use side_channel_fuzzer.Prelude.Texts.{Text}
use side_channel_fuzzer.TaintTracker.Labels.{
  Key, Label, mem, name, text_key, number_key, label_key, is_in, update, find, put, is_in-add,
  is_in-update, find-put,
}
use side_channel_fuzzer.TaintTracker.Propagation.{
  TrackedInstruction, Dependencies, get_or_self, reg_deps, flag_deps, mem_deps, update_all,
  src_dependencies, propagated, propagate, add_dependencies,
}

-- a register, a flag, or a word of memory
pub data Place : Type 0 where
  reg : Text → Place
  flag : Text → Place
  word : ℕ → Place

abbrev pub label_of : Place → Label
label_of (reg r) = name r
label_of (flag f) = name f
label_of (word a) = mem a

abbrev pub deps : Dependencies → Place → List Label
deps d (reg r) = reg_deps d r
deps d (flag f) = flag_deps d f
deps d (word a) = mem_deps d a

abbrev pub is_source : TrackedInstruction → Place → Bool
is_source i (reg r) = is_in r i.src_regs
is_source i (flag f) = is_in f i.src_flags
is_source i (word a) = is_in a i.src_mems

abbrev pub is_dest : TrackedInstruction → Place → Bool
is_dest i (reg r) = is_in r i.dest_regs
is_dest i (flag f) = is_in f i.dest_flags
is_dest i (word a) = is_in a i.dest_mems

-- one set in another
abbrev pub IsWithin : List Label → List Label → Type 0
IsWithin s t = (x : Label) → is_in x s ≡ true → is_in x t ≡ true

module _ {K : Type 0} ⦃e : Key K⦄ where
  pub any_of_is_in :
      (k : K) (ks : List K) (p : K → Bool) → is_in k ks ≡ true → p k ≡ true → any p ks ≡ true
  unfolding is_in
  any_of_is_in k [] p h q = cc
  any_of_is_in k (j ∷ ks) p h q = elim (Bool-cases (e.same j k)) [
    | inl same ↦ ground (arith, subst (λ z. p z ≡ true) (sym (e.same→eq j k same)) q)
    | inr other ↦ ground (arith, any_of_is_in k ks p)
  ]

  pub any-false_of_is_in :
      (k : K) (ks : List K) (p : K → Bool) → is_in k ks ≡ true → any p ks ≡ false → p k ≡ false
  any-false_of_is_in k ks p h q = elim (Bool-cases (p k)) [
    | inl holds ↦ absurd (ground (arith, any_of_is_in k ks p h holds))
    | inr fails ↦ fails
  ]

  pub is_in-update_all :
      (x : Label) (f : K → List Label) (ks : List K) (s : List Label)
      → is_in x (update_all f ks s) ≡ (is_in x s || any (λ k. is_in x (f k)) ks)
  unfolding update_all
  is_in-update_all x f [] s = ground arith
  is_in-update_all x f (k ∷ ks) s =
      ground (arith, is_in-update_all x f ks (update s (f k)), is_in-update x s (f k))

  pub update_all-IsWithin :
      (f : K → List Label) (ks : List K) (s : List Label) (k : K)
      → is_in k ks ≡ true
      → IsWithin (f k) (update_all f ks s)
  update_all-IsWithin f ks s k h x q =
      ground (arith, is_in-update_all x f ks s, any_of_is_in k ks (λ j. is_in x (f j)) h q)

  module _ (label : K → Label) where
    propagated_lem :
        (x : Label) (k : K) (src : List Label) (o : Option (List Label))
        → is_in x (propagated (label k) src o) ≡ (is_in x (get_or_self (label k) o) || is_in x src)
    propagated_lem x k src none = is_in-add (label k) x src ∙ (unfold is_in in ground arith)
    propagated_lem x k src (some s) = is_in-update x s src

    -- A destination gains the labels of the sources, and every other place keeps its own.
    propagate_lem :
        (x : Label) (k : K) (src : List Label) (ks : List K) (d : List (K × List Label))
        → is_in x (get_or_self (label k) (find k (propagate label src ks d)))
          ≡ (is_in x (get_or_self (label k) (find k d)) || (is_in k ks && is_in x src))
    unfolding propagate is_in
    propagate_lem x k src [] d = ground arith
    propagate_lem x k src (j ∷ ks) d =
        propagate_lem x k src ks (put j v d) ∙ (elim (Bool-cases (e.same j k)) [
          | inl same ↦
              rw (find-put j k v d, same)
                (ground (
                  arith,
                  propagated_lem x j src (find j d),
                  ap (λ z. is_in x (get_or_self (label z) (find z d))) (e.same→eq j k same),
                ))
          | inr other ↦ rw (find-put j k v d, other) (ground arith)
        ])
      where
        v : List Label
        v = propagated (label j) src (find j d)

-- The labels of a place after add_dependencies: its own, and for a destination those of the sources.
pub deps-add_dependencies :
    (x : Label) (i : TrackedInstruction) (d : Dependencies) (l : Place)
    → is_in x (deps (add_dependencies i d) l)
      ≡ (is_in x (deps d l) || (is_dest i l && is_in x (src_dependencies d i)))
unfolding add_dependencies reg_deps flag_deps mem_deps
deps-add_dependencies x i d (reg r) =
    propagate_lem name x r (src_dependencies d i) i.dest_regs d.reg
deps-add_dependencies x i d (flag f) =
    propagate_lem name x f (src_dependencies d i) i.dest_flags d.flag
deps-add_dependencies x i d (word a) =
    propagate_lem mem x a (src_dependencies d i) i.dest_mems d.memory

-- The labels of a source are among those of the sources.
pub source-IsWithin :
    (i : TrackedInstruction) (d : Dependencies) (l : Place)
    → is_source i l ≡ true
    → IsWithin (deps d l) (src_dependencies d i)
unfolding src_dependencies
source-IsWithin i d (word a) h x q = update_all-IsWithin (mem_deps d) i.src_mems _ a h x q
source-IsWithin i d (flag f) h x q = ground (
  arith,
  is_in-update_all x (mem_deps d) i.src_mems
      (update_all (flag_deps d) i.src_flags (update_all (reg_deps d) i.src_regs [])),
  update_all-IsWithin (flag_deps d) i.src_flags (update_all (reg_deps d) i.src_regs []) f h x q,
)
source-IsWithin i d (reg r) h x q = ground (
  arith,
  is_in-update_all x (mem_deps d) i.src_mems
      (update_all (flag_deps d) i.src_flags (update_all (reg_deps d) i.src_regs [])),
  is_in-update_all x (flag_deps d) i.src_flags (update_all (reg_deps d) i.src_regs []),
  update_all-IsWithin (reg_deps d) i.src_regs [] r h x q,
)
