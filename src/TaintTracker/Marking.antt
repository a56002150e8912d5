-- ===== src/TaintTracker/Marking.antt =====
-- Which entries get_taint marks.
use side_channel_fuzzer.Prelude.{
  ℕ, zero, suc, ◌+◌, ◌-◌, ◌*◌, ◌<◌, ◌≡◌, refl, ap, ◌∙◌, Bool, true, false, ◌&&◌, ◌||◌, Option, some,
  List, [], ◌∷◌, map, ◌==◌, if◌then◌else◌, ◌>>=◌, >>=-eq-some, leb, ltb, filter, any, set,
  get_elem?, replicate, length, arith, any-map, any-filter, Bool-cases, Option-cases, inl, inr,
  ==→eq,
}
use side_channel_fuzzer.InputData.{
  InputTaint, taint_new, taint_offsets, taint_actor_offsets, entries_per_actor,
}
use side_channel_fuzzer.TaintTracker.Labels.{label_key}
use side_channel_fuzzer.TaintTracker.Propagation.{TargetDesc}
use side_channel_fuzzer.TaintTracker.Output.{
  UnicornTargetDesc, sandbox_addresses, insert_sorted, sort, page_entries, shifted_offset,
  actor_taints, taint_loop, get_taint,
}
use side_channel_fuzzer.TaintTracker.{TaintTracker, settle}

-- the entry of a taint; `none` is out of bounds
abbrev pub entry : InputTaint → ℕ → ℕ → Option Bool
entry taint actor_id k = get_elem? taint actor_id >>= λ view. get_elem? view k

any_ext : {A : Type 0} (p q : A → Bool) (xs : List A) → ((x : A) → p x ≡ q x) → any p xs ≡ any q xs
any_ext p q [] h = refl
any_ext p q (x ∷ xs) h = ground (arith, h x, any_ext p q xs h)

pub get_elem?-set :
    {A : Type 0} (xs : List A) (i j : ℕ) (a b : A)
    → get_elem? xs i ≡ some b
    → get_elem? (set xs i a) j ≡ (if i == j then some a else get_elem? xs j)
get_elem?-set [] i j a b h = cc
get_elem?-set (x ∷ xs) zero zero a b h = refl
get_elem?-set (x ∷ xs) zero (suc j) a b h = ground arith
get_elem?-set (x ∷ xs) (suc i) zero a b h = ground arith
get_elem?-set (x ∷ xs) (suc i) (suc j) a b h = ground (arith, get_elem?-set xs i j a b h)

get_elem?-in :
    {A : Type 0} (xs : List A) (i : ℕ) → i < length xs → (a : A) × (get_elem? xs i ≡ some a)
get_elem?-in [] i h = elim h [ ]
get_elem?-in (x ∷ xs) zero h = (x, refl)
get_elem?-in (x ∷ xs) (suc i) h = get_elem?-in xs i (omega arith)

taint_offsets_lem :
    (offsets : List ℕ) (view view' : List Bool) (k : ℕ)
    → taint_offsets offsets view ≡ some view'
    → get_elem? view' k ≡ (if any (λ o. o == k) offsets then some true else get_elem? view k)
unfolding taint_offsets
taint_offsets_lem [] view view' k h = ground arith
taint_offsets_lem (o ∷ offsets) view view' k h = elim (Bool-cases (ltb o (length view))) [
  | inr out ↦ absurd (ground (arith, out))
  | inl within ↦
      let (b, there) = get_elem?-in view o (ground arith) in
      taint_offsets_lem offsets (set view o true) view' k (rw within at h)
      ∙ ground (arith, get_elem?-set view o k true b there)
]

any-actor_taints :
    (actor_id k : ℕ) (offsets : List ℕ)
    → k < entries_per_actor
    → any (λ o. o == k) (actor_taints actor_id offsets)
      ≡ any (λ o. o == k + actor_id * entries_per_actor + page_entries) offsets
any-actor_taints actor_id k offsets small =
    any-map (λ o. o == k) (λ pos. pos - (actor_id * entries_per_actor + page_entries))
      (filter
        (λ pos.
          leb (actor_id * entries_per_actor + page_entries) pos
          && ltb pos (actor_id * entries_per_actor + page_entries + entries_per_actor))
        offsets)
    ∙ any-filter (λ pos. pos - (actor_id * entries_per_actor + page_entries) == k)
        (λ pos.
          leb (actor_id * entries_per_actor + page_entries) pos
          && ltb pos (actor_id * entries_per_actor + page_entries + entries_per_actor))
        offsets
    ∙ any_ext
        (λ pos.
          (leb (actor_id * entries_per_actor + page_entries) pos
            && ltb pos (actor_id * entries_per_actor + page_entries + entries_per_actor))
          && (pos - (actor_id * entries_per_actor + page_entries) == k))
        (λ o. o == k + actor_id * entries_per_actor + page_entries) offsets (λ o. ground arith)

-- One actor's entries are marked, and those of the others stay.
taint_actor_lem :
    (actor_id b k : ℕ) (offsets : List ℕ) (taint taint' : InputTaint)
    → k < entries_per_actor
    → taint_actor_offsets actor_id (actor_taints actor_id offsets) taint ≡ some taint'
    → entry taint' b k ≡ (
        if actor_id == b && any (λ o. o == k + actor_id * entries_per_actor + page_entries) offsets
        then some true
        else entry taint b k)
unfolding taint_actor_offsets
taint_actor_lem actor_id b k offsets taint taint' small h =
    let (view, there, h1) = >>=-eq-some (get_elem? taint actor_id) _ h in
    let (view', marked, h2) =
      >>=-eq-some (taint_offsets (actor_taints actor_id offsets) view)
        (λ view'. some (set taint actor_id view')) h1 in
    let set_ : taint' ≡ set taint actor_id view' = ground (arith, h2) in
    rw (set_, get_elem?-set taint actor_id b view' view there)
      (elim (Bool-cases (actor_id == b)) [
        | inl same ↦ rw same (
            taint_offsets_lem (actor_taints actor_id offsets) view view' k marked
            ∙ ground (
              arith,
              any-actor_taints actor_id k offsets small,
              ap (λ j. get_elem? taint j) (==→eq actor_id b same),
            ))
        | inr other ↦ rw other refl
      ])

taint_loop_lem :
    (n actor_id b k : ℕ) (offsets : List ℕ) (taint taint' : InputTaint)
    → k < entries_per_actor
    → taint_loop n actor_id offsets taint ≡ some taint'
    → entry taint' b k ≡ (
        if (leb actor_id b && ltb b (actor_id + n))
          && any (λ o. o == k + b * entries_per_actor + page_entries) offsets
        then some true
        else entry taint b k)
unfolding taint_loop
taint_loop_lem zero actor_id b k offsets taint taint' small h = ground arith
taint_loop_lem (suc n) actor_id b k offsets taint taint' small h =
    let (taint1, first, rest) =
      >>=-eq-some (taint_actor_offsets actor_id (actor_taints actor_id offsets) taint)
        (taint_loop n (suc actor_id) offsets) h in
    taint_loop_lem n (suc actor_id) b k offsets taint1 taint' small rest
    ∙ rw (taint_actor_lem actor_id b k offsets taint taint1 small first)
        (elim (Bool-cases (actor_id == b)) [
          | inl same ↦ rw (==→eq actor_id b same) (ground arith)
          | inr other ↦ ground arith
        ])

any-insert_sorted :
    (p : ℕ → Bool) (x : ℕ) (l : List ℕ) → any p (insert_sorted x l) ≡ (p x || any p l)
unfolding insert_sorted
any-insert_sorted p x [] = refl
any-insert_sorted p x (y ∷ l) = ground (arith, any-insert_sorted p x l)

any-sort : (p : ℕ → Bool) (l : List ℕ) → any p (sort l) ≡ any p l
unfolding sort
any-sort p [] = refl
any-sort p (x ∷ l) = any-insert_sorted p x (sort l) ∙ ap (λ b. p x || b) (any-sort p l)

get_elem?-replicate : {A : Type 0} (n i : ℕ) (a : A) → i < n → get_elem? (replicate n a) i ≡ some a
get_elem?-replicate zero i a h = elim h [ ]
get_elem?-replicate (suc n) zero a h = refl
get_elem?-replicate (suc n) (suc i) a h = get_elem?-replicate n i a (omega arith)

module _ (desc : TargetDesc) (uc : UnicornTargetDesc) where
  -- If tracking is enabled and the taint is produced, an entry of an actor is marked exactly if the
  -- address of a tainted label lies in it.
  pub get_taint-addresses :
      (n b k : ℕ) (t t' : TaintTracker) (taint : InputTaint)
      → t.enable_tracking ≡ true
      → get_taint desc uc n t ≡ some (taint, t')
      → b < n
      → k < entries_per_actor
      → (addresses : List ℕ) × (sandbox_addresses uc (settle desc t).tainted_labels
          ≡ some addresses)
        × (entry taint b k
            ≡ some
                (any (λ p. shifted_offset p == k + b * entries_per_actor + page_entries) addresses))
  unfolding get_taint
  get_taint-addresses n b k t t' taint on h actor small =
      elim (Option-cases (sandbox_addresses uc (settle desc t).tainted_labels)) [
        | inl raised ↦ absurd (ground (arith, on, raised))
        | inr (addresses, found) ↦
            elim (Option-cases
              (taint_loop n 0 (map shifted_offset (sort addresses)) (taint_new n))) [
                | inl raised ↦ absurd (ground (arith, on, found, raised))
                | inr (marked, looped) ↦
                    let same : taint ≡ marked = ground (arith, on, found, looped) in
                    (
                      addresses,
                      found,
                      ap (λ i. entry i b k) same
                          ∙ taint_loop_lem n 0 b k (map shifted_offset (sort addresses))
                              (taint_new n) marked small looped
                          ∙ rw
                              (
                                any-map (λ o. o == k + b * entries_per_actor + page_entries)
                                    shifted_offset (sort addresses),
                                any-sort
                                    (λ p.
                                      shifted_offset p == k + b * entries_per_actor + page_entries)
                                    addresses,
                              )
                              (unfold taint_new in
                                ground (
                                  arith,
                                  get_elem?-replicate n b (replicate entries_per_actor false) actor,
                                  get_elem?-replicate entries_per_actor k false small,
                                )),
                    )
              ]
      ]
