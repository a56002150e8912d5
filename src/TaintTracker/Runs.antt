-- ===== src/TaintTracker/Runs.antt =====
-- The tracker over a whole run, and what its result is good for.
use side_channel_fuzzer.Prelude.{
  ℕ, suc, zero, ◌≡◌, refl, sym, ap, ◌∙◌, subst, true, none, some, arith, Option-cases, inl, inr,
  >>=-eq-some,
}
use side_channel_fuzzer.Instruction.{Instruction}
use side_channel_fuzzer.TaintTracker.Labels.{label_key, is_in, label_eq_refl, find}
use side_channel_fuzzer.TaintTracker.Propagation.{TargetDesc, reg_deps, flag_deps, mem_deps}
use side_channel_fuzzer.TaintTracker.Flow.{Place, reg, flag, word, label_of, IsWithin}
use side_channel_fuzzer.TaintTracker.Finalizing.{finalize-grows}
use side_channel_fuzzer.TaintTracker.Tracking.{
  track_step, with_accesses, after_step, track_step_lem, settle-data_start,
}
use side_channel_fuzzer.TaintTracker.Machine.{Values, rip, Machine, Lawful, observe, track}
use side_channel_fuzzer.TaintTracker.Soundness.{Agree, Tracks, step_same}
use side_channel_fuzzer.TaintTracker.{TaintTracker, settle, reset}

module _ (desc : TargetDesc) (m : Machine) where
  after_step-grows :
      (inst : Instruction) (v : Values) (t t1 : TaintTracker)
      → t.enable_tracking ≡ true
      → track_step desc inst (m.accesses inst v) t ≡ some t1
      → IsWithin (settle desc t).tainted_labels (settle desc t1).tainted_labels
  after_step-grows inst v t t1 on h =
      let (i, parsed, e) = track_step_lem desc inst (m.accesses inst v) t t1 on h in
      subst (λ t2. IsWithin (settle desc t).tainted_labels (settle desc t2).tainted_labels) (sym e)
        (unfold settle in
          finalize-grows desc (with_accesses (settle desc t).data_start (m.accesses inst v) i)
            (after_step desc inst (m.accesses inst v) t i))

  step-enable_tracking :
      (inst : Instruction) (v : Values) (t t1 : TaintTracker)
      → t.enable_tracking ≡ true
      → track_step desc inst (m.accesses inst v) t ≡ some t1
      → (t1.enable_tracking ≡ true) × (t1.data_start ≡ t.data_start)
  step-enable_tracking inst v t t1 on h =
      let (i, parsed, e) = track_step_lem desc inst (m.accesses inst v) t t1 on h in
      (
        ap (λ (s : TaintTracker). s.enable_tracking) e,
        ap (λ (s : TaintTracker). s.data_start) e ∙ settle-data_start desc t,
      )

  -- Nothing that is tainted is forgotten.
  pub track-grows :
      (n : ℕ) (v : Values) (t t' : TaintTracker)
      → t.enable_tracking ≡ true
      → track m desc n v t ≡ some t'
      → IsWithin (settle desc t).tainted_labels (settle desc t').tainted_labels
  unfolding track
  track-grows zero v t t' on h x q =
      let same : t ≡ t' = ground arith in
      subst (λ (o : TaintTracker). is_in x (settle desc o).tainted_labels ≡ true) same q
  track-grows (suc n) v t t' on h x q = elim (Option-cases (m.fetch (v rip))) [
    | inl exit ↦
        let same : t ≡ t' = ground (arith, exit) in
        subst (λ (o : TaintTracker). is_in x (settle desc o).tainted_labels ≡ true) same q
    | inr (inst, here) ↦
        let (t1, first, rest) =
          >>=-eq-some (track_step desc inst (m.accesses inst v) t) (track m desc n (m.next inst v))
            (rw here at h) in
        track-grows n (m.next inst v) t1 t' (step-enable_tracking inst v t t1 on first).0 rest x
          (after_step-grows inst v t t1 on first x q)
  ]

  -- Tracking stays enabled.
  pub track-enable_tracking :
      (n : ℕ) (v : Values) (t t' : TaintTracker)
      → t.enable_tracking ≡ true
      → track m desc n v t ≡ some t'
      → t'.enable_tracking ≡ true
  unfolding track
  track-enable_tracking zero v t t' on h = ground arith
  track-enable_tracking (suc n) v t t' on h = elim (Option-cases (m.fetch (v rip))) [
    | inl exit ↦ ground (arith, exit)
    | inr (inst, here) ↦
        let (t1, first, rest) =
          >>=-eq-some (track_step desc inst (m.accesses inst v) t) (track m desc n (m.next inst v))
            (rw here at h) in
        track-enable_tracking n (m.next inst v) t1 t' (step-enable_tracking inst v t t1 on first).0
          rest
  ]

  module _ (base : ℕ) (laws : Lawful desc m base) (v0 v0' : Values) where
    same_from :
        (n : ℕ) (v v' : Values) (t t' : TaintTracker)
        → t.enable_tracking ≡ true
        → t.data_start ≡ base
        → track m desc n v t ≡ some t'
        → Tracks v0 v0' (settle desc t).dependencies v v'
        → v rip ≡ v' rip
        → Agree v0 v0' (settle desc t').tainted_labels
        → observe m n v ≡ observe m n v'
    unfolding track observe
    same_from zero v v' t t' on start h tracks same_pc agree = refl
    same_from (suc n) v v' t t' on start h tracks same_pc agree =
        elim (Option-cases (m.fetch (v rip))) [
          | inl exit ↦
              let exit' : m.fetch (v' rip) ≡ none = ap m.fetch (sym same_pc) ∙ exit in
              rw (exit, exit') refl
          | inr (inst, here) ↦
              let here' : m.fetch (v' rip) ≡ some inst = ap m.fetch (sym same_pc) ∙ here in
              let (t1, first, rest) =
                >>=-eq-some (track_step desc inst (m.accesses inst v) t)
                  (track m desc n (m.next inst v)) (rw here at h) in
              let (i, parsed, e) = track_step_lem desc inst (m.accesses inst v) t t1 on first in
              let kept = step-enable_tracking inst v t t1 on first in
              let (accesses, pc, tracks1) =
                step_same desc m base laws v0 v0' inst v v' t i (v rip, here) parsed start tracks
                  (λ l q. agree l (
                    track-grows n (m.next inst v) t1 t' kept.0 rest (label_of l) (
                      subst
                        (λ (o : TaintTracker).
                          is_in (label_of l) (settle desc o).tainted_labels ≡ true)
                        (sym e) q)))
                  same_pc in
              let after =
                same_from n (m.next inst v) (m.next inst v') t1 t' kept.0 (kept.1 ∙ start) rest
                  (subst
                    (λ (o : TaintTracker).
                      Tracks v0 v0' (settle desc o).dependencies (m.next inst v) (m.next inst v'))
                    (sym e) tracks1)
                  pc agree in
              rw (here, here') (cc (same_pc, accesses, after))
        ]

    fresh-Tracks : (t : TaintTracker) → Tracks v0 v0' (settle desc (reset t)).dependencies v0 v0'
    unfolding settle reset reg_deps flag_deps mem_deps find is_in
    fresh-Tracks t (reg r) a = a (reg r) (ground (arith, label_eq_refl (label_of (reg r))))
    fresh-Tracks t (flag f) a = a (flag f) (ground (arith, label_eq_refl (label_of (flag f))))
    fresh-Tracks t (word b) a = a (word b) (ground (arith, label_eq_refl (label_of (word b))))

    -- On a machine whose instructions read and write the operands of their specification, after the
    -- tracker has followed `n` instructions from a reset: an initial state with the same program
    -- counter, and with the same value in every place whose label is tainted, has the same program
    -- counters and the same memory accesses for `n` instructions.
    pub tainted-observe :
        (n : ℕ) (t t' : TaintTracker)
        → t.enable_tracking ≡ true
        → t.data_start ≡ base
        → track m desc n v0 (reset t) ≡ some t'
        → ((l : Place) → is_in (label_of l) (settle desc t').tainted_labels ≡ true → v0 l ≡ v0' l)
        → v0 rip ≡ v0' rip
        → observe m n v0 ≡ observe m n v0'
    tainted-observe n t t' on start h agree same_pc =
        same_from n v0 v0' (reset t) t' (unfold reset in on) (unfold reset in start) h
          (fresh-Tracks t) same_pc agree
