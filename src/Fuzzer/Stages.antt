-- ===== src/Fuzzer/Stages.antt =====
-- The steps of `_RoundManager` that a stage is made of. `none` is an exception that leaves the
-- round, such as a failed assertion.
use side_channel_fuzzer.Prelude.{
  ℕ, zero, suc, not, ◌&&◌, Option, none, some, List, [], ◌∷◌, ◌++◌, map, if◌then◌else◌, ◌==◌, ◌>>=◌,
  ◌>>◌, guard, length, filter, any,
}
use side_channel_fuzzer.Grouping.Members.{is_nonempty}
use side_channel_fuzzer.Traces.Hardware.{HTrace, merge}
use side_channel_fuzzer.Traces.Classes.{TraceBundle, Violation}
use side_channel_fuzzer.Fuzzer.{FuzzConf, Modules, RoundManager}

-- l * n of Python's lists
unfoldable pub repeat {ℓ} : {A : Type ℓ} → ℕ → List A → List A
repeat zero l = []
repeat (suc n) l = l ++ repeat n l

-- [0, …, n - 1]
unfoldable pub range_from : ℕ → ℕ → List ℕ
range_from i zero = []
range_from i (suc n) = i ∷ range_from (suc i) n

unfoldable pub zip_with {ℓ} : {A : Type ℓ} → (A → A → A) → List A → List A → List A
zip_with f [] ys = []
zip_with f (x ∷ xs) [] = []
zip_with f (x ∷ xs) (y ∷ ys) = f x y ∷ zip_with f xs ys

module _ {I P : Type 0} where
  -- [m.input_id for v in violations for m in v.measurements]
  unfoldable pub violating_ids : List (Violation I P) → List ℕ
  violating_ids [] = []
  violating_ids (v ∷ vs) =
      map (λ (m : TraceBundle I). m.input_id) v.eq_class.measurements ++ violating_ids vs

  -- the ids below `n` that no violation has
  unfoldable pub ignored_ids : ℕ → List (Violation I P) → List ℕ
  unfolding violating_ids range_from
  ignored_ids n vs = filter (λ i. not (any (λ j. j == i) (violating_ids vs))) (range_from 0 n)

module _ {I T P W : Type 0} (m : Modules I T P W) (conf : FuzzConf) where
  -- _RoundManager._boost_inputs
  unfoldable pub boost_inputs : RoundManager I P W → RoundManager I P W
  boost_inputs r =
      if conf.inputs_per_class == 1
      then (let (ctraces, w) = m.trace_test_case r.org_inputs r.conf.model_nesting r.world in
          record r { non_boosted_ctraces = ctraces; boosted_inputs = r.org_inputs; world = w })
      else (let (traced, w) =
            m.trace_test_case_with_taints r.org_inputs r.conf.model_nesting r.world in
          let (boosted, w') = m.generate_boosted r.org_inputs traced.1 conf.inputs_per_class w in
          record r { non_boosted_ctraces = traced.0; boosted_inputs = boosted; world = w' })

  -- _RoundManager._collect_ctraces
  unfoldable pub collect_ctraces : RoundManager I P W → Option (RoundManager I P W)
  unfolding repeat
  collect_ctraces r =
      if r.conf.reuse_ctraces
      then (do guard (length r.ctraces == length r.boosted_inputs); some r)
      else if r.conf.enable_fast_contract_tracing
      then some (record r { ctraces = repeat conf.inputs_per_class r.non_boosted_ctraces })
      else (let (ctraces, w) = m.trace_test_case r.boosted_inputs r.conf.model_nesting r.world in
          some (record r { ctraces = ctraces; world = w }))

  -- What `_collect_htraces` does with the traces of the executor.
  unfoldable pub store_htraces : List HTrace → RoundManager I P W → Option (RoundManager I P W)
  unfolding zip_with merge
  store_htraces new_htraces r =
      if not r.conf.extend_htraces then some (record r { htraces = new_htraces }) else (do
        guard (length r.htraces == length new_htraces)
        some (record r { htraces = zip_with (merge m.digest) new_htraces r.htraces }))

  -- _RoundManager._check_violations
  unfoldable pub check_violations : RoundManager I P W → Option (RoundManager I P W)
  check_violations r = do
    guard (is_nonempty r.ctraces && (length r.ctraces == length r.htraces))
    (vs, stat) ←
        m.filter_violations r.ctraces r.htraces r.test_case r.boosted_inputs r.conf.record_stats
          r.stat
    some (record r { violations = vs; stat = stat })

  -- _RoundManager._update_ignore_list
  unfoldable pub update_ignore_list : RoundManager I P W → RoundManager I P W
  unfolding ignored_ids
  update_ignore_list r =
      if r.conf.update_ignore_list
      then record r {
        world = m.extend_ignore_list (ignored_ids (length r.boosted_inputs) r.violations) r.world;
      }
      else r

  -- the rest of _normal_stage, behind the traces
  unfoldable pub check_stage : RoundManager I P W → Option (RoundManager I P W)
  check_stage r =
      if is_nonempty r.org_inputs
      then (do
        r' ← check_violations r
        some (if is_nonempty r'.violations then update_ignore_list r' else r'))
      else some r

  -- The rest of _normal_stage, behind the executor; an IOError drops the violations.
  unfoldable pub traced_stage :
      RoundManager I P W → Option (List HTrace) × W → Option (RoundManager I P W)
  traced_stage r (none, w) = some (record r { violations = []; world = w })
  traced_stage r (some htraces, w) = do
    r' ← store_htraces htraces (record r { world = w })
    check_stage r'

  -- _RoundManager._normal_stage
  unfoldable pub normal_stage : RoundManager I P W → Option (RoundManager I P W)
  normal_stage r = do
    r1 ← collect_ctraces (boost_inputs r)
    traced_stage r1 (m.trace_hardware r1.boosted_inputs r1.conf.executor_n_reps r1.world)
