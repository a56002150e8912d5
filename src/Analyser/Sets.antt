-- ===== src/Analyser/Sets.antt =====
-- `SetAnalyser` of rvzr/analyser.py. The filter in front of the comparison tests the sample itself
-- against the threshold, and not how often it occurs.
use side_channel_fuzzer.Prelude.{
  ℕ, zero, suc, ◌*◌, ◌<◌, ◌≡◌, refl, Bool, true, false, ◌&&◌, ◌||◌, Option, some, List, [], ◌∷◌,
  arith, ◌==◌, leb, if◌then◌else◌, ◌>>◌, guard, length, filter, any, all, replicate,
  length-replicate,
}
use side_channel_fuzzer.Traces.Hardware.{HTrace, get_raw_traces, sample_size}
use side_channel_fuzzer.Traces.Classes.HwSplit.{htrace_key}
use side_channel_fuzzer.Analyser.Pairs.{IsEquivalence}
use side_channel_fuzzer.Analyser.Bitmap.{AnalyserConf}

-- x in set(l)
abbrev pub mem : ℕ → List ℕ → Bool
mem x l = any (λ y. y == x) l

-- set(l).issubset(set(l'))
unfoldable pub is_subset : List ℕ → List ℕ → Bool
is_subset l l' = all (λ x. mem x l') l

module _ (conf : AnalyserConf) where
  -- [x for x in raw if x >= threshold], with threshold = fraction * sample_size
  unfoldable pub above_threshold : List ℕ → List ℕ
  above_threshold raw =
      filter (λ x. leb (conf.outliers_num * length raw) (conf.outliers_den * x)) raw

  unfoldable pub compare_sets : List ℕ → List ℕ → Bool
  unfolding is_subset
  compare_sets l l' =
      if conf.subsets_is_violation
      then is_subset l l' && is_subset l' l
      else is_subset l l' || is_subset l' l

  unfoldable pub same_set : HTrace → HTrace → Bool
  same_set t t' =
      compare_sets (above_threshold (get_raw_traces t)) (above_threshold (get_raw_traces t'))

  -- SetAnalyser.htraces_are_equivalent; traces of different sizes fail the assertion
  unfoldable pub sets_are_equivalent : HTrace → HTrace → Option Bool
  unfolding sample_size same_set
  sets_are_equivalent t t' = do guard (sample_size t == sample_size t'); some (same_set t t')

mem_of_subset : (x : ℕ) (l l' : List ℕ) → is_subset l l' ≡ true → mem x l ≡ true → mem x l' ≡ true
unfolding is_subset
mem_of_subset x [] l' s m = cc
mem_of_subset x (y ∷ l) l' s m = ground (arith, mem_of_subset x l l')

subset_trans : (l m n : List ℕ) → is_subset l m ≡ true → is_subset m n ≡ true → is_subset l n ≡ true
unfolding is_subset
subset_trans [] m n p q = refl
subset_trans (x ∷ l) m n p q = ground (arith, mem_of_subset x m n q, subset_trans l m n)

subset_cons : (y : ℕ) (l l' : List ℕ) → is_subset l l' ≡ true → is_subset l (y ∷ l') ≡ true
unfolding is_subset
subset_cons y [] l' p = refl
subset_cons y (x ∷ l) l' p = ground (arith, subset_cons y l l')

subset_refl : (l : List ℕ) → is_subset l l ≡ true
unfolding is_subset
subset_refl [] = refl
subset_refl (x ∷ l) = ground (arith, subset_cons x l l (subset_refl l))

module _ (conf : AnalyserConf) (Known : HTrace → Type 0) where
  -- With the strict comparison, and if known traces with one key have the same samples above the
  -- threshold, the analyser compares by an equivalence.
  same_set-IsEquivalence :
      ((x y : HTrace)
        → Known x
        → Known y
        → htrace_key x ≡ htrace_key y
        → above_threshold conf (get_raw_traces x) ≡ above_threshold conf (get_raw_traces y))
      → conf.subsets_is_violation ≡ true
      → IsEquivalence Known (same_set conf)
  unfolding same_set compare_sets
  same_set-IsEquivalence no_collision strict = record {
    congruent = λ x y bx by h.
        ground
          (arith, no_collision x y bx by h, subset_refl (above_threshold conf (get_raw_traces x)));
    symmetric = λ x y bx by h. ground arith;
    transitive = λ x y z bx by bz h k. ground (
      arith,
      subset_trans (above_threshold conf (get_raw_traces x))
          (above_threshold conf (get_raw_traces y)) (above_threshold conf (get_raw_traces z)),
      subset_trans (above_threshold conf (get_raw_traces z))
          (above_threshold conf (get_raw_traces y)) (above_threshold conf (get_raw_traces x)),
    );
  }

-- A sample below the threshold is dropped however often it occurs.
small_dropped : (p : ℕ → Bool) (n v : ℕ) → p v ≡ false → filter p (replicate n v) ≡ []
small_dropped p zero v h = refl
small_dropped p (suc n) v h = rw (h, small_dropped p n v h)

-- Two traces of `n` samples, each with one single value that lies below the threshold, are
-- equivalent whatever the two values are, although neither value is an outlier.
pub small_values_are_lost :
    (conf : AnalyserConf) (n v w : ℕ) (t t' : HTrace)
    → get_raw_traces t ≡ replicate n v
    → get_raw_traces t' ≡ replicate n w
    → conf.outliers_den * v < conf.outliers_num * n
    → conf.outliers_den * w < conf.outliers_num * n
    → same_set conf t t' ≡ true
unfolding same_set above_threshold compare_sets is_subset
small_values_are_lost conf n v w t t' e e' small small' =
    rw
      (
        e,
        e',
        length-replicate n v,
        length-replicate n w,
        small_dropped (λ x. leb (conf.outliers_num * n) (conf.outliers_den * x)) n v (ground arith),
        small_dropped (λ x. leb (conf.outliers_num * n) (conf.outliers_den * x)) n w (ground arith),
      )
      (both_empty conf.subsets_is_violation)
  where
    both_empty : (b : Bool) → (if b then true && true else true || true) ≡ true
    both_empty true = refl
    both_empty false = refl
