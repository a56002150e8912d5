-- ===== src/Analyser/Bitmap.antt =====
-- `MergedBitmapAnalyser` of rvzr/analyser.py, with its cache of bitmaps. The fraction
-- `CONF.analyser_outliers_threshold`, a float, is the quotient of two numbers.
use side_channel_fuzzer.Prelude.{
  ℕ, ◌+◌, ◌-◌, ◌*◌, ◌%◌, ◌^◌, ◌≡◌, Bool, true, ◌||◌, Option, none, some, List, [], ◌∷◌, arith, ◌==◌,
  leb, if◌then◌else◌, ◌>>◌, guard, length, filter, bit_and, bit_or, inl, inr, Option-cases, eq→==,
}
use side_channel_fuzzer.Prelude.Dict.{Dict, hash_key, get, put, get-put}
use side_channel_fuzzer.Traces.Hardware.{HTrace, get_raw_traces, sample_size}
use side_channel_fuzzer.Analyser.Pairs.{IsEquivalence}

pub record AnalyserConf : Type 0 where
  pub outliers_num : ℕ
  pub outliers_den : ℕ
  pub subsets_is_violation : Bool

-- Counter(raw)[x]
unfoldable pub count : ℕ → List ℕ → ℕ
count x [] = 0
count x (y ∷ ys) = (if y == x then 1 else 0) + count x ys

-- pow(2, 64) - 1
abbrev pub mask : ℕ
mask = 2 ^ 64 - 1

-- the loop that merges the samples
unfoldable pub or_all : ℕ → List ℕ → ℕ
or_all acc [] = acc
or_all acc (t ∷ ts) = or_all (bit_or acc t) ts

module _ (conf : AnalyserConf) where
  -- [x for x in raw if counter[x] >= threshold], with threshold = fraction * sample_size
  unfoldable pub without_outliers : List ℕ → List ℕ
  unfolding count
  without_outliers raw =
      filter (λ x. leb (conf.outliers_num * length raw) (conf.outliers_den * count x raw)) raw

  unfoldable pub bitmap : List ℕ → ℕ
  unfolding without_outliers or_all
  bitmap raw = or_all 0 (without_outliers raw)

  -- One round of the loop over the two traces: the bitmap is taken from the cache, or stored there.
  unfoldable pub cached_bitmap : Dict ℕ → HTrace → ℕ × Dict ℕ
  unfolding get_raw_traces hash_key
  cached_bitmap cache t =
      let hash_ = hash_key t.hash in
      elim (get hash_ cache) [
        | some b ↦ (b, cache)
        | none ↦ let b = bitmap (get_raw_traces t) in (b, put hash_ b cache)
      ]

  -- ~b & MASK
  abbrev inverse : ℕ → ℕ
  inverse b = mask - b % 2 ^ 64

  -- the comparison at the end
  unfoldable pub compare_bitmaps : ℕ → ℕ → Bool
  compare_bitmaps b b' =
      if conf.subsets_is_violation
      then b == b'
      else bit_and b (inverse b') == 0 || bit_and b' (inverse b) == 0

  -- MergedBitmapAnalyser.htraces_are_equivalent; traces of different sizes fail the assertion
  unfoldable pub bitmaps_are_equivalent : Dict ℕ → HTrace → HTrace → Option (Bool × Dict ℕ)
  unfolding sample_size cached_bitmap compare_bitmaps
  bitmaps_are_equivalent cache t t' = do
    guard (sample_size t == sample_size t')
    let (b, cache1) = cached_bitmap cache t
    let (b', cache2) = cached_bitmap cache1 t'
    some (compare_bitmaps b b', cache2)

  -- the comparison without the cache
  unfoldable pub same_bitmap : HTrace → HTrace → Bool
  same_bitmap t t' = compare_bitmaps (bitmap (get_raw_traces t)) (bitmap (get_raw_traces t'))

  -- `Known` are hardware traces of which two with one key have one bitmap.
  module _ (Known : HTrace → Type 0) where
    -- Each entry of the cache is the bitmap of the known traces with that key.
    pub record IsCoherent (cache : Dict ℕ) : Type 0 where
      pub entry :
          (t : HTrace) (b : ℕ)
          → Known t
          → get (hash_key t.hash) cache ≡ some b
          → b ≡ bitmap (get_raw_traces t)

    module _
        (no_collision : (x y : HTrace)
          → Known x
          → Known y
          → hash_key x.hash ≡ hash_key y.hash
          → bitmap (get_raw_traces x) ≡ bitmap (get_raw_traces y)) where
      cached_bitmap_lem :
          (cache : Dict ℕ) (t : HTrace)
          → IsCoherent cache
          → Known t
          → ((cached_bitmap cache t).0 ≡ bitmap (get_raw_traces t))
            × IsCoherent (cached_bitmap cache t).1
      unfolding cached_bitmap
      cached_bitmap_lem cache t c known = elim (Option-cases (get (hash_key t.hash) cache)) [
        | inl miss ↦ (
          rw (miss, cached_bitmap),
          record {
            entry = λ u b v h. ground (
              arith,
              get-put (hash_key t.hash) (hash_key u.hash) (bitmap (get_raw_traces t)) cache,
              c.entry u b v,
              no_collision t u known v,
            );
          },
        )
        | inr (b, hit) ↦ (
          rw (hit, cached_bitmap) (c.entry t b known hit),
          record { entry = λ u b' v h. c.entry u b' v (ground arith) },
        )
      ]

      -- The cache is invisible: if traces with one key have one bitmap, and from a coherent cache, two
      -- traces of one size are compared by their bitmaps alone, and the cache stays coherent.
      pub bitmaps_are_equivalent_lem :
          (cache : Dict ℕ) (t t' : HTrace)
          → IsCoherent cache
          → Known t
          → Known t'
          → sample_size t ≡ sample_size t'
          → (cache' : Dict ℕ) × (bitmaps_are_equivalent cache t t'
              ≡ some (same_bitmap t t', cache'))
            × IsCoherent cache'
      unfolding bitmaps_are_equivalent same_bitmap
      bitmaps_are_equivalent_lem cache t t' c known known' size =
          let (b, c1) = cached_bitmap_lem cache t c known in
          let (b', c2) = cached_bitmap_lem (cached_bitmap cache t).1 t' c1 known' in
          ((cached_bitmap (cached_bitmap cache t).1 t').1, rw (eq→== _ _ size, b, b'), c2)

      -- With the strict comparison the analyser compares by an equivalence.
      same_bitmap-IsEquivalence : conf.subsets_is_violation ≡ true → IsEquivalence Known same_bitmap
      unfolding same_bitmap compare_bitmaps
      same_bitmap-IsEquivalence strict = record {
        congruent = λ x y bx by h. ground (arith, no_collision x y bx by h);
        symmetric = λ x y bx by h. ground arith;
        transitive = λ x y z bx by bz h k. ground arith;
      }
