-- ===== src/Traces/Hardware.antt =====
-- `RawHTraceSample` and `HTrace` of rvzr/traces.py.
use side_channel_fuzzer.Prelude.{
  ℕ, Bool, Option, none, some, List, [], ◌∷◌, ◌++◌, map, ◌==◌, ltb, if◌then◌else◌, length, all,
}

pub data HTraceType : Type 0 where
  cache tsc reg : HTraceType

pub record RawHTraceSample : Type 0 where
  pub trace : ℕ
  pub pfc0 : ℕ
  pub pfc1 : ℕ
  pub pfc2 : ℕ
  pub pfc3 : ℕ
  pub pfc4 : ℕ

abbrev pub PfcTuple : Type 0
PfcTuple = ℕ × ℕ × ℕ × ℕ × ℕ

pub record HTrace : Type 0 where
  pub raw : List RawHTraceSample
  pub hash : ℕ
  pub corrupted_or_ignored : Bool
  pub max_pfc : Option PfcTuple
  pub type_ : HTraceType

abbrev pub traces_of : List RawHTraceSample → List ℕ
traces_of samples = map (λ (s : RawHTraceSample). s.trace) samples

-- HTrace.is_empty
unfoldable pub htrace_is_empty : HTrace → Bool
htrace_is_empty t = length t.raw == 0

-- HTrace.is_corrupted_or_ignored
unfoldable pub is_corrupted_or_ignored : HTrace → Bool
is_corrupted_or_ignored t = t.corrupted_or_ignored

-- HTrace.get_raw_traces
unfoldable pub get_raw_traces : HTrace → List ℕ
get_raw_traces t = traces_of t.raw

-- HTrace.sample_size
unfoldable pub sample_size : HTrace → ℕ
sample_size t = length t.raw

-- HTrace.__eq__
unfoldable pub htrace_eq : HTrace → HTrace → Bool
htrace_eq a b = a.hash == b.hash

abbrev pub zero_sample : RawHTraceSample
zero_sample = record { trace = 0; pfc0 = 0; pfc1 = 0; pfc2 = 0; pfc3 = 0; pfc4 = 0 }

-- `digest l` stands for the digest of the printed array, `xxhash.xxh64(str(l), seed=0)`.
module _ (digest : List ℕ → ℕ) where
  -- HTrace.__init__
  unfoldable pub htrace_init : List RawHTraceSample → HTraceType → HTrace
  htrace_init samples type_ = record {
    raw = samples;
    hash = digest (traces_of samples);
    corrupted_or_ignored = all (λ x. x == 0) (traces_of samples);
    max_pfc = none;
    type_ = type_;
  }

  -- HTrace.empty_trace
  unfoldable pub empty_trace : HTraceType → HTrace
  unfolding htrace_init
  empty_trace type_ = htrace_init [] type_

  -- HTrace.invalid_trace
  unfoldable pub invalid_trace : HTraceType → HTrace
  unfolding htrace_init
  invalid_trace type_ = htrace_init (zero_sample ∷ []) type_

  -- HTrace.merge
  unfoldable pub merge : HTrace → HTrace → HTrace
  unfolding htrace_init
  merge self other = htrace_init (self.raw ++ other.raw) self.type_

-- The loop of HTrace.get_max_pfc.
unfoldable pub max_pfc_from : PfcTuple → List RawHTraceSample → PfcTuple
max_pfc_from best [] = best
max_pfc_from best (s ∷ rest) =
    max_pfc_from (if ltb best.0 s.pfc0 then (s.pfc0, s.pfc1, s.pfc2, s.pfc3, s.pfc4) else best) rest

-- HTrace.get_max_pfc: the result is computed once and kept.
unfoldable pub get_max_pfc : HTrace → PfcTuple × HTrace
unfolding max_pfc_from
get_max_pfc t = elim t.max_pfc [
  | none ↦
      let best : PfcTuple = max_pfc_from (0, 0, 0, 0, 0) t.raw in
      (best, record t { max_pfc = some best })
  | some best ↦ (best, t)
]
