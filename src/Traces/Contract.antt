-- ===== src/Traces/Contract.antt =====
-- `CTraceEntry` and `CTrace` of rvzr/traces.py. A trace is compared by its digest only.
use side_channel_fuzzer.Prelude.{
  ℕ, Bool, List, [], map, ◌==◌, ltb, length, ◌/◌, ◌^◌, bit_and, bit_or, ◌∷◌,
}

pub data CTraceEntryType : Type 0 where
  mem pc val reg ind : CTraceEntryType

pub record CTraceEntry : Type 0 where
  pub type_ : CTraceEntryType
  pub value : ℕ

pub record CTrace : Type 0 where
  pub trace : List CTraceEntry
  pub untyped : List ℕ
  pub hash : ℕ
  pub printed_as_l1d_map : Bool

-- `digest l` stands for `xxhash.xxh64(str(l), seed=0).intdigest()`, which is not in the repository.
module _ (digest : List ℕ → ℕ) where
  -- CTrace.__init__
  unfoldable pub ctrace_init : List CTraceEntry → CTrace
  ctrace_init entries =
      let untyped = map (λ (e : CTraceEntry). e.value) entries in
      record {
        trace = entries;
        untyped = untyped;
        hash = digest untyped;
        printed_as_l1d_map = Bool.false;
      }

  abbrev pub empty_ctrace : CTrace
  empty_ctrace = ctrace_init []

-- CTrace.__eq__
unfoldable pub ctrace_eq : CTrace → CTrace → Bool
ctrace_eq a b = a.hash == b.hash

-- CTrace.__lt__
unfoldable pub ctrace_lt : CTrace → CTrace → Bool
ctrace_lt a b = ltb a.hash b.hash

-- CTrace.is_empty
unfoldable pub ctrace_is_empty : CTrace → Bool
ctrace_is_empty t = length t.untyped == 0

-- CTrace.set_printed_as_l1d
unfoldable pub set_printed_as_l1d : Bool → CTrace → CTrace
set_printed_as_l1d flag t = record t { printed_as_l1d_map = flag }

-- The loop of CTrace.__str__ that builds the mask of an L1D trace. `page_offset` is below 64, so
-- the shifted constant is a power of two.
unfoldable pub l1d_map_from : ℕ → List ℕ → ℕ
l1d_map_from map_value [] = map_value
l1d_map_from map_value (address ∷ rest) =
    let page_offset = bit_and address 0b111111000000 / 2 ^ 6 in
    l1d_map_from (bit_or map_value (0x8000000000000000 / 2 ^ page_offset)) rest

unfoldable pub l1d_map : CTrace → ℕ
l1d_map t = l1d_map_from 0 t.untyped
