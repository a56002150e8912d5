-- ===== src/Tests.antt =====
-- The theorems at concrete inputs: three inputs with two contract traces, and a machine whose
-- hardware traces tell two of them apart.
mod TracesAtWork
mod RoundAtWork
mod Addresses
mod InputsAtWork
mod ModelAtWork
mod TaintAtWork
mod InstructionAtWork
mod FaultsAtWork
mod CampaignAtWork
use side_channel_fuzzer.Prelude.{ℕ, zero, suc, ◌*◌, ◌≤◌, ◌≡◌, refl, ap, List, [], ◌∷◌, map, arith}
use side_channel_fuzzer.Traces.Contract.{CTraceEntryType, CTrace, ctrace_init}
use side_channel_fuzzer.Traces.Hardware.{HTraceType, RawHTraceSample, HTrace, htrace_init}
use side_channel_fuzzer.Traces.Classes.{TraceBundle}

-- 2 ^ x * (2 * a + 1)
abbrev pub encode : ℕ → ℕ → ℕ
encode zero a = suc (2 * a)
encode (suc x) a = 2 * encode x a

-- a digest without collisions
abbrev pub test_digest : List ℕ → ℕ
test_digest [] = 0
test_digest (x ∷ l) = encode x (test_digest l)

encode_pos : (x a : ℕ) → 1 ≤ encode x a
encode_pos zero a = omega arith
encode_pos (suc x) a = omega (arith, encode_pos x a)

encode_injective : (x y a b : ℕ) → encode x a ≡ encode y b → (x ≡ y) × (a ≡ b)
encode_injective zero zero a b h = (refl, omega arith)
encode_injective zero (suc y) a b h = absurd (omega arith)
encode_injective (suc x) zero a b h = absurd (omega arith)
encode_injective (suc x) (suc y) a b h =
    let (p, q) = encode_injective x y a b (omega arith) in (ap suc p, q)

pub test_digest_injective : (l k : List ℕ) → test_digest l ≡ test_digest k → l ≡ k
test_digest_injective [] [] h = refl
test_digest_injective [] (y ∷ k) h = absurd (omega (arith, encode_pos y (test_digest k)))
test_digest_injective (x ∷ l) [] h = absurd (omega (arith, encode_pos x (test_digest l)))
test_digest_injective (x ∷ l) (y ∷ k) h =
    let (p, q) = encode_injective x y (test_digest l) (test_digest k) h in
    rw (p, test_digest_injective l k q)

abbrev pub sample : ℕ → RawHTraceSample
sample x = record { trace = x; pfc0 = 0; pfc1 = 0; pfc2 = 0; pfc3 = 0; pfc4 = 0 }

abbrev pub hw : List ℕ → HTrace
hw l = htrace_init test_digest (map sample l) HTraceType.cache

abbrev pub ct : List ℕ → CTrace
ct l = ctrace_init test_digest (map (λ v. record { type_ = CTraceEntryType.mem; value = v }) l)

abbrev pub two_contracts : List CTrace
two_contracts = ct (1 ∷ []) ∷ ct (1 ∷ []) ∷ ct (2 ∷ []) ∷ []

abbrev pub two_traces : List HTrace
two_traces = hw (5 ∷ []) ∷ hw (6 ∷ []) ∷ hw (5 ∷ []) ∷ []

abbrev pub three_inputs : List ℕ
three_inputs = 10 ∷ 11 ∷ 12 ∷ []

abbrev pub bundle : ℕ → ℕ → List ℕ → List ℕ → TraceBundle ℕ
bundle i input c h = record { input_id = i; input = input; ctrace = ct c; htrace = hw h }

abbrev pub three_bundles : List (TraceBundle ℕ)
three_bundles =
    bundle 0 10 (1 ∷ []) (5 ∷ [])
    ∷ bundle 1 11 (1 ∷ []) (6 ∷ [])
    ∷ bundle 2 12 (2 ∷ []) (5 ∷ [])
    ∷ []
