-- ===== src/Operands/BaseRegister.antt =====
-- MemoryOp.get_base_register: the first token of an address that is not a number.
use side_channel_fuzzer.Prelude.{
  ℕ, Bool, true, false, not, ◌&&◌, ◌||◌, Option, none, some, List, [], ◌∷◌, ◌++◌, map, ◌==◌, leb,
  if◌then◌else◌, filter, all,
}
use side_channel_fuzzer.Prelude.Texts.{Text, lower}
use side_channel_fuzzer.Operands.{Operand, register_init}

abbrev is_space : ℕ → Bool
is_space c = c == b' ' || (leb 9 c && leb c 13) || (leb 28 c && leb c 31)

-- s.strip(), of a text in ASCII
unfoldable pub lstrip : Text → Text
lstrip [] = []
lstrip (c ∷ s) = let rest = lstrip s in if is_space c then rest else c ∷ s

unfoldable pub rstrip : Text → Text
rstrip [] = []
rstrip (c ∷ s) = let rest = rstrip s in if all is_space (c ∷ s) then [] else c ∷ rest

abbrev pub strip : Text → Text
strip s = rstrip (lstrip s)

-- s.isdigit(), of a text in ASCII
abbrev pub is_digit : Text → Bool
is_digit [] = false
is_digit (c ∷ s) = all (λ d. leb b'0' d && leb d b'9') (c ∷ s)

-- s.replace(p, ''), for a text `p` of two characters
unfoldable pub remove_pair : ℕ → ℕ → Text → Text
remove_pair a b [] = []
remove_pair a b (c ∷ []) = c ∷ []
remove_pair a b (c ∷ d ∷ s) =
    let shorter = remove_pair a b s in
    let longer = remove_pair a b (d ∷ s) in if c == a && d == b then shorter else c ∷ longer

-- s.split(sep), for a separator of one character: `token` is what was read of the current token
unfoldable pub split_from : ℕ → Text → Text → List Text
split_from sep token [] = token ∷ []
split_from sep token (c ∷ s) =
    let next = token ∷ split_from sep [] s in
    let same = split_from sep (token ++ c ∷ []) s in if c == sep then next else same

-- the loop over what is left of the tokens
abbrev pub first_token : ℕ → List Text → Option (Option Operand)
first_token width [] = some none
first_token width (t ∷ tokens) = elim (register_init (lower t) width true false) [
  | none ↦ none
  | some o ↦ some (some o)
]

-- MemoryOp.get_base_register, of the value and the width of the operand; the outer `none` is the
-- AssertionError of RegisterOp
unfoldable pub get_base_register : Text → ℕ → Option (Option Operand)
unfolding lstrip rstrip remove_pair split_from register_init
get_base_register value width =
    let addr = strip value in
    let dashes = map (λ c. if c == b'-' then b'+' else c) addr in
    let tokens = map strip (split_from b'+' [] dashes) in
    let tokens1 = filter (λ t. not (is_digit (remove_pair b'0' b'x' t))) tokens in
    let tokens2 = filter (λ t. not (is_digit (remove_pair b'0' b'b' t))) tokens1 in
    first_token width tokens2
