-- ===== src/Fuzzer/Fencing.antt =====
-- `_create_fenced_test_case` of rvzr/arch/x86/fuzzer.py and rvzr/arch/arm64/fuzzer.py: the lines of
-- a program, with fences between them. A file is the list of the texts that are written to it.
pub mod Erasing
use side_channel_fuzzer.Prelude.{
  ℕ, ◌+◌, Bool, true, false, not, ◌&&◌, ◌||◌, Option, none, some, List, [], ◌∷◌, ◌++◌, ◌>>=◌,
  if◌then◌else◌, ◌==◌, leb,
}
use side_channel_fuzzer.Prelude.Texts.{Text, codes, has_part, lower}
use side_channel_fuzzer.Grouping.Members.{is_nonempty}

-- line.strip(), of a text in ASCII
abbrev pub is_space : ℕ → Bool
is_space c = c == 32 || leb 9 c && leb c 13 || leb 28 c && leb c 31

unfoldable pub strip_start : Text → Text
strip_start [] = []
strip_start (c ∷ s) = let rest = strip_start s in if is_space c then rest else c ∷ s

unfoldable pub strip_end : Text → Text
strip_end [] = []
strip_end (c ∷ s) =
    let rest = strip_end s in if is_nonempty rest || not (is_space c) then c ∷ rest else []

unfoldable pub strip : Text → Text
unfolding strip_start strip_end
strip s = strip_end (strip_start s)

-- What the loop does behind a line: it goes on without a fence, it ends, or it adds a fence.
pub data LineKind : Type 0 where
  bare test_case_exit plain : LineKind

abbrev pub is_directive : Text → Bool
is_directive line =
    has_part (codes "section") line
    || has_part (codes "syntax") line
    || has_part (codes "function") line
    || has_part (codes "macro") line

-- the tests on the line, stripped and in lower case
unfoldable pub line_kind : Text → LineKind
unfolding has_part
line_kind [] = bare
line_kind (c ∷ s) =
    let line : Text = c ∷ s in
    if c == b'#' || c == b'j' || has_part (codes "loop") line || is_directive line
    then bare
    else if has_part (codes "test_case_exit") line
    then test_case_exit
    else plain

abbrev pub lfence : Text
lfence = codes "lfence\n"

unfoldable pub kind_of : Text → LineKind
unfolding line_kind strip lower
kind_of line = line_kind (lower (strip line))

-- What the loop writes for a line of a kind, with the lines behind it and what it writes for them.
-- The line behind a plain one is read even where there is none.
unfoldable pub fence_line : LineKind → Text → List Text → Option (List Text) → Option (List Text)
unfolding has_part
fence_line bare line rest fenced = do written ← fenced; some (line ∷ written)
fence_line test_case_exit line rest fenced = some (line ∷ [])
fence_line plain line [] fenced = none
fence_line plain line (next ∷ rest) fenced = do
  written ← fenced
  some (if has_part (codes "landing") next then line ∷ written else line ∷ lfence ∷ written)

-- the loop of the x86 version
unfoldable pub fence_lines : List Text → Option (List Text)
unfolding kind_of fence_line
fence_lines [] = some []
fence_lines (line ∷ rest) = fence_line (kind_of line) line rest (fence_lines rest)

-- the tests of the ARM64 version
unfoldable pub is_fenced_arm64 : Text → Bool
unfolding has_part
is_fenced_arm64 [] = false
is_fenced_arm64 (c ∷ s) =
    not (c == b'/' || c == b'.' || c == b'b') && not (has_part (codes "macro") (c ∷ s))

abbrev pub dsb_isb : Text
dsb_isb = codes "dsb SY\n isb\n"

unfoldable pub fence_lines_arm64 : List Text → List Text
unfolding is_fenced_arm64 strip lower
fence_lines_arm64 [] = []
fence_lines_arm64 (line ∷ rest) =
    let written = fence_lines_arm64 rest in
    if is_fenced_arm64 (lower (strip line)) then line ∷ dsb_isb ∷ written else line ∷ written
