-- ===== src/Fuzzer/Fencing/Erasing.antt =====
-- What fencing does to the lines of a program.
use side_channel_fuzzer.Prelude.{
  ◌&&◌, ◌≡◌, refl, Bool, true, false, not, Option, none, some, List, [], ◌∷◌, ◌++◌, arith,
  if◌then◌else◌, inl, inr, Bool-cases, >>=-eq-some, filter, all, any, Option-cases,
}
use side_channel_fuzzer.Prelude.Texts.{Text, text_eq, text_eq_refl, codes, has_part, lower}
use side_channel_fuzzer.Fuzzer.Fencing.{
  LineKind, bare, test_case_exit, plain, kind_of, lfence, fence_line, fence_lines, dsb_isb,
  fence_lines_arm64, is_fenced_arm64, strip,
}

-- a line other than the given fence
abbrev pub is_other : Text → Text → Bool
is_other fence line = not (text_eq line fence)

abbrev pub is_exit_kind : LineKind → Bool
is_exit_kind bare = false
is_exit_kind test_case_exit = true
is_exit_kind plain = false

abbrev pub is_exit : Text → Bool
is_exit line = is_exit_kind (kind_of line)

-- the lines up to the exit, and with it
abbrev pub upto_exit : List Text → List Text
upto_exit [] = []
upto_exit (line ∷ rest) =
    let kept = upto_exit rest in if is_exit line then line ∷ [] else line ∷ kept

filter_fence :
    (fence : Text) (l : List Text) → filter (is_other fence) (fence ∷ l) ≡ filter (is_other fence) l
filter_fence fence l = ground (arith, text_eq_refl fence)

fence_line-erased :
    (kind : LineKind) (line : Text) (rest written kept : List Text) (fenced : Option (List Text))
    → is_other lfence line ≡ true
    → ((w : List Text) → fenced ≡ some w → filter (is_other lfence) w ≡ kept)
    → fence_line kind line rest fenced ≡ some written
    → filter (is_other lfence) written ≡ (if is_exit_kind kind then line ∷ [] else line ∷ kept)
unfolding fence_line
fence_line-erased bare line rest written kept fenced other ih h =
    let (w, behind, e) = >>=-eq-some fenced _ h in ground (arith, ih w behind)
fence_line-erased test_case_exit line rest written kept fenced other ih h = ground arith
fence_line-erased plain line [] written kept fenced other ih h = cc
fence_line-erased plain line (next ∷ rest) written kept fenced other ih h =
    let (w, behind, e) = >>=-eq-some fenced _ h in
    elim (Bool-cases (has_part (codes "landing") next)) [
      | inl lands ↦ ground (arith, ih w behind)
      | inr falls ↦ ground (arith, ih w behind, filter_fence lfence w)
    ]

fence_lines-erased :
    (lines written : List Text)
    → all (is_other lfence) lines ≡ true
    → fence_lines lines ≡ some written
    → filter (is_other lfence) written ≡ upto_exit lines
unfolding fence_lines
fence_lines-erased [] written other h = ground arith
fence_lines-erased (line ∷ rest) written other h =
    fence_line-erased (kind_of line) line rest written (upto_exit rest) (fence_lines rest)
      (ground arith) (λ w. fence_lines-erased rest w (ground arith)) h

abbrev is_plain_kind : LineKind → Bool
is_plain_kind bare = false
is_plain_kind test_case_exit = false
is_plain_kind plain = true

-- a line that gets a fence behind it
abbrev pub is_plain : Text → Bool
is_plain line = is_plain_kind (kind_of line)

-- the next line is a fence
abbrev pub starts_with_fence : List Text → Bool
starts_with_fence [] = false
starts_with_fence (line ∷ rest) = text_eq line lfence

-- the next line of the program is a landing pad
abbrev pub next_lands : List Text → Bool
next_lands [] = false
next_lands (line ∷ rest) =
    let later = next_lands rest in
    if text_eq line lfence then later else has_part (codes "landing") line

-- Behind each line of the program there is a fence exactly if the line is plain and no landing pad
-- comes next.
abbrev pub fences_right : List Text → Bool
fences_right [] = true
fences_right (line ∷ rest) =
    let later = fences_right rest in
    (if text_eq line lfence
      then true
      else if starts_with_fence rest
      then is_plain line && not (next_lands rest)
      else not (is_plain line && not (next_lands rest)))
    && later

-- what is written for lines begins with the first of them
abbrev BeginsAs : List Text → List Text → Type 0
BeginsAs [] w = w ≡ []
BeginsAs (line ∷ rest) w = (w' : List Text) × (w ≡ line ∷ w')

fence_line-BeginsAs :
    (kind : LineKind) (line : Text) (rest written : List Text) (fenced : Option (List Text))
    → fence_line kind line rest fenced ≡ some written
    → (w' : List Text) × (written ≡ line ∷ w')
unfolding fence_line
fence_line-BeginsAs bare line rest written fenced h =
    let (w, behind, e) = >>=-eq-some fenced _ h in (w, ground arith)
fence_line-BeginsAs test_case_exit line rest written fenced h = ([], ground arith)
fence_line-BeginsAs plain line [] written fenced h = cc
fence_line-BeginsAs plain line (next ∷ rest) written fenced h =
    let (w, behind, e) = >>=-eq-some fenced _ h in
    elim (Bool-cases (has_part (codes "landing") next)) [
      | inl lands ↦ (w, ground arith)
      | inr falls ↦ (lfence ∷ w, ground arith)
    ]

fence_lines-BeginsAs :
    (lines written : List Text) → fence_lines lines ≡ some written → BeginsAs lines written
unfolding fence_lines
fence_lines-BeginsAs [] written h = ground arith
fence_lines-BeginsAs (line ∷ rest) written h =
    fence_line-BeginsAs (kind_of line) line rest written (fence_lines rest) h

-- before what is written for lines, there is no fence
no_fence_before :
    (rest w : List Text)
    → all (is_other lfence) rest ≡ true
    → BeginsAs rest w
    → starts_with_fence w ≡ false
no_fence_before [] w other b = ground arith
no_fence_before (next ∷ rest) w other (w', e) = rw e (ground arith)

fence_line-right :
    (kind : LineKind) (line : Text) (rest written : List Text) (fenced : Option (List Text))
    → kind_of line ≡ kind
    → all (is_other lfence) (line ∷ rest) ≡ true
    → ((w : List Text) → fenced ≡ some w → (fences_right w ≡ true) × BeginsAs rest w)
    → fence_line kind line rest fenced ≡ some written
    → fences_right written ≡ true
unfolding fence_line
fence_line-right bare line rest written fenced k other ih h =
    let (w, behind, e) = >>=-eq-some fenced _ h in
    let (right, begins) = ih w behind in
    let shape : written ≡ line ∷ w = ground arith in
    rw shape (ground (arith, no_fence_before rest w (ground arith) begins))
fence_line-right test_case_exit line rest written fenced k other ih h =
    let shape : written ≡ line ∷ [] = ground arith in rw shape (ground arith)
fence_line-right plain line [] written fenced k other ih h = cc
fence_line-right plain line (next ∷ rest) written fenced k other ih h =
    let (w, behind, e) = >>=-eq-some fenced _ h in
    let (right, (w', begins)) = ih w behind in
    elim (Bool-cases (has_part (codes "landing") next)) [
      | inl lands ↦ let shape : written ≡ line ∷ next ∷ w' = ground arith in rw shape (ground arith)
      | inr falls ↦
          let shape : written ≡ line ∷ lfence ∷ next ∷ w' = ground arith in
          rw shape (ground (arith, text_eq_refl lfence))
    ]

fence_lines-right :
    (lines written : List Text)
    → all (is_other lfence) lines ≡ true
    → fence_lines lines ≡ some written
    → fences_right written ≡ true
unfolding fence_lines
fence_lines-right [] written other h = ground arith
fence_lines-right (line ∷ rest) written other h =
    fence_line-right (kind_of line) line rest written (fence_lines rest) refl other
      (λ w e. (fence_lines-right rest w (ground arith) e, fence_lines-BeginsAs rest w e)) h

pub fence_lines_arm64-erased :
    (lines : List Text)
    → all (is_other dsb_isb) lines ≡ true
    → filter (is_other dsb_isb) (fence_lines_arm64 lines) ≡ lines
unfolding fence_lines_arm64
fence_lines_arm64-erased [] other = refl
fence_lines_arm64-erased (line ∷ rest) other =
    let ih = fence_lines_arm64-erased rest (ground arith) in
    elim (Bool-cases (is_fenced_arm64 (lower (strip line)))) [
      | inl fenced ↦ ground (arith, filter_fence dsb_isb (fence_lines_arm64 rest))
      | inr bare_line ↦ ground arith
    ]

fence_line_total :
    (kind : LineKind) (line next : Text) (rest : List Text) (fenced : Option (List Text))
    → fence_line kind line (next ∷ rest) fenced ≡ none
    → fenced ≡ none
unfolding fence_line
fence_line_total kind line next rest fenced h = ground arith

fence_line_raises :
    (kind : LineKind) (line : Text) (rest : List Text)
    → is_exit_kind kind ≡ false
    → fence_line kind line rest none ≡ none
unfolding fence_line
fence_line_raises kind line rest h = ground arith

fence_line_exit :
    (kind : LineKind) (line : Text) (rest : List Text) (fenced : Option (List Text))
    → is_exit_kind kind ≡ true
    → fence_line kind line rest fenced ≡ some (line ∷ [])
unfolding fence_line
fence_line_exit kind line rest fenced h = ground arith

fence_lines_never :
    (lines : List Text) → any is_exit lines ≡ true → fence_lines lines ≡ none → false ≡ true
unfolding fence_lines
fence_lines_never [] h e = h
fence_lines_never (line ∷ []) h e = ground (arith, fence_line_exit (kind_of line) line [] (some []))
fence_lines_never (line ∷ next ∷ rest) h e = elim (Bool-cases (is_exit line)) [
  | inl exits ↦
      let ended =
        fence_line_exit (kind_of line) line (next ∷ rest) (fence_lines (next ∷ rest)) exits in
      absurd (cc)
  | inr goes_on ↦
      fence_lines_never (next ∷ rest) (ground arith)
        (fence_line_total (kind_of line) line next rest (fence_lines (next ∷ rest)) e)
]

fence_lines_total :
    (lines : List Text)
    → any is_exit lines ≡ true
    → (written : List Text) × (fence_lines lines ≡ some written)
fence_lines_total lines h = elim (Option-cases (fence_lines lines)) [
  | inl raised ↦ absurd (ground (arith, fence_lines_never lines h raised))
  | inr found ↦ found
]

-- A program with an exit, and without `lfence` lines, is fenced without an error; without its fences
-- the result is the program up to its exit, and behind each line of it there is a fence exactly if
-- the line is plain and no landing pad comes next.
pub fence_lines_lem :
    (lines : List Text)
    → any is_exit lines ≡ true
    → all (is_other lfence) lines ≡ true
    → (written : List Text) × (fence_lines lines ≡ some written)
      × (filter (is_other lfence) written ≡ upto_exit lines)
      × (fences_right written ≡ true)
fence_lines_lem lines h other =
    let (written, e) = fence_lines_total lines h in
    (written, e, fence_lines-erased lines written other e, fence_lines-right lines written other e)

-- A program without an exit whose last line is a plain one raises, wherever else it has fences.
pub last_line_raises :
    (lines : List Text) (line : Text)
    → any is_exit lines ≡ false
    → kind_of line ≡ plain
    → fence_lines (lines ++ line ∷ []) ≡ none
unfolding fence_lines fence_line
last_line_raises [] line h p = ground arith
last_line_raises (l ∷ lines) line h p =
    let ih = last_line_raises lines line (ground arith) p in
    ground (arith, fence_line_raises (kind_of l) l (lines ++ line ∷ []) (ground arith))
