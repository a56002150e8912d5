-- ===== src/Operands/Flags.antt =====
-- The flags of one operand by their use.
use side_channel_fuzzer.Prelude.{
  ◌≡◌, refl, Bool, true, false, not, ◌&&◌, ◌||◌, Option, none, some, List, [], ◌∷◌, arith,
  if◌then◌else◌, Bool-cases, inl, inr, subst,
}
use side_channel_fuzzer.Prelude.Texts.{Text, codes, text_eq, is_one_of, text_eq→eq, text_eq_refl}
use side_channel_fuzzer.Operands.{
  flag_names, get_flag_list, get_flags_by_type, flag_types, read, write, overwrite, undef,
}

-- the type of a flag
flag_type : Text → List Text → List Text → Option Text
flag_type f (name ∷ names) (type_ ∷ values) =
    let rest = flag_type f names values in if text_eq f name then some type_ else rest
flag_type f _ _ = none

-- No name comes twice.
abbrev AreDistinct : List Text → Type 0
AreDistinct [] = Unit
AreDistinct (n ∷ names) = (is_one_of n names ≡ false) × AreDistinct names

abbrev has_type : List Text → Option Text → Bool
has_type types none = false
has_type types (some t) = is_one_of t types

unlisted :
    (f : Text) (types names values : List Text)
    → is_one_of f names ≡ false
    → is_one_of f (get_flag_list types names values) ≡ false
unfolding is_one_of get_flag_list
unlisted f types [] [] h = refl
unlisted f types [] (v ∷ values) h = refl
unlisted f types (n ∷ names) [] h = refl
unlisted f types (n ∷ names) (v ∷ values) h = ground (arith, unlisted f types names values)

listed :
    (f : Text) (types names values : List Text)
    → AreDistinct names
    → is_one_of f (get_flag_list types names values) ≡ has_type types (flag_type f names values)
unfolding is_one_of get_flag_list flag_type
listed f types [] [] d = refl
listed f types [] (v ∷ values) d = refl
listed f types (n ∷ names) [] d = refl
listed f types (n ∷ names) (v ∷ values) d = elim (Bool-cases (text_eq f n)) [
  | inl same ↦ ground (
    arith,
    unlisted f types names values
        (subst (λ g. is_one_of g names ≡ false) (text_eq→eq n f (text_eq_sym f n same)) d.0),
  )
  | inr other ↦ ground (arith, listed f types names values d.1)
]
  where
    text_eq_sym : (s t : Text) → text_eq s t ≡ true → text_eq t s ≡ true
    text_eq_sym s t h = subst (λ u. text_eq u s ≡ true) (text_eq→eq s t h) (text_eq_refl s)

names_distinct : AreDistinct flag_names
unfolding is_one_of text_eq
names_distinct = (refl, (refl, (refl, (refl, (refl, (refl, (refl, (refl, (refl, tt)))))))))

overwrite-types :
    (t : Text)
    → is_one_of t (flag_types overwrite)
      ≡ (is_one_of t (flag_types write) && not (is_one_of t (flag_types read)))
unfolding flag_types is_one_of
overwrite-types t = elim (Bool-cases (text_eq t (codes "w"))) [
  | inl e ↦ rw (text_eq→eq t (codes "w") e) (unfold text_eq in refl)
  | inr e ↦ ground arith
]

undef-types :
    (t : Text)
    → (is_one_of t (flag_types undef)
        && (is_one_of t (flag_types write) || is_one_of t (flag_types read)))
      ≡ false
unfolding flag_types is_one_of
undef-types t = elim (Bool-cases (text_eq t (codes "undef"))) [
  | inl e ↦ rw (text_eq→eq t (codes "undef") e) (unfold text_eq in refl)
  | inr e ↦ ground arith
]

-- A flag is listed as overwritten exactly if it is listed as written and not as read, and a flag
-- listed as undefined is neither.
get_flags_by_type-uses :
    (f : Text) (values : List Text)
    → (is_one_of f (get_flags_by_type overwrite values) ≡ (
        is_one_of f (get_flags_by_type write values)
        && not (is_one_of f (get_flags_by_type read values))))
      × ((is_one_of f (get_flags_by_type undef values)
            && (is_one_of f (get_flags_by_type write values)
                || is_one_of f (get_flags_by_type read values)))
          ≡ false)
unfolding get_flags_by_type
get_flags_by_type-uses f values =
    rw
      (
        listed f (flag_types overwrite) flag_names values names_distinct,
        listed f (flag_types write) flag_names values names_distinct,
        listed f (flag_types read) flag_names values names_distinct,
        listed f (flag_types undef) flag_names values names_distinct,
      )
      (by_type (flag_type f flag_names values))
  where
    by_type :
        (o : Option Text)
        → (has_type (flag_types overwrite) o
            ≡ (has_type (flag_types write) o && not (has_type (flag_types read) o)))
          × ((has_type (flag_types undef) o
                && (has_type (flag_types write) o || has_type (flag_types read) o))
              ≡ false)
    by_type none = (refl, refl)
    by_type (some t) = (overwrite-types t, undef-types t)
