-- ===== src/Build/Config/Keywords.antt =====
-- The names of the methods and the keywords of Rust (build/config.rs).
use reql.Base.{
  Text, codes, text_eq, text_eq_iff, Bool, true, false, ◌||◌, none, some, List, [], ◌∷◌, ◌++◌, map,
  if◌then◌else◌, All, ◌≡◌, ◌≢◌, ◌⊎◌, refl, inl, inr, sym, subst,
}
use reql.Build.Config.{
  Entry, Section, section_entries, all_entries, directory, rename_section, with_section, is_in,
  filter, section_kept, command_kept, keywords, rename_keyword, rename_command, finish, menu,
  or_permalink, method_name,
}
use reql.Build.Config.Menu.{links_of, one_of}
use reql.Build.Config.Fields.{if-both, link, given, finish-link, finish-given, commands-rename}

-- The method's name is none of the words that are keywords of Rust.
abbrev pub IsCallable : Entry → Type 0
IsCallable e =
    (method_name e ≢ codes "mod") × (method_name e ≢ codes "match") × (method_name e ≢ codes "do")

-- As the code tells it.
abbrev IsOther : Text → Type 0
IsOther p = is_in keywords p ≡ false

IsOther-apart : (p : Text) → IsOther p → (p ≢ codes "mod") × (p ≢ codes "match") × (p ≢ codes "do")
unfolding text_eq
IsOther-apart p h = (
  λ q. by_word (codes "mod") q (λ k. cc),
  λ q. by_word (codes "match") q (λ k. cc),
  λ q. by_word (codes "do") q (λ k. cc),
)
  where
    by_word : (w : Text) → p ≡ w → (IsOther w → ⊥) → ⊥
    by_word w q k = k (subst IsOther q h)

is_in-cons :
    (t : Text) (ts : List Text) (p : Text) → is_in (t ∷ ts) p ≡ true → (t ≡ p) ⊎ (is_in ts p ≡ true)
is_in-cons t ts p = by_test (text_eq t p) ((text_eq_iff t p).0)
  where
    by_test :
        (b : Bool) → (b ≡ true → t ≡ p) → (b || is_in ts p) ≡ true → (t ≡ p) ⊎ (is_in ts p ≡ true)
    by_test true k h = inl (k refl)
    by_test false k h = inr h

keyword-cases :
    (Q : Text → Type 0)
    → Q (codes "mod")
    → Q (codes "match")
    → Q (codes "do")
    → (p : Text) → is_in keywords p ≡ true
    → Q p
keyword-cases Q a b c p h = elim (is_in-cons (codes "mod") (codes "match" ∷ codes "do" ∷ []) p h) [
  | inl q ↦ subst Q q a
  | inr h' ↦ elim (is_in-cons (codes "match") (codes "do" ∷ []) p h') [
    | inl q ↦ subst Q q b
    | inr h'' ↦ elim (is_in-cons (codes "do") [] p h'') [ inl q ↦ subst Q q c | inr k ↦ cc ]
  ]
]

-- An entry called `p` with no method of its own.
abbrev plain : Entry → Text → Entry
plain e p = record e { permalink = p; method = none }

-- The method's name, if `b` tells that the name is a keyword.
abbrev renamed : Entry → Text → Bool → Text
renamed e p b =
    let k = if b then record e { permalink = p; method = some (p ++ codes "_") } else plain e p in
    or_permalink (given (rename_command k)) p

renamed-IsCallable :
    (e : Entry) (p : Text) (b : Bool)
    → is_in keywords p ≡ b
    → is_in keywords (renamed e p b) ≡ false
unfolding text_eq
renamed-IsCallable e p true h =
    keyword-cases (λ t. is_in keywords (renamed e t true) ≡ false) refl refl refl p h
renamed-IsCallable e p false h =
    if-both (λ x. is_in keywords (or_permalink (given x) p)) (text_eq (codes "to_json_string") p) _
      (plain e p) false refl h

finish-IsCallable : (e : Entry) → e.method ≡ none → IsCallable (finish e)
finish-IsCallable e h =
    let r : is_in keywords (or_permalink (given (rename_command (rename_keyword e))) (link e))
        ≡ false =
      subst
        (λ m.
          is_in keywords (
            or_permalink (given (rename_command (rename_keyword (record e { method = m }))))
              (link e))
          ≡ false)
        (sym h) (renamed-IsCallable e e.permalink (is_in keywords e.permalink) refl) in
    IsOther-apart _ (rw (finish-given e, finish-link e) r)

-- How a command's method is called in Rust.
abbrev pub rust_name : Text → Text
rust_name p =
    if text_eq (codes "to_json_string") p
    then codes "to_json"
    else if one_of (codes "mod" ∷ codes "match" ∷ codes "do" ∷ []) p
    then p ++ codes "_"
    else p

-- The name of one of two entries.
chosen :
    (p : Text) (t : Bool) (x y : Entry)
    → or_permalink (given (if t then x else y)) p
      ≡ (if t then or_permalink (given x) p else or_permalink (given y) p)
chosen p true x y = refl
chosen p false x y = refl

-- The method's name by its two tests.
renamed-tests :
    (e : Entry) (p : Text) (b : Bool)
    → renamed e p b ≡ (
        if text_eq (codes "to_json_string") p
        then codes "to_json"
        else if b
        then p ++ codes "_"
        else p)
renamed-tests e p true = chosen p (text_eq (codes "to_json_string") p) _ _
renamed-tests e p false = chosen p (text_eq (codes "to_json_string") p) _ _

finish-rust_name : (e : Entry) → e.method ≡ none → method_name (finish e) ≡ rust_name (link e)
finish-rust_name e h =
    let r : or_permalink (given (rename_command (rename_keyword e))) (link e) ≡ rust_name (link e) =
      subst
        (λ m.
          or_permalink (given (rename_command (rename_keyword (record e { method = m })))) (link e)
          ≡ rust_name (link e))
        (sym h) (renamed-tests e e.permalink (is_in keywords e.permalink)) in
    rw (finish-given e, finish-link e) r

abbrev pub Plain : Entry → Type 0
Plain e = e.method ≡ none

abbrev pub PlainSection : Section → Type 0
PlainSection s = All Plain s.commands

Plain-section : (n : Text) (cs : List Entry) → All Plain cs → All Plain (map (with_section n) cs)
Plain-section n [] h = tt
Plain-section n (c ∷ cs) (p, h) = (p, Plain-section n cs h)

Plain-append : (es fs : List Entry) → All Plain es → All Plain fs → All Plain (es ++ fs)
Plain-append [] fs h k = k
Plain-append (e ∷ es) fs (p, h) k = (p, Plain-append es fs h k)

Plain-filter : (f : Entry → Bool) (es : List Entry) → All Plain es → All Plain (filter f es)
Plain-filter f [] h = tt
Plain-filter f (e ∷ es) (p, h) = by_test (f e) (Plain-filter f es h)
  where
    by_test :
        (b : Bool)
        → All Plain (filter f es)
        → All Plain (if b then e ∷ filter f es else filter f es)
    by_test true k = (p, k)
    by_test false k = k

Plain-all : (ss : List Section) → All PlainSection ss → All Plain (all_entries ss)
Plain-all [] h = tt
Plain-all (s ∷ ss) (p, h) =
    Plain-append (section_entries (directory (rename_section s))) (all_entries ss)
      (Plain-section _ (rename_section s).commands (subst (All Plain) (sym (commands-rename s)) p))
      (Plain-all ss h)

IsCallable-finish : (es : List Entry) → All Plain es → All IsCallable (map finish es)
IsCallable-finish [] h = tt
IsCallable-finish (e ∷ es) (p, h) = (finish-IsCallable e p, IsCallable-finish es h)

-- In the whole menu.
pub menu-IsCallable : (ss : List Section) → All PlainSection ss → All IsCallable (menu ss)
unfolding menu
menu-IsCallable ss h =
    IsCallable-finish _ (Plain-filter command_kept _ (Plain-filter section_kept _ (Plain-all ss h)))

rust_name-finish :
    (es : List Entry)
    → All Plain es
    → map method_name (map finish es) ≡ map rust_name (links_of (map finish es))
rust_name-finish [] h = refl
rust_name-finish (e ∷ es) (p, h) =
    rw (finish-rust_name e p, finish-link e, rust_name-finish es h) refl

pub menu-rust_name :
    (ss : List Section)
    → All PlainSection ss
    → map method_name (menu ss) ≡ map rust_name (links_of (menu ss))
unfolding menu
menu-rust_name ss h =
    rust_name-finish _ (Plain-filter command_kept _ (Plain-filter section_kept _ (Plain-all ss h)))
