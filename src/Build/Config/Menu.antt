-- ===== src/Build/Config/Menu.antt =====
-- Which commands of RethinkDB's menu become methods (build/config.rs).
use reql.Base.{
  Text, codes, text_eq, Bool, true, false, not, ◌||◌, List, [], ◌∷◌, ◌++◌, map, if◌then◌else◌, ◌≡◌,
  refl, ap, ◌∙◌,
}
use reql.Build.Config.{
  Entry, Section, all_entries, directory, rename_section, with_section, filter, section_kept,
  command_kept, finish, menu,
}
use reql.Build.Config.Fields.{link, finish-link, commands-rename}

-- The menu's permalinks, section by section.
abbrev pub links_of : List Entry → List Text
links_of es = map link es

-- The commands that have no method.
abbrev left_out : List Text
left_out =
    codes "r"
    ∷ codes "args"
    ∷ codes "use"
    ∷ codes "row"
    ∷ codes "opt_arg"
    ∷ codes "array"
    ∷ codes "object"
    ∷ codes "close"
    ∷ codes "reconnect"
    ∷ codes "noreply_wait"
    ∷ codes "server"
    ∷ codes "event_emitter"
    ∷ codes "run"
    ∷ []

abbrev pub one_of : List Text → Text → Bool
one_of [] s = false
one_of (t ∷ ts) s = text_eq t s || one_of ts s

abbrev pub kept_links : List Text → List Text
kept_links [] = []
kept_links (n ∷ ns) = let rest = kept_links ns in if one_of left_out n then rest else n ∷ rest

abbrev pub is_cursors : Section → Bool
is_cursors s = text_eq (codes "cursors") (directory (rename_section s)).name

abbrev pub section_links : List Section → List Text
section_links [] = []
section_links (s ∷ ss) =
    let rest = section_links ss in
    if is_cursors s then rest else kept_links (links_of s.commands) ++ rest

filter-append :
    (f : Entry → Bool) (es fs : List Entry) → filter f (es ++ fs) ≡ filter f es ++ filter f fs
filter-append f [] fs = refl
filter-append f (e ∷ es) fs = by_test (f e) (filter-append f es fs)
  where
    by_test :
        (b : Bool)
        → filter f (es ++ fs) ≡ filter f es ++ filter f fs
        → (if b then e ∷ filter f (es ++ fs) else filter f (es ++ fs))
          ≡ (if b then e ∷ filter f es else filter f es) ++ filter f fs
    by_test true h = ap (λ r. e ∷ r) h
    by_test false h = h

links_of-append : (es fs : List Entry) → links_of (es ++ fs) ≡ links_of es ++ links_of fs
links_of-append [] fs = refl
links_of-append (e ∷ es) fs = ap (λ r. link e ∷ r) (links_of-append es fs)

links_of-finish : (es : List Entry) → links_of (map finish es) ≡ links_of es
links_of-finish [] = refl
links_of-finish (e ∷ es) = rw (finish-link e, links_of-finish es) refl

abbrev kept : List Entry → List Entry
kept es = filter command_kept (filter section_kept es)

links_of-kept :
    (d : Bool) (e : Entry) (es : List Entry) (ns : List Text)
    → links_of es ≡ ns
    → links_of (if not d then e ∷ es else es) ≡ (if d then ns else link e ∷ ns)
links_of-kept true e es ns h = h
links_of-kept false e es ns h = ap (λ r. link e ∷ r) h

links_of-member :
    (b : Bool) (e : Entry) (es : List Entry) (ns : List Text)
    → links_of (filter command_kept es) ≡ (if b then [] else kept_links ns)
    → links_of (filter command_kept (if not (b || false) then e ∷ es else es))
      ≡ (if b then [] else kept_links (link e ∷ ns))
links_of-member true e es ns h = h
links_of-member false e es ns h =
    links_of-kept (one_of left_out (link e)) e (filter command_kept es) (kept_links ns) h

abbrev no_names : List Text
no_names = []

no_links : (b : Bool) → no_names ≡ (if b then [] else [])
no_links true = refl
no_links false = refl

links_of-section :
    (n : Text) (cs : List Entry)
    → links_of (kept (map (with_section n) cs))
      ≡ (if text_eq (codes "cursors") n then [] else kept_links (links_of cs))
links_of-section n [] = no_links (text_eq (codes "cursors") n)
links_of-section n (c ∷ cs) =
    links_of-member (text_eq (codes "cursors") n) (with_section n c)
      (filter section_kept (map (with_section n) cs)) (links_of cs) (links_of-section n cs)

append-if :
    (b : Bool) (ms ns : List Text) → (if b then [] else ms) ++ ns ≡ (if b then ns else ms ++ ns)
append-if true ms ns = refl
append-if false ms ns = refl

links_of-all : (ss : List Section) → links_of (kept (all_entries ss)) ≡ section_links ss
links_of-all [] = refl
links_of-all (s ∷ ss) =
    let n = (directory (rename_section s)).name in
    let cs = (rename_section s).commands in
    let es = map (with_section n) cs in
    ap (λ x. links_of (filter command_kept x)) (filter-append section_kept es (all_entries ss))
    ∙ (ap links_of (
          filter-append command_kept (filter section_kept es)
            (filter section_kept (all_entries ss)))
        ∙ (links_of-append (kept es) (kept (all_entries ss))
            ∙ (ap (λ r. links_of (kept es) ++ r) (links_of-all ss)
                ∙ (ap (λ r. r ++ section_links ss) (links_of-section n cs)
                    ∙ (append-if (is_cursors s) (kept_links (links_of cs)) (section_links ss)
                        ∙ ap
                            (λ x.
                              if is_cursors s
                              then section_links ss
                              else kept_links (links_of x) ++ section_links ss)
                            (commands-rename s))))))

-- The section `cursors` and the commands of the blacklist are left out.
pub menu-links : (ss : List Section) → links_of (menu ss) ≡ section_links ss
unfolding menu
menu-links ss = links_of-finish (kept (all_entries ss)) ∙ links_of-all ss
