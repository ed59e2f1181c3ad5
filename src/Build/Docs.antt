-- ===== src/Build/Docs.antt =====
-- `gen_docs` and `fixup` of build/commands.rs: the doc comment of a command, and whether its method
-- takes no arguments.
pub mod Lines
pub mod Comments
use reql.Base.{
  Text, codes, starts_with, Bool, true, false, ◌||◌, Option, none, some, List, [], ◌∷◌, ◌++◌, map,
  if◌then◌else◌,
}
use reql.Build.Strings.{
  concat, lines, contains, is_empty, is_space, is_dot, trim, trim_left, split_dot, replace,
}

-- `format!("/// {}\n", line)`
abbrev pub comment : Text → Text
comment line = codes "/// " ++ (line ++ codes "\n")

abbrev pub images : Text
images = codes "/assets/images/docs/"

abbrev pub github : Text
github = codes "https://raw.githubusercontent.com/rethinkdb/docs/master/_jekyll/_images/"

abbrev pub fixup : Text → Text
fixup commands = concat (map (replace images github) (lines commands))

-- The variables of `gen_docs`.
pub record Docs : Type 0 where
  pub no_args : Bool
  pub doc_block : Bool
  pub parse : Bool
  pub doc_str : Text
  pub img : Text
  pub next_line : Text

abbrev pub no_docs : Docs
no_docs = record {
  no_args = false;
  doc_block = false;
  parse = false;
  doc_str = [];
  img = [];
  next_line = [];
}

abbrev pub end_title : Docs → Text → Option (Text × Text) → Docs
end_title d line (some (t, n)) = record d {
  doc_str = d.doc_str ++ comment t;
  next_line = trim (trim_left is_dot n);
  parse = true;
}
end_title d line none = record d { doc_str = d.doc_str ++ comment line }

-- A line of the description, up to the end of its first sentence.
abbrev pub title : Docs → Text → Docs
title d line = end_title d line (split_dot line)

abbrev pub description : Docs → Text → Docs
description d line =
    if starts_with (codes "# Description #") line then record d { doc_block = true } else d

-- A line before the parsing has started.
abbrev pub before_parse : Docs → Text → Docs
before_parse d line =
    if is_empty (trim line)
    then d
    else if starts_with (codes "<img src=") line
    then record d { img = line }
    else if d.doc_block
    then title d line
    else description d line

abbrev pub mark_no_args : Text → Text → Docs → Docs
mark_no_args cmd line d = record d { no_args = d.no_args || contains cmd line }

-- What a line adds to the documentation; `more` reads the lines behind it.
abbrev pub doc_line : Bool → Docs → Text → (Docs → Docs × Text) → Docs × Text
doc_line true d line more = let (d', text) = more d in (d', comment line ++ text)
doc_line false d line more = more (before_parse d line)

unfoldable pub doc_lines : Text → Docs → List Text → Docs × Text
doc_lines cmd d [] = (d, [])
doc_lines cmd d (line ∷ ls) =
    doc_line d.parse (mark_no_args cmd line d) (fixup line) (λ d'. doc_lines cmd d' ls)

abbrev pub below : Text → Text
below [] = []
below (c ∷ cs) = codes "///\n" ++ comment (c ∷ cs)

abbrev pub all_below : Text → Text
all_below [] = []
all_below (c ∷ cs) = codes "///\n" ++ (c ∷ cs)

abbrev pub doc_text : Docs → Text → Text
doc_text d text = ((d.doc_str ++ below d.img) ++ below d.next_line) ++ all_below text

-- `gen_docs` of the command that is called `name` in the menu.
unfoldable pub gen_docs : Text → Text → Bool × Text
gen_docs name docs =
    let (d, text) = doc_lines (name ++ codes "()") no_docs (lines docs) in
    (d.no_args, doc_text d text)
