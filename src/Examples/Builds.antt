-- ===== src/Examples/Builds.antt =====
-- The build script at concrete inputs (build/*.rs).
use reql.Base.{Text, codes, text_eq, starts_with, join, true, none, some, List, [], ◌∷◌, ◌≡◌, refl}
use reql.Build.Strings.{split_lines, drop_return, contains, split_dot, replace_from}
use reql.Build.Docs.{doc_lines, gen_docs}
use reql.Build.Docs.Comments.{AreComments, gen_docs-AreComments}
use reql.Build.Config.{Entry, Section, menu}
use reql.Build.Command.{build}

-- The documentation of a command in the form that RethinkDB has it.
abbrev docs : Text
docs = join (codes "\n") (
    codes "# Command syntax #"
    ∷ codes "seq.ungroup()"
    ∷ []
    ∷ codes "# Description #"
    ∷ []
    ∷ codes "Take all groups. They end."
    ∷ codes "More"
    ∷ [])

gen_docs-AreComments_example : AreComments (gen_docs (codes "group") docs).1
gen_docs-AreComments_example = gen_docs-AreComments (codes "group") docs

abbrev comments : Text
comments = join (codes "\n") (
    codes "/// Take all groups"
    ∷ codes "///"
    ∷ codes "/// They end."
    ∷ codes "///"
    ∷ codes "/// More"
    ∷ []
    ∷ [])

-- `group` is taken for a command with no arguments where the documentation has `ungroup()` only.
group_without_arguments : gen_docs (codes "group") docs ≡ (true, comments)
unfolding gen_docs doc_lines join split_lines drop_return contains split_dot replace_from
    starts_with
group_without_arguments = refl

abbrev entry : Text → Text → Entry
entry n p = record { name = n; section = []; permalink = p; method = none; typ = none }

abbrev sections : List Section
sections =
    record {
      name = codes "Accessing ReQL";
      commands = entry (codes "do") (codes "do") ∷ entry (codes "r") (codes "r") ∷ [];
    }
    ∷ record { name = codes "Cursors"; commands = entry (codes "next") (codes "next") ∷ [] }
    ∷ record {
      name = codes "Geospatial commands";
      commands = entry (codes "toJsonString") (codes "to_json_string") ∷ [];
    }
    ∷ []

abbrev do_entry : Entry
do_entry = record {
  name = codes "do";
  section = codes "accessing-rql";
  permalink = codes "do";
  method = some (codes "do_");
  typ = some (codes "funcall");
}

abbrev json_entry : Entry
json_entry = record {
  name = codes "toJsonString";
  section = codes "geospatial";
  permalink = codes "to_json_string";
  method = some (codes "to_json");
  typ = none;
}

menu_example : menu sections ≡ do_entry ∷ json_entry ∷ []
unfolding menu text_eq replace_from starts_with
menu_example = refl

abbrev do_text : Text
do_text = join (codes "\n") (
    []
    ∷ codes "                /// Take all groups"
    ∷ codes "///"
    ∷ codes "/// They end."
    ∷ codes "///"
    ∷ codes "/// More"
    ∷ []
    ∷ codes "                pub fn do_<T: IntoArg>(&self, args: T) -> Client {"
    ∷ codes "                    util::make_cmd(self, \"do_\", Some(Type::FUNCALL), Some(args))"
    ∷ codes "                }"
    ∷ codes "            "
    ∷ [])

do_method : build do_entry docs ≡ some do_text
unfolding build gen_docs doc_lines join split_lines drop_return contains split_dot replace_from
    starts_with text_eq
do_method = refl
