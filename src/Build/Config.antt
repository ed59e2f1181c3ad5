-- ===== src/Build/Config.antt =====
-- `Config::new` of build/config.rs: the commands of RethinkDB's menu that become methods. The menu
-- is read from YAML by serde_yaml.
pub mod Fields
pub mod Keywords
pub mod Menu
pub mod Methods
use reql.Base.{
  Text, codes, text_eq, Bool, true, false, not, ◌||◌, Option, none, some, List, [], ◌∷◌, ◌++◌, map,
  if◌then◌else◌,
}
use reql.Build.Strings.{replace, to_lowercase}

-- `Command` of the menu.
pub record Entry : Type 0 where
  pub name : Text
  pub section : Text
  pub permalink : Text
  pub method : Option Text
  pub typ : Option Text

pub record Section : Type 0 where
  pub name : Text
  pub commands : List Entry

abbrev pub set_name : Section → Text → Section
set_name s n = record s { name = n }

abbrev pub rename_section : Section → Section
rename_section s =
    if text_eq s.name (codes "Geospatial commands")
    then set_name s (codes "Geospatial")
    else if text_eq s.name (codes "Accessing ReQL")
    then set_name s (codes "Accessing RQL")
    else s

-- As the section's directory is called.
abbrev pub directory : Section → Section
directory s = set_name s (to_lowercase (replace (codes " ") (codes "-") s.name))

abbrev pub with_section : Text → Entry → Entry
with_section n e = record e { section = n }

abbrev pub section_entries : Section → List Entry
section_entries s = map (with_section s.name) s.commands

abbrev pub all_entries : List Section → List Entry
all_entries [] = []
all_entries (s ∷ ss) = section_entries (directory (rename_section s)) ++ all_entries ss

abbrev pub is_in : List Text → Text → Bool
is_in [] s = false
is_in (t ∷ ts) s = text_eq t s || is_in ts s

abbrev pub filter : (Entry → Bool) → List Entry → List Entry
filter p [] = []
filter p (e ∷ es) = let rest = filter p es in if p e then e ∷ rest else rest

abbrev pub section_kept : Entry → Bool
section_kept e = not (is_in (codes "cursors" ∷ []) e.section)

abbrev pub blacklist : List Text
blacklist =
    codes "r"
    ∷ codes "args"
    ∷ codes "use"
    ∷ codes "row"
    ∷ codes "opt_arg"
    ∷ codes "array"
    ∷ codes "object"
    ∷ codes "close"
    ∷ codes "reconnect"
    ∷ codes "noreply_wait"
    ∷ codes "server"
    ∷ codes "event_emitter"
    ∷ codes "run"
    ∷ []

abbrev pub command_kept : Entry → Bool
command_kept e = not (is_in blacklist e.permalink)

abbrev pub keywords : List Text
keywords = codes "mod" ∷ codes "match" ∷ codes "do" ∷ []

abbrev pub rename_keyword : Entry → Entry
rename_keyword e =
    if is_in keywords e.permalink then record e { method = some (e.permalink ++ codes "_") } else e

abbrev pub rename_command : Entry → Entry
rename_command e =
    if text_eq (codes "to_json_string") e.permalink
    then record e { method = some (codes "to_json") }
    else e

abbrev pub set_typ : Entry → Entry
set_typ e =
    if text_eq (codes "js") e.permalink
    then record e { typ = some (codes "javascript") }
    else if text_eq (codes "do") e.permalink
    then record e { typ = some (codes "funcall") }
    else e

abbrev pub move_command : Entry → Entry
move_command e =
    if text_eq (codes "changes") e.permalink
    then with_section (codes "manipulating-tables") e
    else e

abbrev pub finish : Entry → Entry
finish e = move_command (set_typ (rename_command (rename_keyword e)))

-- `menu` of `Config::new`.
unfoldable pub menu : List Section → List Entry
menu ss = map finish (filter command_kept (filter section_kept (all_entries ss)))

-- The method that stands for a command (build/commands.rs).
abbrev pub or_permalink : Option Text → Text → Text
or_permalink (some s) permalink = s
or_permalink none permalink = permalink

abbrev pub method_name : Entry → Text
method_name e = or_permalink e.method e.permalink

abbrev pub type_name : Entry → Text
type_name e = or_permalink e.typ e.permalink
