-- ===== src/Commands/Methods/Documents.antt =====
-- The generated methods of src/commands/mod.rs: the commands on documents.
use reql.Base.{codes, some, none}
use reql.Proto.{command}
use reql.Proto.Commands.{Command}
use reql.Commands.Arg.{Arg}
use reql.Commands.Client.{Client, make_cmd}

abbrev pub pluck : Client → Arg → Client
pluck c args = make_cmd c (codes "pluck") (some (command Command.pluck)) (some args)

abbrev pub without : Client → Arg → Client
without c args = make_cmd c (codes "without") (some (command Command.without)) (some args)

abbrev pub merge : Client → Arg → Client
merge c args = make_cmd c (codes "merge") (some (command Command.merge)) (some args)

abbrev pub append : Client → Arg → Client
append c args = make_cmd c (codes "append") (some (command Command.append)) (some args)

abbrev pub prepend : Client → Arg → Client
prepend c args = make_cmd c (codes "prepend") (some (command Command.prepend)) (some args)

abbrev pub difference : Client → Arg → Client
difference c args = make_cmd c (codes "difference") (some (command Command.difference)) (some args)

abbrev pub set_insert : Client → Arg → Client
set_insert c args = make_cmd c (codes "set_insert") (some (command Command.set_insert)) (some args)

abbrev pub set_union : Client → Arg → Client
set_union c args = make_cmd c (codes "set_union") (some (command Command.set_union)) (some args)

abbrev pub set_intersection : Client → Arg → Client
set_intersection c args =
    make_cmd c (codes "set_intersection") (some (command Command.set_intersection)) (some args)

abbrev pub set_difference : Client → Arg → Client
set_difference c args =
    make_cmd c (codes "set_difference") (some (command Command.set_difference)) (some args)

abbrev pub bracket : Client → Arg → Client
bracket c args = make_cmd c (codes "bracket") (some (command Command.bracket)) (some args)

abbrev pub get_field : Client → Arg → Client
get_field c args = make_cmd c (codes "get_field") (some (command Command.get_field)) (some args)

abbrev pub has_fields : Client → Arg → Client
has_fields c args = make_cmd c (codes "has_fields") (some (command Command.has_fields)) (some args)

abbrev pub insert_at : Client → Arg → Client
insert_at c args = make_cmd c (codes "insert_at") (some (command Command.insert_at)) (some args)

abbrev pub splice_at : Client → Arg → Client
splice_at c args = make_cmd c (codes "splice_at") (some (command Command.splice_at)) (some args)

abbrev pub delete_at : Client → Arg → Client
delete_at c args = make_cmd c (codes "delete_at") (some (command Command.delete_at)) (some args)

abbrev pub change_at : Client → Arg → Client
change_at c args = make_cmd c (codes "change_at") (some (command Command.change_at)) (some args)

abbrev pub keys : Client → Client
keys c = make_cmd c (codes "keys") (some (command Command.keys)) none

abbrev pub values : Client → Client
values c = make_cmd c (codes "values") (some (command Command.values)) none

abbrev pub literal : Client → Client
literal c = make_cmd c (codes "literal") (some (command Command.literal)) none
