-- ===== src/Commands/Methods/Tables.antt =====
-- The generated methods of src/commands/mod.rs: the commands on databases, tables and documents, and on indexes.
use reql.Base.{codes, some, none}
use reql.Proto.{command}
use reql.Proto.Commands.{Command}
use reql.Commands.Arg.{Arg}
use reql.Commands.Client.{Client, make_cmd}

abbrev pub changes : Client → Client
changes c = make_cmd c (codes "changes") (some (command Command.changes)) none

abbrev pub db_create : Client → Arg → Client
db_create c args = make_cmd c (codes "db_create") (some (command Command.db_create)) (some args)

abbrev pub db_drop : Client → Arg → Client
db_drop c args = make_cmd c (codes "db_drop") (some (command Command.db_drop)) (some args)

abbrev pub db_list : Client → Client
db_list c = make_cmd c (codes "db_list") (some (command Command.db_list)) none

abbrev pub table_create : Client → Arg → Client
table_create c args =
    make_cmd c (codes "table_create") (some (command Command.table_create)) (some args)

abbrev pub table_drop : Client → Arg → Client
table_drop c args = make_cmd c (codes "table_drop") (some (command Command.table_drop)) (some args)

abbrev pub table_list : Client → Client
table_list c = make_cmd c (codes "table_list") (some (command Command.table_list)) none

abbrev pub index_create : Client → Arg → Client
index_create c args =
    make_cmd c (codes "index_create") (some (command Command.index_create)) (some args)

abbrev pub index_drop : Client → Arg → Client
index_drop c args = make_cmd c (codes "index_drop") (some (command Command.index_drop)) (some args)

abbrev pub index_list : Client → Client
index_list c = make_cmd c (codes "index_list") (some (command Command.index_list)) none

abbrev pub index_rename : Client → Arg → Client
index_rename c args =
    make_cmd c (codes "index_rename") (some (command Command.index_rename)) (some args)

abbrev pub index_status : Client → Client
index_status c = make_cmd c (codes "index_status") (some (command Command.index_status)) none

abbrev pub index_wait : Client → Client
index_wait c = make_cmd c (codes "index_wait") (some (command Command.index_wait)) none

abbrev pub insert : Client → Arg → Client
insert c args = make_cmd c (codes "insert") (some (command Command.insert)) (some args)

abbrev pub update : Client → Arg → Client
update c args = make_cmd c (codes "update") (some (command Command.update)) (some args)

abbrev pub replace : Client → Arg → Client
replace c args = make_cmd c (codes "replace") (some (command Command.replace)) (some args)

abbrev pub delete : Client → Client
delete c = make_cmd c (codes "delete") (some (command Command.delete)) none

abbrev pub sync : Client → Client
sync c = make_cmd c (codes "sync") (some (command Command.sync)) none
