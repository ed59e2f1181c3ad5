-- ===== src/Commands/Methods/Control.antt =====
-- The generated methods of src/commands/mod.rs: the control structures.
use reql.Base.{codes, some, none}
use reql.Proto.{command}
use reql.Proto.Commands.{Command}
use reql.Commands.Arg.{Arg}
use reql.Commands.Client.{Client, make_cmd}

abbrev pub binary : Client → Arg → Client
binary c args = make_cmd c (codes "binary") (some (command Command.binary)) (some args)

abbrev pub do_ : Client → Arg → Client
do_ c args = make_cmd c (codes "do_") (some (command Command.funcall)) (some args)

abbrev pub branch : Client → Arg → Client
branch c args = make_cmd c (codes "branch") (some (command Command.branch)) (some args)

abbrev pub for_each : Client → Arg → Client
for_each c args = make_cmd c (codes "for_each") (some (command Command.for_each)) (some args)

abbrev pub range : Client → Client
range c = make_cmd c (codes "range") (some (command Command.range)) none

abbrev pub error : Client → Arg → Client
error c args = make_cmd c (codes "error") (some (command Command.error)) (some args)

abbrev pub default : Client → Arg → Client
default c args = make_cmd c (codes "default") (some (command Command.default)) (some args)

abbrev pub expr : Client → Arg → Client
expr c args = make_cmd c (codes "expr") none (some args)

abbrev pub js : Client → Arg → Client
js c args = make_cmd c (codes "js") (some (command Command.javascript)) (some args)

abbrev pub coerce_to : Client → Arg → Client
coerce_to c args = make_cmd c (codes "coerce_to") (some (command Command.coerce_to)) (some args)

abbrev pub type_of : Client → Client
type_of c = make_cmd c (codes "type_of") (some (command Command.type_of)) none

abbrev pub info : Client → Client
info c = make_cmd c (codes "info") (some (command Command.info)) none

abbrev pub json : Client → Arg → Client
json c args = make_cmd c (codes "json") (some (command Command.json)) (some args)

abbrev pub to_json : Client → Arg → Client
to_json c args = make_cmd c (codes "to_json") (some (command Command.to_json_string)) (some args)

abbrev pub http : Client → Arg → Client
http c args = make_cmd c (codes "http") (some (command Command.http)) (some args)

abbrev pub uuid : Client → Client
uuid c = make_cmd c (codes "uuid") (some (command Command.uuid)) none
