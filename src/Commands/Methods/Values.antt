-- ===== src/Commands/Methods/Values.antt =====
-- The generated methods of src/commands/mod.rs: the commands on texts, numbers and truth values.
use reql.Base.{codes, some, none}
use reql.Proto.{command}
use reql.Proto.Commands.{Command}
use reql.Commands.Arg.{Arg}
use reql.Commands.Client.{Client, make_cmd}

abbrev pub match_ : Client → Arg → Client
match_ c args = make_cmd c (codes "match_") (some (command Command.match)) (some args)

abbrev pub split : Client → Client
split c = make_cmd c (codes "split") (some (command Command.split)) none

abbrev pub upcase : Client → Client
upcase c = make_cmd c (codes "upcase") (some (command Command.upcase)) none

abbrev pub downcase : Client → Client
downcase c = make_cmd c (codes "downcase") (some (command Command.downcase)) none

abbrev pub add : Client → Arg → Client
add c args = make_cmd c (codes "add") (some (command Command.add)) (some args)

abbrev pub sub : Client → Arg → Client
sub c args = make_cmd c (codes "sub") (some (command Command.sub)) (some args)

abbrev pub mul : Client → Arg → Client
mul c args = make_cmd c (codes "mul") (some (command Command.mul)) (some args)

abbrev pub div : Client → Arg → Client
div c args = make_cmd c (codes "div") (some (command Command.div)) (some args)

abbrev pub mod_ : Client → Arg → Client
mod_ c args = make_cmd c (codes "mod_") (some (command Command.mod_)) (some args)

abbrev pub and : Client → Arg → Client
and c args = make_cmd c (codes "and") (some (command Command.and)) (some args)

abbrev pub or : Client → Arg → Client
or c args = make_cmd c (codes "or") (some (command Command.or)) (some args)

abbrev pub eq : Client → Arg → Client
eq c args = make_cmd c (codes "eq") (some (command Command.eq)) (some args)

abbrev pub ne : Client → Arg → Client
ne c args = make_cmd c (codes "ne") (some (command Command.ne)) (some args)

abbrev pub gt : Client → Arg → Client
gt c args = make_cmd c (codes "gt") (some (command Command.gt)) (some args)

abbrev pub ge : Client → Arg → Client
ge c args = make_cmd c (codes "ge") (some (command Command.ge)) (some args)

abbrev pub lt : Client → Arg → Client
lt c args = make_cmd c (codes "lt") (some (command Command.lt)) (some args)

abbrev pub le : Client → Arg → Client
le c args = make_cmd c (codes "le") (some (command Command.le)) (some args)

abbrev pub not : Client → Client
not c = make_cmd c (codes "not") (some (command Command.not)) none

abbrev pub random : Client → Client
random c = make_cmd c (codes "random") (some (command Command.random)) none

abbrev pub round : Client → Client
round c = make_cmd c (codes "round") (some (command Command.round)) none

abbrev pub ceil : Client → Client
ceil c = make_cmd c (codes "ceil") (some (command Command.ceil)) none

abbrev pub floor : Client → Client
floor c = make_cmd c (codes "floor") (some (command Command.floor)) none
