-- ===== src/Commands/Methods/Queries.antt =====
-- The generated methods of src/commands/mod.rs: the commands that select, join, transform and aggregate.
use reql.Base.{codes, some, none}
use reql.Proto.{command}
use reql.Proto.Commands.{Command}
use reql.Commands.Arg.{Arg}
use reql.Commands.Client.{Client, make_cmd}

abbrev pub db : Client → Arg → Client
db c args = make_cmd c (codes "db") (some (command Command.db)) (some args)

abbrev pub table : Client → Arg → Client
table c args = make_cmd c (codes "table") (some (command Command.table)) (some args)

abbrev pub get : Client → Arg → Client
get c args = make_cmd c (codes "get") (some (command Command.get)) (some args)

abbrev pub get_all : Client → Arg → Client
get_all c args = make_cmd c (codes "get_all") (some (command Command.get_all)) (some args)

abbrev pub between : Client → Arg → Client
between c args = make_cmd c (codes "between") (some (command Command.between)) (some args)

abbrev pub filter : Client → Arg → Client
filter c args = make_cmd c (codes "filter") (some (command Command.filter)) (some args)

abbrev pub inner_join : Client → Arg → Client
inner_join c args = make_cmd c (codes "inner_join") (some (command Command.inner_join)) (some args)

abbrev pub outer_join : Client → Arg → Client
outer_join c args = make_cmd c (codes "outer_join") (some (command Command.outer_join)) (some args)

abbrev pub eq_join : Client → Arg → Client
eq_join c args = make_cmd c (codes "eq_join") (some (command Command.eq_join)) (some args)

abbrev pub zip : Client → Client
zip c = make_cmd c (codes "zip") (some (command Command.zip)) none

abbrev pub map : Client → Arg → Client
map c args = make_cmd c (codes "map") (some (command Command.map)) (some args)

abbrev pub with_fields : Client → Arg → Client
with_fields c args =
    make_cmd c (codes "with_fields") (some (command Command.with_fields)) (some args)

abbrev pub concat_map : Client → Arg → Client
concat_map c args = make_cmd c (codes "concat_map") (some (command Command.concat_map)) (some args)

abbrev pub order_by : Client → Arg → Client
order_by c args = make_cmd c (codes "order_by") (some (command Command.order_by)) (some args)

abbrev pub skip : Client → Arg → Client
skip c args = make_cmd c (codes "skip") (some (command Command.skip)) (some args)

abbrev pub limit : Client → Arg → Client
limit c args = make_cmd c (codes "limit") (some (command Command.limit)) (some args)

abbrev pub slice : Client → Arg → Client
slice c args = make_cmd c (codes "slice") (some (command Command.slice)) (some args)

abbrev pub nth : Client → Arg → Client
nth c args = make_cmd c (codes "nth") (some (command Command.nth)) (some args)

abbrev pub offsets_of : Client → Arg → Client
offsets_of c args = make_cmd c (codes "offsets_of") (some (command Command.offsets_of)) (some args)

abbrev pub is_empty : Client → Client
is_empty c = make_cmd c (codes "is_empty") (some (command Command.is_empty)) none

abbrev pub union : Client → Arg → Client
union c args = make_cmd c (codes "union") (some (command Command.union)) (some args)

abbrev pub sample : Client → Arg → Client
sample c args = make_cmd c (codes "sample") (some (command Command.sample)) (some args)

abbrev pub group : Client → Client
group c = make_cmd c (codes "group") (some (command Command.group)) none

abbrev pub ungroup : Client → Client
ungroup c = make_cmd c (codes "ungroup") (some (command Command.ungroup)) none

abbrev pub reduce : Client → Arg → Client
reduce c args = make_cmd c (codes "reduce") (some (command Command.reduce)) (some args)

abbrev pub fold : Client → Arg → Client
fold c args = make_cmd c (codes "fold") (some (command Command.fold)) (some args)

abbrev pub count : Client → Client
count c = make_cmd c (codes "count") (some (command Command.count)) none

abbrev pub sum : Client → Client
sum c = make_cmd c (codes "sum") (some (command Command.sum)) none

abbrev pub avg : Client → Client
avg c = make_cmd c (codes "avg") (some (command Command.avg)) none

abbrev pub min : Client → Client
min c = make_cmd c (codes "min") (some (command Command.min)) none

abbrev pub max : Client → Client
max c = make_cmd c (codes "max") (some (command Command.max)) none

abbrev pub distinct : Client → Client
distinct c = make_cmd c (codes "distinct") (some (command Command.distinct)) none

abbrev pub contains : Client → Arg → Client
contains c args = make_cmd c (codes "contains") (some (command Command.contains)) (some args)
