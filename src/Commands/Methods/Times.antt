-- ===== src/Commands/Methods/Times.antt =====
-- The generated methods of src/commands/mod.rs: the commands on dates and times.
use reql.Base.{codes, some, none}
use reql.Proto.{command}
use reql.Proto.Commands.{Command}
use reql.Commands.Arg.{Arg}
use reql.Commands.Client.{Client, make_cmd}

abbrev pub now : Client → Client
now c = make_cmd c (codes "now") (some (command Command.now)) none

abbrev pub time : Client → Arg → Client
time c args = make_cmd c (codes "time") (some (command Command.time)) (some args)

abbrev pub epoch_time : Client → Arg → Client
epoch_time c args = make_cmd c (codes "epoch_time") (some (command Command.epoch_time)) (some args)

abbrev pub iso8601 : Client → Arg → Client
iso8601 c args = make_cmd c (codes "iso8601") (some (command Command.iso)) (some args)

abbrev pub in_timezone : Client → Arg → Client
in_timezone c args =
    make_cmd c (codes "in_timezone") (some (command Command.in_timezone)) (some args)

abbrev pub timezone : Client → Client
timezone c = make_cmd c (codes "timezone") (some (command Command.timezone)) none

abbrev pub during : Client → Arg → Client
during c args = make_cmd c (codes "during") (some (command Command.during)) (some args)

abbrev pub date : Client → Client
date c = make_cmd c (codes "date") (some (command Command.date)) none

abbrev pub time_of_day : Client → Client
time_of_day c = make_cmd c (codes "time_of_day") (some (command Command.time_of_day)) none

abbrev pub year : Client → Client
year c = make_cmd c (codes "year") (some (command Command.year)) none

abbrev pub month : Client → Client
month c = make_cmd c (codes "month") (some (command Command.month)) none

abbrev pub day : Client → Client
day c = make_cmd c (codes "day") (some (command Command.day)) none

abbrev pub day_of_week : Client → Client
day_of_week c = make_cmd c (codes "day_of_week") (some (command Command.day_of_week)) none

abbrev pub day_of_year : Client → Client
day_of_year c = make_cmd c (codes "day_of_year") (some (command Command.day_of_year)) none

abbrev pub hours : Client → Client
hours c = make_cmd c (codes "hours") (some (command Command.hours)) none

abbrev pub minutes : Client → Client
minutes c = make_cmd c (codes "minutes") (some (command Command.minutes)) none

abbrev pub seconds : Client → Client
seconds c = make_cmd c (codes "seconds") (some (command Command.seconds)) none

abbrev pub to_iso8601 : Client → Client
to_iso8601 c = make_cmd c (codes "to_iso8601") (some (command Command.to_iso)) none

abbrev pub to_epoch_time : Client → Client
to_epoch_time c = make_cmd c (codes "to_epoch_time") (some (command Command.to_epoch_time)) none
