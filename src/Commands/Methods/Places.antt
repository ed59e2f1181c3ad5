-- ===== src/Commands/Methods/Places.antt =====
-- The generated methods of src/commands/mod.rs: the geospatial commands and the administration.
use reql.Base.{codes, some, none}
use reql.Proto.{command}
use reql.Proto.Commands.{Command}
use reql.Commands.Arg.{Arg}
use reql.Commands.Client.{Client, make_cmd}

abbrev pub circle : Client → Arg → Client
circle c args = make_cmd c (codes "circle") (some (command Command.circle)) (some args)

abbrev pub distance : Client → Arg → Client
distance c args = make_cmd c (codes "distance") (some (command Command.distance)) (some args)

abbrev pub fill : Client → Client
fill c = make_cmd c (codes "fill") (some (command Command.fill)) none

abbrev pub geojson : Client → Arg → Client
geojson c args = make_cmd c (codes "geojson") (some (command Command.geojson)) (some args)

abbrev pub to_geojson : Client → Client
to_geojson c = make_cmd c (codes "to_geojson") (some (command Command.to_geojson)) none

abbrev pub get_intersecting : Client → Arg → Client
get_intersecting c args =
    make_cmd c (codes "get_intersecting") (some (command Command.get_intersecting)) (some args)

abbrev pub get_nearest : Client → Arg → Client
get_nearest c args =
    make_cmd c (codes "get_nearest") (some (command Command.get_nearest)) (some args)

abbrev pub includes : Client → Arg → Client
includes c args = make_cmd c (codes "includes") (some (command Command.includes)) (some args)

abbrev pub intersects : Client → Arg → Client
intersects c args = make_cmd c (codes "intersects") (some (command Command.intersects)) (some args)

abbrev pub line : Client → Arg → Client
line c args = make_cmd c (codes "line") (some (command Command.line)) (some args)

abbrev pub point : Client → Arg → Client
point c args = make_cmd c (codes "point") (some (command Command.point)) (some args)

abbrev pub polygon : Client → Arg → Client
polygon c args = make_cmd c (codes "polygon") (some (command Command.polygon)) (some args)

abbrev pub polygon_sub : Client → Arg → Client
polygon_sub c args =
    make_cmd c (codes "polygon_sub") (some (command Command.polygon_sub)) (some args)

abbrev pub grant : Client → Client
grant c = make_cmd c (codes "grant") (some (command Command.grant)) none

abbrev pub config : Client → Client
config c = make_cmd c (codes "config") (some (command Command.config)) none

abbrev pub rebalance : Client → Client
rebalance c = make_cmd c (codes "rebalance") (some (command Command.rebalance)) none

abbrev pub reconfigure : Client → Arg → Client
reconfigure c args =
    make_cmd c (codes "reconfigure") (some (command Command.reconfigure)) (some args)

abbrev pub status : Client → Client
status c = make_cmd c (codes "status") (some (command Command.status)) none

abbrev pub wait : Client → Client
wait c = make_cmd c (codes "wait") (some (command Command.wait)) none
