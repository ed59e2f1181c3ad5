-- ===== src/Commands/Methods/Table.antt =====
-- The methods of src/commands/mod.rs as one function of the term type. `expr`, which has no term type
-- of its own, is left out; a method that takes no arguments gets none.
use reql.Proto.Commands.{Command}
use reql.Commands.Arg.{Arg}
use reql.Commands.Client.{Client}
use reql.Commands.Methods.Tables
use reql.Commands.Methods.Queries
use reql.Commands.Methods.Documents
use reql.Commands.Methods.Values
use reql.Commands.Methods.Times
use reql.Commands.Methods.Control
use reql.Commands.Methods.Places

abbrev pub call_method : Command → Client → Arg → Client
call_method Command.changes c a = Tables.changes c
call_method Command.db_create c a = Tables.db_create c a
call_method Command.db_drop c a = Tables.db_drop c a
call_method Command.db_list c a = Tables.db_list c
call_method Command.table_create c a = Tables.table_create c a
call_method Command.table_drop c a = Tables.table_drop c a
call_method Command.table_list c a = Tables.table_list c
call_method Command.index_create c a = Tables.index_create c a
call_method Command.index_drop c a = Tables.index_drop c a
call_method Command.index_list c a = Tables.index_list c
call_method Command.index_rename c a = Tables.index_rename c a
call_method Command.index_status c a = Tables.index_status c
call_method Command.index_wait c a = Tables.index_wait c
call_method Command.insert c a = Tables.insert c a
call_method Command.update c a = Tables.update c a
call_method Command.replace c a = Tables.replace c a
call_method Command.delete c a = Tables.delete c
call_method Command.sync c a = Tables.sync c
call_method Command.db c a = Queries.db c a
call_method Command.table c a = Queries.table c a
call_method Command.get c a = Queries.get c a
call_method Command.get_all c a = Queries.get_all c a
call_method Command.between c a = Queries.between c a
call_method Command.filter c a = Queries.filter c a
call_method Command.inner_join c a = Queries.inner_join c a
call_method Command.outer_join c a = Queries.outer_join c a
call_method Command.eq_join c a = Queries.eq_join c a
call_method Command.zip c a = Queries.zip c
call_method Command.map c a = Queries.map c a
call_method Command.with_fields c a = Queries.with_fields c a
call_method Command.concat_map c a = Queries.concat_map c a
call_method Command.order_by c a = Queries.order_by c a
call_method Command.skip c a = Queries.skip c a
call_method Command.limit c a = Queries.limit c a
call_method Command.slice c a = Queries.slice c a
call_method Command.nth c a = Queries.nth c a
call_method Command.offsets_of c a = Queries.offsets_of c a
call_method Command.is_empty c a = Queries.is_empty c
call_method Command.union c a = Queries.union c a
call_method Command.sample c a = Queries.sample c a
call_method Command.group c a = Queries.group c
call_method Command.ungroup c a = Queries.ungroup c
call_method Command.reduce c a = Queries.reduce c a
call_method Command.fold c a = Queries.fold c a
call_method Command.count c a = Queries.count c
call_method Command.sum c a = Queries.sum c
call_method Command.avg c a = Queries.avg c
call_method Command.min c a = Queries.min c
call_method Command.max c a = Queries.max c
call_method Command.distinct c a = Queries.distinct c
call_method Command.contains c a = Queries.contains c a
call_method Command.pluck c a = Documents.pluck c a
call_method Command.without c a = Documents.without c a
call_method Command.merge c a = Documents.merge c a
call_method Command.append c a = Documents.append c a
call_method Command.prepend c a = Documents.prepend c a
call_method Command.difference c a = Documents.difference c a
call_method Command.set_insert c a = Documents.set_insert c a
call_method Command.set_union c a = Documents.set_union c a
call_method Command.set_intersection c a = Documents.set_intersection c a
call_method Command.set_difference c a = Documents.set_difference c a
call_method Command.bracket c a = Documents.bracket c a
call_method Command.get_field c a = Documents.get_field c a
call_method Command.has_fields c a = Documents.has_fields c a
call_method Command.insert_at c a = Documents.insert_at c a
call_method Command.splice_at c a = Documents.splice_at c a
call_method Command.delete_at c a = Documents.delete_at c a
call_method Command.change_at c a = Documents.change_at c a
call_method Command.keys c a = Documents.keys c
call_method Command.values c a = Documents.values c
call_method Command.literal c a = Documents.literal c
call_method Command.match c a = Values.match_ c a
call_method Command.split c a = Values.split c
call_method Command.upcase c a = Values.upcase c
call_method Command.downcase c a = Values.downcase c
call_method Command.add c a = Values.add c a
call_method Command.sub c a = Values.sub c a
call_method Command.mul c a = Values.mul c a
call_method Command.div c a = Values.div c a
call_method Command.mod_ c a = Values.mod_ c a
call_method Command.and c a = Values.and c a
call_method Command.or c a = Values.or c a
call_method Command.eq c a = Values.eq c a
call_method Command.ne c a = Values.ne c a
call_method Command.gt c a = Values.gt c a
call_method Command.ge c a = Values.ge c a
call_method Command.lt c a = Values.lt c a
call_method Command.le c a = Values.le c a
call_method Command.not c a = Values.not c
call_method Command.random c a = Values.random c
call_method Command.round c a = Values.round c
call_method Command.ceil c a = Values.ceil c
call_method Command.floor c a = Values.floor c
call_method Command.now c a = Times.now c
call_method Command.time c a = Times.time c a
call_method Command.epoch_time c a = Times.epoch_time c a
call_method Command.iso c a = Times.iso8601 c a
call_method Command.in_timezone c a = Times.in_timezone c a
call_method Command.timezone c a = Times.timezone c
call_method Command.during c a = Times.during c a
call_method Command.date c a = Times.date c
call_method Command.time_of_day c a = Times.time_of_day c
call_method Command.year c a = Times.year c
call_method Command.month c a = Times.month c
call_method Command.day c a = Times.day c
call_method Command.day_of_week c a = Times.day_of_week c
call_method Command.day_of_year c a = Times.day_of_year c
call_method Command.hours c a = Times.hours c
call_method Command.minutes c a = Times.minutes c
call_method Command.seconds c a = Times.seconds c
call_method Command.to_iso c a = Times.to_iso8601 c
call_method Command.to_epoch_time c a = Times.to_epoch_time c
call_method Command.binary c a = Control.binary c a
call_method Command.funcall c a = Control.do_ c a
call_method Command.branch c a = Control.branch c a
call_method Command.for_each c a = Control.for_each c a
call_method Command.range c a = Control.range c
call_method Command.error c a = Control.error c a
call_method Command.default c a = Control.default c a
call_method Command.javascript c a = Control.js c a
call_method Command.coerce_to c a = Control.coerce_to c a
call_method Command.type_of c a = Control.type_of c
call_method Command.info c a = Control.info c
call_method Command.json c a = Control.json c a
call_method Command.to_json_string c a = Control.to_json c a
call_method Command.http c a = Control.http c a
call_method Command.uuid c a = Control.uuid c
call_method Command.circle c a = Places.circle c a
call_method Command.distance c a = Places.distance c a
call_method Command.fill c a = Places.fill c
call_method Command.geojson c a = Places.geojson c a
call_method Command.to_geojson c a = Places.to_geojson c
call_method Command.get_intersecting c a = Places.get_intersecting c a
call_method Command.get_nearest c a = Places.get_nearest c a
call_method Command.includes c a = Places.includes c a
call_method Command.intersects c a = Places.intersects c a
call_method Command.line c a = Places.line c a
call_method Command.point c a = Places.point c a
call_method Command.polygon c a = Places.polygon c a
call_method Command.polygon_sub c a = Places.polygon_sub c a
call_method Command.grant c a = Places.grant c
call_method Command.config c a = Places.config c
call_method Command.rebalance c a = Places.rebalance c
call_method Command.reconfigure c a = Places.reconfigure c a
call_method Command.status c a = Places.status c
call_method Command.wait c a = Places.wait c
