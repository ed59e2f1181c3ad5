-- ===== src/Commands/Methods/Names.antt =====
-- The method for each term type: its name, and whether it takes arguments. The methods are those of
-- src/commands/mod.rs.
use reql.Base.{Text, codes, Bool, true, false}
use reql.Proto.Commands.{Command}

abbrev pub name_of : Command → Text
name_of Command.changes = codes "changes"
name_of Command.db_create = codes "db_create"
name_of Command.db_drop = codes "db_drop"
name_of Command.db_list = codes "db_list"
name_of Command.table_create = codes "table_create"
name_of Command.table_drop = codes "table_drop"
name_of Command.table_list = codes "table_list"
name_of Command.index_create = codes "index_create"
name_of Command.index_drop = codes "index_drop"
name_of Command.index_list = codes "index_list"
name_of Command.index_rename = codes "index_rename"
name_of Command.index_status = codes "index_status"
name_of Command.index_wait = codes "index_wait"
name_of Command.insert = codes "insert"
name_of Command.update = codes "update"
name_of Command.replace = codes "replace"
name_of Command.delete = codes "delete"
name_of Command.sync = codes "sync"
name_of Command.db = codes "db"
name_of Command.table = codes "table"
name_of Command.get = codes "get"
name_of Command.get_all = codes "get_all"
name_of Command.between = codes "between"
name_of Command.filter = codes "filter"
name_of Command.inner_join = codes "inner_join"
name_of Command.outer_join = codes "outer_join"
name_of Command.eq_join = codes "eq_join"
name_of Command.zip = codes "zip"
name_of Command.map = codes "map"
name_of Command.with_fields = codes "with_fields"
name_of Command.concat_map = codes "concat_map"
name_of Command.order_by = codes "order_by"
name_of Command.skip = codes "skip"
name_of Command.limit = codes "limit"
name_of Command.slice = codes "slice"
name_of Command.nth = codes "nth"
name_of Command.offsets_of = codes "offsets_of"
name_of Command.is_empty = codes "is_empty"
name_of Command.union = codes "union"
name_of Command.sample = codes "sample"
name_of Command.group = codes "group"
name_of Command.ungroup = codes "ungroup"
name_of Command.reduce = codes "reduce"
name_of Command.fold = codes "fold"
name_of Command.count = codes "count"
name_of Command.sum = codes "sum"
name_of Command.avg = codes "avg"
name_of Command.min = codes "min"
name_of Command.max = codes "max"
name_of Command.distinct = codes "distinct"
name_of Command.contains = codes "contains"
name_of Command.pluck = codes "pluck"
name_of Command.without = codes "without"
name_of Command.merge = codes "merge"
name_of Command.append = codes "append"
name_of Command.prepend = codes "prepend"
name_of Command.difference = codes "difference"
name_of Command.set_insert = codes "set_insert"
name_of Command.set_union = codes "set_union"
name_of Command.set_intersection = codes "set_intersection"
name_of Command.set_difference = codes "set_difference"
name_of Command.bracket = codes "bracket"
name_of Command.get_field = codes "get_field"
name_of Command.has_fields = codes "has_fields"
name_of Command.insert_at = codes "insert_at"
name_of Command.splice_at = codes "splice_at"
name_of Command.delete_at = codes "delete_at"
name_of Command.change_at = codes "change_at"
name_of Command.keys = codes "keys"
name_of Command.values = codes "values"
name_of Command.literal = codes "literal"
name_of Command.match = codes "match_"
name_of Command.split = codes "split"
name_of Command.upcase = codes "upcase"
name_of Command.downcase = codes "downcase"
name_of Command.add = codes "add"
name_of Command.sub = codes "sub"
name_of Command.mul = codes "mul"
name_of Command.div = codes "div"
name_of Command.mod_ = codes "mod_"
name_of Command.and = codes "and"
name_of Command.or = codes "or"
name_of Command.eq = codes "eq"
name_of Command.ne = codes "ne"
name_of Command.gt = codes "gt"
name_of Command.ge = codes "ge"
name_of Command.lt = codes "lt"
name_of Command.le = codes "le"
name_of Command.not = codes "not"
name_of Command.random = codes "random"
name_of Command.round = codes "round"
name_of Command.ceil = codes "ceil"
name_of Command.floor = codes "floor"
name_of Command.now = codes "now"
name_of Command.time = codes "time"
name_of Command.epoch_time = codes "epoch_time"
name_of Command.iso = codes "iso8601"
name_of Command.in_timezone = codes "in_timezone"
name_of Command.timezone = codes "timezone"
name_of Command.during = codes "during"
name_of Command.date = codes "date"
name_of Command.time_of_day = codes "time_of_day"
name_of Command.year = codes "year"
name_of Command.month = codes "month"
name_of Command.day = codes "day"
name_of Command.day_of_week = codes "day_of_week"
name_of Command.day_of_year = codes "day_of_year"
name_of Command.hours = codes "hours"
name_of Command.minutes = codes "minutes"
name_of Command.seconds = codes "seconds"
name_of Command.to_iso = codes "to_iso8601"
name_of Command.to_epoch_time = codes "to_epoch_time"
name_of Command.binary = codes "binary"
name_of Command.funcall = codes "do_"
name_of Command.branch = codes "branch"
name_of Command.for_each = codes "for_each"
name_of Command.range = codes "range"
name_of Command.error = codes "error"
name_of Command.default = codes "default"
name_of Command.javascript = codes "js"
name_of Command.coerce_to = codes "coerce_to"
name_of Command.type_of = codes "type_of"
name_of Command.info = codes "info"
name_of Command.json = codes "json"
name_of Command.to_json_string = codes "to_json"
name_of Command.http = codes "http"
name_of Command.uuid = codes "uuid"
name_of Command.circle = codes "circle"
name_of Command.distance = codes "distance"
name_of Command.fill = codes "fill"
name_of Command.geojson = codes "geojson"
name_of Command.to_geojson = codes "to_geojson"
name_of Command.get_intersecting = codes "get_intersecting"
name_of Command.get_nearest = codes "get_nearest"
name_of Command.includes = codes "includes"
name_of Command.intersects = codes "intersects"
name_of Command.line = codes "line"
name_of Command.point = codes "point"
name_of Command.polygon = codes "polygon"
name_of Command.polygon_sub = codes "polygon_sub"
name_of Command.grant = codes "grant"
name_of Command.config = codes "config"
name_of Command.rebalance = codes "rebalance"
name_of Command.reconfigure = codes "reconfigure"
name_of Command.status = codes "status"
name_of Command.wait = codes "wait"

-- The methods whose documentation shows a call without arguments take none.
abbrev pub takes_args : Command → Bool
takes_args Command.changes = false
takes_args Command.db_list = false
takes_args Command.table_list = false
takes_args Command.index_list = false
takes_args Command.index_status = false
takes_args Command.index_wait = false
takes_args Command.delete = false
takes_args Command.sync = false
takes_args Command.zip = false
takes_args Command.is_empty = false
takes_args Command.group = false
takes_args Command.ungroup = false
takes_args Command.count = false
takes_args Command.sum = false
takes_args Command.avg = false
takes_args Command.min = false
takes_args Command.max = false
takes_args Command.distinct = false
takes_args Command.keys = false
takes_args Command.values = false
takes_args Command.literal = false
takes_args Command.split = false
takes_args Command.upcase = false
takes_args Command.downcase = false
takes_args Command.not = false
takes_args Command.random = false
takes_args Command.round = false
takes_args Command.ceil = false
takes_args Command.floor = false
takes_args Command.now = false
takes_args Command.timezone = false
takes_args Command.date = false
takes_args Command.time_of_day = false
takes_args Command.year = false
takes_args Command.month = false
takes_args Command.day = false
takes_args Command.day_of_week = false
takes_args Command.day_of_year = false
takes_args Command.hours = false
takes_args Command.minutes = false
takes_args Command.seconds = false
takes_args Command.to_iso = false
takes_args Command.to_epoch_time = false
takes_args Command.range = false
takes_args Command.type_of = false
takes_args Command.info = false
takes_args Command.uuid = false
takes_args Command.fill = false
takes_args Command.to_geojson = false
takes_args Command.grant = false
takes_args Command.config = false
takes_args Command.rebalance = false
takes_args Command.status = false
takes_args Command.wait = false
takes_args _ = true
