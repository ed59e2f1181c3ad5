-- ===== src/Proto/Commands.antt =====
-- The term types of the commands of src/commands/mod.rs.
pub data Command : Type 0 where
  add and append avg between binary bracket branch ceil changes change_at circle coerce_to : Command
  concat_map config contains count date day day_of_week day_of_year db db_create db_drop : Command
  db_list default delete delete_at difference distance distinct div downcase during : Command
  epoch_time eq eq_join error fill filter floor fold for_each funcall ge geojson get : Command
  get_all get_field get_intersecting get_nearest grant group gt has_fields hours http : Command
  includes index_create index_drop index_list index_rename index_status index_wait info : Command
  inner_join insert insert_at intersects in_timezone iso is_empty javascript json keys le : Command
  limit line literal lt map match max merge min minutes mod_ month mul ne not now nth : Command
  offsets_of or order_by outer_join pluck point polygon polygon_sub prepend random range : Command
  rebalance reconfigure reduce replace round sample seconds set_difference set_insert : Command
  set_intersection set_union skip slice splice_at split status sub sum sync table : Command
  table_create table_drop table_list time timezone time_of_day to_epoch_time to_geojson : Command
  to_iso to_json_string type_of ungroup union upcase update uuid values wait without : Command
  with_fields year zip : Command
