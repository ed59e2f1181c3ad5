-- ===== src/Examples/Methods.antt =====
-- Calls of the generated methods of src/commands/mod.rs at concrete inputs.
use reql.Base.{codes, some, [], ◌≡◌, refl}
use reql.Errors.{ok}
use reql.Proto.{Term}
use reql.Proto.Commands.{Command}
use reql.Types.FromJson.{str_datum, datum_term}
use reql.Types.Json.{arr, int, str, nil, cons, end, ◌+++◌}
use reql.Types.Wire.{wire, wire_datum, is_plain}
use reql.Commands.Client.{call_text}
use reql.Commands.Client.Wire.{array_of, object_of}
use reql.Commands.Methods.Table.{call_method}
use reql.Commands.Methods.Laws.{call_method-wire}
use reql.Examples.Queries.{formats, db_call, db_json, db_client, table_arg}

call_method-wire_example :
    ((call_method Command.table db_client table_arg).query
      ≡ call_text db_client.query (codes "table") [])
    × (u : Term) × ((call_method Command.table db_client table_arg).term ≡ ok u)
    × (wire formats u
        ≡ some (
            cons
              (arr (
                cons
                  (int 15)
                  (array_of (db_json +++ cons (str (codes "t")) nil) +++ object_of end)))
              nil))
call_method-wire_example =
    call_method-wire formats Command.table db_client table_arg db_call
      (datum_term (str_datum (codes "t"))) db_json (cons (str (codes "t")) nil) end refl refl
      (unfold wire wire_datum is_plain in refl) (unfold wire wire_datum is_plain in refl)
