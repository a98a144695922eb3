-- ===== src/Tests/Wire.antt =====
-- The wire format on concrete messages.
use pgfox.Prelude.{ℕ, ◌≡◌, refl, none, some, List, [], ◌∷◌, ◌++◌, arith, map, ◌⊎◌, drop}
use pgfox.Prelude.Bytes.{Bytes, codes}
use pgfox.Wire.CString.{find_nul}
use pgfox.Wire.Parse.{
  parse_body_statement_name, parse_body_query, rewrite_parse_body_name, rewrite_parse_body_name_lem,
}
use pgfox.Wire.Bind.{
  build_bind_body, bind_body_statement_name, rewrite_bind_body_name, IsMalformed, Named,
  rewrite_bind_body_name_lem,
}
use pgfox.Wire.Bind.Decode.{read_bind, read_bind-build_bind_body}
use pgfox.Wire.Frame.{Message}
use pgfox.Wire.Notification.{
  NotificationMessage, notification_body, parse_notification_response,
  parse_notification_response-notification_body,
}
use pgfox.Wire.Startup.{
  Params, encode, parse_startup_params, lookup_param, build_startup_message,
  lookup_param-build_startup_message, parse_startup_params_empty_value,
}

abbrev stmt : Bytes
stmt = codes "s1"

abbrev internal : Bytes
internal = codes "pfx_0a"

abbrev sql : Bytes
sql = codes "SELECT $1"

abbrev oids : List ℕ
oids = 23 ∷ []

abbrev parse_body : Bytes
parse_body = stmt ++ 0 ∷ (sql ++ 0 ∷ 0 ∷ 0 ∷ [])

rewrite_parse_body_name_lem_example :
    ((find_nul parse_body ≡ none) × (rewrite_parse_body_name parse_body internal ≡ parse_body))
    ⊎ ((i : ℕ) × (find_nul parse_body ≡ some i)
        × (parse_body_statement_name (rewrite_parse_body_name parse_body internal) ≡ internal)
        × (parse_body_query (rewrite_parse_body_name parse_body internal)
            ≡ parse_body_query parse_body)
        × ((other : Bytes)
            → rewrite_parse_body_name (rewrite_parse_body_name parse_body internal) other
              ≡ rewrite_parse_body_name parse_body other))
rewrite_parse_body_name_lem_example = rewrite_parse_body_name_lem parse_body internal (ground arith)

rewritten_parse :
    rewrite_parse_body_name (codes "a" ++ 0 ∷ 66 ∷ 0 ∷ []) (codes "xy")
    ≡ 120 ∷ 121 ∷ 0 ∷ 66 ∷ 0 ∷ []
unfolding rewrite_parse_body_name find_nul
rewritten_parse = refl

abbrev bind_body : Bytes
bind_body = 0 ∷ (stmt ++ 0 ∷ 0 ∷ 0 ∷ 0 ∷ 0 ∷ 0 ∷ 0 ∷ [])

rewrite_bind_body_name_lem_example :
    (IsMalformed bind_body × (rewrite_bind_body_name bind_body internal ≡ bind_body))
    ⊎ ((b : Named bind_body) × (bind_body_statement_name bind_body ≡ b.name)
        × (rewrite_bind_body_name bind_body internal ≡ b.portal ++ 0 ∷ (internal ++ 0 ∷ b.tail))
        × (bind_body_statement_name (rewrite_bind_body_name bind_body internal) ≡ internal)
        × ((other : Bytes)
            → rewrite_bind_body_name (rewrite_bind_body_name bind_body internal) other
              ≡ rewrite_bind_body_name bind_body other))
rewrite_bind_body_name_lem_example = rewrite_bind_body_name_lem bind_body internal (ground arith)

rewritten_bind :
    rewrite_bind_body_name (0 ∷ 97 ∷ 0 ∷ 7 ∷ []) (codes "xy") ≡ 0 ∷ 120 ∷ 121 ∷ 0 ∷ 7 ∷ []
unfolding rewrite_bind_body_name find_nul
rewritten_bind = refl

abbrev values : List Bytes
values = codes "42" ∷ [] ∷ []

read_bind-build_bind_body_example :
    read_bind (build_bind_body [] stmt [] values (1 ∷ []))
    ≡ some (record {
      portal = [];
      statement = stmt;
      param_formats = [];
      values = map some values;
      result_formats = 1 ∷ [];
      trailing = [];
    })
read_bind-build_bind_body_example =
    read_bind-build_bind_body [] stmt [] values (1 ∷ []) tt (ground arith) tt (ground arith)
      (ground arith) (ground arith) (ground arith) (ground arith)

abbrev query_message : Message
query_message = record { msg_type = b'Q'; body = codes "BEGIN" ++ 0 ∷ [] }

abbrev short : NotificationMessage
short = record { process_id = 77; channel = codes "c"; payload = [] }

parse_notification_response-notification_body_example :
    parse_notification_response (notification_body short) ≡ none
parse_notification_response-notification_body_example =
    parse_notification_response-notification_body short (ground arith) (ground arith)

abbrev sent : Params
sent = (codes "user", codes "ann") ∷ (codes "database", codes "shop") ∷ []

lookup_param-build_startup_message_example :
    let params =
      parse_startup_params (drop 8 (build_startup_message (codes "ann") (codes "shop"))) in
    (lookup_param (codes "user") params ≡ some (codes "ann"))
    × (lookup_param (codes "database") params ≡ some (codes "shop"))
lookup_param-build_startup_message_example =
    lookup_param-build_startup_message (codes "ann") (codes "shop") (ground arith) (ground arith)

parse_startup_params_empty_value_example :
    let params = parse_startup_params (
      encode (
        (codes "user", codes "ann")
        ∷ (codes "options", [])
        ∷ (codes "database", codes "shop")
        ∷ [])) in
    (params ≡ (codes "options", codes "database") ∷ (codes "user", codes "ann") ∷ [])
    × (lookup_param (codes "database") params ≡ none)
parse_startup_params_empty_value_example =
    parse_startup_params_empty_value (codes "ann") (codes "options") (codes "shop") (ground arith)
      (ground arith) (ground arith) (ground arith)
