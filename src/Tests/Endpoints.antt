-- ===== src/Tests/Endpoints.antt =====
-- What a client is given: URIs, and schemas.
use hyper_vector.Common.{◌≡◌, refl, true, false, Bool, none, some, [], ◌∷◌, ◌++◌, List, arith}
use hyper_vector.Common.Result.{ok, err, value_error}
use hyper_vector.Common.Dict.{codes_eq}
use hyper_vector.Json.{get, bool, int, field, end}
use hyper_vector.Json.Text.{to_upper}
use hyper_vector.Engine.Schema.{vector_field, id_field}
use hyper_vector.Client.Schema.{CollectionSchema, schema_dict}
use hyper_vector.Client.Schema.Laws.{
  Added, add_fields, first, is_vector, is_primary, fields-add_fields,
}
use hyper_vector.Names.{codes, is_alnum, is_name_char}
use hyper_vector.Bundle.Lines.{Text}
use hyper_vector.Json.Text.{decimal}
use hyper_vector.Client.Url.Plain.{is_plain}
use hyper_vector.Client.Uri.{ParsedUri, parse_uri}
use hyper_vector.Client.Uri.Laws.{IsEndpoint, parse_uri-IsEndpoint}
use hyper_vector.Client.Uri.Bare.{parse_uri-bare}
use hyper_vector.Client.Target.{h2c_target, base_uri}
use hyper_vector.Client.Target.Laws.{target-reached}

abbrev accepts : Text → Bool
accepts netloc = true

abbrev local : ParsedUri
local = record {
  transport = codes "https";
  host = codes "db.local";
  port = 443;
  address = codes "db.local:443";
  http_base = some (codes "https://db.local:443/api");
}

-- The port 0 stands for the default.
https_base : parse_uri accepts (codes " HTTPS://Db.Local:0/api// ") ≡ ok local
unfolding parse_uri
https_base = refl

parse_uri-IsEndpoint_example : IsEndpoint local
parse_uri-IsEndpoint_example =
    parse_uri-IsEndpoint accepts (codes " HTTPS://Db.Local:0/api// ") local https_base

parse_uri-bare_example :
    parse_uri accepts (codes "db1" ++ b':' ∷ codes (decimal 50051))
    ≡ ok (record {
      transport = codes "grpc";
      host = codes "db1";
      port = 50051;
      address = codes "db1" ++ b':' ∷ codes (decimal 50051);
      http_base = none;
    })
unfolding is_plain
parse_uri-bare_example =
    parse_uri-bare (codes "db1") 50051 (refl, (refl, (refl, tt))) (refl, (refl, (refl, tt))) accepts
      (λ e. cc) (omega arith) (omega arith) refl

ipv6 :
    parse_uri accepts (codes "[::1]:70")
    ≡ ok (record {
      transport = codes "grpc";
      host = codes "::1";
      port = 70;
      address = codes "[::1]:70";
      http_base = none;
    })
unfolding parse_uri
ipv6 = refl

with_password : parse_uri accepts (codes "tcp://a:b@host") ≡ err value_error
unfolding parse_uri
with_password = refl

target-reached_example :
    (p : ParsedUri) × (parse_uri accepts
        (codes "http://" ++ (codes "db1" ++ b':' ∷ codes (decimal 8080)))
      ≡ ok p)
    × (h2c_target accepts
          (base_uri p)
          (codes "/collections/" ++ codes "docs" ++ b'/' ∷ codes "exists")
        ≡ ok (
            some (record {
              host = codes "db1";
              port = 8080;
              authority = codes "db1" ++ b':' ∷ codes (decimal 8080);
              request_path = codes "/collections/" ++ codes "docs" ++ b'/' ∷ codes "exists";
            })))
unfolding is_plain is_alnum is_name_char
target-reached_example =
    target-reached (codes "db1") 8080 (refl, (refl, (refl, tt))) (refl, (refl, (refl, tt)))
      (codes "docs") (codes "exists") (refl, (refl, (refl, (refl, tt))))
      (refl, (refl, (refl, (refl, (refl, (refl, tt)))))) refl accepts (omega arith) (omega arith)
      (λ e. cc) refl refl

-- The authority of an address with colons has no brackets.
ipv6_target :
    h2c_target accepts (codes "http://[::1]:80/") (codes "/health")
    ≡ ok (
        some (record {
          host = codes "::1";
          port = 80;
          authority = codes "::1:80";
          request_path = codes "/health";
        }))
unfolding h2c_target
ipv6_target = refl

-- A name with dots is resolved away.
dotted_target :
    h2c_target accepts (codes "http://h/") (codes "/collections/../drop")
    ≡ ok (
        some (record {
          host = codes "h";
          port = 80;
          authority = codes "h";
          request_path = codes "/drop";
        }))
unfolding h2c_target
dotted_target = refl

abbrev added : List Added
added =
    record {
      name = "id";
      datatype = "VARCHAR";
      kwargs = field "is_primary" (bool true) (field "max_length" (int 64) end);
    }
    ∷ record { name = "embedding"; datatype = "float_vector"; kwargs = field "dim" (int 2) end }
    ∷ []

abbrev new_schema : CollectionSchema
new_schema = record { auto_id = false; enable_dynamic_field = true; description = ""; fields = [] }

fields-add_fields_example :
    (vector_field (λ v. "?") (schema_dict (add_fields added new_schema))
      ≡ first is_vector added "vector")
    × (id_field (λ v. "?") (schema_dict (add_fields added new_schema))
        ≡ first is_primary added "id")
unfolding get
fields-add_fields_example =
    fields-add_fields (λ v. "?") added new_schema refl
      (
        record { keys = (refl, (refl, tt)); no_name = refl; no_datatype = refl },
        (record { keys = (refl, tt); no_name = refl; no_datatype = refl }, tt),
      )

embedding_first : first is_vector added "vector" ≡ "embedding"
unfolding codes_eq to_upper
embedding_first = refl
