-- ===== src/Tests/Responses.antt =====
-- Requests to the endpoint: one for a page, and one of a version that is not supported.
use mquery_fcs.Handler.Endpoint.Shapes.{Shaped, respond-Shaped, respond-unsupported}
use mquery_fcs.Handler.Endpoint.{Server, respond, explain_refused}
use mquery_fcs.Handler.Params.{Params, get_query}
use mquery_fcs.Handler.V20.Search.{Published, result}
use mquery_fcs.Prelude.{String, none, [], ◌∷◌, ◌≡◌, refl}
use mquery_fcs.Rdb.{ConcQueryArgs}
use mquery_fcs.Tests.Configurations.{conf, params, parse_word, parse_nothing}
use mquery_fcs.Tests.Settings.{info}

abbrev worker : ConcQueryArgs → Published String
worker args =
    result (record { lines = "second" ∷ []; conc_size = 2; query = args.query; error = none })

abbrev endpoint : Server String
endpoint = record {
  info = info;
  conf = conf;
  parse_basic = parse_word;
  parse_fcs = parse_nothing;
  publish = worker;
}

respond-Shaped_example : Shaped (respond endpoint params [])
respond-Shaped_example = respond-Shaped endpoint params []

abbrev old_version : Params
old_version = ("version", "1.1") ∷ ("operation", "searchRetrieve") ∷ ("query", "dog") ∷ []

respond-unsupported_example :
    respond endpoint old_version []
    ≡ explain_refused 200
        (record { code = 5; details = "2.0"; message = "Unsupported version 2.0" } ∷ [])
unfolding get_query
respond-unsupported_example = respond-unsupported endpoint old_version [] refl refl
