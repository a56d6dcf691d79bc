-- ===== src/Cmd/Server.antt =====
-- cmd/service/fcs.go: what the server serves under its routes.
pub mod English
use mquery_fcs.Cnf.{Conf, ServerInfo}
use mquery_fcs.Handler.Endpoint.{Server, Response, respond}
use mquery_fcs.Handler.Params.{Params}
use mquery_fcs.Handler.V20.Explain.English.{serving}
use mquery_fcs.Handler.V20.Search.{Parsed, Published}
use mquery_fcs.Handler.View.{style_sheets}
use mquery_fcs.Prelude.{String, Option, none, some, List, [], ◌∷◌}
use mquery_fcs.Query.Basic.{BinaryOperatorQuery}
use mquery_fcs.Query.FcsQl
use mquery_fcs.Rdb.{ConcQueryArgs}

-- The handlers that the routes lead to.
pub data Handler : Type 0 where
  fcs_handler view_handler assets form_handler workers_load : Handler

pub record Route : Type 0 where
  pub method : String
  pub path : String
  pub handler : Handler

-- The routes of `runApiServer`; the files of the assets are served for both methods.
abbrev pub routes : List Route
routes =
    record { method = "GET"; path = "/"; handler = fcs_handler }
    ∷ record { method = "HEAD"; path = "/"; handler = fcs_handler }
    ∷ record { method = "GET"; path = "/ui/view"; handler = view_handler }
    ∷ record { method = "GET"; path = "/ui/assets/*filepath"; handler = assets }
    ∷ record { method = "HEAD"; path = "/ui/assets/*filepath"; handler = assets }
    ∷ record { method = "GET"; path = "/ui/form"; handler = form_handler }
    ∷ record { method = "GET"; path = "/monitoring/workers-load"; handler = workers_load }
    ∷ []

module _ {L : Type 0} (parse_basic : String → Parsed BinaryOperatorQuery)
    (parse_fcs : String → Parsed FcsQl.Query) (publish : ConcQueryArgs → Published L) where
  -- `NewFCSHandler`, with the description of the server and the configuration.
  abbrev pub new_fcs_handler : ServerInfo → Conf → Server L
  new_fcs_handler info d = record {
    info = info;
    conf = serving d.corpora_setup;
    parse_basic = parse_basic;
    parse_fcs = parse_fcs;
    publish = publish;
  }

  -- The response of a route to the parameters of a request; `none` for a route that is not the
  -- endpoint's. `FCSHandler` has no style sheets, and the view has its own.
  unfoldable pub page : ServerInfo → Conf → Handler → Params → Option (Response L)
  unfolding respond style_sheets
  page info d fcs_handler ps = some (respond (new_fcs_handler info d) ps [])
  page info d view_handler ps =
      some (respond (new_fcs_handler info d) ps (style_sheets d.assets_url_path))
  page info d assets ps = none
  page info d form_handler ps = none
  page info d workers_load ps = none
