-- ===== src/Lib.antt =====
-- mquery-fcs: an endpoint of the search protocols SRU and FCS over several text corpora. A request is
-- checked, its query is translated for each corpus, each corpus is asked for its part of the page,
-- and the lines that come back are shown in turns.
--
-- Parts, and the files of the repository that they model:
--   Result.RoundRobin       result/rscrr.go: the selector that takes lines of several results in turn.
--                           Its `Next`, `CurrLine`, `SetRscLines`, … are `next`, `curr_line`,
--                           `set_rsc_lines`, …; a panic is `none`. Child modules: the selector after a
--                           number of visits (Visits), its lines as a sequence of cells (Cells), what
--                           one call of `Next` does (Rounds, Reading), and its filling (Setup, Filling).
--   Query.Ranges            query/rngcalc.go: `CalculatePartialRanges`.
--   Query.FcsQl             query/parser/fcsql/ast.go: FCS-QL trees and their `Generate` methods.
--                           The errors that they add to the query are a state that is passed on.
--   Query.Basic             query/parser/basic/ast.go: the same for basic queries.
--   Search.Paging           ranges, answers and selector put together as the handlers do it when no
--                           corpus reports an error.
--   Corpus                  corpus/conf.go: layers, attributes, the check of a corpus setup and of
--                           the configuration of all corpora, lookups, and the attributes that
--                           corpora have in common (CommonAttrs) and their layers (CommonLayers).
--   General                 general/error.go and general/response.go: error codes, and the errors that
--                           a request gathers.
--   Handler                 handler/general.go, handler/v20/ and handler/v12/: the parameters of a
--                           request, the choice of the operation (Dispatch), scan, explain, and
--                           searchRetrieve from its checks (Request, Search) to its response (Search) and
--                           the data views of its records (DataViews); all of it put together from the
--                           parameters to the response (Endpoint); the records with their links (Records,
--                           and Backlink for backlink/backlink.go), the writing of the response
--                           (Writing) and the style sheets of handler/view.go (View, Sheets, Slashes). What the two
--                           versions have in common word for word is modelled once, under V20.
--   Rdb                     rdb/client.go: the queue of queries and the results, over the commands of
--                           Redis (`Redis`); the waiting for an answer (Waiting); rdb/conf.go and the
--                           making of an adapter (Conf), and the test of the connection (Connecting).
--                           Rdb.Laws says what is relied on of Redis.
--   Worker                  worker/worker.go and mango/mango.go: a worker's turn (`try_next_query`), its
--                           results and its loop (Listening); turns one behind the other (Serving),
--                           with clients in between (Schedules), and up to the client (RoundTrip); how the
--                           binding of the corpus engine is called (Binding).
--   Cmd                     cmd/service/fcs.go: the program from its arguments to the server or the worker
--                           that it becomes (Starting, Failing), and the routes of a server
--                           (Server); cmd/service/translate.go: the dialogue that translates queries
--                           (Translate).
--   Cnf                     cnf/conf.go: the check of the server's configuration, and its loading from
--                           files (Loading), with what happens where a section is missing.
--   Tests                   the theorems at concrete inputs.
--
-- How they interact: `main` becomes a server with a configuration that `load_config` gives and
-- `Cnf.validate_and_defaults` accepts, which checks the corpora and Redis. `search_retrieve` checks
-- a request (`check_request`), divides the page among the corpora (`calculate_partial_ranges`),
-- translates and publishes a query for each, fills a selector with the results (`fill_results`) and
-- makes a record of each line that it gives (`make_records`). A query is published by
-- `Rdb.publish_query`, taken and answered by a worker's `try_next_query`, and its result is
-- `received` behind the handler's channel.
--
-- Bounds: positions and counts are natural numbers with no upper bound; the handlers admit starts
-- from 1 and at most 1000 records. The time for an answer is in nanoseconds of 64 bits. A parameter that is a number is read in the range of 64 bits. The
-- loops of the selector are recursive on the rounds left: one for each item in `Next` as in the
-- source, and for reading the lines that were asked for, which is all that the source reads. The
-- loops of a worker and of a waiting handler are recursive on the signals that they get.
--
-- Parameters: the parsers that are generated from the grammars, what comes of a published query (in
-- the handlers) or the commands of Redis (in the queue), what the corpus engine returns, what is
-- found of a directory, the known time zones, for the loading of a configuration the files and the
-- decoder of JSON, the encoder of XML, the library of addresses and the web framework's writer, and
-- the sets of a library for the layers. Where a page is related to the concordances, the answer to a
-- range holds the lines of the corpus from the start of the range on, as many as were asked for at
-- most. Where the queue is related to the answers, Redis is reliable (`Rdb.Laws.Reliable`): its
-- commands do not fail, popping takes the oldest query, and nothing that is stored expires.
--
-- Not modelled: the binding to the corpus engine in C++, the encodings of queries, results and
-- responses, times of day, the shutting down of the web server, logs, monitoring, whose operations
-- are empty, the form, and the integration tests.
pub mod Prelude
pub mod Result
pub mod Query
pub mod Search
pub mod General
pub mod Corpus
pub mod Handler
pub mod Rdb
pub mod Cnf
pub mod Cmd
pub mod Worker
pub mod Tests
