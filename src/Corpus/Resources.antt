-- ===== src/Corpus/Resources.antt =====
-- corpus/conf.go: the list of all configured corpora.
use mquery_fcs.Corpus.Setup.{CorpusSetup}
use mquery_fcs.Prelude.{str_eq, if◌then◌else◌, String, Option, none, some, List, [], ◌∷◌, map}

-- `GetCorpora`.
abbrev pub get_corpora : List CorpusSetup → List String
get_corpora = map λ c. c.id

-- `GetResource`; `none` is `ErrResourceNotFound`.
unfoldable pub get_resource : List CorpusSetup → String → Option CorpusSetup
get_resource [] id = none
get_resource (c ∷ cs) id = if str_eq c.id id then some c else get_resource cs id

-- `GetResourceByPID`.
unfoldable pub get_resource_by_pid : List CorpusSetup → String → Option CorpusSetup
get_resource_by_pid [] pid = none
get_resource_by_pid (c ∷ cs) pid = if str_eq c.pid pid then some c else get_resource_by_pid cs pid
