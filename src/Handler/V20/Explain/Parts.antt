-- ===== src/Handler/V20/Explain/Parts.antt =====
-- handler/v20/schema/explain.go and handler/v12/schema/explain.go: the parts of a response to explain that
-- are the same for every server. An attribute that is left out when it is false is false here.
use mquery_fcs.Prelude.Integers.{Integer}
use mquery_fcs.Prelude.{String, Bool, true, false, List, [], ◌∷◌}

-- `XMLMultilingual`.
pub record Multilingual : Type 0 where
  pub language : String
  pub primary : Bool
  pub value : String

-- `XMLExplainServerInfo`.
pub record Endpoint : Type 0 where
  pub protocol : String
  pub version : String
  pub transport : String
  pub host : String
  pub port : String
  pub database : String

-- `XMLExplainDatabaseInfo`.
pub record DatabaseInfo : Type 0 where
  pub titles : List Multilingual
  pub descriptions : List Multilingual
  pub authors : List Multilingual

-- `XMLExplainDefinition`.
pub record Definition : Type 0 where
  pub identifier : String
  pub name : String
  pub titles : List Multilingual

-- `XMLExplainIndexInfoIndexMap`, with the set and the value of its name.
pub record IndexMap : Type 0 where
  pub primary : Bool
  pub set : String
  pub value : String

-- `XMLExplainIndexInfoIndex`.
pub record Index : Type 0 where
  pub search : Bool
  pub scan : Bool
  pub sort : Bool
  pub titles : List Multilingual
  pub maps : List IndexMap

-- `XMLExplainIndexInfo`.
pub record IndexInfo : Type 0 where
  pub set : Definition
  pub index : Index

-- `XMLExplainConfig`, with the name of its element; the values are numbers.
pub record Config : Type 0 where
  pub name : String
  pub type : String
  pub value : Integer

-- `XMLExplainSupportedDataView`.
pub record SupportedDataView : Type 0 where
  pub id : String
  pub delivery_policy : String
  pub value : String

-- `AddDefault`.
unfoldable pub add_default : String → Integer → List Config → List Config
add_default key value [] = record { name = "zr:default"; type = key; value = value } ∷ []
add_default key value (c ∷ cs) = c ∷ add_default key value cs

-- `AddSetting`.
unfoldable pub add_setting : String → Integer → List Config → List Config
add_setting type value [] = record { name = "zr:setting"; type = type; value = value } ∷ []
add_setting type value (c ∷ cs) = c ∷ add_setting type value cs

abbrev pub zeerex : String
zeerex = "http://explain.z3950.org/dtd/2.0/"

abbrev pub index_info : IndexInfo
index_info = record {
  set = record {
    identifier = "http://clarin.eu/fcs/resource";
    name = "fcs";
    titles =
        record { language = "se"; primary = false; value = "Clarins innehållssökning" }
        ∷ record { language = "en"; primary = true; value = "CLARIN Content Search" }
        ∷ [];
  };
  index = record {
    search = true;
    scan = false;
    sort = false;
    titles = record { language = "en"; primary = true; value = "Words" } ∷ [];
    maps = record { primary = true; set = "fcs"; value = "words" } ∷ [];
  };
}

abbrev pub schema_info : Definition
schema_info = record {
  identifier = "http://clarin.eu/fcs/resource";
  name = "fcs";
  titles =
      record { language = "en"; primary = true; value = "CLARIN Federated Content Search" } ∷ [];
}

-- `ExplainOpNumberOfRecords`.
abbrev pub explain_op_number_of_records : Integer
explain_op_number_of_records = record { negative = false; magnitude = 25 }

abbrev pub config_info : Integer → List Config
config_info maximum =
    record { name = "zr:default"; type = "numberOfRecords"; value = explain_op_number_of_records }
    ∷ record { name = "zr:setting"; type = "maximumRecords"; value = maximum }
    ∷ []

abbrev pub capabilities : List String
capabilities =
    "http://clarin.eu/fcs/capability/basic-search"
    ∷ "http://clarin.eu/fcs/capability/advanced-search" ∷ []

abbrev pub supported_data_views : List SupportedDataView
supported_data_views =
    record {
      id = "hits";
      delivery_policy = "send-by-default";
      value = "application/x-clarin-fcs-hits+xml";
    }
    ∷ record {
      id = "adv";
      delivery_policy = "send-by-default";
      value = "application/x-clarin-fcs-adv+xml";
    }
    ∷ []
