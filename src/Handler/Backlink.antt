-- ===== src/Handler/Backlink.antt =====
-- backlink/backlink.go: the address of a line in the application KonText, over the library of addresses.
use mquery_fcs.Prelude.Text.{concat}
use mquery_fcs.Prelude.{String, [], ◌∷◌}

-- What parsing an address gives.
pub data ParsedUrl (U : Type 0) : Type 0 where
  url_error : String → ParsedUrl U
  url : U → ParsedUrl U

-- The addresses `U` of the library, and the maps of values `V` that are written into them.
pub record Urls (U V : Type 0) : Type 0 where
  pub parse : String → ParsedUrl U
  pub join_path : String → U → U
  pub no_values : V
  pub add : String → String → V → V
  pub encode : V → String
  pub with_raw_query : String → U → U
  pub to_string : U → String

-- An address, or an error.
pub data Link : Type 0 where
  link link_error : String → Link

module _ {U V : Type 0} (urls : Urls U V) where
  -- The values of the link, in the order in which they are added.
  abbrev pub link_values : String → String → String → V
  link_values corpus main_query token_id =
      urls.add "q" (concat ("p0 0 1 [" ∷ token_id ∷ "]" ∷ [])) (
        urls.add "q" (concat ("aword," ∷ main_query ∷ []))
          (urls.add "corpname" corpus urls.no_values))

  -- `GenerateForKonText`.
  unfoldable pub generate_for_kontext : String → String → String → String → Link
  generate_for_kontext root corpus main_query token_id = elim (urls.parse root) [
    | url_error e ↦ link_error e
    | url u ↦ link (
        urls.to_string (
          urls.with_raw_query (urls.encode (link_values corpus main_query token_id))
            (urls.join_path "create_view" u)))
  ]
