-- ===== src/Handler/Writing.antt =====
-- handler/v20/base.go and handler/v12/base.go: writing a response. The writer is that of the web
-- framework, over the one of the standard library.
use Prim.Native.String
use mquery_fcs.Prelude.Text.{concat}
use mquery_fcs.Prelude.{
  ℕ, str_eq, if◌then◌else◌, String, Bool, true, false, Option, none, some, [], ◌∷◌, ◌≡◌, refl, ap,
  ◌∙◌, ◌≢◌, eq_iff, inl, inr, Bool-cases, arith,
}

-- A response writer with the states `W`: its operations, and what it has sent.
pub record Writer (W : Type 0) : Type 0 where
  pub write_header : ℕ → W → W
  pub write : String → W → Option String × W
  pub set_header : String → String → W → W
  pub http_error : String → ℕ → W → W
  pub committed : W → Bool
  pub status : W → ℕ
  pub header : W → String → String
  pub body : W → String

abbrev pub xml_header : String
xml_header = "<?xml version=\"1.0\" encoding=\"UTF-8\"?>\n"

-- `GetXSLTHeader`.
unfoldable pub get_xslt_header : String → String
get_xslt_header xslt =
    if str_eq xslt ""
    then ""
    else concat ("<?xml-stylesheet type=\"text/xsl\" href=\"" ∷ xslt ∷ "\"?>\n" ∷ [])

-- What encoding to XML gives.
pub data Encoded : Type 0 where
  not_encoded encoded : String → Encoded

-- The content type that the standard library detects in a text that begins with the XML declaration.
abbrev pub detected : String
detected = "text/xml; charset=utf-8"

-- The content type of a response whose writer had this one.
unfoldable pub sent_type : String → String
sent_type s = if str_eq s "" then detected else s

module _ {W : Type 0} (w : Writer W) where
  -- An error of the writing is answered as well.
  abbrev pub on_write_error : Option String × W → W
  on_write_error (none, s) = s
  on_write_error (some e, s) = w.http_error e 500 s

  -- `produceXMLResponse`, with the encoded response.
  unfoldable pub produce_xml_response : ℕ → String → Encoded → W → W
  unfolding get_xslt_header
  produce_xml_response code xslt (not_encoded e) s = w.http_error e 500 s
  produce_xml_response code xslt (encoded xml) s = w.set_header "Content-Type" "application/xml" (
      on_write_error
        (w.write (concat (xml_header ∷ get_xslt_header xslt ∷ xml ∷ [])) (w.write_header code s)))

  -- What is documented of a writer: before anything is written, the status and the headers can be set;
  -- the first writing commits them, and setting a header behind it has no effect on what is sent.
  -- A content type that is not set, which is the empty text, is then detected from what is written.
  pub record Documented : Type 0 where
    pub write_header_status :
        (n : ℕ) (s : W) → w.committed s ≡ false → w.status (w.write_header n s) ≡ n
    pub write_header_header :
        (n : ℕ) (s : W) (k : String) → w.header (w.write_header n s) k ≡ w.header s k
    pub write_header_body : (n : ℕ) (s : W) → w.body (w.write_header n s) ≡ w.body s
    pub write_committed : (t : String) (s : W) → w.committed (w.write t s).1 ≡ true
    pub write_status : (t : String) (s : W) → w.status (w.write t s).1 ≡ w.status s
    pub write_header_committed : (n : ℕ) (s : W) → w.committed (w.write_header n s) ≡ w.committed s
    pub write_type_kept :
        (t : String) (s : W)
        → w.header s "Content-Type" ≢ ""
        → w.header (w.write t s).1 "Content-Type" ≡ w.header s "Content-Type"
    pub write_type_detected :
        (t : String) (s : W)
        → w.committed s ≡ false
        → w.header s "Content-Type" ≡ ""
        → w.header (w.write (String.◌++◌ xml_header t) s).1 "Content-Type" ≡ detected
    pub write_body :
        (t : String) (s : W)
        → (w.write t s).0 ≡ none
        → w.body (w.write t s).1 ≡ String.◌++◌ (w.body s) t
    pub set_header_late :
        (k v : String) (s : W)
        → w.committed s ≡ true
        → (w.status (w.set_header k v s) ≡ w.status s)
          × (w.body (w.set_header k v s) ≡ w.body s)
          × ((j : String) → w.header (w.set_header k v s) j ≡ w.header s j)

  -- A response that can be encoded and written is sent with the status that the handler gives and, behind
  -- what was sent before, with the XML declaration, the line of the style sheet if there is one and
  -- the encoded response; its content type is the one that was set before or, if none was, the one
  -- that is detected for XML, never the one that the function sets.
  pub produce_xml_response-sent :
      Documented
      → (code : ℕ) (xslt xml : String) (s : W) → w.committed s ≡ false
      → (w.write (concat (xml_header ∷ get_xslt_header xslt ∷ xml ∷ [])) (w.write_header code s)).0
        ≡ none
      → let t = produce_xml_response code xslt (encoded xml) s in
        (w.status t ≡ code)
        × (w.body t
            ≡ String.◌++◌ (w.body s) (concat (xml_header ∷ get_xslt_header xslt ∷ xml ∷ [])))
        × (w.header t "Content-Type" ≡ sent_type (w.header s "Content-Type"))
  unfolding produce_xml_response concat sent_type
  produce_xml_response-sent law code xslt xml s fresh e =
      let text = concat (xml_header ∷ get_xslt_header xslt ∷ xml ∷ []) in
      let s1 = w.write_header code s in
      let late =
        law.set_header_late "Content-Type" "application/xml" (w.write text s1).1
          (law.write_committed text s1) in
      rw (written (w.write text s1) e) (
        late.0 ∙ law.write_status text s1 ∙ law.write_header_status code s fresh,
        late.1
            ∙ law.write_body text s1 e
            ∙ ap (λ b. String.◌++◌ b text) (law.write_header_body code s),
        late.2 "Content-Type"
            ∙ type_of s1 (law.write_header_committed code s ∙ fresh)
            ∙ ap sent_type (law.write_header_header code s "Content-Type"),
      )
    where
      type_of :
          (s1 : W)
          → w.committed s1 ≡ false
          → w.header
              (w.write (concat (xml_header ∷ get_xslt_header xslt ∷ xml ∷ [])) s1).1
              "Content-Type"
            ≡ sent_type (w.header s1 "Content-Type")
      type_of s1 f = elim (Bool-cases (str_eq (w.header s1 "Content-Type") "")) [
        | inl e ↦ rw (sent_type, e) (law.write_type_detected _ s1 f ((eq_iff _ _).0 e))
        | inr n ↦
            rw (sent_type, n)
              (law.write_type_kept _ s1
                λ e. ground (arith, eq_iff (w.header s1 "Content-Type") "", n, e))
      ]

      written :
          (p : Option String × W)
          → p.0 ≡ none
          → w.set_header "Content-Type" "application/xml" (on_write_error p)
            ≡ w.set_header "Content-Type" "application/xml" p.1
      written (none, t) q = refl
      written (some m, t) q = cc
