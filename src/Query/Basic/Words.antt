-- ===== src/Query/Basic/Words.antt =====
-- What a word becomes, character by character.
use Prim.Native.Char.{Char, code}
use mquery_fcs.Prelude.{
  ◌==◌, if◌then◌else◌, String, true, false, ◌≡◌, refl, Bool-cases, inl, inr, arith,
}
use mquery_fcs.Query.Basic.{behind, escape_char, is_meta, quote_meta, generate_word}

-- What is written for a character: four backslashes before a quote, four for a backslash, and one
-- before each other character that means something in a regular expression.
unfoldable pub written : Char → String → String
written c rest =
    if code c == 34
    then behind (behind (behind (behind (String.◌∷◌ c rest))))
    else if code c == 92
    then behind (behind (behind (String.◌∷◌ c rest)))
    else if is_meta (code c)
    then behind (String.◌∷◌ c rest)
    else String.◌∷◌ c rest

unfoldable pub written_word : String → String
written_word String.[] = ""
written_word (String.◌∷◌ c s) = written c (written_word s)

-- The two replacements and the quoting of a word come to one pass over its characters, in which a
-- quote is written behind four backslashes.
pub generate_word-written : (w : String) → generate_word w ≡ written_word w
unfolding generate_word written_word written escape_char quote_meta
generate_word-written String.[] = refl
generate_word-written (String.◌∷◌ c s) = elim (Bool-cases (code c == 34)) [
  | inl q ↦
      let b : code c == 92 ≡ false = ground (arith, q) in
      let k : is_meta (code c) ≡ false = ground (arith, q) in
      rw (escape_char, q, written, ← generate_word-written s)
        (rw (escape_char, b, quote_meta) (rw (k, quote_meta) refl))
  | inr n ↦ elim (Bool-cases (code c == 92)) [
    | inl b ↦
        let k : is_meta (code c) ≡ true = ground (arith, b) in
        rw (escape_char, n, written, b, ← generate_word-written s) (rw (quote_meta, k) refl)
    | inr m ↦ elim (Bool-cases (is_meta (code c))) [
      | inl k ↦ rw (written, k, n) (rw (m, ← generate_word-written s) (rw (quote_meta, k) refl))
      | inr k ↦ rw (written, k, n) (rw (m, ← generate_word-written s) (rw (quote_meta, k) refl))
    ]
  ]
]
