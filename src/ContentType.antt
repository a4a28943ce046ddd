-- ===== src/ContentType.antt =====
-- resolver/internal/contenttype/contenttype.go: whether served bytes agree with the declared media type.
use decentralized_dns.Base.{
  Bytes, Bytes-discrete, List, [], ◌∷◌, Bool, true, ◌&&◌, ◌||◌, Option, none, some, ite,
  if◌then◌else◌, codes, ◌==◌,
}
use decentralized_dns.Base.Text.{Unicode, trim_space, to_lower, has_prefix}
use decentralized_dns.Query.Selector.{one_of}

-- mime.ParseMediaType (its first result) and http.DetectContentType
pub record Sniffer : Type 0 where
  pub parse_media_type : Bytes → Option Bytes
  pub detect_content_type : Bytes → Bytes

-- ct[:i] at the first ';', or ct
unfoldable pub before_semicolon : Bytes → Bytes
before_semicolon [] = []
before_semicolon (c ∷ cs) = if c == b';' then [] else c ∷ before_semicolon cs

unfoldable pub base_type : Unicode → Sniffer → Bytes → Bytes
unfolding before_semicolon
base_type u n ct = elim (n.parse_media_type ct) [
  | some mt ↦ mt
  | none ↦ to_lower u (trim_space u (before_semicolon ct))
]

abbrev pub text_types : List Bytes
text_types =
    codes "application/javascript"
    ∷ codes "application/x-javascript"
    ∷ codes "application/ecmascript"
    ∷ codes "application/json"
    ∷ codes "application/ld+json"
    ∷ codes "application/xml"
    ∷ codes "application/xhtml+xml"
    ∷ codes "image/svg+xml"
    ∷ []

unfoldable pub is_text : Bytes → Bool
unfolding one_of
is_text base = has_prefix base (codes "text/") || one_of text_types base

-- contenttype.Result, less its reason
pub record Verdict : Type 0 where
  pub declared : Bytes
  pub detected : Bytes
  pub is_ok : Bool

-- the switch of Validate on the two base types
unfoldable pub agrees : Bytes → Bytes → Bool
unfolding is_text
agrees declared detected = ite (Bytes-discrete declared []) true (
    ite (Bytes-discrete declared (codes "application/octet-stream")) true
      (ite (Bytes-discrete declared detected) true (is_text declared && is_text detected)))

unfoldable pub validate : Unicode → Sniffer → Bytes → Bytes → Verdict
unfolding agrees base_type
validate u n declared body =
    let detected = n.detect_content_type body in
    record {
      declared = declared;
      detected = detected;
      is_ok = agrees (base_type u n declared) (base_type u n detected);
    }
