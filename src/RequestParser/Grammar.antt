-- ===== src/RequestParser/Grammar.antt =====
-- The requests that the parser is for, described without its states: how one is written, and what
-- it says.
use cs_3_boost_echo_static_s.Base.{
  Bool, ◌≡◌, ◌≢◌, true, false, ◌||◌, List, [], ◌∷◌, ◌++◌, Bytes, map, all, All, ◌==◌, ℕ,
}
use cs_3_boost_echo_static_s.Http.{HttpRequest}
use cs_3_boost_echo_static_s.RequestParser.Runs.{is_word, is_text, is_uri_char, is_digit_char}

-- A blank that folds a header line.
abbrev pub is_lws : ℕ → Bool
is_lws c = c == b' ' || c == b'\t'

-- A continuation line of a header value: at least one blank, then more of the value.
pub record Fold : Type 0 where
  pub blank : ℕ
  pub blanks : Bytes
  pub text : Bytes

pub record Field : Type 0 where
  pub name : Bytes
  pub value : Bytes
  pub folds : List Fold

-- The digits of the version are read and forgotten by the program.
pub record RequestText : Type 0 where
  pub method : Bytes
  pub uri : Bytes
  pub major : Bytes
  pub minor : Bytes
  pub fields : List Field

abbrev pub starts_blank : Bytes → Bool
starts_blank [] = false
starts_blank (c ∷ _) = c == b' '

pub record IsFold (f : Fold) : Type 0 where
  pub blank_lws : is_lws f.blank ≡ true
  pub blanks_lws : all is_lws f.blanks ≡ true
  pub text_plain : all is_text f.text ≡ true
  pub text_starts : starts_blank f.text ≡ false

pub record IsField (f : Field) : Type 0 where
  pub name_ne_nil : f.name ≢ []
  pub name_word : all is_word f.name ≡ true
  pub value_plain : all is_text f.value ≡ true
  pub folds_are : All IsFold f.folds

pub record IsRequest (t : RequestText) : Type 0 where
  pub method_ne_nil : t.method ≢ []
  pub method_word : all is_word t.method ≡ true
  pub uri_plain : all is_uri_char t.uri ≡ true
  pub major_ne_nil : t.major ≢ []
  pub major_digits : all is_digit_char t.major ≡ true
  pub minor_ne_nil : t.minor ≢ []
  pub minor_digits : all is_digit_char t.minor ≡ true
  pub fields_are : All IsField t.fields

-- Each piece is written in front of `rest`.
abbrev pub crlf : Bytes → Bytes
crlf rest = b'\r' ∷ b'\n' ∷ rest

abbrev pub write_folds : List Fold → Bytes → Bytes
write_folds [] rest = rest
write_folds (f ∷ fs) rest = f.blank ∷ (f.blanks ++ (f.text ++ crlf (write_folds fs rest)))

abbrev pub write_fields : List Field → Bytes → Bytes
write_fields [] rest = rest
write_fields (f ∷ fs) rest =
    f.name ++ (b':' ∷ b' ' ∷ (f.value ++ crlf (write_folds f.folds (write_fields fs rest))))

abbrev pub write_request : RequestText → Bytes → Bytes
write_request t rest =
    t.method
    ++ (b' '
        ∷ (t.uri
            ++ (b' '
                ∷ b'H'
                ∷ b'T'
                ∷ b'T'
                ∷ b'P'
                ∷ b'/'
                ∷ (t.major ++ (b'.' ∷ (t.minor ++ crlf (write_fields t.fields (crlf rest))))))))

-- A folded value is its lines, without the blanks that they begin with.
abbrev pub unfold_value : Bytes → List Fold → Bytes
unfold_value v [] = v
unfold_value v (f ∷ fs) = unfold_value (v ++ f.text) fs

abbrev pub header_of : Field → Bytes × Bytes
header_of f = (f.name, unfold_value f.value f.folds)

-- What the request of the text says, added to `req`.
abbrev pub meaning : HttpRequest → RequestText → HttpRequest
meaning req t = record req {
  method = req.method ++ t.method;
  uri = req.uri ++ t.uri;
  headers = req.headers ++ map header_of t.fields;
}
