-- ===== src/Task/Checks/Sensitive.antt =====
-- Texts and keys that must not be stored: `_reject_sensitive_metadata`, `_contains_sensitive_text`
-- and the helpers of the two.
use novel_crawler.Prelude.{
  ℕ, String, ◌==◌, Bool, true, false, not, ◌&&◌, ◌||◌, List, [], ◌∷◌, Option, none, some, leb, ◌=?◌,
  if◌then◌else◌, any, all, length, codes, Result, ok, ◌>>=◌, ◌>>◌, raise_if, or_raise,
}
use mathlib.Core.List.{reverse}
use novel_crawler.Task.Values.{Value, Items, Fields}
use novel_crawler.Task.Records.{TaskError, input_error}
use novel_crawler.Task.Python.{Python, UrlParts}

-- `_SENSITIVE_KEYS`
abbrev pub sensitive_keys : List String
sensitive_keys =
    "api_key" ∷ "authorization" ∷ "browser_token" ∷ "content" ∷ "cookie" ∷ "credential" ∷ "html"
    ∷ "page_body" ∷ "password" ∷ "passwd" ∷ "private_key" ∷ "profile_path" ∷ "resume_status"
    ∷ "session_id" ∷ "secret" ∷ "token" ∷ []

-- `_DISPLAY_TEXT_KEYS`
abbrev pub display_text_keys : List String
display_text_keys = "book_name" ∷ "book_title" ∷ "name" ∷ "title" ∷ []

unfoldable pub same_codes : List ℕ → List ℕ → Bool
same_codes [] [] = true
same_codes (a ∷ s) (b ∷ t) = a =? b && same_codes s t
same_codes _ _ = false

unfoldable pub has_prefix : List ℕ → List ℕ → Bool
has_prefix [] s = true
has_prefix (a ∷ p) [] = false
has_prefix (a ∷ p) (b ∷ s) = a =? b && has_prefix p s

-- `part in whole` on texts.
unfoldable pub has_infix : List ℕ → List ℕ → Bool
unfolding has_prefix
has_infix p [] = has_prefix p []
has_infix p (a ∷ s) = has_prefix p (a ∷ s) || has_infix p s

-- `value.lstrip(chars)`; `strip` does so at both ends.
unfoldable pub lstrip : List ℕ → List ℕ → List ℕ
lstrip chars [] = []
lstrip chars (c ∷ s) = let rest = lstrip chars s in if any (λ d. c =? d) chars then rest else c ∷ s

unfoldable pub rstrip : List ℕ → List ℕ → List ℕ
unfolding lstrip
rstrip chars s = reverse (lstrip chars (reverse s))

unfoldable pub strip : List ℕ → List ℕ → List ℕ
unfolding lstrip rstrip
strip chars s = rstrip chars (lstrip chars s)

-- The characters `"'()[]{}`.
abbrev pub quotes : List ℕ
quotes = 34 ∷ 39 ∷ 40 ∷ 41 ∷ 91 ∷ 93 ∷ 123 ∷ 125 ∷ []

-- The truth value of an optional text.
unfoldable pub is_given : Option String → Bool
is_given none = false
is_given (some s) = not (s == "")

module _ (py : Python) where
  -- `_looks_like_credential`
  unfoldable pub looks_like_credential : List ℕ → Bool
  unfolding strip
  looks_like_credential value =
      let candidate = strip quotes value in
      leb 6 (length candidate)
      && (leb 16 (length candidate)
          || any py.is_digit candidate
          || any (λ c. any (λ d. c =? d) (codes "._~+/=-")) candidate)

  -- `_looks_like_display_credential`
  unfoldable pub looks_like_display_credential : List ℕ → Bool
  unfolding strip rstrip has_prefix same_codes
  looks_like_display_credential value =
      let candidate = rstrip (codes ".,;:") (strip quotes value) in
      let lowered = py.casefold candidate in
      if has_prefix (codes "sk-") lowered
        || has_prefix (codes "pk-") lowered
        || has_prefix (codes "ghp_") lowered
      then true
      else if any py.is_digit candidate
      then true
      else if same_codes candidate lowered && leb 1 (length candidate) && all py.is_alpha candidate
      then true
      else leb 16 (length candidate) && not (py.is_title candidate)

  -- `_contains_sensitive_text(value, display_text=display)`
  unfoldable pub contains_sensitive_text : Bool → String → Bool
  unfolding looks_like_credential looks_like_display_credential
  contains_sensitive_text display value =
      if py.authorization_header value
        || py.credential_equals value
        || py.credential_json value
        || py.cookie_header value
        || py.html_structure value
        || py.profile_path_assignment value
      then true
      else if display
      then any looks_like_display_credential (py.credential_colon_values value)
      else leb 1 (length (py.credential_colon_values value))
        || any looks_like_credential (py.bearer_values value)

  -- `any(sensitive in normalized for sensitive in _SENSITIVE_KEYS)`
  unfoldable pub is_sensitive_key : String → Bool
  unfolding has_infix
  is_sensitive_key key = any (λ s. has_infix (codes s) (py.normalized key)) sensitive_keys

  -- `normalized in _DISPLAY_TEXT_KEYS`
  unfoldable pub is_display_key : String → Bool
  unfolding same_codes
  is_display_key key = any (λ s. same_codes (codes s) (py.normalized key)) display_text_keys

  -- `scheme.casefold() in {"http", "https"}`
  unfoldable pub has_web_scheme : UrlParts → Bool
  unfolding same_codes
  has_web_scheme parsed =
      same_codes (py.casefold (codes parsed.scheme)) (codes "http")
      || same_codes (py.casefold (codes parsed.scheme)) (codes "https")

  -- The branch of `_reject_sensitive_metadata` on a text.
  unfoldable pub reject_sensitive_string : Bool → String → Result TaskError Unit
  unfolding contains_sensitive_text has_web_scheme is_given
  reject_sensitive_string display value = do
    raise_if (contains_sensitive_text display value) (input_error "metadata_sensitive")
    parsed ← or_raise (py.urlsplit value) (input_error "metadata_invalid")
    raise_if (has_web_scheme parsed && (is_given parsed.username || is_given parsed.password))
        (input_error "metadata_sensitive")

  -- `_reject_sensitive_metadata(value, display_text=display)`
  unfoldable mutual
    unfolding is_sensitive_key is_display_key reject_sensitive_string

    pub reject_sensitive_metadata : Bool → Value → Result TaskError Unit
    reject_sensitive_metadata display Value.null = ok tt
    reject_sensitive_metadata display (Value.bool b) = ok tt
    reject_sensitive_metadata display (Value.number n) = ok tt
    reject_sensitive_metadata display (Value.text s) = reject_sensitive_string display s
    reject_sensitive_metadata display (Value.array xs) = reject_sensitive_items display xs
    reject_sensitive_metadata display (Value.object fs) = reject_sensitive_fields fs

    pub reject_sensitive_items : Bool → Items → Result TaskError Unit
    reject_sensitive_items display Items.nil = ok tt
    reject_sensitive_items display (Items.item x xs) =
        reject_sensitive_metadata display x >> reject_sensitive_items display xs

    pub reject_sensitive_fields : Fields → Result TaskError Unit
    reject_sensitive_fields Fields.end = ok tt
    reject_sensitive_fields (Fields.field k x fs) =
        raise_if (is_sensitive_key k) (input_error "metadata_sensitive")
        >> (reject_sensitive_metadata (is_display_key k) x >> reject_sensitive_fields fs)
