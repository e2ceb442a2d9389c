-- ===== src/Task/Python.antt =====
-- What the task engine takes from code outside the repository: Python's `json`, `re` and
-- `urllib.parse`, and the Unicode tables behind `str`.
use novel_crawler.Prelude.{ℕ, String, Option, Bool, List}
use novel_crawler.Task.Values.{Value}

-- The parts of `urlsplit(value)` that the repository reads; an absent one is `none`.
pub record UrlParts : Type 0 where
  pub scheme : String
  pub hostname : Option String
  pub username : Option String
  pub password : Option String

pub record Python : Type 0 where
  -- `json.dumps(value, ensure_ascii=True, sort_keys=True, allow_nan=False, ...)`; `none` where it raises
  pub dumps : Value → Option String
  -- `json.loads`
  pub loads : String → Value
  -- `urlsplit`; `none` where it raises `ValueError`
  pub urlsplit : String → Option UrlParts
  -- `pattern.search(value) is not None` for the patterns of the same names in repository.py
  pub authorization_header : String → Bool
  pub credential_equals : String → Bool
  pub credential_json : String → Bool
  pub cookie_header : String → Bool
  pub html_structure : String → Bool
  pub profile_path_assignment : String → Bool
  -- the `value` group of each match of `_CREDENTIAL_COLON_VALUE`, in order
  pub credential_colon_values : String → List (List ℕ)
  -- the first group of each match of `_BEARER_VALUE`, in order
  pub bearer_values : String → List (List ℕ)
  -- `re.sub(r"[-\s]+", "_", key.casefold())`
  pub normalized : String → List ℕ
  -- `str.casefold` of a text, `str.istitle` of a text, `str.isdigit` and `str.isalpha` of a character
  pub casefold : List ℕ → List ℕ
  pub is_title : List ℕ → Bool
  pub is_digit : ℕ → Bool
  pub is_alpha : ℕ → Bool
  -- `datetime.fromisoformat(timestamp)` succeeds and its result has a `tzinfo`
  pub is_aware_timestamp : String → Bool
