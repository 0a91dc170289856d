-- ===== src/Http.antt =====
-- The `http` crate's header map, which the program uses and does not define: a parameter of the
-- models, with the operations that the program calls and what their documentation promises.
pub mod Sample
pub mod Folded
use pulsate.Prelude.{
  ℕ, ◌≤◌, ◌≡◌, ◌⊎◌, Bool, Option, none, some, List, Str, All, is_some, eq_ignore_ascii_case,
  to_ascii_lowercase, if◌then◌else◌,
}

-- Tab, or not a control character.
abbrev pub IsVisible : ℕ → Type 0
IsVisible c = (c ≡ 9) ⊎ (32 ≤ c)

-- `get` returns the first value of a name; `to_str` fails on bytes that are no visible ASCII.
pub record HeaderApi : Type 1 where
  pub HeaderMap : Type 0
  pub HeaderValue : Type 0
  pub get : HeaderMap → Str → Option HeaderValue
  pub contains_key : HeaderMap → Str → Bool
  pub to_str : HeaderValue → Option Str
  pub iter : HeaderMap → List (Str × HeaderValue)
  pub contains_key-get : (h : HeaderMap) (n : Str) → contains_key h n ≡ is_some (get h n)
  pub to_str-IsVisible : (v : HeaderValue) (s : Str) → to_str v ≡ some s → All IsVisible s

-- What writes header maps: names are compared without regard to case, and `insert` takes the place
-- of all values of the name. `from_text` is `HeaderValue::from_str`.
pub record HeaderWriter (api : HeaderApi) : Type 0 where
  pub empty : api.HeaderMap
  pub insert : api.HeaderMap → Str → api.HeaderValue → api.HeaderMap
  pub from_text : Str → Option api.HeaderValue
  pub from_static : Str → api.HeaderValue
  pub get-empty : (m : Str) → api.get empty m ≡ none
  pub get-insert :
      (h : api.HeaderMap) (n m : Str) (v : api.HeaderValue)
      → api.get (insert h n v) m ≡ (if eq_ignore_ascii_case m n then some v else api.get h m)
  pub iter-lower : (h : api.HeaderMap) → All (λ x. to_ascii_lowercase x.0 ≡ x.0) (api.iter h)
