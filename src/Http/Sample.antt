-- ===== src/Http/Sample.antt =====
-- A header map as a list of lowercase names with their bytes: one that meets the interface.
use pulsate.Prelude.{
  ◌≡◌, Bool, true, ◌||◌, ◌&&◌, Option, none, some, [], ◌∷◌, refl, Str, string_eq, Map, All, get,
  is_some, leb, ◌==◌, if◌then◌else◌, arith,
}
use pulsate.Http.{HeaderApi, IsVisible}

abbrev pub all_visible : Str → Bool
all_visible [] = true
all_visible (c ∷ s) = (c == 9 || leb 32 c) && all_visible s

all_visible-IsVisible : (s : Str) → all_visible s ≡ true → All IsVisible s
all_visible-IsVisible [] h = tt
all_visible-IsVisible (c ∷ s) h = (ground arith, all_visible-IsVisible s (ground arith))

abbrev pub read_text : Str → Option Str
read_text v = if all_visible v then some v else none

pub read_text-IsVisible : (v s : Str) → read_text v ≡ some s → All IsVisible s
read_text-IsVisible v s e = ground (arith, all_visible-IsVisible v)

abbrev pub list_api : HeaderApi
list_api = record {
  HeaderMap = Map Str Str;
  HeaderValue = Str;
  get = λ h n. get n h;
  contains_key = λ h n. is_some (get n h);
  to_str = read_text;
  iter = λ h. h;
  contains_key-get = λ h n. refl;
  to_str-IsVisible = read_text-IsVisible;
}
