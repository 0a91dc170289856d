-- ===== src/Http/Folded.antt =====
-- A header map that compares names without regard to case: one that meets both interfaces.
use pulsate.Prelude.{
  ◌≡◌, refl, sym, ◌∙◌, ap, true, false, Option, none, some, List, [], ◌∷◌, Str, str_eq_iff, All,
  is_some, lower, to_ascii_lowercase, eq_ignore_ascii_case, if◌then◌else◌, arith, Bool-cases, inl,
  inr,
}
use pulsate.Http.{HeaderApi, HeaderWriter}
use pulsate.Http.Sample.{read_text, read_text-IsVisible}

abbrev Headers : Type 0
Headers = List (Str × Str)

abbrev find : Str → Headers → Option Str
find m [] = none
find m ((n, v) ∷ h) = if eq_ignore_ascii_case m n then some v else find m h

abbrev drop : Str → Headers → Headers
drop n [] = []
drop n ((k, v) ∷ h) = if eq_ignore_ascii_case n k then drop n h else (k, v) ∷ drop n h

abbrev lowered : Headers → Headers
lowered [] = []
lowered ((n, v) ∷ h) = (to_ascii_lowercase n, v) ∷ lowered h

to_ascii_lowercase_twice :
    (s : Str) → to_ascii_lowercase (to_ascii_lowercase s) ≡ to_ascii_lowercase s
to_ascii_lowercase_twice [] = refl
to_ascii_lowercase_twice (c ∷ s) =
    let same : lower (lower c) ≡ lower c = ground arith in
    ap (λ d. d ∷ to_ascii_lowercase (to_ascii_lowercase s)) same
    ∙ ap (λ t. lower c ∷ t) (to_ascii_lowercase_twice s)

pub lowered-lower : (h : Headers) → All (λ x. to_ascii_lowercase x.0 ≡ x.0) (lowered h)
lowered-lower [] = tt
lowered-lower ((n, v) ∷ h) = (to_ascii_lowercase_twice n, lowered-lower h)

not_both :
    (m n k : Str)
    → eq_ignore_ascii_case m n ≡ false
    → eq_ignore_ascii_case n k ≡ true
    → eq_ignore_ascii_case m k ≡ false
not_both m n k apart same = elim (Bool-cases (eq_ignore_ascii_case m k)) [
  | inr e ↦ e
  | inl e ↦
      let mk : to_ascii_lowercase m ≡ to_ascii_lowercase k =
        (str_eq_iff (to_ascii_lowercase m) (to_ascii_lowercase k)).0 e in
      let nk : to_ascii_lowercase n ≡ to_ascii_lowercase k =
        (str_eq_iff (to_ascii_lowercase n) (to_ascii_lowercase k)).0 same in
      let mn : eq_ignore_ascii_case m n ≡ true =
        (str_eq_iff (to_ascii_lowercase m) (to_ascii_lowercase n)).1 (mk ∙ sym nk) in
      cc
]

find-drop :
    (m n : Str) (h : Headers) → eq_ignore_ascii_case m n ≡ false → find m (drop n h) ≡ find m h
find-drop m n [] apart = refl
find-drop m n ((k, v) ∷ h) apart = elim (Bool-cases (eq_ignore_ascii_case n k)) [
  | inl e ↦ rw (drop, find, e, not_both m n k apart e) (find-drop m n h apart)
  | inr e ↦
      rw (drop, e)
        (ap (λ o. if eq_ignore_ascii_case m k then some v else o) (find-drop m n h apart))
]

pub find-insert :
    (h : Headers) (n m v : Str)
    → find m ((n, v) ∷ drop n h) ≡ (if eq_ignore_ascii_case m n then some v else find m h)
find-insert h n m v = elim (Bool-cases (eq_ignore_ascii_case m n)) [
  | inl e ↦ rw e refl
  | inr e ↦ rw e (find-drop m n h e)
]

abbrev pub folded_api : HeaderApi
folded_api = record {
  HeaderMap = Headers;
  HeaderValue = Str;
  get = λ h m. find m h;
  contains_key = λ h m. is_some (find m h);
  to_str = read_text;
  iter = lowered;
  contains_key-get = λ h n. refl;
  to_str-IsVisible = read_text-IsVisible;
}

abbrev pub folded_writer : HeaderWriter folded_api
folded_writer = record {
  empty = [];
  insert = λ h n v. (n, v) ∷ drop n h;
  from_text = λ s. some s;
  from_static = λ s. s;
  get-empty = λ m. refl;
  get-insert = λ h n m v. find-insert h n m v;
  iter-lower = lowered-lower;
}
