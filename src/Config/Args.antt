-- ===== src/Config/Args.antt =====
-- crates/pulsate-config/src/compile.rs: how arguments are read.
use pulsate.Prelude.{
  ℕ, ◌/◌, ◌^◌, Option, none, some, List, [], ◌∷◌, ◌++◌, Str, str_eq, bytes, ltb, if◌then◌else◌,
}
use pulsate.Flow.Span.{Span}
use pulsate.Flow.Value.{
  ℤ, pos, negsuc, RateWindow, second, minute, hour, Value, Items, end_of_items, item, str, int,
  array, ref, env,
}
use pulsate.Flow.Ast.{Arg, positional, named, Stmt, Stmts, no_stmts, stmt_then}
use pulsate.Config.Model.{RefUse}

abbrev pub fold {ℓ κ} : {A : Type ℓ} {B : Type κ} → (A → B → B) → List A → B → B
fold f [] b = b
fold f (a ∷ more) b = fold f more (f a b)

abbrev pub to_list : Stmts → List Stmt
to_list no_stmts = []
to_list (stmt_then s ss) = s ∷ to_list ss

abbrev pub value_of : Arg → Value
value_of (positional v) = v.node
value_of (named name v) = v.node

abbrev pub value_span : Arg → Span
value_span (positional v) = v.span
value_span (named name v) = v.span

unfoldable pub first_positional : List Arg → Option Value
first_positional [] = none
first_positional (positional v ∷ args) = some v.node
first_positional (named name v ∷ args) = first_positional args

abbrev pub str_of : Option Value → Option Str
str_of (some (str s)) = some s
str_of v = none

abbrev pub first_positional_str : List Arg → Option Str
first_positional_str args = str_of (first_positional args)

unfoldable pub named_value : List Arg → Str → Option Value
named_value [] key = none
named_value (positional v ∷ args) key = named_value args key
named_value (named name v ∷ args) key =
    let rest = named_value args key in if str_eq name.node key then some v.node else rest

abbrev pub named_str : List Arg → Str → Option Str
named_str args key = str_of (named_value args key)

-- The strings among the items of an array.
abbrev pub strings_of : Items → List Str
strings_of end_of_items = []
strings_of (item (str s) span items) = s ∷ strings_of items
strings_of (item v span items) = strings_of items

abbrev pub str_array_of : Option Value → List Str
str_array_of (some (array items)) = strings_of items
str_array_of v = []

abbrev pub positional_str_array : List Arg → List Str
positional_str_array args = str_array_of (first_positional args)

abbrev pub named_str_array : List Arg → Str → List Str
named_str_array args key = str_array_of (named_value args key)

abbrev pub or_text : Str → Option Str → Str
or_text d none = d
or_text d (some s) = s

-- `try_from` of an `i64` to the type with `bound` values.
abbrev pub to_unsigned : ℕ → ℤ → Option ℕ
to_unsigned bound (pos n) = if ltb n bound then some n else none
to_unsigned bound (negsuc n) = none

abbrev pub or_number : ℕ → Option ℕ → ℕ
or_number d none = d
or_number d (some n) = n

abbrev pub as_secs : ℕ → ℕ
as_secs d = d / 1_000_000_000

abbrev pub int_of : Option Value → Option ℤ
int_of (some (int i)) = some i
int_of v = none

abbrev pub first_int : Option ℤ → Option ℤ → Option ℤ
first_int (some i) o = some i
first_int none o = o

abbrev pub clamp : ℕ → Option ℤ → ℕ
clamp d none = d
clamp d (some i) = or_number d (to_unsigned (2 ^ 16) i)

unfoldable pub status_arg : List Arg → ℕ → ℕ
status_arg args d =
    clamp d
      (first_int (int_of (named_value args (bytes "status"))) (int_of (first_positional args)))

abbrev pub rate_window_secs : RateWindow → ℕ
rate_window_secs second = 1
rate_window_secs minute = 60
rate_window_secs hour = 3_600

unfoldable pub first_ref : List Arg → Option Str
first_ref [] = none
first_ref (a ∷ args) = elim (value_of a) [ ref r ↦ some r | _ ↦ first_ref args ]

abbrev mutual
  pub collect_refs_value : Value → Span → List RefUse
  collect_refs_value (ref name) span = record { name = name; span = span } ∷ []
  collect_refs_value (array items) span = collect_refs_items items
  collect_refs_value v span = []

  collect_refs_items : Items → List RefUse
  collect_refs_items end_of_items = []
  collect_refs_items (item v span items) = collect_refs_value v span ++ collect_refs_items items

abbrev pub collect_refs : List Arg → List RefUse
collect_refs [] = []
collect_refs (a ∷ args) = collect_refs_value (value_of a) (value_span a) ++ collect_refs args

abbrev pub or_default_text : Option Str → Option Str → Option Str
or_default_text (some s) d = some s
or_default_text none d = d

-- `resolve_str`; `env_var` reads the environment.
abbrev pub resolve_str : (Str → Option Str) → Option Value → Option Str
resolve_str env_var (some (str s)) = some s
resolve_str env_var (some (env var d)) = or_default_text (env_var var) d
resolve_str env_var v = none
