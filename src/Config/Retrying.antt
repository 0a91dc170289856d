-- ===== src/Config/Retrying.antt =====
-- What a `retry` block comes to.
use pulsate.Prelude.{
  ◌≡◌, inl, inr, refl, true, Option, some, List, [], ◌∷◌, str_eq, bytes, Bool-cases,
}
use pulsate.Flow.Value.{Value, Items, end_of_items, item, int, str, array}
use pulsate.Flow.Ast.{Stmt, Stmts, directive, block, route}
use pulsate.Config.Model.{Retry}
use pulsate.Config.Args.{fold, to_list, first_positional}
use pulsate.Config.Blocks.{is_word, retry_items, retry_on, retry_round, lower_retry}

retry_items-keeps :
    (items : Items) (r : Retry)
    → r.on_connect_error ≡ true
    → (retry_items items r).on_connect_error ≡ true
retry_items-keeps end_of_items r h = h
retry_items-keeps (item (int i) span items) r h = retry_items-keeps items _ h
retry_items-keeps (item (str s) span items) r h =
    elim (Bool-cases (str_eq s (bytes "connect_error"))) [
      | inl e ↦ rw (retry_items, e) (retry_items-keeps items _ refl)
      | inr e ↦ rw (retry_items, e) (retry_items-keeps items r h)
    ]
retry_items-keeps (item v span items) r h = retry_items-keeps items r h

retry_on-keeps :
    (v : Option Value) (r : Retry)
    → r.on_connect_error ≡ true
    → (retry_on v r).on_connect_error ≡ true
retry_on-keeps (some (array items)) r h = retry_items-keeps items r h
retry_on-keeps v r h = h

retry_round-keeps :
    (s : Stmt) (r : Retry) → r.on_connect_error ≡ true → (retry_round s r).on_connect_error ≡ true
unfolding retry_round
retry_round-keeps (directive d) r h = elim (Bool-cases (is_word d (bytes "attempts"))) [
  | inl e ↦ rw (retry_round, e) h
  | inr e ↦ elim (Bool-cases (is_word d (bytes "on"))) [
    | inl f ↦ rw (retry_round, e, f) (retry_on-keeps (first_positional d.args) r h)
    | inr f ↦ rw (retry_round, e, f) h
  ]
]
retry_round-keeps (block keyword args body span) r h = h
retry_round-keeps (route m) r h = h

rounds-keep :
    (stmts : List Stmt) (r : Retry)
    → r.on_connect_error ≡ true
    → (fold retry_round stmts r).on_connect_error ≡ true
rounds-keep [] r h = h
rounds-keep (s ∷ stmts) r h = rounds-keep stmts (retry_round s r) (retry_round-keeps s r h)

-- Every retry block retries after connect errors, whatever its `on` lists.
pub lower_retry_connect : (body : Stmts) → (lower_retry body).on_connect_error ≡ true
unfolding lower_retry
lower_retry_connect body = rounds-keep (to_list body) _ refl
