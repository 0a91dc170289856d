-- ===== src/Config/Store.antt =====
-- crates/pulsate-config/src/store.rs: the live configuration, its reload and its rollback. The three
-- atomics are the fields of the store. A reload takes its number, compiles and publishes; between
-- the first and the last other reloads may run.
use pulsate.Prelude.{ℕ, ◌+◌, ◌%◌, ◌^◌, Option, none, some, List, Str}
use pulsate.Flow.Span.{Diagnostic}
use pulsate.Config.Model.{Config, ConfigSnapshot}
use pulsate.Config.Lower.{Platform}
use pulsate.Config.Compile.{
  Compiled, Compilation, compiled, rejected, panicked, unfinished, compile,
}

pub record Generation : Type 0 where
  pub config : Config
  pub snapshot : ConfigSnapshot

pub record ConfigStore : Type 0 where
  pub current : Generation
  pub previous : Option Generation
  pub next_generation : ℕ

abbrev pub generation_of : Compiled → Generation
generation_of x = record { config = x.config; snapshot = x.snapshot }

abbrev pub generation : ConfigStore → ℕ
generation s = s.current.snapshot.generation

-- What a call comes to: a value, diagnostics, or no return.
pub data Reply {ℓ} (A : Type ℓ) : Type ℓ where
  granted : A → Reply A
  refused : List Diagnostic → Reply A
  lost : Reply A

-- `fetch_add`
abbrev pub take_number : ConfigStore → ℕ × ConfigStore
take_number s = (s.next_generation, record s { next_generation = (s.next_generation + 1) % 2 ^ 64 })

-- The two stores at the end of `reload`.
unfoldable pub publish : Generation → ConfigStore → ConfigStore
publish g s = record s { current = g; previous = some s.current }

-- `reload` behind the compiler.
unfoldable pub publish_if : Compilation → ConfigStore → Reply Generation × ConfigStore
publish_if (compiled x) s = (granted (generation_of x), publish (generation_of x) s)
publish_if (rejected ds) s = (refused ds, s)
publish_if panicked s = (lost, s)
publish_if unfinished s = (lost, s)

abbrev pub started : Compilation → Reply ConfigStore
started (compiled x) =
    granted (record { current = generation_of x; previous = none; next_generation = 1 })
started (rejected ds) = refused ds
started panicked = lost
started unfinished = lost

module _ (platform : Platform) where
  unfoldable pub load : Str → Reply ConfigStore
  load text = started (compile platform text 0)

  unfoldable pub reload : Str → ConfigStore → Reply Generation × ConfigStore
  reload text s = publish_if (compile platform text (take_number s).0) (take_number s).1

-- `rollback` behind the load of the previous generation.
abbrev pub restore : Option Generation → ConfigStore → Option Generation × ConfigStore
restore none s = (none, s)
restore (some g) s = (some g, record s { current = g; previous = some s.current })

unfoldable pub rollback : ConfigStore → Option Generation × ConfigStore
rollback s = restore s.previous s
