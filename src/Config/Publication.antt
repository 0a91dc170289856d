-- ===== src/Config/Publication.antt =====
-- What the store publishes.
use pulsate.Prelude.{
  ℕ, ◌+◌, ◌%◌, ◌^◌, ◌<◌, ◌≡◌, ◌≢◌, ap, ◌⊎◌, inl, inr, refl, subst, Option, none, some, List, [],
  ◌∷◌, Str,
}
use pulsate.Config.Lower.{Platform}
use pulsate.Config.Compile.{
  Compiled, Compilation, compiled, rejected, panicked, unfinished, compile,
}
use pulsate.Config.Accepted.{IsAccepted, compile-IsAccepted}
use pulsate.Config.Store.{
  Generation, ConfigStore, generation_of, generation, granted, refused, lost, take_number, publish,
  publish_if, started, load, reload, restore, rollback,
}

abbrev pub NoneOr {ℓ} : {A : Type ℓ} → (A → Type 0) → Option A → Type 0
NoneOr P none = Unit {0}
NoneOr P (some a) = P a

-- What changes a store; a reload goes in two steps, so that others may come between.
pub data Change : Type 0 where
  takes_number : Change
  publishes : Str → ℕ → Change
  rolls_back : Change

publish_if-granted :
    (x : Compilation) (s : ConfigStore) (g : Generation)
    → (publish_if x s).0 ≡ granted g
    → (c : Compiled) × (x ≡ compiled c)
unfolding publish_if
publish_if-granted (compiled c) s g h = (c, refl)
publish_if-granted (rejected ds) s g h = cc
publish_if-granted panicked s g h = cc
publish_if-granted unfinished s g h = cc

published :
    {n : ℕ} (x : Compilation) (c : Compiled) (s : ConfigStore)
    → x ≡ compiled c
    → c.snapshot.generation ≡ n
    → generation (publish_if x s).1 ≡ n
unfolding publish_if publish
published x c s e gen = rw e gen

started-granted :
    (x : Compilation) (s : ConfigStore)
    → started x ≡ granted s
    → (c : Compiled) × (x ≡ compiled c)
      × (s ≡ record { current = generation_of c; previous = none; next_generation = 1 })
started-granted (compiled c) s h = (c, refl, cc)
started-granted (rejected ds) s h = cc
started-granted panicked s h = cc
started-granted unfinished s h = cc

module _ (platform : Platform) where
  -- The generation is what `compile` makes of some text, and may run.
  pub record IsCompiled (g : Generation) : Type 0 where
    pub text : Str
    pub number : ℕ
    pub result : Compiled
    pub compiles : compile platform text number ≡ compiled result
    pub is_result : g ≡ generation_of result
    pub is_numbered : g.snapshot.generation ≡ number
    pub accepted : IsAccepted g.config

  -- Both generations of the store were compiled and may run.
  pub record IsLive (s : ConfigStore) : Type 0 where
    pub current : IsCompiled s.current
    pub previous : NoneOr IsCompiled s.previous

  -- The reload of a text that compiles.
  pub record IsPublished (text : Str) (s : ConfigStore) : Type 0 where
    pub result : Compiled
    pub compiles : compile platform text s.next_generation ≡ compiled result
    pub returned : (reload platform text s).0 ≡ granted (generation_of result)
    pub current : (reload platform text s).1.current ≡ generation_of result
    pub previous : (reload platform text s).1.previous ≡ some s.current
    pub numbered : generation (reload platform text s).1 ≡ s.next_generation

  -- The reload of a text that does not compile.
  pub record IsRefused (text : Str) (s : ConfigStore) : Type 0 where
    pub fails : (x : Compiled) → compile platform text s.next_generation ≢ compiled x
    pub not_returned : (g : Generation) → (reload platform text s).0 ≢ granted g
    pub current : (reload platform text s).1.current ≡ s.current
    pub previous : (reload platform text s).1.previous ≡ s.previous

  compile-IsCompiled :
      (text : Str) (number : ℕ) (x : Compiled)
      → compile platform text number ≡ compiled x
      → IsCompiled (generation_of x)
  compile-IsCompiled text number x at = record {
    text = text;
    number = number;
    result = x;
    compiles = at;
    is_result = refl;
    is_numbered = (compile-IsAccepted platform text number x at).1;
    accepted = (compile-IsAccepted platform text number x at).0;
  }

  unfoldable pub change : Change → ConfigStore → ConfigStore
  change takes_number s = (take_number s).1
  change (publishes text number) s = (publish_if (compile platform text number) s).1
  change rolls_back s = (rollback s).1

  unfoldable pub changes : List Change → ConfigStore → ConfigStore
  changes [] s = s
  changes (c ∷ cs) s = changes cs (change c s)

  publish_if-IsLive :
      (text : Str) (number : ℕ) (s : ConfigStore)
      → IsLive s
      → IsLive (publish_if (compile platform text number) s).1
  unfolding publish_if publish
  publish_if-IsLive text number s live = by_result (compile platform text number) refl
    where
      by_result : (x : Compilation) → compile platform text number ≡ x → IsLive (publish_if x s).1
      by_result (compiled x) at = record {
        current = compile-IsCompiled text number x at;
        previous = live.current;
      }
      by_result (rejected ds) at = live
      by_result panicked at = live
      by_result unfinished at = live

  change-IsLive : (c : Change) (s : ConfigStore) → IsLive s → IsLive (change c s)
  unfolding change rollback
  change-IsLive takes_number s live = record { current = live.current; previous = live.previous }
  change-IsLive (publishes text number) s live = publish_if-IsLive text number s live
  change-IsLive rolls_back s live = by_previous s.previous refl
    where
      by_previous : (o : Option Generation) → s.previous ≡ o → IsLive (restore o s).1
      by_previous none at = live
      by_previous (some g) at = record {
        current = subst (NoneOr IsCompiled) at live.previous;
        previous = live.current;
      }

  changes-IsLive : (cs : List Change) (s : ConfigStore) → IsLive s → IsLive (changes cs s)
  unfolding changes
  changes-IsLive [] s live = live
  changes-IsLive (c ∷ cs) s live = changes-IsLive cs (change c s) (change-IsLive c s live)

  load-IsLive : (text : Str) (s : ConfigStore) → load platform text ≡ granted s → IsLive s
  unfolding load
  load-IsLive text s h =
      let (x, at, same) = started-granted (compile platform text 0) s h in
      rw same (record { current = compile-IsCompiled text 0 x at; previous = tt })

  -- However reloads, in their steps, and rollbacks follow a successful load, the running
  -- generation and the one to roll back to are each what compile makes of some text and of the
  -- number that the generation carries, and satisfy the conditions of a configuration that may run.
  pub changes_of_load-IsLive :
      (text : Str) (cs : List Change) (s : ConfigStore)
      → load platform text ≡ granted s
      → IsLive (changes cs s)
  changes_of_load-IsLive text cs s h = changes-IsLive cs s (load-IsLive text s h)

  reload-IsRefused :
      (text : Str) (s : ConfigStore) (o : Compilation)
      → compile platform text s.next_generation ≡ o
      → ((x : Compiled) → o ≢ compiled x)
      → IsRefused text s
  unfolding reload publish_if publish
  reload-IsRefused text s (compiled x) at none_is = absurd (none_is x refl)
  reload-IsRefused text s (rejected ds) at none_is = record {
    fails = λ x h. none_is x (rw at at h);
    not_returned = λ g h. let bad : refused ds ≡ granted g = rw (reload, at) at h in cc;
    current = rw (reload, at) refl;
    previous = rw (reload, at) refl;
  }
  reload-IsRefused text s panicked at none_is = record {
    fails = λ x h. none_is x (rw at at h);
    not_returned = λ g h. let bad : lost ≡ granted g = rw (reload, at) at h in cc;
    current = rw (reload, at) refl;
    previous = rw (reload, at) refl;
  }
  reload-IsRefused text s unfinished at none_is = record {
    fails = λ x h. none_is x (rw at at h);
    not_returned = λ g h. let bad : lost ≡ granted g = rw (reload, at) at h in cc;
    current = rw (reload, at) refl;
    previous = rw (reload, at) refl;
  }

  reload-number :
      (text : Str) (s : ConfigStore)
      → (reload platform text s).1.next_generation ≡ (s.next_generation + 1) % 2 ^ 64
  unfolding reload publish_if publish
  reload-number text s = by_result (compile platform text s.next_generation)
    where
      by_result :
          (x : Compilation)
          → (publish_if x (take_number s).1).1.next_generation ≡ (s.next_generation + 1) % 2 ^ 64
      by_result (compiled x) = refl
      by_result (rejected ds) = refl
      by_result panicked = refl
      by_result unfinished = refl

  -- A reload whose text compiles returns its generation, publishes it under the next number and
  -- demotes the running one; a reload whose text does not compile returns no generation and leaves
  -- the running and the previous one as they are. Each takes a number.
  pub reload_lem :
      (text : Str) (s : ConfigStore)
      → (IsPublished text s ⊎ IsRefused text s)
        × ((reload platform text s).1.next_generation ≡ (s.next_generation + 1) % 2 ^ 64)
  unfolding reload publish_if publish
  reload_lem text s =
      (by_result (compile platform text s.next_generation) refl, reload-number text s)
    where
      by_result :
          (x : Compilation)
          → compile platform text s.next_generation ≡ x
          → IsPublished text s ⊎ IsRefused text s
      by_result (compiled x) at = inl (record {
        result = x;
        compiles = at;
        returned = rw (reload, at) refl;
        current = rw (reload, at) refl;
        previous = rw (reload, at) refl;
        numbered = rw (reload, at) (compile-IsAccepted platform text s.next_generation x at).1;
      })
      by_result (rejected ds) at = inr (reload-IsRefused text s (rejected ds) at (λ x h. cc))
      by_result panicked at = inr (reload-IsRefused text s panicked at (λ x h. cc))
      by_result unfinished at = inr (reload-IsRefused text s unfinished at (λ x h. cc))

  -- A reload that returns a generation runs it; a rollback after that restores the generation that
  -- ran before and returns it, and a second one the reloaded generation, with the whole store.
  pub rollback-reload :
      (text : Str) (s : ConfigStore) (g : Generation)
      → (reload platform text s).0 ≡ granted g
      → let t = (reload platform text s).1 in
        (t.current ≡ g)
        × (((rollback t).0 ≡ some s.current) × ((rollback t).1.current ≡ s.current))
        × (((rollback (rollback t).1).0 ≡ some g) × ((rollback (rollback t).1).1 ≡ t))
  unfolding reload publish_if publish rollback
  rollback-reload text s g h =
      let (x, at) =
        publish_if-granted (compile platform text s.next_generation) (take_number s).1 g h in
      let same : granted (generation_of x) ≡ granted g = rw (reload, at) at h in
      let one : generation_of x ≡ g = cc in
      (
        rw (reload, at) one,
        (rw (reload, at) refl, rw (reload, at) refl),
        (rw (reload, at) (ap some one), rw (reload, at) refl),
      )

  -- Two reloads whose steps cross: the one that took the lower number publishes last, and the
  -- number of the running generation falls.
  pub crossing_reloads :
      (older newer : Str) (s : ConfigStore) (x y : Compiled)
      → s.next_generation + 1 < 2 ^ 64
      → compile platform older s.next_generation ≡ compiled x
      → compile platform newer (s.next_generation + 1) ≡ compiled y
      → let both =
          changes (takes_number ∷ takes_number ∷ publishes newer (s.next_generation + 1) ∷ []) s in
        (generation both ≡ s.next_generation + 1)
        × (generation (changes (publishes older s.next_generation ∷ []) both) ≡ s.next_generation)
  unfolding changes change publish_if publish
  crossing_reloads older newer s x y small at_older at_newer =
      let second = record s { next_generation = ((s.next_generation + 1) % 2 ^ 64 + 1) % 2 ^ 64 } in
      (
        published _ y second at_newer
            (compile-IsAccepted platform newer (s.next_generation + 1) y at_newer).1,
        published _ x (publish_if (compile platform newer (s.next_generation + 1)) second).1
            at_older (compile-IsAccepted platform older s.next_generation x at_older).1,
      )
