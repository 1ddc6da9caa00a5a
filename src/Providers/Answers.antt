-- ===== src/Providers/Answers.antt =====
-- What the providers of a chain (providers/mod.rs) answer, apart from the walk over them.
use crypto_collector.Prelude.{Option, some, none, List, [], ◌∷◌, if◌then◌else◌}
use crypto_collector.Providers.{Provider, Result, ok, err, ProviderError}

abbrev pub answer_of : {A : Type 0} → Result A → Option A
answer_of (ok v) = some v
answer_of (err e) = none

abbrev pub failure_of : {A : Type 0} → Result A → Option ProviderError
failure_of (ok v) = none
failure_of (err e) = some e

-- The first of two options that is there.
abbrev pub or_option : {B : Type 0} → Option B → Option B → Option B
or_option (some v) other = some v
or_option none other = other

-- The error of the last supported provider whose fetch fails.
abbrev pub last_failure : {A : Type 0} → List (Provider A) → Option ProviderError
last_failure [] = none
last_failure (p ∷ chain) =
    if p.supports then or_option (last_failure chain) (failure_of p.fetch) else last_failure chain
