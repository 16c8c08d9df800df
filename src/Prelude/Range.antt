-- ===== src/Prelude/Range.antt =====
-- Go's `for k := range m` visits every key of a map once, in an order that the language leaves open.
-- The order is a parameter of the code that ranges over a map.
use mathlib.Core.List.{List, Permᴰ}

pub record MapRange {ℓ} (T : Type ℓ) : Type ℓ where
  pub visit : List T → List T
  pub visits_all : (keys : List T) → Permᴰ (visit keys) keys

-- The order in which goroutines end is as open.
abbrev pub Completion {ℓ} : Type ℓ → Type ℓ
Completion = MapRange
