-- ===== src/Prelude/Assoc.antt =====
-- A `HashMap`, as the list of its entries in the order of insertion, over a test of the keys. The
-- order in which a `HashMap` is walked is unspecified; this is one such order.
use mathlib.Core.Bool.{Bool}
use mathlib.Core.List.{List, [], ◌∷◌}
use mathlib.Core.Option.{Option, none, some}
use coralogix_aws_lambda_tel.Prelude.Tests.{if◌then◌else◌}

module _ {ℓ κ} {K : Type ℓ} {V : Type κ} (eq : K → K → Bool) where
  unfoldable pub find : K → List (K × V) → Option V
  find k [] = none
  find k ((j, v) ∷ m) = if eq j k then some v else find k m

  -- `map.entry(k).or_insert(v)`, and a change of the value found there
  unfoldable pub modify_entry : K → V → (V → V) → List (K × V) → List (K × V)
  modify_entry k v change [] = (k, change v) ∷ []
  modify_entry k v change ((j, w) ∷ m) =
      if eq j k then (j, change w) ∷ m else (j, w) ∷ modify_entry k v change m
