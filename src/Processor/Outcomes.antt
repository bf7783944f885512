-- ===== src/Processor/Outcomes.antt =====
-- src/telemetry/processor/telemetry_processor.rs: what is known of an outcome, through the `?` of the
-- code.
use coralogix_aws_lambda_tel.Prelude.{◌≡◌, refl, Bool, true, false, none, some}
use coralogix_aws_lambda_tel.Prelude.{if◌then◌else◌}
use coralogix_aws_lambda_tel.Events.{Error}
use coralogix_aws_lambda_tel.Processor.Steps.{Work, Outcome, ◌>>>◌}

module _ {S : Type 0} where
  abbrev pub OnError : (Error → Type 0) → Outcome S → Type 0
  OnError P (none, w) = Unit
  OnError P (some e, w) = P e

  abbrev OnSuccess : (Work S → Type 0) → Outcome S → Type 0
  OnSuccess P (none, w) = P w
  OnSuccess P (some e, w) = Unit

  -- The property holds of the error, if there is one.
  pub record FailsOnlyWith (P : Error → Type 0) (o : Outcome S) : Type 0 where
    pub known : OnError P o

  -- The property holds of what is changed, if there is no error.
  pub record Succeeds (P : Work S → Type 0) (o : Outcome S) : Type 0 where
    pub known : OnSuccess P o

  -- The property holds of what is changed, with or without an error.
  pub record Leaves (P : Work S → Type 0) (o : Outcome S) : Type 0 where
    pub known : P o.1

  pub FailsOnlyWith-then :
      {P : Error → Type 0} {o : Outcome S} {f : Work S → Outcome S}
      → FailsOnlyWith P o
      → ((w : Work S) → FailsOnlyWith P (f w))
      → FailsOnlyWith P (o >>> f)
  unfolding ◌>>>◌
  FailsOnlyWith-then {o = (none, w)} h k = k w
  FailsOnlyWith-then {o = (some e, w)} h k = record { known = h.known }

  pub Succeeds-then :
      {P Q : Work S → Type 0} {o : Outcome S} {f : Work S → Outcome S}
      → Succeeds P o
      → ((w : Work S) → P w → Succeeds Q (f w))
      → Succeeds Q (o >>> f)
  unfolding ◌>>>◌
  Succeeds-then {o = (none, w)} h k = k w h.known
  Succeeds-then {o = (some e, w)} h k = record { known = tt }

  pub Leaves-then :
      {P Q : Work S → Type 0} {o : Outcome S} {f : Work S → Outcome S}
      → Leaves P o
      → ((w : Work S) → P w → Q w)
      → ((w : Work S) → P w → Leaves Q (f w))
      → Leaves Q (o >>> f)
  unfolding ◌>>>◌
  Leaves-then {o = (none, w)} h stop k = k w h.known
  Leaves-then {o = (some e, w)} h stop k = record { known = stop w h.known }

  pub Succeeds-map :
      {P Q : Work S → Type 0} {o : Outcome S}
      → Succeeds P o
      → ((w : Work S) → P w → Q w)
      → Succeeds Q o
  Succeeds-map {o = (none, w)} h k = record { known = k w h.known }
  Succeeds-map {o = (some e, w)} h k = record { known = tt }

-- a property of the branches of a conditional
pub if_branches :
    {A : Type 0} (P : A → Type 0) (b : Bool) {x y : A} → P x → P y → P (if b then x else y)
if_branches P true h k = h
if_branches P false h k = k

-- the same, where each branch knows the test
pub if_known :
    {A : Type 0} (P : A → Type 0) (b : Bool) {x y : A}
    → (b ≡ true → P x)
    → (b ≡ false → P y)
    → P (if b then x else y)
if_known P true h k = h refl
if_known P false h k = k refl
