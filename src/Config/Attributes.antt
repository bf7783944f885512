-- ===== src/Config/Attributes.antt =====
-- src/config/app_config.rs: the resource attributes of the three pillars.

use coralogix_aws_lambda_tel.Prelude.{
  String, ◌≡◌, sym, ap, ◌∙◌, true, Option, none, some, List, [], ◌∷◌, str_eq,
}
use coralogix_aws_lambda_tel.Prelude.{or_option}
use coralogix_aws_lambda_tel.Prelude.{modify_entry, ◌<>◌}
use coralogix_aws_lambda_tel.Config.{BuiltInAttributeSet, AttributeConfig, AttributeConfigs}
use coralogix_aws_lambda_tel.Config.Environment.{
  Environment, Checked, accepted, ◌>>=◌, bind_accepted, accepted-inj, get_string_option,
}
use coralogix_aws_lambda_tel.Config.Names.{all_attributes, built_in_attributes_from_str}
use coralogix_aws_lambda_tel.Prelude.{split}

-- a pair `key=value`, by its segments between the signs of equality; anything else is skipped
read_pair : List String → Option (String × String)
read_pair (key ∷ value ∷ []) = some (key, value)
read_pair [] = none
read_pair (s ∷ []) = none
read_pair (a ∷ b ∷ c ∷ r) = none

-- `collect()` into a map: the last value of a key stays
insert_pair : Option (String × String) → List (String × String) → List (String × String)
insert_pair none m = m
insert_pair (some (k, v)) m = modify_entry str_eq k v (λ _. v) m

-- A configuration of attributes with one attribute switched on.
abbrev pub with_service_name : AttributeConfig → AttributeConfig
with_service_name c = record {
  built_in = record (c.built_in) { service_name = true };
  extra = c.extra;
}

abbrev pub with_faas_instance : AttributeConfig → AttributeConfig
with_faas_instance c = record {
  built_in = record (c.built_in) { faas_instance_cx_id = true };
  extra = c.extra;
}

module _ (env : Environment) where
  insert_pairs : List String → List (String × String) → List (String × String)
  unfolding read_pair insert_pair
  insert_pairs [] m = m
  insert_pairs (p ∷ r) m = insert_pairs r (insert_pair (read_pair (split b'=' (env.trim p))) m)

  unfoldable pub extract_extra_attributes : String → List (String × String)
  unfolding insert_pairs
  extract_extra_attributes pillar =
      elim (or_option (get_string_option env (pillar <> "_RESOURCE_EXTRA_ATTRIBUTES"))
        (get_string_option env "RESOURCE_EXTRA_ATTRIBUTES")) [
          | none ↦ []
          | some s ↦ insert_pairs (split b',' s) []
        ]

  unfoldable pub extract_built_in_attributes : String → Checked BuiltInAttributeSet
  extract_built_in_attributes pillar =
      elim (or_option (get_string_option env (pillar <> "_RESOURCE_BUILT_IN_ATTRIBUTES"))
        (get_string_option env "RESOURCE_BUILT_IN_ATTRIBUTES")) [
          | none ↦ accepted all_attributes
          | some s ↦ built_in_attributes_from_str env s
        ]

  unfoldable pub extract_attribute_config : String → Checked AttributeConfig
  unfolding extract_built_in_attributes extract_extra_attributes
  extract_attribute_config pillar = extract_built_in_attributes pillar >>= λ b.
      accepted (record { built_in = b; extra = extract_extra_attributes pillar })

  unfoldable pub extract_attribute_configs : Checked AttributeConfigs
  unfolding extract_attribute_config
  extract_attribute_configs = extract_attribute_config "TRACES" >>= λ traces.
      extract_attribute_config "METRICS" >>= λ metrics. extract_attribute_config "LOGS" >>= λ logs.
      accepted (record {
        logs = logs;
        traces = with_service_name traces;
        metrics = with_faas_instance metrics;
      })

  -- Accepted attributes are those read for the three pillars, with the service name switched on for traces and
  -- the instance's id for metrics, and nothing else changed.
  pub extract_attribute_configs-mandatory :
      (c : AttributeConfigs)
      → extract_attribute_configs ≡ accepted c
      → (t : AttributeConfig) × (m : AttributeConfig) × (extract_attribute_config "TRACES"
          ≡ accepted t)
        × (extract_attribute_config "METRICS" ≡ accepted m)
        × (extract_attribute_config "LOGS" ≡ accepted c.logs)
        × (c.traces ≡ with_service_name t)
        × (c.metrics ≡ with_faas_instance m)
  unfolding extract_attribute_configs
  extract_attribute_configs-mandatory c e =
      let (t, te, e1) = bind_accepted (extract_attribute_config "TRACES") _ c e in
      let (m, me, e2) = bind_accepted (extract_attribute_config "METRICS") _ c e1 in
      let (l, le, e3) = bind_accepted (extract_attribute_config "LOGS") _ c e2 in
      let same = accepted-inj _ c e3 in
      (
        t,
        m,
        te,
        me,
        le ∙ ap accepted (ap (λ (x : AttributeConfigs). x.logs) same),
        sym (ap (λ (x : AttributeConfigs). x.traces) same),
        sym (ap (λ (x : AttributeConfigs). x.metrics) same),
      )
