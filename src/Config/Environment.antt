-- ===== src/Config/Environment.antt =====
-- src/config/mod.rs: reading the environment, and the errors of the configuration.
use coralogix_aws_lambda_tel.Prelude.{
  ℕ, ◌*◌, String, ◌≡◌, refl, subst, Bool, true, false, ◌||◌, Option, none, some, str_eq,
}
use coralogix_aws_lambda_tel.Prelude.{if◌then◌else◌, or_option, unwrap_or, map_option}
use coralogix_aws_lambda_tel.Prelude.{◌<>◌}

-- `env::var`, `str::trim`, `str::to_lowercase`, the parsers of integers, whether `Regex::new` accepts a
-- text, and whether a file is there
pub record Environment : Type 0 where
  pub var : String → Option String
  pub trim : String → String
  pub to_lowercase : String → String
  pub parse_usize : String → Option ℕ
  pub parse_u64 : String → Option ℕ
  pub parse_i64 : String → Option ℕ
  pub is_regex : String → Bool
  pub file_exists : String → Bool

pub data AppConfigError : Type 0 where
  variable_missing : (key : String) → AppConfigError
  invalid_integer invalid_boolean : (key value : String) → AppConfigError
  firehose_conflict url_conflict key_source_conflict missing_key_source : AppConfigError
  missing_target : (pillar : String) → AppConfigError
  invalid_log_mode invalid_platform_event_log invalid_metrics_mode invalid_otel_metrics_mode :
      (name : String) → AppConfigError
  invalid_tracing_mode invalid_trace_sampling_mode invalid_built_in_attribute :
      (name : String) → AppConfigError
  invalid_attribute_exclusion_mode : (value : String) → AppConfigError
  metrics_mode_conflict log_only_metrics_conflict log_only_tracing_conflict log_mode_log_conflict :
      AppConfigError
  invalid_reporting_strategy : (name : String) → AppConfigError
  invalid_telemetry_interval : ℕ → AppConfigError

pub data Checked (A : Type 0) : Type 0 where
  accepted : A → Checked A
  rejected : AppConfigError → Checked A

infixl 5 ◌>>=◌
unfoldable pub ◌>>=◌ : {A B : Type 0} → Checked A → (A → Checked B) → Checked B
accepted a >>= f = f a
rejected e >>= f = rejected e

-- What was accepted after `?` came of something accepted before it.
pub bind_accepted :
    {A B : Type 0} (c : Checked A) (f : A → Checked B) (b : B)
    → (c >>= f) ≡ accepted b
    → (a : A) × (c ≡ accepted a) × (f a ≡ accepted b)
unfolding ◌>>=◌
bind_accepted (accepted a) f b e = (a, refl, e)
bind_accepted (rejected x) f b e = absurd (cc e)

-- What was accepted is one value.
pub accepted-inj : {A : Type 0} (a b : A) → accepted a ≡ accepted b → a ≡ b
accepted-inj a b e = cc e

-- A predicate holds of whatever is accepted.
pub record Accepts {A : Type 0} (P : A → Type 0) (c : Checked A) : Type 0 where
  pub known : (a : A) → c ≡ accepted a → P a

pub accepted-Accepts : {A : Type 0} (P : A → Type 0) (a : A) → P a → Accepts P (accepted a)
accepted-Accepts P a p = record { known = λ b e. subst P (accepted-inj a b e) p }

pub bind-Accepts :
    {A B : Type 0} (P : B → Type 0) (c : Checked A) (f : A → Checked B)
    → ((a : A) → c ≡ accepted a → Accepts P (f a))
    → Accepts P (c >>= f)
bind-Accepts P c f h = record {
  known = λ b e. let (a, ca, fa) = bind_accepted c f b e in (h a ca).known b fa;
}

abbrev read : {A : Type 0} → AppConfigError → Option A → Checked (Option A)
read e none = rejected e
read e (some a) = accepted (some a)

module _ (env : Environment) where
  unfoldable pub get_env_var_with_prefix : String → Option String
  get_env_var_with_prefix key = or_option (env.var ("CORALOGIX_" <> key)) (env.var ("CX_" <> key))

  unfoldable pub get_string_option : String → Option String
  unfolding get_env_var_with_prefix
  get_string_option key = map_option env.trim (get_env_var_with_prefix key)

  unfoldable pub get_string : String → Checked String
  unfolding get_env_var_with_prefix
  get_string key = elim (get_env_var_with_prefix key) [
    | none ↦ rejected (variable_missing key)
    | some s ↦ accepted (env.trim s)
  ]

  read_bool : String → String → Checked (Option Bool)
  read_bool key s =
      let t = env.to_lowercase (env.trim s) in
      if str_eq t "true" || str_eq t "t"
      then accepted (some true)
      else if str_eq t "false" || str_eq t "f"
      then accepted (some false)
      else rejected (invalid_boolean key s)

  unfoldable pub get_bool_option : String → Checked (Option Bool)
  unfolding get_env_var_with_prefix read_bool
  get_bool_option key = elim (get_env_var_with_prefix key) [
    | none ↦ accepted none
    | some s ↦ read_bool key s
  ]

  -- an integer, over its parser
  get_integer : (String → Option ℕ) → String → Checked (Option ℕ)
  unfolding get_env_var_with_prefix
  get_integer parse key = elim (get_env_var_with_prefix key) [
    | none ↦ accepted none
    | some s ↦ read (invalid_integer key s) (parse (env.trim s))
  ]

  unfoldable pub get_usize_option : String → Checked (Option ℕ)
  unfolding get_integer
  get_usize_option key = get_integer env.parse_usize key

  unfoldable pub get_u64_option : String → Checked (Option ℕ)
  unfolding get_integer
  get_u64_option key = get_integer env.parse_u64 key

  unfoldable pub get_i64_option : String → Checked (Option ℕ)
  unfolding get_integer
  get_i64_option key = get_integer env.parse_i64 key

  -- in nanoseconds
  unfoldable pub get_duration_ms : String → ℕ → Checked ℕ
  unfolding get_u64_option
  get_duration_ms key default_ms =
      get_u64_option key >>= λ ms. accepted (unwrap_or ms default_ms * 1000000)

  -- `get_parsable`, over the parser of the type
  unfoldable pub get_parsable : {A : Type 0} → (String → Checked A) → String → A → Checked A
  unfolding get_string_option
  get_parsable from_str key default_value = elim (get_string_option key) [
    | none ↦ accepted default_value
    | some s ↦ from_str s
  ]
