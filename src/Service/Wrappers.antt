-- ===== src/Service/Wrappers.antt =====
-- src/telemetry/otlp_wrappers.rs: resources and scopes around records, spans and metrics. The tags and
-- the extra attributes, kept in `HashMap`s, come in the order of their lists.
use coralogix_aws_lambda_tel.Prelude.{String, Bool, true, false, none, some, List, [], ◌∷◌, ◌++◌}
use coralogix_aws_lambda_tel.Prelude.{unwrap_or}
use coralogix_aws_lambda_tel.Prelude.{◌<>◌}
use coralogix_aws_lambda_tel.Proto.{
  string_value, with_value, KeyValue, Metric, InstrumentationScope, Resource, Span, ScopeSpans,
  ResourceSpans, ScopeMetrics, ResourceMetrics, LogRecord, ScopeLogs, ResourceLogs,
}
use coralogix_aws_lambda_tel.Config.{AttributeConfig, BuiltInAttributeSet}
use coralogix_aws_lambda_tel.LambdaFunctionArn.{to_string}
use coralogix_aws_lambda_tel.Processing.State.{FunctionContext}

unfoldable pub string_attribute : String → String → KeyValue
string_attribute key value = record { key = key; value = some (with_value (string_value value)) }

abbrev optional : Bool → KeyValue → List KeyValue
optional true a = a ∷ []
optional false a = []

abbrev tag_attributes : List (String × String) → List KeyValue
tag_attributes [] = []
tag_attributes ((key, value) ∷ r) = string_attribute ("tag." <> key) value ∷ tag_attributes r

abbrev extra_attributes : List (String × String) → List KeyValue
extra_attributes [] = []
extra_attributes ((key, value) ∷ r) = string_attribute key value ∷ extra_attributes r

unfoldable pub resource : FunctionContext → AttributeConfig → Resource
unfolding string_attribute
resource c config =
    let b : BuiltInAttributeSet = config.built_in in
    record {
      attributes =
          string_attribute "cx.application.name" c.application_name
          ∷ string_attribute "cx.subsystem.name" c.subsystem_name
          ∷ (optional b.service_name (string_attribute "service.name" c.service_name)
              ++ (optional b.cloud_provider (string_attribute "cloud.provider" "aws")
                  ++ (optional b.cloud_account_id
                        (string_attribute "cloud.account.id" c.arn.account_id)
                      ++ (optional b.cloud_region (string_attribute "cloud.region" c.arn.region)
                          ++ (optional b.faas_name
                                (string_attribute "faas.name" c.arn.function_name)
                              ++ (optional b.faas_id
                                    (string_attribute "faas.id" (to_string c.version_arn))
                                  ++ (optional b.faas_instance_cx_id (
                                        string_attribute "faas.instance.cx_id"
                                          c.lambda_instance_coralogix_id)
                                      ++ (tag_attributes (unwrap_or c.tags [])
                                          ++ extra_attributes config.extra))))))));
      dropped_attributes_count = 0;
    }

unfoldable pub instrumentation_scope : FunctionContext → InstrumentationScope
instrumentation_scope c = record {
  name = c.arn.function_name;
  version = c.lambda_function_version;
  attributes = [];
  dropped_attributes_count = 0;
}

unfoldable pub wrap_logs_in_scope : List LogRecord → FunctionContext → ScopeLogs
wrap_logs_in_scope log_records c = record {
  scope = some (instrumentation_scope c);
  log_records = log_records;
  schema_url = "";
}

unfoldable pub wrap_logs_in_resource :
    List ScopeLogs → FunctionContext → AttributeConfig → ResourceLogs
wrap_logs_in_resource scope_logs c config = record {
  resource = some (resource c config);
  scope_logs = scope_logs;
  schema_url = "";
}

unfoldable pub wrap_spans_in_scope : List Span → FunctionContext → ScopeSpans
wrap_spans_in_scope spans c = record {
  scope = some (instrumentation_scope c);
  spans = spans;
  schema_url = "";
}

unfoldable pub wrap_spans_in_resource :
    List ScopeSpans → FunctionContext → AttributeConfig → ResourceSpans
wrap_spans_in_resource scope_spans c config = record {
  resource = some (resource c config);
  scope_spans = scope_spans;
  schema_url = "";
}

unfoldable pub wrap_metrics_in_scope : List Metric → ScopeMetrics
wrap_metrics_in_scope metrics = record { scope = none; metrics = metrics; schema_url = "" }

unfoldable pub wrap_metrics_in_resource :
    List ScopeMetrics → FunctionContext → AttributeConfig → ResourceMetrics
wrap_metrics_in_resource scope_metrics c config = record {
  resource = some (resource c config);
  scope_metrics = scope_metrics;
  schema_url = "";
}
