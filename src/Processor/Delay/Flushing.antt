-- ===== src/Processor/Delay/Flushing.antt =====
-- src/telemetry/processor/telemetry_processor.rs: the ends of the delay of logs, at the end of the runtime, at
-- the report, and when the span of the invocation comes in.
use coralogix_aws_lambda_tel.Prelude.{
  ◌≡◌, refl, sym, ◌∙◌, inl, inr, Bool, true, false, ◌&&◌, Option, none, some, List, [], ◌∷◌, ◌++◌,
  map, append-nil,
}
use coralogix_aws_lambda_tel.Prelude.{if◌then◌else◌, Bool-cases, is_some}
use coralogix_aws_lambda_tel.Prelude.{ℤ}
use coralogix_aws_lambda_tel.Proto.{Bytes, ScopeSpans, ResourceSpans}
use coralogix_aws_lambda_tel.Events.{
  PlatformStartData, PlatformRuntimeDoneData, PlatformReportData, LambdaTelemetryRecord, function,
  extension, platform_init_start, platform_init_runtime_done, platform_init_report, platform_start,
  platform_runtime_done, platform_report, platform_extension, platform_telemetry_subscription,
  platform_logs_dropped, LambdaTelemetry, Error, millis_to_nanos, event_timestamp,
}
use coralogix_aws_lambda_tel.Config.{is_structured, TracingMode, TelemetryProcessorConfig}
use coralogix_aws_lambda_tel.Processing.State.{RawFunctionLog, is_otel, is_telemetry_api}
use coralogix_aws_lambda_tel.Service.State.{
  OutputBuffers, add_function_scope_spans, add_function_resource_spans,
}
use coralogix_aws_lambda_tel.Processor.Steps.{
  ProcessorTools, Work, Outcome, timed, append_spans, update_init_report_metrics,
  update_runtime_done_metrics, update_report_metrics, update_metrics_after_report,
}
use coralogix_aws_lambda_tel.Processor.Telemetry.{
  emit_taken_logs, otel_spans, spans_for, emit_invocation_spans, conclude_runtime, on_runtime_done,
  emit_report_spans, conclude_report, on_report, on_init_start, on_init_report, handle_record,
  process_telemetry, store_function_spans, process_function_spans,
}
use coralogix_aws_lambda_tel.Processor.Outcomes.{Succeeds, Succeeds-then, Succeeds-map, if_branches}
use coralogix_aws_lambda_tel.Processor.Items.{
  LogItem, function_item, runtime_done_item, report_item, Reaches, Reaches-none, Reaches-trans,
  emit_runtime_done_log-Stays, emit_report_log-Stays,
}
use coralogix_aws_lambda_tel.Spans.Emission.{emit_trigger_and_invocation_spans}
use coralogix_aws_lambda_tel.Processor.Delay.{
  State, optional_item, start_items, waiting_of, waiting, arrived, IsFlushed, Delivers, Stays-trans,
  delivered, unmoved, emit_taken_logs-Reaches, conclude_delay-Reaches, function-Delivers,
  on_start-Delivers, start_expected,
}

-- Logs are as they were.
abbrev pub KeepsLogs : OutputBuffers → OutputBuffers → Type 0
KeepsLogs o o' = o'.logs_buffer ≡ o.logs_buffer

add_function_scope_spans-KeepsLogs :
    (r : List ScopeSpans) (o : OutputBuffers) → KeepsLogs o (add_function_scope_spans r o)
unfolding add_function_scope_spans
add_function_scope_spans-KeepsLogs [] o = refl
add_function_scope_spans-KeepsLogs (ss ∷ r) o = add_function_scope_spans-KeepsLogs r _

add_function_resource_spans-KeepsLogs :
    (r : List ResourceSpans) (o : OutputBuffers) → KeepsLogs o (add_function_resource_spans r o)
unfolding add_function_resource_spans
add_function_resource_spans-KeepsLogs [] o = refl
add_function_resource_spans-KeepsLogs (rs ∷ r) o =
    add_function_resource_spans-KeepsLogs r (add_function_scope_spans rs.scope_spans o)
    ∙ add_function_scope_spans-KeepsLogs rs.scope_spans o

-- The delayed logs come before the one of the end, and nothing waits afterwards.
flush_accounted :
    (structured delaying starts done_log : Bool) (i : LogItem) (o : Option PlatformStartData)
    (l : List RawFunctionLog)
    → (delaying ≡ false → l ≡ [])
    → (let c = structured && delaying in
        ((if c then start_items starts o ++ map function_item l else [])
          ++ optional_item (structured && done_log) i)
        ++ (start_items ((if c then false else delaying) && (structured && starts)) o
            ++ map function_item (if c then [] else l)))
      ≡ (start_items (delaying && (structured && starts)) o ++ map function_item l)
        ++ optional_item (structured && done_log) i
flush_accounted true true starts done_log i none l f = append-nil _
flush_accounted true true starts done_log i (some d) l f = append-nil _
flush_accounted true false starts done_log i none l f = rw (f refl) (append-nil _)
flush_accounted true false starts done_log i (some d) l f = rw (f refl) (append-nil _)
flush_accounted false true starts done_log i o l f = sym (append-nil _)
flush_accounted false false starts done_log i o l f = sym (append-nil _)

flush_IsFlushed :
    (c d : Bool) (l : List RawFunctionLog)
    → (d ≡ false → l ≡ [])
    → (if c then false else d) ≡ false
    → (if c then [] else l) ≡ []
flush_IsFlushed true d l f h = refl
flush_IsFlushed false d l f h = f h

report_accounted :
    (structured report_log starts delaying : Bool) (i : LogItem) (o : Option PlatformStartData)
    (l : List RawFunctionLog)
    → delaying ≡ false
    → ((if structured then map function_item l else [])
          ++ optional_item (structured && report_log) i)
        ++ (start_items (delaying && (structured && starts)) o
            ++ map function_item (if structured then [] else l))
      ≡ (start_items (delaying && (structured && starts)) o ++ map function_item l)
        ++ optional_item (structured && report_log) i
report_accounted true report_log starts delaying i none l h = append-nil _
report_accounted true report_log starts delaying i (some d) l h = rw h (append-nil _)
report_accounted false report_log starts delaying i o l h = sym (append-nil _)

spans_accounted :
    (structured delaying early starts : Bool) (o : Option PlatformStartData)
    (l : List RawFunctionLog)
    → (let c = structured && (delaying && early) in
        (if c then start_items starts o ++ map function_item l else [])
        ++ (start_items ((if c then false else delaying) && (structured && starts)) o
            ++ map function_item (if c then [] else l)))
      ≡ start_items (delaying && (structured && starts)) o ++ map function_item l
spans_accounted true true true starts none l = append-nil _
spans_accounted true true true starts (some d) l = append-nil _
spans_accounted true true false starts o l = refl
spans_accounted true false early starts o l = refl
spans_accounted false delaying early starts o l = refl

module _ (tools : ProcessorTools) (config : TelemetryProcessorConfig) where
  spans_for-KeepsLogs :
      (mode : TracingMode) (s : State) (o : OutputBuffers)
      → KeepsLogs o (spans_for tools config mode s o)
  unfolding spans_for otel_spans append_spans
  spans_for-KeepsLogs TracingMode.otel_instrumentation s o =
      add_function_scope_spans-KeepsLogs (emit_trigger_and_invocation_spans s) o
  spans_for-KeepsLogs TracingMode.telemetry_api s o = refl
  spans_for-KeepsLogs TracingMode.disabled s o = refl

  emit_invocation_spans-KeepsLogs :
      (s : State) (o : OutputBuffers) → KeepsLogs o (emit_invocation_spans tools config s o)
  unfolding emit_invocation_spans
  emit_invocation_spans-KeepsLogs s o =
      if_branches (KeepsLogs o) s.tracing_state.should_produce_spans
        (spans_for-KeepsLogs config.tracing_mode s o) refl

  emit_report_spans-KeepsLogs :
      (s : State) (o : OutputBuffers) → KeepsLogs o (emit_report_spans tools config s o)
  unfolding emit_report_spans append_spans
  emit_report_spans-KeepsLogs s o =
      if_branches (KeepsLogs o)
        (s.tracing_state.should_produce_spans && is_telemetry_api config.tracing_mode) refl refl

  -- what happens after the logs does not concern them
  carried :
      {items : List LogItem} {w u u' : Work State} {d : Bool} {l : List RawFunctionLog}
      {o : Option PlatformStartData}
      → Reaches tools config items w d l o u
      → KeepsLogs u.output_buffers u'.output_buffers
      → u'.state.delaying_logs ≡ u.state.delaying_logs
      → u'.state.logs ≡ u.state.logs
      → u'.state.start_data ≡ u.state.start_data
      → Reaches tools config items w d l o u'
  carried h e a b c = record {
    emits = record {
      records = h.emits.records;
      made = h.emits.made;
      appended = e ∙ h.emits.appended;
    };
    delaying = a ∙ h.delaying;
    logs = b ∙ h.logs;
    start_data = c ∙ h.start_data;
  }

  flush_of :
      {items : List LogItem} {w : Work State} {x y : Outcome State} {d d' : Bool}
      {l l' : List RawFunctionLog} {o : Option PlatformStartData} (c : Bool)
      → Succeeds (Reaches tools config items w d l o) x
      → Succeeds (Reaches tools config [] w d' l' o) y
      → Succeeds
          (Reaches tools config
            (if c then items else [])
            w
            (if c then d else d')
            (if c then l else l')
            o)
          (if c then x else y)
  flush_of true h k = h
  flush_of false h k = k

  on_runtime_done-Delivers :
      (d : PlatformRuntimeDoneData) (w : Work State)
      → IsFlushed w.state
      → Succeeds
          (Delivers tools config
            (waiting tools config w.state
              ++ optional_item
                  (is_structured config.log_mode && config.platform_log_set.runtime_done)
                  (runtime_done_item d))
            w)
          (on_runtime_done tools config d w)
  unfolding on_runtime_done conclude_runtime update_runtime_done_metrics waiting waiting_of
  on_runtime_done-Delivers d w f =
      let c = is_structured config.log_mode && w.state.delaying_logs in
      Succeeds-then
        (Succeeds-then
          (flush_of c (conclude_delay-Reaches tools config w)
            (record { known = Reaches-none tools config w w refl }))
          (λ u h.
            Succeeds-map (emit_runtime_done_log-Stays tools config d _ _ u)
              (λ v k. Stays-trans tools config h k)))
        (λ u h. record {
          known =
              delivered tools config
                (carried h (emit_invocation_spans-KeepsLogs _ _) refl refl refl)
                (flush_accounted (is_structured config.log_mode) w.state.delaying_logs
                  config.platform_log_set.start config.platform_log_set.runtime_done
                  (runtime_done_item d) w.state.start_data w.state.logs f)
                (flush_IsFlushed c w.state.delaying_logs w.state.logs f);
        })

  either_way :
      {P : Work State → Type 0} (e : Option Error) {w : Work State} → P w → Succeeds P (e, w)
  either_way none h = record { known = h }
  either_way (some e) h = record { known = tt }

  emit_taken-Reaches :
      (w : Work State) (c : Bool)
      → Succeeds
          (Reaches tools config
            (if c then map function_item w.state.logs else [])
            w
            w.state.delaying_logs
            (if c then [] else w.state.logs)
            w.state.start_data)
          (if c then emit_taken_logs tools config w else (none, w))
  emit_taken-Reaches w true = emit_taken_logs-Reaches tools config w
  emit_taken-Reaches w false = record { known = Reaches-none tools config w w refl }

  on_report-Delivers :
      (d : PlatformReportData) (w : Work State)
      → IsFlushed w.state
      → w.state.delaying_logs ≡ false
      → Succeeds
          (Delivers tools config
            (waiting tools config w.state
              ++ optional_item
                  (is_structured config.log_mode && config.platform_log_set.report)
                  (report_item d))
            w)
          (on_report tools config d w)
  unfolding on_report conclude_report update_report_metrics update_metrics_after_report waiting
      waiting_of
  on_report-Delivers d w f h =
      Succeeds-then
        (Succeeds-then (emit_taken-Reaches w (is_structured config.log_mode)) (λ u h.
          Succeeds-map (emit_report_log-Stays tools config d u)
            (λ v k. Stays-trans tools config h k)))
        (λ u k. either_way _ (
          delivered tools config (carried k (emit_report_spans-KeepsLogs _ _) refl refl refl)
            (report_accounted (is_structured config.log_mode) config.platform_log_set.report
              config.platform_log_set.start w.state.delaying_logs (report_item d) w.state.start_data
              w.state.logs h)
            (λ z. if_branches (λ l. l ≡ []) (is_structured config.log_mode) refl (f z))))

  -- The report of an invocation comes once logs are not delayed.
  abbrev pub IsTimely : LambdaTelemetryRecord → State → Type 0
  IsTimely (platform_report _ _ _ _ _ _) s = s.delaying_logs ≡ false
  IsTimely _ s = Unit

  handle_record-Delivers :
      (drawn : Bytes) (time : ℤ) (r : LambdaTelemetryRecord) (w : Work State)
      → IsFlushed w.state
      → IsTimely r w.state
      → Succeeds
          (Delivers tools config (arrived tools config time r (waiting tools config w.state)) w)
          (handle_record tools config drawn time r w)
  unfolding handle_record arrived on_init_start on_init_report update_init_report_metrics
      start_expected
  handle_record-Delivers drawn time (function text) w f h =
      function-Delivers tools config time text w f
  handle_record-Delivers drawn time (extension text) w f h = record {
    known = unmoved tools config w w f refl refl refl refl;
  }
  handle_record-Delivers drawn time (platform_init_start _ _ _ _) w f h = record {
    known = unmoved tools config w _ f refl refl refl refl;
  }
  handle_record-Delivers drawn time (platform_init_runtime_done _ _ _ _ _) w f h = record {
    known = unmoved tools config w _ f refl refl refl refl;
  }
  handle_record-Delivers drawn time (platform_init_report _ _ _ _) w f h = record {
    known = unmoved tools config w _ f refl refl refl refl;
  }
  handle_record-Delivers drawn time (platform_start _ _ _) w f h =
      on_start-Delivers tools config _ w f
  handle_record-Delivers drawn time (platform_runtime_done _ _ _ _ _ _) w f h =
      on_runtime_done-Delivers _ w f
  handle_record-Delivers drawn time (platform_report _ _ _ _ _ _) w f h = on_report-Delivers _ w f h
  handle_record-Delivers drawn time platform_extension w f h = record {
    known = unmoved tools config w w f refl refl refl refl;
  }
  handle_record-Delivers drawn time platform_telemetry_subscription w f h = record {
    known = unmoved tools config w w f refl refl refl refl;
  }
  handle_record-Delivers drawn time platform_logs_dropped w f h = record {
    known = unmoved tools config w w f refl refl refl refl;
  }

  -- When the processing of an event succeeds, the log records that it emits are made of exactly the
  -- expected items, in their order and each once, up to those that wait then; and no log is kept where
  -- logs are not delayed. Expected are the items that waited, then the one of the event, where it is to be logged; but
  -- a start is expected before all that waited, in the place of another start that waited, which is lost.
  -- This supposes that no log was kept before where logs were not delayed, and that a report comes only once logs are
  -- not delayed.
  pub process_telemetry-Delivers :
      (drawn : Bytes) (e : LambdaTelemetry) (w : Work State)
      → IsFlushed w.state
      → IsTimely e.event w.state
      → Succeeds
          (Delivers tools config
            (arrived tools config
              (millis_to_nanos e.time_millis)
              e.event
              (waiting tools config w.state))
            w)
          (process_telemetry tools config drawn e w)
  unfolding process_telemetry timed event_timestamp
  process_telemetry-Delivers drawn e w f h =
      elim (Bool-cases (tools.in_range (millis_to_nanos e.time_millis))) [
        | inl inside ↦ rw inside (handle_record-Delivers drawn _ e.event w f h)
        | inr outside ↦ rw outside (record { known = tt })
      ]

  -- When the processing of spans of the function succeeds, the log records that it emits are made of
  -- exactly the items that waited, up to those that wait then, in order, each once; and no log is kept
  -- where logs are not delayed, if it was so before.
  pub process_function_spans-Delivers :
      (spans : List ResourceSpans) (w : Work State)
      → IsFlushed w.state
      → Succeeds
          (Delivers tools config (waiting tools config w.state) w)
          (process_function_spans tools config spans w)
  unfolding process_function_spans store_function_spans waiting waiting_of
  process_function_spans-Delivers spans w f =
      let v : Work State = store_function_spans tools config spans w in
      let early = is_some v.state.tracing_state.cx_early_invocation_span in
      let c = is_structured config.log_mode && (w.state.delaying_logs && early) in
      let kept : KeepsLogs w.output_buffers v.output_buffers =
        if_branches (KeepsLogs w.output_buffers)
          (v.state.tracing_state.should_produce_spans && is_otel config.tracing_mode)
          (add_function_resource_spans-KeepsLogs _ _) refl in
      Succeeds-map
        (flush_of c (conclude_delay-Reaches tools config v)
          (record { known = Reaches-none tools config v v refl }))
        (λ u h.
          delivered tools config (Reaches-trans tools config (Reaches-none tools config w v kept) h)
            (spans_accounted (is_structured config.log_mode) w.state.delaying_logs early
              config.platform_log_set.start w.state.start_data w.state.logs)
            (flush_IsFlushed c w.state.delaying_logs w.state.logs f))
