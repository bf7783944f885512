-- ===== src/Processor/Items.antt =====
-- src/telemetry/processor/telemetry_processor.rs: the log records that are emitted, and what they are
-- made of.
use coralogix_aws_lambda_tel.Prelude.{
  String, ◌≡◌, refl, sym, ap, ◌∙◌, Bool, true, false, ◌&&◌, Option, none, List, [], ◌∷◌, ◌++◌,
  append_assoc, append-nil,
}
use coralogix_aws_lambda_tel.Prelude.{if◌then◌else◌}
use coralogix_aws_lambda_tel.Proto.{LogRecord}
use coralogix_aws_lambda_tel.Events.{
  PlatformStartData, PlatformRuntimeDoneData, PlatformReportData, Result, ok, err,
}
use coralogix_aws_lambda_tel.Config.{is_structured, TelemetryProcessorConfig}
use coralogix_aws_lambda_tel.Logs.Metadata.{of_invocation}
use coralogix_aws_lambda_tel.Logs.Records.{
  make_function_log, make_platform_start_log, make_platform_runtime_done_log,
  make_platform_report_log,
}
use coralogix_aws_lambda_tel.Processing.State.{InvocationProcessingState, RawFunctionLog}
use coralogix_aws_lambda_tel.Processor.Steps.{
  ProcessorTools, Work, Outcome, push_log, emit_function_log, emit_start_log, emit_runtime_done_log,
  emit_report_log,
}
use coralogix_aws_lambda_tel.Processor.Outcomes.{Succeeds}

-- what a log record is made of
pub data LogItem : Type 0 where
  start_item : PlatformStartData → LogItem
  function_item : RawFunctionLog → LogItem
  runtime_done_item : PlatformRuntimeDoneData → LogItem
  report_item : PlatformReportData → LogItem

abbrev State : Type 0
State = InvocationProcessingState

-- a property of two conditionals
pub if_both :
    {A B : Type 0} (P : A → B → Type 0) (b : Bool) {x y : A} {u v : B}
    → P x u
    → P y v
    → P (if b then x else y) (if b then u else v)
if_both P true h k = h
if_both P false h k = k

module _ (tools : ProcessorTools) (config : TelemetryProcessorConfig) where
  -- The record is made of the item, in some state of the processing.
  abbrev pub IsRecordOf : LogItem → LogRecord → Type 0
  IsRecordOf (start_item d) r =
      (s : State) × ((make_platform_start_log tools.logs of_invocation config d s).0 ≡ ok r)
  IsRecordOf (function_item log) r =
      (s : State) × ((make_function_log tools.logs of_invocation config log s).0 ≡ ok r)
  IsRecordOf (runtime_done_item d) r =
      (s : State) × (a b : Option String) × ((make_platform_runtime_done_log tools.logs
          of_invocation config d a b s).0
        ≡ ok r)
  IsRecordOf (report_item d) r =
      (s : State) × ((make_platform_report_log tools.logs of_invocation config d s).0 ≡ ok r)

  -- one for each, in the same order
  abbrev pub AreRecordsOf : List LogItem → List LogRecord → Type 0
  AreRecordsOf [] [] = Unit
  AreRecordsOf (i ∷ is) (r ∷ rs) = IsRecordOf i r × AreRecordsOf is rs
  AreRecordsOf _ _ = ⊥

  -- The buffer of logs gets a record for each item, in their order.
  pub record Emits (items : List LogItem) (w w' : Work State) : Type 0 where
    pub records : List LogRecord
    pub made : AreRecordsOf items records
    pub appended : w'.output_buffers.logs_buffer ≡ w.output_buffers.logs_buffer ++ records

  AreRecordsOf-append :
      (is js : List LogItem) (rs ss : List LogRecord)
      → AreRecordsOf is rs
      → AreRecordsOf js ss
      → AreRecordsOf (is ++ js) (rs ++ ss)
  AreRecordsOf-append [] js [] ss h k = k
  AreRecordsOf-append (i ∷ is) js (r ∷ rs) ss (p, h) k = (p, AreRecordsOf-append is js rs ss h k)
  AreRecordsOf-append [] js (r ∷ rs) ss h k = elim h [ ]
  AreRecordsOf-append (i ∷ is) js [] ss h k = elim h [ ]

  -- The items are emitted, and what concerns the delay of logs is the given.
  pub record Reaches (items : List LogItem) (w : Work State) (d : Bool) (l : List RawFunctionLog)
      (o : Option PlatformStartData) (w' : Work State) : Type 0 where
    pub emits : Emits items w w'
    pub delaying : w'.state.delaying_logs ≡ d
    pub logs : w'.state.logs ≡ l
    pub start_data : w'.state.start_data ≡ o

  -- Nothing is emitted, and the delay of logs is as before.
  abbrev pub Stays : List LogItem → Work State → Work State → Type 0
  Stays items w w' = Reaches items w w.state.delaying_logs w.state.logs w.state.start_data w'

  pub Reaches-none :
      (w w' : Work State)
      → w'.output_buffers.logs_buffer ≡ w.output_buffers.logs_buffer
      → Reaches [] w w'.state.delaying_logs w'.state.logs w'.state.start_data w'
  Reaches-none w w' e = record {
    emits = record { records = []; made = tt; appended = e ∙ sym (append-nil _) };
    delaying = refl;
    logs = refl;
    start_data = refl;
  }

  pub Reaches-trans :
      {is js : List LogItem} {w v u : Work State} {d d' : Bool} {l l' : List RawFunctionLog}
      {o o' : Option PlatformStartData}
      → Reaches is w d l o v
      → Reaches js v d' l' o' u
      → Reaches (is ++ js) w d' l' o' u
  Reaches-trans {is} {js} {w} h k = record {
    emits = record {
      records = h.emits.records ++ k.emits.records;
      made = AreRecordsOf-append is js _ _ h.emits.made k.emits.made;
      appended =
          k.emits.appended
          ∙ (ap (λ l. l ++ k.emits.records) h.emits.appended
              ∙ append_assoc w.output_buffers.logs_buffer h.emits.records k.emits.records);
    };
    delaying = k.delaying;
    logs = k.logs;
    start_data = k.start_data;
  }

  push_log-Stays :
      (item : LogItem) (r : Result LogRecord) (s : State) (w : Work State)
      → ((log : LogRecord) → r ≡ ok log → IsRecordOf item log)
      → s.delaying_logs ≡ w.state.delaying_logs
      → s.logs ≡ w.state.logs
      → s.start_data ≡ w.state.start_data
      → Succeeds (Stays (item ∷ []) w) (push_log (r, s) w)
  unfolding push_log
  push_log-Stays item (ok log) s w h a b c = record {
    known = record {
      emits = record { records = log ∷ []; made = (h log refl, tt); appended = refl };
      delaying = a;
      logs = b;
      start_data = c;
    };
  }
  push_log-Stays item (err e) s w h a b c = record { known = tt }

  pub emit_function_log-Stays :
      (log : RawFunctionLog) (w : Work State)
      → Succeeds
          (Stays (function_item log ∷ []) w)
          (emit_function_log tools config of_invocation log w)
  unfolding emit_function_log make_function_log
  emit_function_log-Stays log w =
      push_log-Stays (function_item log) _ _ w (λ l h. (w.state, h)) refl refl refl

  pub emit_start_log-Stays :
      (d : PlatformStartData) (w : Work State)
      → Succeeds (Stays (start_item d ∷ []) w) (emit_start_log tools config of_invocation d w)
  unfolding emit_start_log make_platform_start_log
  emit_start_log-Stays d w =
      push_log-Stays (start_item d) _ _ w (λ l h. (w.state, h)) refl refl refl

  stays : (w : Work State) → Succeeds (Stays [] w) (none, w)
  stays w = record { known = Reaches-none w w refl }

  pub emit_runtime_done_log-Stays :
      (d : PlatformRuntimeDoneData) (a b : Option String) (w : Work State)
      → Succeeds
          (Stays
            (if is_structured config.log_mode && config.platform_log_set.runtime_done
              then runtime_done_item d ∷ []
              else [])
            w)
          (emit_runtime_done_log tools config of_invocation d a b w)
  unfolding emit_runtime_done_log make_platform_runtime_done_log
  emit_runtime_done_log-Stays d a b w =
      if_both (λ (o : Outcome State) items. Succeeds (Stays items w) o)
        (is_structured config.log_mode && config.platform_log_set.runtime_done)
        (push_log-Stays (runtime_done_item d) _ _ w (λ l h. (w.state, a, b, h)) refl refl refl)
        (stays w)

  pub emit_report_log-Stays :
      (d : PlatformReportData) (w : Work State)
      → Succeeds
          (Stays
            (if is_structured config.log_mode && config.platform_log_set.report
              then report_item d ∷ []
              else [])
            w)
          (emit_report_log tools config of_invocation d w)
  unfolding emit_report_log make_platform_report_log
  emit_report_log-Stays d w =
      if_both (λ (o : Outcome State) items. Succeeds (Stays items w) o)
        (is_structured config.log_mode && config.platform_log_set.report)
        (push_log-Stays (report_item d) _ _ w (λ l h. (w.state, h)) refl refl refl) (stays w)
