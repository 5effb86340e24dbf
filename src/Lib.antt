-- ===== src/Lib.antt =====
-- Project Sentinel: a pipeline that scans an application, lets a language model judge the findings,
-- and sends one reviewed request to verify a finding. This library models the parts that decide what
-- may be sent, what is recorded of it and what is concluded from it.
--
-- The parts, and where they are (paths from src/project_sentinel/ of the repository):
-- - `Json`, `Python`: the values of json.loads, exceptions and the functions on texts that belong to
--   Python (`PyText`: case mappings, str(), ==, SHA-256), which are parameters with what the code
--   relies on as laws. `Prelude` has the shared names.
-- - `Allowlist`: gateway/allowlist.py, the inventory of endpoints and reviewed templates; `Parse` is
--   its construction from the JSON document, `Lookup` the theorems on the queries, `Parse.Laws` those
--   on the construction.
-- - `Redaction`: guardrails/redaction.py. The substitution of a pattern is Python's re, a parameter.
-- - `Probe`: gateway/models.py, gateway/payloads.py, probe/payload_kinds.py and probe/http_models.py.
-- - `Approval`: guardrails/approval.py, the operator's gate: fingerprint, decision, prompt.
-- - `Proposal`: probe/proposal.py, the clamp on what the model proposes.
-- - `Audit`: gateway/request_log.py and guardrails/events.py, one line at a time.
-- - `Effect`, `Send`: probe/tool.py. `send_probe` is a program whose actions (audit line, event, wait,
--   request) are kept in order beside a result that may be an exception; the transport and the
--   writing of a line are parameters, each of which may raise.
-- - `RateLimit`: probe/rate_limit.py, in whole numbers where the code has floats.
-- - `Calibration`: analysis/calibration.py, the rules that lower the conclusion of the model.
-- - `Verdict`: orchestrator/verdict.py, what a request says of the finding that it is to verify.
-- - `Grouping`: analysis/grouping.py, the findings in groups. `Build` is the record of a group.
-- - `Analysis`: the analysis of the groups by the model. `OutputSafety` is analysis/output_safety.py,
--   `Provenance` validate_provenance of analysis/validators.py; `Pipeline` is the analysis of one group
--   in analysis/pipeline.py (`Group` the checks and the settling, `Retry` the two calls), `Summary` its
--   run_pipeline, and `Correlation` the evidence of analysis/correlation.py, whose strengths `Pipeline`
--   reads. The packet, the prompt and the model of analysis/analyzer.py are the parameter
--   `Environment.analyze`, and jsonschema is `Environment.schema_error`.
-- - `Merge`: ingestion/merge_findings.py, the findings of several scanners in one list.
-- - `Injection`: guardrails/injection.py, the scan of untrusted text.
-- - `Run`: orchestrator/state.py and orchestrator/runner.py, the record of a run and the execution of
--   a phase, with the functions of the steps as parameters; `Run.Resume` is resume_run with
--   orchestrator/run_lock.py, as the steps of many processes on the files of one run; `Run.Steps` is
--   the choice of an objective and the approval step of orchestrator/steps/propose.py, `Run.Probing` the
--   probe step of orchestrator/steps/probe.py, and `Run.Document` the JSON form of a run.
-- - `Examples`: the theorems at concrete inputs.
--
-- How they interact: `Proposal` asks `Allowlist` for what the model proposes; `Send` asks it again for
-- the method, the path and the payload, asks `Approval` for the consent of the operator, masks the
-- response by `Redaction` and writes by `Audit`; `Run` executes the steps, of which `Run.Probing`
-- reads the decision and calls `Send`, and `Verdict` and `Calibration` judge the artifacts that they
-- leave. `Analysis.Summary` takes the groups of `Grouping`; `Analysis.Pipeline`
-- holds each response against `Provenance`, `OutputSafety` and `Proposal`, and gives what passes to
-- `Calibration`.
--
-- Loops are structural recursion on lists, texts or JSON values, and need no fuel but for the merging of
-- near duplicates: a pass has the number of groups as fuel, and so have the passes, with one more, since
-- each that merges leaves fewer groups; `Grouping.Settled` shows that the loop ends by its own test.
-- Numbers are natural, but for the lines of findings and the options, which are integers; a float is
-- m * 10^-k, and the times that the code rounds to hundredths of a millisecond are counted in those.
--
-- Not modelled: files, network and clock (their contents are arguments), the texts of the regular
-- expressions, time stamps of log lines, the scrubbing of a response, the report and the metrics, the
-- web and command line, the model clients, the rest of the ingestion, and what the model is given: the
-- packet with its evidence and its knowledge.
pub mod Prelude
pub mod Json
pub mod Python
pub mod Allowlist
pub mod Redaction
pub mod Probe
pub mod Approval
pub mod Proposal
pub mod Audit
pub mod Effect
pub mod Send
pub mod Calibration
pub mod Verdict
pub mod RateLimit
pub mod Injection
pub mod Merge
pub mod Run
pub mod Examples
pub mod Grouping
pub mod Analysis
