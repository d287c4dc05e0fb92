-- ===== src/Lib.antt =====
-- The verification library of the port's time and motion platform, a Python service that merges
-- observations of vessel calls, selects which observation of an event governs, reconstructs the
-- journey of each call, measures it, and guards all of this by tenants, permissions and sessions.
--
-- Parts, and the files that model them:
--   Prelude      helpers: tests on numbers, lists, signed integers, Python texts and rounding.
--   Identity     apps/api/services/identity. Normalizer (normalize, similarity; Ratio is
--                difflib's ratio for names below 200 characters), Matcher (evaluate_pair), Survivorship
--                (determine_survivor_record, resolve_field, generate_preview), Store (the tables) and
--                Merger (execute_merge, execute_unmerge). The matcher evaluates two calls, a merge
--                takes a stored candidate, consolidates by the survivorship rules, moves the children
--                and keeps a snapshot, from which an unmerge restores.
--   Auth         apps/api/auth and apps/api/services/auth_service.py. Scope (DataScope and
--                ScopedQueryBuilder.build), Principal (has_permission), Tenant
--                (resolve_principal_tenant), Session (create_user_session, revoke_session,
--                is_session_active) and Gate (get_current_principal, PermissionDependency). A
--                request passes the gate if its token decodes, its session is active or not recorded,
--                and its scope does not have a null for the tenant.
--   Analytics    apps/api/services/analytics. Duration (duration_semantics.py: the nine durations) and
--                Metric (engine.py, compute_all_metrics): Resolution (_resolve_event_occurrence), Call
--                (_compute_event_duration), Service (_compute_execution_delay), Table (the stored
--                results), Engine (_compute_single_definition and the loop over the definitions) and
--                Catalogue (catalogue.py, the definitions and ensure_catalogue). A metric reads the
--                decisions of the journey, corrections included.
--   Journey      apps/api/services/journey. Occurrence (the tables), Selector
--                (resolve_vessel_call), Correction (create_correction), Timeline
--                (_build_event_instant_map, the stage and shift rows), Decomposition
--                (_compute_decomposition) and Reconstruction (reconstruct_vessel_call with instances,
--                handovers and history). A correction overrides the selection; the timeline reads
--                the selection; the decomposition reads the rows of the timeline.
--   Alerts       apps/api/services/alerts/engine.py. Alert (the tables, acknowledge_alert,
--                resolve_alert, create_action_item, update_action_item) and Rules (seed_default_rules,
--                evaluate_rules with _create_or_get_alert), over rows of delays, quality issues,
--                bottlenecks and outliers.
--   Worker       apps/worker/main.py, process_ingestion_analytics_task. Batch (the batches of a tenant),
--                Task (its checks, lock, transaction and error paths), Schedule (the deliveries of
--                several tasks, one step at a time) and Delivery. A newer upload supersedes an older one;
--                the calculation of a batch's dataset is a parameter.
--   Delays       apps/api/services/delays. Category (map_to_canonical_category), Delay (the tables),
--                Inference (infer_delay_cause), Allocation (allocate_causes, review_delay_reason) and
--                Timings (list_service_timings with the statistics of a service). An inference revises
--                only an inferred allocation; a review replaces the primary one.
--   Criticality  apps/api/services/criticality/engine.py, compute_component_scores: three scores, their
--                weighted mean and the band of it.
--
-- State is passed explicitly: a table is a list of records, a handler takes the tables that it writes
-- and returns them, and a raised exception is an error value that leaves the tables as they were.
-- Ids are only compared, so they are natural numbers. Numbers of the code that are floats are exact:
-- scores and confidences in 1/10000 (of Delays in 1/100), hours in millionths (of Delays in 1/10000),
-- all the digits that the code rounds to; times are in microseconds. Texts are lists of
-- code points, with the upper case of ASCII.
--
-- Loops are structural recursion. The only fuel is that of the matching blocks of two names: a block
-- takes at least one character of the first name, and the fuel is its length.
--
-- Not modelled: decoding and signing tokens (a parameter of the gate), the database and its sessions,
-- JSON and texts for display, the web client, routers, the report task of the worker, the summary,
-- event pairs and filtered list of delays, the statistics of metrics and custom formulas, the
-- criticality of stored stages, and the services of bottlenecks, KPIs, outliers, data quality,
-- ingestion, the copilot and reports.
pub mod Prelude
pub mod Worker
pub mod Delays
pub mod Criticality
pub mod Identity
pub mod Auth
pub mod Analytics
pub mod Journey
pub mod Alerts
