-- ===== src/Lib.antt =====
-- The quality-control backend: how an inspection of a material is judged, decided and recorded.
--
-- The program. A supplier's results and internal tests of a delivered LOT are judged against the
-- specification that is in effect, item by item; the judgment is a candidate only. A lead who did
-- not submit the case decides, and the decision is stored with a snapshot of all that it rests on.
-- The parts below meet in `finalize` of backend/src/hyc_data/repositories.py: it reads the rows of
-- the case, selects the specification, judges the items, asks the workflow's guard, freezes the
-- snapshot and writes the rows of the decision.
--
-- The parts, their files, and the code that they model (paths from the repository's root):
--   Errors                the failure codes of backend/src/hyc_domain/errors.py.
--   Workflow, Workflow/*  backend/src/hyc_domain/workflow.py: the tables of permitted changes of
--                         cases and documents, and the two guards; histories are sequences of moves
--                         that a guard lets through.
--   PyDecimal, PyDecimal/*  Python's decimal.Decimal as the backend uses it: order, text, and
--                         arithmetic with a precision, rounding half to even.
--   Decimals, Decimals/*  backend/src/hyc_domain/decimals.py: `parse`, `canonical`, units, `convert`.
--   Specs, Specs/*, Rules backend/src/hyc_domain/specs.py: scopes, effective ranges, selection;
--                         the acceptance rules and their `validate`.
--   Judgment, Judgment/*  backend/src/hyc_domain/judgment.py: from an item's values to its
--                         evaluation (`evaluate_item_details`), and the case (`evaluate_case`).
--   Snapshots             backend/src/hyc_domain/snapshots.py: `_normalise`. Snapshots/Dump is
--                         `json.dumps`, Snapshots/Load `json.loads`, Snapshots/Freeze the hash, the
--                         checks of an approval's snapshot, and `verify`.
--   Store                 the rows of backend/src/hyc_data/models.py that the repositories use.
--                         Store/Numeric is StrictNumeric, a column NUMERIC(24, 12).
--   Approval, Approval/*  ApprovalRepository of backend/src/hyc_data/repositories.py: `_effective_spec`
--                         here, `_persisted_inputs` in Inputs, `_snapshot` in Rows, Labels and
--                         Payload, `finalize` in Finalize; what it guarantees in the others.
--   Lots, Lots/*          backend/src/hyc_domain/lots.py and LotRepository of repositories.py:
--                         identities, survivors, promotion and merging.
--   Traceability, Traceability/*  backend/src/hyc_domain/traceability.py: the production lots that are
--                         downstream of a material LOT (`impact_scope`).
--   Idempotency, Idempotency/*  backend/src/hyc_domain/idempotency.py: records, leases, completion.
--   Reservations, Reservations/*  IdempotencyRepository of repositories.py: `reserve`, with the rows
--                         that other transactions commit in between.
--   Services              the errors and their status codes, and Principal of backend/src/hyc_api/auth.py.
--                         The modules beside it are backend/src/hyc_api/services/p3.py:
--                         Services/Bodies is the `json.dumps` of a response, Headers the checks of
--                         If-Match and Idempotency-Key, Requests the reservation, replay and
--                         completion of a request, Intake `create_intake`, Payload and Review
--                         `confirm_review`, Creation `create_inspection`, Selection `_select_spec` and
--                         `_spec_snapshot`, Judging and Evaluation `evaluate_inspection`, Lifecycle
--                         the submission, the return and the approval of a case, Results
--                         `put_internal_results`, Lineage `clone_lineage`. Approval in Lifecycle calls
--                         Approval/Finalize; Requests calls Reservations. Services/History has these
--                         requests as steps from a store to the next, and the stores they lead to.
--   Base, Base/*          what the modules share: tests on numbers, lists, texts, integers, results.
--   Examples, Examples/*  the properties at concrete inputs.
--
-- How the code is represented. A call that may raise gives a Result, the error named after its
-- message; where the code treats several errors alike, they are one. An object that the code
-- changes is a record that the call returns; the database is the record of its tables, and a method
-- of a repository takes a store and gives the one that it leaves. `flush` raises the version of a
-- row that changed; a unique key that a method can hit is checked where the row is written. A row
-- lock and the advisory lock have no counterpart, since a call is one step here.
-- Identifiers are the numbers of UUIDs. Dates are ordinals in Specs and year, month and day in the
-- rows. Times are numbers. A text is a String or, where its characters matter, its code points.
-- Enumerations in rows are texts, as in the database.
--
-- Bounds and fuel. A Decimal's coefficient and exponent are unbounded, the bounds of a context's
-- exponent (999999) are left out, and not-a-number has no payload. Digits are written with a fuel of
-- one more than the number. `json.loads` has a fuel of twice the length of its text, and two: every
-- step into a value, an item or a member consumes a character or is followed by one that does.
-- `follow_merges` has the depth of the code, 16. The walk of `impact_scope` has a round for the LOT and
-- one for each production lot, since a round takes an id off the queue and no id is queued twice.
--
-- Parameters. SHA-256 (Snapshots, Approval, Idempotency, Services) and NFKC (Lots, Services) are
-- functions on texts, of which nothing is assumed. The ids that `uuid4` gives, the time, and the rows
-- that other transactions commit in between are arguments of the services.
--
-- What is not modelled: the HTTP routes and their schemas, the reports and statistics, the stored
-- files, ingestion, text recognition, the evaluation of extractions, the worker, the migrations and
-- scripts, and the frontend. In part they are input and output; ingestion and the statistics have
-- logic of their own. Of what the database refuses, the foreign keys are
-- left out, and of what other transactions commit in between, all but the rows of the reservations.
-- A query without an order takes the rows as they stand in the table. What the services write into a
-- column NUMERIC(24, 12) is rounded as PostgreSQL documents it: to twelve places, half away from zero,
-- and what has more than twelve digits before the point is refused.
pub mod Base
pub mod Errors
pub mod Workflow
pub mod PyDecimal
pub mod Decimals
pub mod Specs
pub mod Rules
pub mod Judgment
pub mod Snapshots
pub mod Services
pub mod Store
pub mod Approval
pub mod Idempotency
pub mod Lots
pub mod Traceability
pub mod Reservations
pub mod Examples
