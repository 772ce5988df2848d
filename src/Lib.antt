-- ===== src/Lib.antt =====
-- Verification of the envelock server, the Python program under server/src/envelock, which watches the
-- mailboxes of tenants for payment fraud: detections look at a message, the risk engine weighs what they
-- found into an alert, a model may judge the doubtful ones, and alerts are notified, escalated, closed
-- and delivered to the customer's own systems. Plans and mailbox capacity say what a tenant gets, and
-- limits guard the sign-in. Each function of the source is a function here, with its guards and early
-- returns, and each class that keeps state is a record of its fields that the functions take and give
-- back. A lock makes a method one step, so an interleaving of callers is a list of calls.
--
-- Limits: security/limits.py. RateLimiter (`check`), Lockout (`is_locked`, `record_failure`,
--   `record_success`), Replay (`check_and_record`), Revocations (`revoke_jti`, `revoke_user`,
--   `is_revoked`, `consume_jti`), for the classes RateLimiter, AccountLockout, ReplayGuard and
--   TokenRevocations. A clock is read in ticks of a microsecond, so that int(seconds) is a division.
-- Core: core/enums.py, and in Core/Capabilities core/capabilities.py: what each source of data can do, the
--   protection level of a mailbox, and the advice to raise it.
-- Domains: the lists of util/domains.py; the look-up in the public suffix list is a parameter.
-- Risk: risk/engine.py, `assess`. Python's floats are the parameter `Floats`, with what is used of IEEE 754
--   as the hypothesis `IsIeee` of one theorem.
-- Billing: billing/pricing.py (Pricing), billing/entitlement.py (Entitlement), billing/features.py
--   (Features). An amount of money is in whole cents; a discount, int(subtotal * rate), is written on
--   whole percents: the doubles of the rates 0.05, 0.1 and 0.2 lie just above them, so for amounts
--   below 2^50 the product has the same whole part.
--   Trial is billing/trial.py, with the calls that start a trial: `_start_signup_trial` of api/auth.py and
--   `confirm_payment_method` of api/billing.py, on one ledger. Times there are whole days.
-- Notify: notify/ladder.py (Ladder): the rungs that an alert fires, and the paid rung; notify/dispatch.py: the
--   destinations and the push to all devices (Delivery), the drain of pending rows (Dispatch), whose row locks
--   are a predicate on the ids that another drain holds, and the escalation cycle (Cycle). The senders are the
--   parameter `Dispatcher`, so any of their answers is covered; a call of a sender is an entry of a list.
-- Detections: detections/base.py: the registry, what is active for a connection and a plan, and `run_all`. A
--   detection is a function of its context, which is a parameter. Attachments is detections/cascade.py: the
--   verdict cache (Cache), `static_triage` (Triage) and `analyse` (Layers); the answer of VirusTotal for a
--   hash is a parameter.
-- Workers: workers/jobs.py (Jobs) and workers/webhook_delivery.py (Webhooks, with the guard of URLs, and
--   Webhooks/Queue, with the retry schedule of governance/export.py). The URL parser, the resolver, the
--   parser of addresses and the HTTP client are the fields of `World`, so any of their answers is covered.
-- Llm: llm/gate.py and llm/cascade.py: which assessments are judged, the monthly cap, and what a verdict may
--   change. The model is a parameter.
-- Platform: platform/alerts.py: acknowledgement and escalation (Alerts), raising an alert (Alerts/Raise),
--   resolution (Alerts/Resolve), prevented loss (Alerts/Loss). What resolution asks of the graph that the
--   tenants share and of the register of fraud accounts is the parameter `Feed`. Graph is platform/graph.py,
--   Graph/Profile its risk profile; Graph/Store is platform/graph_store.py, with the table as a dictionary by
--   its key; Graph/Accounts is platform/fraud_accounts.py, with the keyed hash as a parameter.
-- Governance: governance/export.py: CEF and syslog lines (Export), the cells of the CSV export (Export/Csv) and
--   the signature of webhooks (Export/Signature). A text is there the list of its code points; a reader of
--   CEF, in Export/Cef, says what a receiver makes of a line. governance/retention.py is Retention, with the
--   purge in Retention/Purge: the columns that it reads, a DELETE that a foreign key forbids as an error, and
--   the loop over the batches of alerts on fuel for one round more than there are alerts; each round deletes
--   at least one.
-- Services: services/suppliers.py with the canonical identifiers of util/payments.py (Suppliers). The rows
--   of a tenant's tables; Python's operations on texts are parameters.
-- Prelude: tests on numbers and texts, lists over the native numbers, integers, dictionaries in the order
--   of their insertion.
--
-- The parts meet as in the source: `run_all` gives the findings that `assess` takes; `refine` takes an
-- assessment of `assess`, and asks the plan families of Features for the family of a service; the registry
-- asks Features for the detections of a plan; capacity in Entitlement reads the seats of Pricing. A raised
-- alert asks the ladder for the rungs of each recipient, queues their rows, and queues the webhooks, in one
-- step; Dispatch then drains the rows, and Cycle takes the steps of `due_escalations` and marks them.
--
-- Every loop but that of the purge of alerts is a recursion on a list and needs no fuel: the loops of the
-- source that pop from a queue or evict from a dictionary take one element of it at each turn. The eviction
-- of jobs stops as the source does, at the first unfinished job.
--
-- Not modelled: the Redis variants of the limits, the single detections and the cascade of URLs, the
-- extraction of payment identifiers, the calls of the payment provider, the texts of notifications, the
-- synchronisation of mailboxes, most of the HTTP interface, the tables and settings: they rest on regular
-- expressions, on other services, or on input and output. Texts of messages are kept where they reach a
-- customer; elsewhere a constructor names them. A database is the list of the rows of a table, and a
-- transaction is one step.
pub mod Prelude
pub mod Limits
pub mod Core
pub mod Domains
pub mod Risk
pub mod Billing
pub mod Notify
pub mod Detections
pub mod Services
pub mod Workers
pub mod Llm
pub mod Platform
pub mod Governance
