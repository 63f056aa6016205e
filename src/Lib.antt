-- ===== src/Lib.antt =====
-- OneLoyal: loyalty campaigns of companies that sell to other companies. The backend (backend/app)
-- keeps customers, their sale records, campaigns with gift tiers, each customer's progress in a
-- campaign, and reward claims, and its services read and write them in one database session for
-- each request.
--
-- How the parts interact: sale records and a campaign's rules give a customer's total; the total and
-- the campaign's gift tiers give the progress, which is stored with events; a claim asks for a tier
-- that the stored progress has reached; the actions on the claim move its status and the stock of
-- the tier; the service of gift tiers writes the tiers that the others read; a magic link opens a
-- portal session for its customer. Sale records come from the service of sales, by hand, and from
-- the sync, which reads an ERP's pages and recalculates the progress of the customers it affects.
-- The service of customers keeps the references by which the sync finds them. Users log in with a
-- password and stay logged in by refresh tokens. A worker delivers the notifications that wait.
--
-- Files and the code that they model (paths below backend/app):
--   Models/*: the columns of modules/{customers,campaigns,sales,progress,claims,events,
--     portal,users,companies,auth,integrations,sync,notifications}/models.py, and the values of
--     modules/integrations/providers/base.py
--   Core, Core/Results: core/errors.py, the errors as values, and chains of results
--   Common/Json, Common/Text: JSON values and the string methods that the services use
--   Common/JsonEquality: Python's equality of JSON values
--   Common/Redaction: common/redaction.py; Laws says what is redacted
--   Db/Exec: the session as explicit state; an action returns a result and the session after it
--   Db/Query, Db/Keyed: queries, the flush of a changed row, and tables with a primary key
--   Events: modules/events/service.py: emit, mark_processing, mark_processed, mark_failed
--   Progress/Rules, Amounts, Total, Tiers: the functions of modules/progress/service.py that
--     calculate (_merged_rules, _basis_points, _amount_for_record, _signed_amount, _calculate_total,
--     _calculate_tiers), each with its Laws; Total/Spec says what a total should be
--   Progress/Service: ProgressService: the queries, _upsert_progress with its events and
--     calculate_customer_progress; Plan: what a calculation reads, as a value; Stored: what it
--     writes; EndToEnd, Idempotence: the whole calculation, once and twice; Recalculation:
--     recalculate_campaign_progress and recalculate_affected_customers
--   Claims/Stock: _reserve_stock, _release_reserved_stock, _fulfill_reserved_stock
--   Claims/Service: RewardClaimService: _ensure_claimable, create_claim, approve_claim, reject_claim,
--     fulfill_claim, cancel_claim; Creation, Decisions: what each decides before it writes;
--     Invariant: the invariant of claims and stock, and why each call keeps it; Run: calls one after
--     another; Stuck: claims whose tier is gone
--   Campaigns/Service: CampaignService: delete, activate, pause, complete, archive, and the checks of
--     an activation; Lifecycle: the state machine of a campaign; Editing: update_campaign
--   Campaigns/Tiers: GiftTierService: create_tier, update_tier, delete_tier, reorder_tiers;
--     Amounts, Run: the required amounts differ; Order: the sort orders; Closed: campaigns that are
--     over
--   Portal/Service: PortalService: create_magic_link, revoke_magic_link, create_portal_session,
--     get_portal_context, over an environment (the hash, the signed tokens, the settings);
--     Creation, Access, RoundTrip: a new link, who gets in, and a session with its token
--   Sales/Service: SaleRecordService: create_sale_record, upsert_sale_record_by_source_key,
--     get_sale_record; Decisions: what each decides before it writes; Sound: what is checked of a
--     document; Table: what the table keeps; Ledger: the table as what it promises
--   Auth/Service: AuthService: login, platform_login, refresh, logout, over an environment (the hash
--     of tokens, the check of passwords, the signed tokens, the settings); Decisions, Moves, Calls:
--     what each decides, and what it does to the table of user sessions; Access, Tokens, Liveness:
--     who gets in, what a token is good for, and how long
--   Sync/Values, Customers, Sales: what an ERP's rows become (_upsert_customer,
--     _upsert_sale_record); Sync/Counting: steps that count; Sync/Pages: the loops over the
--     provider's pages; Sync/Execution, Ending, Status, Service: _execute_sync_run from start to
--     end, and execute_sync_run; Sync/Queue, Schedule: create_sync_run and
--     create_due_scheduled_sync_runs; each has its Laws, and Service/Finishes says how a run ends;
--     Service/Bounded: that its body ends; Frame: what the steps of a run leave alone, which
--     Service/Carried needs for the rows that are stored in the end; Sales/Table: the table of
--     sale records under the sync and the service of sales together
--   Customers/Service: CustomerService: create_customer, update_customer, archive_customer,
--     create_external_ref, assign_customer, unassign_customer; Decisions: what each decides before
--     it writes; Links: references and sales managers along any calls; Assignments: an assignment
--     that is undone
--   Notifications/Delivery: NotificationService: get_notification_event, the three marks of a
--     notification, send_pending_notifications with _send_notification; Distinct: the rows of the
--     query; Laws: rounds of deliveries
--   Tests: a small database and runs on it
--
-- Conventions: identifiers, dates and times are natural numbers; a fresh identifier is larger than
-- all before, which stands for the uniqueness of a UUID. Amounts that may be negative are integers,
-- without a bound, as in Python. A query is a filter of a table, and a row that is changed is
-- written at the flush. A flush fails on the constraints that the definitions write out (unique
-- columns, columns that are not null, the checks on sale records that the service of sales makes)
-- and on nothing else: a number beyond 64 bits, a text that is too long, and a sale of an ERP
-- whose amount, sign or scale breaks a check are not modelled. A JSON map that is changed in place
-- is changed in the object and not in its row. The clock stands still within a request. One
-- request runs at a time: row locks have no effect here, and no interleaving of two requests is
-- modelled. Two loops run on fuel: the chunks of a recalculation, which recur on the number of
-- customers (every chunk takes one at least where the chunk size is positive, so that this many
-- rounds are enough), and the pages of a provider, which may have no end: on as many pages as the
-- fuel the loop is whole, and on more the run is still running.
--
-- Not modelled: create_campaign, the HTTP routes with their permissions, the listings and reports,
-- the details of an error beside its message, the clients of outside services, the audit log,
-- the lock of a sync, the templates and rules of notifications and the processing of events into
-- notifications, and the services of users, companies, imports and billing.
-- JSON keeps its keys in order, and the first of two equal keys counts. Letters and spaces are
-- those of ASCII, for upper and lower case, for stripping and for the letters of a currency; the
-- minutes between two syncs are read from whole numbers and from texts of ASCII digits.
pub mod Prelude
pub mod Core
pub mod Common
pub mod Models
pub mod Db
pub mod Events
pub mod Progress
pub mod Claims
pub mod Campaigns
pub mod Portal
pub mod Sales
pub mod Auth
pub mod Sync
pub mod Notifications
pub mod Customers
pub mod Tests
