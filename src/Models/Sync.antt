-- ===== src/Models/Sync.antt =====
-- backend/app/modules/sync/models.py, backend/app/modules/integrations/models.py, and the values of
-- backend/app/modules/integrations/providers/base.py that a provider hands over
use one_loyal.Prelude.{ℕ, String, Bool, true, false, Option, List}
use one_loyal.Prelude.Int.{ℤ}
use one_loyal.Common.Json.{Json, Fields}

pub data IntegrationStatus : Type 0 where
  draft active disabled error : IntegrationStatus

pub record Integration : Type 0 where
  pub id : ℕ
  pub company_id : ℕ
  pub provider : String
  pub name : String
  pub name_i18n : Fields
  pub status : IntegrationStatus
  pub settings_json : Fields
  pub last_attempted_sync_at : Option ℕ
  pub last_successful_sync_at : Option ℕ
  pub last_scheduled_sync_at : Option ℕ
  pub next_sync_at : Option ℕ
  pub sync_cursor_json : Fields
  pub deleted_at : Option ℕ

pub data SyncType : Type 0 where
  manual scheduled full incremental : SyncType

pub data SyncRunStatus : Type 0 where
  queued running success failed partially_failed : SyncRunStatus

pub data SyncErrorEntityType : Type 0 where
  customer sale_record provider progress unknown : SyncErrorEntityType

-- The counts of one run
pub record SyncStats : Type 0 where
  pub fetched_customers : ℕ
  pub created_customers : ℕ
  pub updated_customers : ℕ
  pub fetched_sales : ℕ
  pub created_sales : ℕ
  pub updated_sales : ℕ
  pub skipped_sales : ℕ
  pub failed_records : ℕ
  pub affected_customers : ℕ
  pub recalculated_progress_count : ℕ
  pub customers_not_supported : Bool
  pub sales_not_supported : Bool

pub record SyncRun : Type 0 where
  pub id : ℕ
  pub company_id : ℕ
  pub integration_id : ℕ
  pub sync_type : SyncType
  pub status : SyncRunStatus
  pub task_id : Option String
  pub enqueued_at : Option ℕ
  pub started_at : Option ℕ
  pub finished_at : Option ℕ
  pub cursor_before_json : Fields
  pub cursor_after_json : Fields
  pub stats_json : SyncStats
  pub error_summary : Option String
  pub created_by_user_id : Option ℕ

-- Every error of a run has the severity "error"; its external identifier is a text, an identifier
-- or null.
pub record SyncError : Type 0 where
  pub id : ℕ
  pub company_id : ℕ
  pub sync_run_id : ℕ
  pub entity_type : SyncErrorEntityType
  pub external_id : Json
  pub error_code : String
  pub message : String
  pub raw_payload_json : Fields

pub record ErpCustomerDto : Type 0 where
  pub external_id : String
  pub name : String
  pub phone : Option String
  pub email : Option String
  pub tax_id : Option String
  pub metadata : Fields
  pub raw_payload : Fields
  pub last_seen_at : Option ℕ

pub record ErpSaleDto : Type 0 where
  pub external_id : String
  pub source_key : Option String
  pub customer_external_id : String
  pub document_kind : String
  pub document_date : ℕ
  pub effective_date : ℕ
  pub gross_amount_minor : ℤ
  pub net_amount_minor : Option ℤ
  pub vat_amount_minor : Option ℤ
  pub discount_amount_minor : Option ℤ
  pub paid_amount_minor : Option ℤ
  pub debt_amount_minor : Option ℤ
  pub amount_sign : ℤ
  pub currency : String
  pub currency_scale : ℤ
  pub payment_status : String
  pub document_status : String
  pub erp_document_type : Option String
  pub external_document_number : Option String
  pub external_updated_at : Option ℕ
  pub is_deleted_in_source : Bool
  pub is_archived_in_source : Bool
  pub raw_payload : Fields
  pub content_hash : Option String

pub record ProviderConnectionResult : Type 0 where
  pub is_ok : Bool
  pub message : String
  pub details : Fields

pub record ProviderRowError : Type 0 where
  pub external_id : Option String
  pub error_code : String
  pub message : String
  pub raw_payload : Fields

pub record ProviderFetchResult (A : Type 0) : Type 0 where
  pub items : List A
  pub next_cursor : Option Fields
  pub has_more : Bool
  pub errors : List ProviderRowError

-- `ACTIVE_SYNC_STATUSES`
abbrev pub is_active_sync : SyncRunStatus → Bool
is_active_sync SyncRunStatus.queued = true
is_active_sync SyncRunStatus.running = true
is_active_sync _ = false

abbrev pub is_disabled : IntegrationStatus → Bool
is_disabled IntegrationStatus.disabled = true
is_disabled _ = false

abbrev pub is_active_integration : IntegrationStatus → Bool
is_active_integration IntegrationStatus.active = true
is_active_integration _ = false
