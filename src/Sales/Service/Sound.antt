-- ===== src/Sales/Service/Sound.antt =====
-- What the checks of `SaleRecordService` say of a document.
use one_loyal.Prelude.{◌==◌, ◌≡◌, ◌⊎◌, true, false, inl, inr, String, ==_iff, arith, Bool-cases}
use one_loyal.Prelude.Int.{ℤ, pos, negsuc}
use one_loyal.Core.{ok, integrity_error}
use one_loyal.Core.Results.{refuse_if, returned, ok_injective}
use one_loyal.Common.Text.{strip, upper, len, isalpha}
use one_loyal.Models.Sale.{SaleRecord, SaleDocumentKind, is_return_or_refund, is_deleted}
use one_loyal.Sales.Service.{
  SaleRecordCreateRequest, normalize_currency, validate_document_sign, violates_constraints,
  is_sale, is_negative,
}
use one_loyal.Sales.Service.Decisions.{checked}

-- The signs, amounts and currency of a document.
pub record IsSound (kind : SaleDocumentKind) (gross sign : ℤ) (currency : String) : Type 0 where
  pub returns : is_return_or_refund kind ≡ true → sign ≡ negsuc 0
  pub sales : is_sale kind ≡ true → sign ≡ pos 1
  pub signed : (sign ≡ pos 1) ⊎ (sign ≡ negsuc 0)
  pub amount : is_negative gross ≡ false
  pub letters : (len currency ≡ 3) × (isalpha currency ≡ true)

abbrev pub IsSoundRecord : SaleRecord → Type 0
IsSoundRecord r =
    IsSound r.document_kind r.gross_amount_minor r.amount_sign r.currency
    × (r.is_deleted_in_source ≡ is_deleted r.document_status)

pub sign_of_kind :
    (kind : SaleDocumentKind) (sign : ℤ) (u : Unit {0})
    → validate_document_sign kind sign ≡ ok u
    → (is_return_or_refund kind ≡ true → sign ≡ negsuc 0) × (is_sale kind ≡ true → sign ≡ pos 1)
unfolding validate_document_sign
sign_of_kind kind (pos n) u h = ground arith
sign_of_kind kind (negsuc n) u h = ground arith

currency_letters :
    (value currency : String)
    → normalize_currency value ≡ ok currency
    → (len currency ≡ 3) × (isalpha currency ≡ true)
unfolding normalize_currency
currency_letters value currency h = elim (Bool-cases (len (upper (strip value)) == 3)) [
  | inl three ↦ elim (Bool-cases (isalpha (upper (strip value)))) [
    | inl letters ↦
        let same = ok_injective _ currency (rw (three, letters) at h) in
        rw (← same) ((==_iff _ _).0 three, letters)
    | inr other ↦ absurd (ground (arith, h, three, other))
  ]
  | inr short ↦ absurd (ground (arith, h, short))
]

within_constraints :
    (request : SaleRecordCreateRequest)
    → violates_constraints request ≡ false
    → (is_negative request.gross_amount_minor ≡ false)
      × ((request.amount_sign ≡ pos 1) ⊎ (request.amount_sign ≡ negsuc 0))
unfolding violates_constraints
within_constraints request h = ground arith

pub checked-IsSound :
    (request : SaleRecordCreateRequest) (currency : String)
    → checked request ≡ ok currency
    → IsSound request.document_kind request.gross_amount_minor request.amount_sign currency
unfolding checked
checked-IsSound request currency h =
    let (u, signs, h1) =
      returned (validate_document_sign request.document_kind request.amount_sign) _ currency h in
    let (c, normal, h2) = returned (normalize_currency request.currency) _ currency h1 in
    let (v, passed, h3) =
      returned (refuse_if (violates_constraints request) integrity_error) _ currency h2 in
    let rule = sign_of_kind request.document_kind request.amount_sign u signs in
    let bounds = within_constraints request (ground (arith, passed)) in
    let same = ok_injective c currency h3 in
    record {
      returns = rule.0;
      sales = rule.1;
      signed = bounds.1;
      amount = bounds.0;
      letters = rw (← same) (currency_letters request.currency c normal);
    }
