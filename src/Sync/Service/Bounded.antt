-- ===== src/Sync/Service/Bounded.antt =====
-- Where a provider's pages end within the fuel, the body of a run ends.
use one_loyal.Prelude.{
  ℕ, zero, suc, ◌≤◌, ◌≡◌, ◌≢◌, sym, ap, ◌∙◌, refl, inl, inr, Option, none, some, arith, Bool-cases,
}
use one_loyal.Core.{Result, ok, err, Result-cases}
use one_loyal.Core.Results.{ok_injective}
use one_loyal.Common.Json.{Fields, get}
use one_loyal.Models.Sync.{
  Integration, SyncRun, ProviderConnectionResult, ProviderFetchResult, ErpCustomerDto, ErpSaleDto,
}
use one_loyal.Sync.Counting.{Running, Task, done, fails, ◌>>=◌, ◌>>◌}
use one_loyal.Sync.Pages.{
  pages, next_page, go_on, Ends, breaks, stops, goes_on, customer_page, sale_page,
}
use one_loyal.Sync.Execution.{
  Provider, provider_cursor, completed, unfinished, body, connected, customers_of, sales_of,
  after_customers, finish_pages, recalculate_progress,
}

-- A block that ends at its second step had a first step that returned.
bind-ok :
    {A B : Type 0} (m : Task A) (f : A → Task B) (r : Running) (b : B)
    → ((m >>= f) r).0 ≡ ok b
    → (a : A) × ((m r).0 ≡ ok a) × ((f a (m r).1).0 ≡ ok b)
bind-ok m f r b h = elim (Result-cases (m r).0) [
  | inl (a, e) ↦ (a, e, rw (◌>>=◌, e) at h)
  | inr (x, e) ↦ absurd (ground (arith, rw (◌>>=◌, e) at h))
]

module _ {A : Type 0} (fetch : Fields → Result (ProviderFetchResult A))
    (handle : ProviderFetchResult A → Task (Unit {0})) where
  abbrev one_page : ℕ → ProviderFetchResult A → Task (Option (ProviderFetchResult A))
  one_page fuel page = handle page >> go_on (pages fuel fetch handle) page

  pages-end :
      (n fuel : ℕ) (cursor : Fields) (r : Running)
      → Ends fetch n cursor
      → n ≤ fuel
      → (pages fuel fetch handle cursor r).0 ≢ ok none
  unfolding pages
  pages-end n zero cursor r (breaks e h) le q = absurd (omega arith)
  pages-end n zero cursor r (stops page h last) le q = absurd (omega arith)
  pages-end n zero cursor r (goes_on page next h more rest) le q = absurd (omega arith)
  pages-end n (suc fuel) cursor r (breaks e h) le q = absurd (ground (arith, rw h at q))
  pages-end n (suc fuel) cursor r (stops page h last) le q =
      let (p, found, q1) = bind-ok (fails (fetch cursor)) (one_page fuel) r none q in
      let same : page ≡ p = ok_injective page p (sym h ∙ found) in
      let (u, handled, q2) =
        bind-ok (handle p) (λ _. go_on (pages fuel fetch handle) p) r none q1 in
      let none_next : next_page p ≡ none = ap next_page (sym same) ∙ last in
      absurd (ground (arith, rw (go_on, none_next) at q2))
  pages-end n (suc fuel) cursor r (goes_on page next h more rest) le q =
      let (p, found, q1) = bind-ok (fails (fetch cursor)) (one_page fuel) r none q in
      let same : page ≡ p = ok_injective page p (sym h ∙ found) in
      let (u, handled, q2) =
        bind-ok (handle p) (λ _. go_on (pages fuel fetch handle) p) r none q1 in
      let some_next : next_page p ≡ some next = ap next_page (sym same) ∙ more in
      pages-end _ fuel next (handle p r).1 rest (omega arith) (rw (go_on, some_next) at q2)

-- The provider's pages end within the fuel, from the cursor of the integration.
pub record PagesEnd (provider : Provider) (cursor : Fields) (fuel : ℕ) : Type 0 where
  pub customers : Ends provider.fetch_customers fuel (provider_cursor (get "customers" cursor))
  pub sales : Ends provider.fetch_sales fuel (provider_cursor (get "sales" cursor))

module _ (run : SyncRun) (integration : Integration) (fuel : ℕ) (provider : Provider)
    (ends : PagesEnd provider integration.sync_cursor_json fuel) where
  customers_of-end : (r : Running) → (customers_of run integration fuel provider r).0 ≢ ok none
  customers_of-end r h = elim (Bool-cases provider.supports_customers) [
    | inl is_so ↦
        pages-end provider.fetch_customers (customer_page run integration) fuel fuel _ r
          (ends.customers) (omega arith) (rw is_so at h)
    | inr is_not ↦ absurd (ground (arith, rw is_not at h))
  ]

  sales_of-end : (r : Running) → (sales_of run integration fuel provider r).0 ≢ ok none
  sales_of-end r h = elim (Bool-cases provider.supports_sales) [
    | inl is_so ↦
        pages-end provider.fetch_sales (sale_page run integration) fuel fuel _ r (ends.sales)
          (omega arith) (rw is_so at h)
    | inr is_not ↦ absurd (ground (arith, rw is_not at h))
  ]

  finish_pages-end :
      (customers : Option Fields) (sales : Option (ProviderFetchResult ErpSaleDto)) (r : Running)
      → (finish_pages run integration fuel customers sales r).0 ≡ ok unfinished
      → sales ≡ none
  finish_pages-end customers none r h = refl
  finish_pages-end customers (some sales) r h =
      let step =
        bind-ok (recalculate_progress run r.affected_customer_ids)
          (λ _. done (completed customers sales.next_cursor)) _ unfinished h in
      absurd (ground (arith, step.2))

  after_customers-end :
      (found : Option (ProviderFetchResult ErpCustomerDto)) (r : Running)
      → (after_customers run integration fuel provider found r).0 ≡ ok unfinished
      → found ≡ none
  after_customers-end none r h = refl
  after_customers-end (some customers) r h =
      let (sales, was, h1) =
        bind-ok (sales_of run integration fuel provider)
          (finish_pages run integration fuel customers.next_cursor) r unfinished h in
      let none_there = finish_pages-end customers.next_cursor sales _ h1 in
      absurd (sales_of-end r (was ∙ ap ok none_there))

  connected-end :
      (connection : ProviderConnectionResult) (r : Running)
      → (connected run integration fuel provider connection r).0 ≢ ok unfinished
  connected-end connection r h = elim (Bool-cases connection.is_ok) [
    | inl is_so ↦
        let (found, was, h1) =
          bind-ok (customers_of run integration fuel provider)
            (after_customers run integration fuel provider) r unfinished (rw is_so at h) in
        let none_there = after_customers-end found _ h1 in
        customers_of-end r (was ∙ ap ok none_there)
    | inr is_not ↦ absurd (ground (arith, rw is_not at h))
  ]

-- Where the pages of the provider end, the body of a run ends.
pub body-end :
    (run : SyncRun) (integration : Integration) (fuel : ℕ) (built : Result Provider) (r : Running)
    → ((provider : Provider)
        → built ≡ ok provider
        → PagesEnd provider integration.sync_cursor_json fuel)
    → (body run integration fuel built r).0 ≢ ok unfinished
unfolding body
body-end run integration fuel (ok provider) r ends h =
    let (connection, _, h1) =
      bind-ok (fails provider.test_connection) (connected run integration fuel provider) r
        unfinished h in
    connected-end run integration fuel provider (ends provider refl) connection r h1
body-end run integration fuel (err e) r ends h = absurd (ground (arith, h))
