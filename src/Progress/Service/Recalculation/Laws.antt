-- ===== src/Progress/Service/Recalculation/Laws.antt =====
-- The chunks of a recalculation, its counts and the progress table under it.
use one_loyal.Prelude.{
  ℕ, ◌+◌, ◌<◌, ◌≡◌, fun_ext, refl, inl, inr, Option, List, [], ◌∷◌, ◌++◌, length, arith,
}
use one_loyal.Prelude.Chunks.{chunks, concat, concat-chunks}
use one_loyal.Core.{ok, Result-cases}
use one_loyal.Models.Event.{AuditContext}
use one_loyal.Db.Exec.{Session, ◌>>=◌, pure, bind-ok, bind-err}
use one_loyal.Progress.Service.{calculate_customer_progress}
use one_loyal.Progress.Service.Recalculation.{
  CampaignRecalculationStats, recalculate_chunk, recalculate_chunks, recalculate_affected_customers,
}
use one_loyal.Progress.Service.Stored.{IsProgressTable}
use one_loyal.Progress.Service.EndToEnd.{calculate-IsProgressTable}

module _ (company_id campaign_id : ℕ) (context : Option AuditContext) where
  chunk-append :
      (xs ys : List ℕ) (count : ℕ) (s : Session)
      → recalculate_chunk company_id campaign_id context (xs ++ ys) count s
        ≡ (recalculate_chunk company_id campaign_id context xs count
              >>= recalculate_chunk company_id campaign_id context ys)
            s
  unfolding recalculate_chunk
  chunk-append [] ys count s = refl
  chunk-append (x ∷ xs) ys count s =
      let done = calculate_customer_progress company_id campaign_id x context s in
      ground (arith, chunk-append xs ys (count + 1) done.1)

  chunks-concat :
      (xss : List (List ℕ)) (count : ℕ) (s : Session)
      → recalculate_chunks company_id campaign_id context xss count s
        ≡ recalculate_chunk company_id campaign_id context (concat xss) count s
  unfolding recalculate_chunks
  chunks-concat [] count s = refl
  chunks-concat (xs ∷ xss) count s =
      let rest : recalculate_chunks company_id campaign_id context xss
          ≡ recalculate_chunk company_id campaign_id context (concat xss) =
        fun_ext (λ n. fun_ext (λ t. chunks-concat xss n t)) in
      rw (chunk-append xs (concat xss) count s, rest)

  -- For any positive chunk size a recalculation does what one loop over all the customers does, and
  -- reports what that loop counted.
  pub recalculate_in_one_loop :
      (customer_ids : List ℕ) (chunk_size : ℕ) (s : Session)
      → 0 < chunk_size
      → recalculate_affected_customers company_id campaign_id context customer_ids chunk_size s
        ≡ (recalculate_chunk company_id campaign_id context customer_ids 0 >>= λ count.
              pure (record {
                campaign_id = campaign_id;
                recalculated_count = count;
                skipped_count = 0;
                failed_count = 0;
                affected_customer_count = length customer_ids;
              }))
            s
  unfolding recalculate_affected_customers
  recalculate_in_one_loop customer_ids chunk_size s h =
      let whole = concat-chunks (length customer_ids) chunk_size customer_ids h (omega arith) in
      let parts = chunks (length customer_ids) chunk_size customer_ids in
      let loops : recalculate_chunks company_id campaign_id context parts 0
          ≡ recalculate_chunk company_id campaign_id context (concat parts) 0 =
        fun_ext (λ t. chunks-concat parts 0 t) in
      rw (loops, whole)

  chunk-IsProgressTable :
      (xs : List ℕ) (count : ℕ) (s : Session)
      → IsProgressTable s
      → IsProgressTable (recalculate_chunk company_id campaign_id context xs count s).1
  unfolding recalculate_chunk
  chunk-IsProgressTable [] count s v = v
  chunk-IsProgressTable (x ∷ xs) count s v =
      let done = calculate_customer_progress company_id campaign_id x context s in
      let table = calculate-IsProgressTable company_id campaign_id x context s v in
      let one = calculate_customer_progress company_id campaign_id x context in
      let others = recalculate_chunk company_id campaign_id context xs (count + 1) in
      elim (Result-cases done.0) [
        | inl (p, e) ↦
            rw (bind-ok one (λ _. others) s e) (chunk-IsProgressTable xs (count + 1) done.1 table)
        | inr (_, e) ↦ rw (bind-err one (λ _. others) s e) table
      ]

  chunk_count :
      (xs : List ℕ) (count : ℕ) (s : Session) {n : ℕ}
      → (recalculate_chunk company_id campaign_id context xs count s).0 ≡ ok n
      → n ≡ count + length xs
  unfolding recalculate_chunk
  chunk_count [] count s e = ground arith
  chunk_count (x ∷ xs) count s {n} e =
      let done = calculate_customer_progress company_id campaign_id x context s in
      ground (arith, chunk_count xs (count + 1) done.1 {n = n})

  abbrev result : List ℕ → ℕ → CampaignRecalculationStats
  result customer_ids count = record {
    campaign_id = campaign_id;
    recalculated_count = count;
    skipped_count = 0;
    failed_count = 0;
    affected_customer_count = length customer_ids;
  }

  -- For any positive chunk size a recalculation keeps one progress row for each customer of a
  -- campaign, also where it raises in the middle.
  pub recalculate-IsProgressTable :
      (customer_ids : List ℕ) (chunk_size : ℕ) (s : Session)
      → 0 < chunk_size
      → IsProgressTable s
      → IsProgressTable
          (recalculate_affected_customers company_id campaign_id context customer_ids chunk_size
            s).1
  recalculate-IsProgressTable customer_ids chunk_size s h v =
      let loop = recalculate_chunk company_id campaign_id context customer_ids 0 in
      let table = chunk-IsProgressTable customer_ids 0 s v in
      rw (recalculate_in_one_loop customer_ids chunk_size s h) (elim (Result-cases (loop s).0) [
        | inl (n, e) ↦ rw (bind-ok loop (λ count. pure (result customer_ids count)) s e) table
        | inr (_, e) ↦ rw (bind-err loop (λ count. pure (result customer_ids count)) s e) table
      ])

  -- A recalculation that returns, for any positive chunk size, reports as many recalculated and
  -- affected customers as it was given.
  pub recalculate_counts :
      (customer_ids : List ℕ) (chunk_size : ℕ) (s : Session) (stats : CampaignRecalculationStats)
      → 0 < chunk_size
      → (recalculate_affected_customers company_id campaign_id context customer_ids chunk_size s).0
        ≡ ok stats
      → (stats.recalculated_count ≡ length customer_ids)
        × (stats.affected_customer_count ≡ length customer_ids)
  recalculate_counts customer_ids chunk_size s stats h r =
      let loop = recalculate_chunk company_id campaign_id context customer_ids 0 in
      let r' = rw (recalculate_in_one_loop customer_ids chunk_size s h) at r in
      elim (Result-cases (loop s).0) [
        | inl (n, e) ↦
            let r'' = rw (bind-ok loop (λ count. pure (result customer_ids count)) s e) at r' in
            ground (arith, chunk_count customer_ids 0 s e)
        | inr (_, e) ↦
            let r'' = rw (bind-err loop (λ count. pure (result customer_ids count)) s e) at r' in cc
      ]
