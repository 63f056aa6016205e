-- ===== src/Notifications/Delivery/Laws.antt =====
-- What a round of deliveries does, and that rounds drain what waits.
use one_loyal.Prelude.{
  ap, ℕ, zero, suc, ◌+◌, ◌*◌, ◌≤◌, ◌≡◌, refl, ◌∙◌, true, false, inl, inr, Option, List, [], ◌∷◌,
  All, count_if, select, length, length-select, min, arith,
}
use one_loyal.Models.Notification.{NotificationEvent}
use one_loyal.Db.Exec.{Session}
use one_loyal.Db.Query.{put, order_by_asc}
use one_loyal.Db.Keyed.{IsKeyed, Has, Has-put, put-IsKeyed, count_if-put}
use one_loyal.Notifications.Delivery.{
  save_notification, DeliveryStats, delivered, counted, deliver_all, is_due, due,
  send_pending_notifications,
}
use one_loyal.Notifications.Delivery.Distinct.{
  All-order, All-limited, All-passes, length-order, length-limited, DistinctRows, Lacks,
  select-DistinctRows, order-DistinctRows, limited-DistinctRows,
}

abbrev pub IsNotificationTable : Session → Type 0
IsNotificationTable s = IsKeyed (λ n. n.id) s.next_id s.notifications

delivered_key : (n : NotificationEvent) (now : ℕ) → (delivered n now).id ≡ n.id
unfolding delivered
delivered_key n now = ground arith

delivered_not_due :
    (company_id : Option ℕ) (n : NotificationEvent) (now : ℕ)
    → is_due company_id (delivered n now) ≡ false
unfolding delivered
delivered_not_due company_id n now = ground arith

module _ (company_id : Option ℕ) where
  abbrev pub waiting : Session → ℕ
  waiting s = count_if (is_due company_id) s.notifications

  -- What the loop still has to do: rows of the table that are due, each once.
  record IsTodo (s : Session) (rest : List NotificationEvent) : Type 0 where
    table : IsNotificationTable s
    rows : All (λ n. Has n s.notifications × (is_due company_id n ≡ true)) rest
    distinct : DistinctRows (λ n. n.id) rest

  next-IsTodo :
      (now : ℕ) (s : Session) (n : NotificationEvent) (rest : List NotificationEvent)
      → IsTodo s (n ∷ rest)
      → IsTodo (save_notification (delivered n now) s) rest
  next-IsTodo now s n rest t = record {
    table = put-IsKeyed (λ x. x.id) s.next_id (delivered n now) s.notifications t.table;
    rows = others rest t.rows.1 t.distinct.0;
    distinct = t.distinct.1;
  }
    where
      others :
          (xs : List NotificationEvent)
          → All (λ x. Has x s.notifications × (is_due company_id x ≡ true)) xs
          → Lacks (λ x. x.id) n.id xs
          → All
              (λ x.
                Has x (put (λ y. y.id) (delivered n now) s.notifications)
                × (is_due company_id x ≡ true))
              xs
      others [] h l = tt
      others (x ∷ xs) h l = (
        (
          elim (Has-put (λ y. y.id) x (delivered n now) s.notifications h.0.0) [
            | inl kept ↦ kept
            | inr (e, _) ↦ absurd (l.0 (e ∙ delivered_key n now))
          ],
          h.0.1,
        ),
        others xs h.1 l.1,
      )

  one_less :
      (now : ℕ) (s : Session) (n : NotificationEvent) (rest : List NotificationEvent)
      → IsTodo s (n ∷ rest)
      → waiting (save_notification (delivered n now) s) + 1 ≡ waiting s
  one_less now s n rest t =
      let moved =
        count_if-put (λ x. x.id) (is_due company_id) s.next_id n (delivered n now) s.notifications
          t.table t.rows.0.0 (delivered_key n now) in
      let before : is_due company_id n ≡ true = t.rows.0.1 in
      let after = delivered_not_due company_id n now in omega (arith, rw (before, after) at moved)

  deliver_all-drains :
      (now : ℕ) (rest : List NotificationEvent) (stats : DeliveryStats) (s : Session)
      → IsTodo s rest
      → (waiting (deliver_all rest now stats s).1 + length rest ≡ waiting s)
        × IsNotificationTable (deliver_all rest now stats s).1
        × ((deliver_all rest now stats s).0.checked_notifications ≡ stats.checked_notifications)
        × ((deliver_all rest now stats s).0.sent_notifications
              + (deliver_all rest now stats s).0.failed_notifications
            ≡ stats.sent_notifications + stats.failed_notifications + length rest)
  unfolding deliver_all
  deliver_all-drains now [] stats s t = (omega arith, t.table, refl, omega arith)
  deliver_all-drains now (n ∷ rest) stats s t =
      let s' = save_notification (delivered n now) s in
      let more = counted n stats in
      let (left, table, checked, both) =
        deliver_all-drains now rest more s' (next-IsTodo now s n rest t) in
      let one = one_less now s n rest t in
      (omega (arith, left, one), table, checked ∙ ground arith, both ∙ ground arith)

  due-IsTodo :
      (limit : ℕ) (s : Session)
      → IsNotificationTable s
      → IsTodo s (due company_id limit s.notifications)
  unfolding due
  due-IsTodo limit s v =
      let p = is_due company_id in
      let by : NotificationEvent → ℕ = λ n. n.created_at in
      let passing = select p s.notifications in
      record {
        table = v;
        rows =
            All-limited _ limit (order_by_asc by passing)
              (All-order _ by passing (All-passes p s.notifications));
        distinct =
            limited-DistinctRows (λ n. n.id) limit (order_by_asc by passing)
              (order-DistinctRows (λ n. n.id) by passing
                (select-DistinctRows (λ n. n.id) p s.next_id s.notifications v));
      }

  length-due :
      (limit : ℕ) (s : Session)
      → length (due company_id limit s.notifications) ≡ min limit (waiting s)
  unfolding due
  length-due limit s =
      let passing = select (is_due company_id) s.notifications in
      length-limited limit (order_by_asc (λ n. n.created_at) passing)
      ∙ ap (min limit) (
          length-order (λ n. n.created_at) passing
          ∙ length-select (is_due company_id) s.notifications)

  -- What one call has done, when so many notifications were waiting.
  pub record IsRound (limit : ℕ) (s : Session) (step : DeliveryStats × Session) : Type 0 where
    pub table : IsNotificationTable step.1
    pub left : waiting step.1 + min limit (waiting s) ≡ waiting s
    pub checked : step.0.checked_notifications ≡ min limit (waiting s)
    pub told :
        step.0.sent_notifications + step.0.failed_notifications ≡ step.0.checked_notifications

  -- A call delivers as many waiting notifications as the limit allows, each once: so many fewer wait
  -- afterwards, and each one checked is counted as sent or as failed.
  pub send_pending-IsRound :
      (limit : ℕ) (s : Session)
      → IsNotificationTable s
      → IsRound limit s (send_pending_notifications company_id limit s)
  unfolding send_pending_notifications
  send_pending-IsRound limit s v =
      let todo = due company_id limit s.notifications in
      let stats : DeliveryStats = record {
        checked_notifications = length todo;
        sent_notifications = 0;
        failed_notifications = 0;
      } in
      let (left, table, checked, both) =
        deliver_all-drains s.now todo stats s (due-IsTodo limit s v) in
      let size = length-due limit s in
      record {
        table = table;
        left = omega (arith, left, size);
        checked = omega (arith, checked, size);
        told = omega (arith, checked, both);
      }

  -- The worker's calls, one after another
  abbrev pub rounds : ℕ → ℕ → Session → Session
  rounds zero limit s = s
  rounds (suc k) limit s = rounds k limit (send_pending_notifications company_id limit s).1

  -- Rounds drain what waits: with a limit of `limit` notifications, once as many as
  -- `k * limit` notifications cover those that wait, no notification waits after `k` calls, where
  -- the keys of the notifications differ and no new one is made meanwhile.
  pub rounds_drain :
      (k limit : ℕ) (s : Session)
      → IsNotificationTable s
      → waiting s ≤ k * limit
      → waiting (rounds k limit s) ≡ 0
  rounds_drain zero limit s v h = omega arith
  rounds_drain (suc k) limit s v h =
      let round = send_pending-IsRound limit s v in
      rounds_drain k limit (send_pending_notifications company_id limit s).1 round.table
        (omega (arith, round.left))
