-- ===== src/Collections/Settle/Laws.antt =====
-- Settling a collection: the invariant of the database, and what a second call does.
use z_float_2_main.Prelude.{ℕ, ◌≡◌, refl, Option, none, some, Bool}
use z_float_2_main.Prelude.Int.{ℤ}
use z_float_2_main.Exec.{Exec, modify}
use z_float_2_main.Exec.Keeps.{
  Keeps, Keeps-modify, Keeps-bind, Keeps-then, Keeps-gets, Keeps-pure, Keeps-zoom, Keeps-or_raise,
  Keeps-transaction, Keeps-if,
}
use z_float_2_main.Exec.Post.{
  Post, Post-bind, Post-gets, Post-or_raise, Post-of_Keeps, Post-zoom, Post-imp, Post-pure,
  Post-raise, transaction_ends,
}
use z_float_2_main.Ledger.Moves.Endings.{deposit-Outcome}
use z_float_2_main.Ledger.Wallet.{FundingInput}
use z_float_2_main.Ledger.Healthy.{IsHealthy-IsPostable, Outcome-IsHealthy}
use z_float_2_main.Ledger.Postings.{post_funding_journal-Keeps}
use z_float_2_main.Payments.Store.{Store, in_payments, in_ledger, enqueue_outbox}
use z_float_2_main.Payments.Tables.{EventType}
use z_float_2_main.Payments.Consistent.{IsConsistent, in_ledger-Keeps, enqueue_outbox-Keeps}
use z_float_2_main.Collections.Tables.{
  CollectionStatus, pending, success, failed, expired, cancelled, Collection, EtimsDocument, Portal,
  in_store,
}
use z_float_2_main.Collections.Settle.{
  SettleCollectionInput, credit_wallet, set_collection, set_document, is_invoice_of,
  apply_to_invoice, apply_invoice_payment, apply_if_invoiced, settle_now, settle_at,
  settle_collection, funding_of, fail_pending, fail_collection, is_pending,
  expire_stale_collections,
}

module _ (opening : ℕ → ℤ) where
  -- The payments, the ledger and the approvals of a portal are consistent.
  abbrev pub IsSolid : Portal → Type 0
  IsSolid s = IsConsistent opening s.store

  pub in_store-Keeps :
      {A : Type 0} (m : Exec Store A) → Keeps (IsConsistent opening) m → Keeps IsSolid (in_store m)
  unfolding in_store
  in_store-Keeps m k = Keeps-zoom _ _ m (λ s h. h) (λ s t h k. k) k

  -- A write outside the store.
  pub outside-Keeps :
      (f : Portal → Portal) → ((s : Portal) → (f s).store ≡ s.store) → Keeps IsSolid (modify f)
  outside-Keeps f same = Keeps-modify f λ s h. rw (same s) h

  event-Keeps :
      (type : EventType) (id tenant : ℕ)
      → Keeps IsSolid (in_store (in_payments (enqueue_outbox type id tenant)))
  event-Keeps type id tenant = in_store-Keeps _ (enqueue_outbox-Keeps opening type id tenant)

  apply_to_invoice-Keeps :
      (tenant id : ℕ) (amount : ℤ) (d : Option EtimsDocument)
      → Keeps IsSolid (apply_to_invoice tenant id amount d)
  unfolding apply_to_invoice set_document
  apply_to_invoice-Keeps tenant id amount none = Keeps-pure _
  apply_to_invoice-Keeps tenant id amount (some d) =
      Keeps-if (is_invoice_of tenant d) _ _ (outside-Keeps _ λ s. refl) (Keeps-pure _)

  apply_if_invoiced-Keeps :
      (col : Collection) (amount : ℤ) (link : Option ℕ)
      → Keeps IsSolid (apply_if_invoiced col amount link)
  unfolding apply_if_invoiced apply_invoice_payment
  apply_if_invoiced-Keeps col amount none = Keeps-pure _
  apply_if_invoiced-Keeps col amount (some id) =
      Keeps-bind _ _ (Keeps-gets _) λ found. apply_to_invoice-Keeps _ _ _ found

  credit-Post :
      (f : FundingInput) (s : Portal)
      → IsSolid s
      → Post (λ _ t. IsSolid t) (in_store (in_ledger (credit_wallet f))) s
  unfolding in_store in_ledger credit_wallet
  credit-Post f s h = Post-zoom _ _ _ s (
      Post-zoom _ _ _ s.store (
        Post-imp _ _ (deposit-Outcome f s.store.ledger) λ _ t o. record {
          traced = h.traced;
          healthy = Outcome-IsHealthy opening o h.healthy;
          four_eyes = h.four_eyes;
        }))

  settle_now-Post :
      (i : SettleCollectionInput) (col : Collection) (s : Portal)
      → IsSolid s
      → Post (λ _ t. IsSolid t) (settle_now i col) s
  unfolding settle_now set_collection
  settle_now-Post i col s h = Post-bind _ _ s (
      Post-imp _ s (credit-Post (funding_of i col) s h) λ _ t k.
        Post-of_Keeps IsSolid _ t
          (Keeps-then _ _
            (in_store-Keeps _ (
              in_ledger-Keeps opening _
                (post_funding_journal-Keeps (IsHealthy-IsPostable opening) _ _ _ _)))
            (Keeps-then _ _ (outside-Keeps _ λ s. refl) (
              Keeps-then _ _ (apply_if_invoiced-Keeps _ _ _)
                (Keeps-then _ _ (event-Keeps _ _ _) (Keeps-pure _)))))
          k)

  settle_at-Post :
      (x : CollectionStatus) (i : SettleCollectionInput) (col : Collection) (s : Portal)
      → IsSolid s
      → Post (λ _ t. IsSolid t) (settle_at x i col) s
  unfolding settle_at
  settle_at-Post success i col s h = Post-pure _ s h
  settle_at-Post cancelled i col s h = Post-raise _ s
  settle_at-Post pending i col s h = settle_now-Post i col s h
  settle_at-Post failed i col s h = settle_now-Post i col s h
  settle_at-Post expired i col s h = settle_now-Post i col s h

  pub settle_collection-Keeps : (i : SettleCollectionInput) → Keeps IsSolid (settle_collection i)
  unfolding settle_collection
  settle_collection-Keeps i = record {
    at = λ s h. transaction_ends IsSolid _ s h (
        Post-bind _ _ s (
          Post-gets _ s (
            Post-bind _ _ s
              (Post-or_raise _ _ s λ col there. settle_at-Post col.status i col s h))));
  }

  pub fail_collection-Keeps : (id : ℕ) → Keeps IsSolid (fail_collection id)
  unfolding fail_collection fail_pending set_collection
  fail_collection-Keeps id = Keeps-transaction _ (
      Keeps-bind _ _ (Keeps-gets _) λ found. Keeps-bind _ _ (Keeps-or_raise _ _) λ col.
        Keeps-if (is_pending col.status) _ _
          (Keeps-then _ _ (outside-Keeps _ λ s. refl)
            (Keeps-then _ _ (event-Keeps _ _ _) (Keeps-pure _)))
          (Keeps-pure _))

  pub expire_stale_collections-Keeps :
      (is_stale : ℕ → Bool) → Keeps IsSolid (expire_stale_collections is_stale)
  unfolding expire_stale_collections
  expire_stale_collections-Keeps is_stale =
      Keeps-bind _ _ (Keeps-gets _) λ n. Keeps-then _ _ (outside-Keeps _ λ s. refl) (Keeps-pure _)
