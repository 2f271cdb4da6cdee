-- ===== src/Collections/Request/Laws.antt =====
-- A request to pay keeps the database consistent, and is made once for a key.
use z_float_2_main.Prelude.{ℕ, refl, Option, none, some}
use z_float_2_main.Prelude.Int.{ℤ}
use Prim.Native.String.{String}
use z_float_2_main.Text.{Text}
use z_float_2_main.Exec.{Result, ok, err}
use z_float_2_main.Exec.Keeps.{
  Keeps, Keeps-bind, Keeps-then, Keeps-gets, Keeps-guard, Keeps-pure, Keeps-or_raise, Keeps-raise,
  Keeps-attempt, keeps_rules,
}
use z_float_2_main.Payments.Tables.{ProviderStatus}
use z_float_2_main.Collections.Tables.{Collection}
use z_float_2_main.Collections.Settle.{set_collection}
use z_float_2_main.Collections.Settle.Laws.{
  IsSolid, outside-Keeps, settle_collection-Keeps, fail_collection-Keeps,
}
use z_float_2_main.Collections.Request.{
  resolve_wallet, payer_from_customer, load_invoice, RequestCollectionInput,
  CollectionRequestResult, Requested, insert_collection, await_callback, take_result, take_answer,
  finish_request, request_new, replay_or, request_stk_collection,
}

module _ (opening : ℕ → ℤ) where
  load_invoice-Keeps :
      (tenant : ℕ) (invoice : Option ℕ) → Keeps (IsSolid opening) (load_invoice tenant invoice)
  unfolding load_invoice
  load_invoice-Keeps tenant none = search keeps_rules
  load_invoice-Keeps tenant (some id) = search keeps_rules

  payer_from_customer-Keeps :
      (tenant : ℕ) (customer : Option ℕ)
      → Keeps (IsSolid opening) (payer_from_customer tenant customer)
  unfolding payer_from_customer
  payer_from_customer-Keeps tenant none = search keeps_rules
  payer_from_customer-Keeps tenant (some id) = search keeps_rules

  resolve_wallet-Keeps :
      (tenant : ℕ) (wallet : Option ℕ) → Keeps (IsSolid opening) (resolve_wallet tenant wallet)
  unfolding resolve_wallet
  resolve_wallet-Keeps tenant wallet = search keeps_rules

  insert_collection-Keeps : (col : Collection) → Keeps (IsSolid opening) (insert_collection col)
  unfolding insert_collection
  insert_collection-Keeps col = Keeps-bind _ _ (Keeps-gets _) λ clash. Keeps-guard _ _ _ (
      Keeps-bind _ _ (Keeps-gets _)
        λ id. Keeps-then _ _ (outside-Keeps opening _ λ s. refl) (Keeps-pure _))

  await_callback-Keeps :
      (id : ℕ) (col : Collection) (reference : Option String)
      → Keeps (IsSolid opening) (await_callback id col reference)
  unfolding await_callback set_collection
  await_callback-Keeps id col reference =
      Keeps-then _ _ (outside-Keeps opening _ λ s. refl) (Keeps-pure _)

  take_result-Keeps :
      (r : ProviderStatus) (id : ℕ) (col : Collection) (reference : Option String)
      → Keeps (IsSolid opening) (take_result r id col reference)
  unfolding take_result set_collection
  take_result-Keeps ProviderStatus.failed id col reference =
      Keeps-bind _ _ (fail_collection-Keeps opening id) λ row. Keeps-pure _
  take_result-Keeps ProviderStatus.success id col reference =
      Keeps-then _ _ (outside-Keeps opening _ λ s. refl)
        (Keeps-bind _ _ (settle_collection-Keeps opening _) λ settled. Keeps-pure _)
  take_result-Keeps ProviderStatus.pending id col reference = await_callback-Keeps id col reference
  take_result-Keeps ProviderStatus.reversed id col reference = await_callback-Keeps id col reference
  take_result-Keeps ProviderStatus.unknown id col reference = await_callback-Keeps id col reference

  take_answer-Keeps :
      (id : ℕ) (col : Collection) (answer : Option CollectionRequestResult)
      → Keeps (IsSolid opening) (take_answer id col answer)
  unfolding take_answer
  take_answer-Keeps id col none = Keeps-raise _
  take_answer-Keeps id col (some r) = take_result-Keeps r.status id col r.provider_reference

  finish_request-Keeps :
      (id : ℕ) (outcome : Result Requested) → Keeps (IsSolid opening) (finish_request id outcome)
  unfolding finish_request
  finish_request-Keeps id (ok r) = Keeps-pure _
  finish_request-Keeps id (err c) =
      Keeps-bind _ _ (fail_collection-Keeps opening id) λ row. Keeps-pure _

  module _ (provider : ℤ → Text → Option CollectionRequestResult) (number : String)
      (i : RequestCollectionInput) where
    request_new-Keeps : Keeps (IsSolid opening) (request_new provider number i)
    unfolding request_new
    request_new-Keeps = Keeps-bind _ _ (Keeps-or_raise _ _) λ phone.
        Keeps-bind _ _ (load_invoice-Keeps _ _) λ invoice. Keeps-guard _ _ _ (
          Keeps-guard _ _ _ (
            Keeps-bind _ _ (resolve_wallet-Keeps _ _) λ wallet.
              Keeps-bind _ _ (payer_from_customer-Keeps _ _) λ customer.
                Keeps-bind _ _ (insert_collection-Keeps _) λ id.
                  Keeps-bind _ _ (Keeps-attempt _ (take_answer-Keeps id _ _))
                    λ outcome. finish_request-Keeps id outcome))

    replay_or-Keeps :
        (prior : Option (ℕ × Collection))
        → Keeps (IsSolid opening) (replay_or provider number i prior)
    replay_or-Keeps none = request_new-Keeps
    replay_or-Keeps (some (id, col)) = Keeps-pure _

    pub request_stk_collection-Keeps :
        Keeps (IsSolid opening) (request_stk_collection provider number i)
    unfolding request_stk_collection
    request_stk_collection-Keeps = Keeps-bind _ _ (Keeps-gets _) replay_or-Keeps
