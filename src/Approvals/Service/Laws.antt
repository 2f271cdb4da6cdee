-- ===== src/Approvals/Service/Laws.antt =====
-- Maker and checker: who may act on a request, and what an action leaves.
use z_float_2_main.Prelude.{
  ℕ, ◌<◌, ◌≡◌, refl, true, false, not, Option, none, some, List, [], ◌∷◌, arith, leb, ◌==◌,
  if◌then◌else◌, first_where, Option-cases, inl, inr,
}
use mathlib.Core.Option
use z_float_2_main.Exec.{ok, modify}
use z_float_2_main.Exec.Keeps.{
  Keeps, Keeps-modify, Keeps-bind, Keeps-then, Keeps-gets, Keeps-guard, Keeps-if, Keeps-transaction,
  keeps_rules,
}
use z_float_2_main.Exec.Post.{
  Post, Post-gets, Post-or_raise, Post-modify, Post-raise_if, Post-bind, Post-imp,
  transaction_keeps, Post-of_Keeps, Post-transaction, returned,
}
use z_float_2_main.Table.{Table, find, find-update}
use z_float_2_main.Approvals.Policy.{ApprovalStepRequirement, evaluate_policy}
use z_float_2_main.Approvals.Service.{
  RequestStatus, StepStatus, Decision, approve, reject, ApprovalRequest, ApprovalStep,
  ApprovalAction, ApprovalDb, CreateApprovalInput, add_step, insert_steps, add_request,
  create_approval_request, ApprovalActionInput, is_resolved, is_delegate_of, has_acted, steps_for,
  is_eligible, can_act_on, action_of, add_action, set_request, set_step, open_next, decide,
  record_approval_action, expire, expire_rows, expire_due_approvals, is_due,
}

-- No user has acted twice on a request, and no action is by the maker of its request.
abbrev pub AreDistinct : List ApprovalAction → Type 0
AreDistinct [] = Unit
AreDistinct (a ∷ rest) = (has_acted a.request_id a.actor_id rest ≡ false) × AreDistinct rest

pub record HasFourEyes (s : ApprovalDb) : Type 0 where
  pub distinct : AreDistinct s.approval_actions
  pub not_maker :
      (id : ℕ) (r : ApprovalRequest)
      → find id s.approval_requests ≡ some r
      → has_acted id r.created_by_id s.approval_actions ≡ false
  pub known : (id : ℕ) (r : ApprovalRequest) → find id s.approval_requests ≡ some r → id < s.next_id
  pub acted_on : (id actor : ℕ) → has_acted id actor s.approval_actions ≡ true → id < s.next_id

add_step-HasFourEyes :
    (id : ℕ) (step : ApprovalStepRequirement) → Keeps HasFourEyes (modify (add_step id step))
add_step-HasFourEyes id step = Keeps-modify (add_step id step) λ s h. record {
  distinct = h.distinct;
  not_maker = h.not_maker;
  known = λ i r e. omega (arith, h.known i r e);
  acted_on = λ i a e. omega (arith, h.acted_on i a e);
}

insert_steps-HasFourEyes :
    (id : ℕ) (steps : List ApprovalStepRequirement) → Keeps HasFourEyes (insert_steps id steps)
unfolding insert_steps
insert_steps-HasFourEyes id [] = search keeps_rules
insert_steps-HasFourEyes id (step ∷ steps) =
    Keeps-then _ _ (add_step-HasFourEyes id step) (insert_steps-HasFourEyes id steps)

add_request-HasFourEyes :
    (i : CreateApprovalInput) (steps : List ApprovalStepRequirement)
    → Keeps HasFourEyes (modify (add_request i steps))
unfolding find
add_request-HasFourEyes i steps = Keeps-modify (add_request i steps) λ s h. record {
  distinct = h.distinct;
  not_maker =
      λ id r e. ground (arith, h.not_maker id r, h.acted_on id r.created_by_id, h.known id r);
  known = λ id r e. ground (arith, h.known id r);
  acted_on = λ id a e. omega (arith, h.acted_on id a e);
}

set_step-HasFourEyes :
    (id : ℕ) (status : StepStatus) → Keeps HasFourEyes (modify (set_step id status))
set_step-HasFourEyes id status = Keeps-modify (set_step id status) λ s h. record {
  distinct = h.distinct;
  not_maker = h.not_maker;
  known = h.known;
  acted_on = h.acted_on;
}

module _ (id : ℕ) (f : ApprovalRequest → ApprovalRequest)
    (same : (r : ApprovalRequest) → (f r).created_by_id ≡ r.created_by_id) where
  set_request-HasFourEyes : Keeps HasFourEyes (modify (set_request id f))
  set_request-HasFourEyes = Keeps-modify (set_request id f) λ s h. record {
    distinct = h.distinct;
    not_maker = λ j r e. elim (Option-cases (find j s.approval_requests)) [
      | inl missing ↦ ground (arith, find-update j id f s.approval_requests)
      | inr (q, there) ↦
          ground (arith, find-update j id f s.approval_requests, h.not_maker j q there, same q)
    ];
    known = λ j r e. elim (Option-cases (find j s.approval_requests)) [
      | inl missing ↦ ground (arith, find-update j id f s.approval_requests)
      | inr (q, there) ↦ h.known j q there
    ];
    acted_on = h.acted_on;
  }

-- What the writes of a decision to requests and steps keep, the decision keeps.
module _ {P : ApprovalDb → Type 0}
    (on_request : (id : ℕ) (f : ApprovalRequest → ApprovalRequest)
      → ((r : ApprovalRequest) → (f r).created_by_id ≡ r.created_by_id)
      → Keeps P (modify (set_request id f)))
    (on_step : (id : ℕ) (status : StepStatus) → Keeps P (modify (set_step id status))) where
  open_next-Keeps : (id : ℕ) (next : Option (ℕ × ApprovalStep)) → Keeps P (open_next id next)
  unfolding open_next
  open_next-Keeps id (some (step, row)) =
      Keeps-then _ _ (on_request id _ (λ r. refl))
        (Keeps-then _ _ (on_step step _) (search keeps_rules))
  open_next-Keeps id none = Keeps-then _ _ (on_request id _ (λ r. refl)) (search keeps_rules)

  decide-Keeps :
      (i : ApprovalActionInput) (id : ℕ) (target : ApprovalStep) (steps : List (ℕ × ApprovalStep))
      (d : Decision)
      → Keeps P (decide i id target steps d)
  unfolding decide
  decide-Keeps i id target steps reject =
      Keeps-then _ _ (on_request i.request_id _ (λ r. refl))
        (Keeps-then _ _ (on_step id _) (search keeps_rules))
  decide-Keeps i id target steps approve = Keeps-bind _ _ (Keeps-gets _) λ count.
      Keeps-if (leb target.min_approvers count) _ _
        (Keeps-then _ _ (on_step id _) (open_next-Keeps i.request_id _)) (search keeps_rules)

-- The guards that an action has passed before it is put on record.
pub record IsAuthorised (s : ApprovalDb) (i : ApprovalActionInput) : Type 0 where
  pub request : ApprovalRequest
  pub found : find i.request_id s.approval_requests ≡ some request
  pub is_open : is_resolved request.status ≡ false
  pub not_maker : (request.created_by_id == i.actor_id) ≡ false
  pub not_for_maker : is_delegate_of request.created_by_id i.delegated_for_id ≡ false
  pub first_action : has_acted i.request_id i.actor_id s.approval_actions ≡ false
  pub step : ℕ × ApprovalStep
  pub actionable :
      first_where (is_eligible request) (steps_for i.request_id s.approval_steps) ≡ some step
  pub has_role : not (can_act_on i.actor_roles step.1) ≡ false

add_action-HasFourEyes :
    (i : ApprovalActionInput) (s : ApprovalDb) (g : IsAuthorised s i)
    → HasFourEyes s
    → HasFourEyes (add_action (action_of i g.step.0) s)
add_action-HasFourEyes i s g h = record {
  distinct = (g.first_action, h.distinct);
  not_maker = λ id r e. ground (arith, h.not_maker id r e);
  known = h.known;
  acted_on = λ id a e. ground (arith, h.acted_on id a, h.known i.request_id g.request g.found);
}

module _ (P : RequestStatus → ApprovalDb → Type 0) (i : ApprovalActionInput) (s : ApprovalDb) where
  -- Past its guards the command records the action on the step, and decides.
  record-Post :
      ((g : IsAuthorised s i)
        → Post P
            (decide i g.step.0 g.step.1 (steps_for i.request_id s.approval_steps) i.decision)
            (add_action (action_of i g.step.0) s))
      → Post P (record_approval_action i) s
  unfolding record_approval_action
  record-Post rest = Post-transaction _ s (
      Post-bind _ _ s (
        Post-gets _ s (
          Post-bind _ _ s (
            Post-or_raise _ _ s λ request found. Post-bind _ _ s (
              Post-raise_if _ _ s λ is_open. Post-bind _ _ s (
                Post-raise_if _ _ s λ not_maker. Post-bind _ _ s (
                  Post-raise_if _ _ s λ not_for_maker. Post-bind _ _ s (
                    Post-gets _ s (
                      Post-bind _ _ s (
                        Post-raise_if _ _ s λ first_action. Post-bind _ _ s (
                          Post-gets _ s (
                            Post-bind _ _ s (
                              Post-or_raise _ _ s λ step actionable. Post-bind _ _ s (
                                Post-raise_if _ _ s λ has_role. Post-bind _ _ s (
                                  Post-modify _ s (
                                    rest (record {
                                      request = request;
                                      found = found;
                                      is_open = is_open;
                                      not_maker = not_maker;
                                      not_for_maker = not_for_maker;
                                      first_action = first_action;
                                      step = step;
                                      actionable = actionable;
                                      has_role = has_role;
                                    })))))))))))))))))

-- An action keeps the invariant: nobody acts twice, and no maker acts on a request of their own.
pub record_approval_action-HasFourEyes :
    (i : ApprovalActionInput) (s : ApprovalDb)
    → HasFourEyes s
    → HasFourEyes (record_approval_action i s).1
unfolding record_approval_action
record_approval_action-HasFourEyes i s h = transaction_keeps HasFourEyes _ s h (
    record-Post _ i s λ g.
      Post-of_Keeps HasFourEyes _ _
        (decide-Keeps set_request-HasFourEyes set_step-HasFourEyes i _ _ _ i.decision)
        (add_action-HasFourEyes i s g h))

abbrev Logged : ApprovalAction → ApprovalDb → ApprovalDb → Type 0
Logged a s t = t.approval_actions ≡ a ∷ s.approval_actions

-- If `recordApprovalAction` returns, the request was found and open, the actor is not its maker,
-- does not stand in for its maker, has not acted on it before, and has a role of the first step
-- that is open to action; and one action, by the actor on that step, is added to the log.
pub record_approval_action-IsAuthorised :
    (i : ApprovalActionInput) (s t : ApprovalDb) (status : RequestStatus)
    → record_approval_action i s ≡ (ok status, t)
    → (g : IsAuthorised s i) × (t.approval_actions ≡ action_of i g.step.0 ∷ s.approval_actions)
record_approval_action-IsAuthorised i s t status e =
    returned
      (record-Post (λ _ u. (g : IsAuthorised s i) × Logged (action_of i g.step.0) s u) i s
        λ g.
          Post-imp _ _
            (Post-of_Keeps (Logged (action_of i g.step.0) s) _ _
              (decide-Keeps (λ id f _. Keeps-modify (set_request id f) (λ u h. h))
                (λ id st. Keeps-modify (set_step id st) (λ u h. h)) i _ _ _ i.decision)
              refl)
            λ _ u h. (g, h))
      e

pub find-expire_rows :
    (now id : ℕ) (t : Table ApprovalRequest)
    → find id (expire_rows now t)
      ≡ Option.map (λ r. if is_due now r then expire r else r) (find id t)
unfolding find expire_rows
find-expire_rows now id [] = refl
find-expire_rows now id ((j, r) ∷ t) = ground (arith, find-expire_rows now id t)

-- Expiry keeps the invariant.
pub expire_due_approvals-HasFourEyes : (now : ℕ) → Keeps HasFourEyes (expire_due_approvals now)
unfolding expire_due_approvals
expire_due_approvals-HasFourEyes now = Keeps-bind _ _ (Keeps-gets _) λ count.
    Keeps-then _ _
      (Keeps-modify (λ s. record s { approval_requests = expire_rows now s.approval_requests })
        λ s h. record {
          distinct = h.distinct;
          not_maker = λ j r e. elim (Option-cases (find j s.approval_requests)) [
            | inl missing ↦ ground (arith, find-expire_rows now j s.approval_requests)
            | inr (q, there) ↦
                ground (arith, find-expire_rows now j s.approval_requests, h.not_maker j q there)
          ];
          known = λ j r e. elim (Option-cases (find j s.approval_requests)) [
            | inl missing ↦ ground (arith, find-expire_rows now j s.approval_requests)
            | inr (q, there) ↦ h.known j q there
          ];
          acted_on = h.acted_on;
        })
      (search keeps_rules)

-- Creating a request keeps the invariant.
pub create_approval_request-HasFourEyes :
    (i : CreateApprovalInput) → Keeps HasFourEyes (create_approval_request i)
unfolding create_approval_request
create_approval_request-HasFourEyes i = Keeps-guard _ _ _ (
    Keeps-guard _ _ _ (
      Keeps-transaction _ (
        Keeps-bind _ _ (Keeps-gets _) λ id.
          Keeps-then _ _ (add_request-HasFourEyes i (evaluate_policy i.rules i.context))
            (Keeps-then _ _ (insert_steps-HasFourEyes id _) (search keeps_rules)))))
