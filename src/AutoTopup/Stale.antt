-- ===== src/AutoTopup/Stale.antt =====
-- Evidence that reaches server/utils/auto-topup-executor.ts after a settled success.
use telroi_ai_app.Base.{Option, Bool, ◌≡◌, ◌≢◌, refl, some, String, arith, Option-cases, inl, inr}
use telroi_ai_app.Base.Tx.{Ensures, ok}
use telroi_ai_app.Db.{Attempt, AttemptStatus, Payment, Wallet, Db, Env, wallet_of}
use telroi_ai_app.AutoTopup.Observation.{PaymentObservation, Outcome}
use telroi_ai_app.AutoTopup.Settle.{
  FinalNotification, Settled, settle_success, settle_outcome, settle_in_transaction,
  settle_auto_topup_observation, attempt_by_key, payment_by_id,
}
use telroi_ai_app.AutoTopup.Final.{HasSucceeded, settle_success-HasSucceeded}

-- A success leaves the attempt succeeded.
abbrev Closes : String → Settled → Db → Type 0
Closes key (Settled.succeeded i n) t = HasSucceeded key t
Closes key (Settled.failed n) t = Unit
Closes key Settled.uncertain t = Unit
Closes key Settled.ignored t = Unit

settle_success-Closes :
    (env : Env) (o : PaymentObservation) (a : Attempt) (p : Payment) (db : Db)
    → attempt_by_key o.reference db ≡ some a
    → Ensures (Closes o.reference) (settle_success env o a p db)
unfolding settle_success
settle_success-Closes env o a p db h = ground (arith, settle_success-HasSucceeded env o a p db h)

settle_outcome-Closes :
    (env : Env) (o : PaymentObservation) (w : Wallet) (a : Attempt) (p : Payment) (r : Outcome)
    (db : Db)
    → attempt_by_key o.reference db ≡ some a
    → Ensures (Closes o.reference) (settle_outcome env o w a p r db)
unfolding settle_outcome
settle_outcome-Closes env o w a p Outcome.succeeded db h = settle_success-Closes env o a p db h
settle_outcome-Closes env o w a p Outcome.failed db h = ground arith
settle_outcome-Closes env o w a p Outcome.pending db h = ground arith

settle_in_transaction-Closes :
    (env : Env) (tenant_id : String) (o : PaymentObservation) (db : Db)
    → Ensures (Closes o.reference) (settle_in_transaction env tenant_id o db)
unfolding settle_in_transaction
settle_in_transaction-Closes env tenant_id o db = elim (Option-cases (wallet_of tenant_id db)) [
  | inl no_wallet ↦ ground arith
  | inr (w, found_wallet) ↦ elim (Option-cases (attempt_by_key o.reference db)) [
    | inl no_attempt ↦ ground arith
    | inr (a, found_attempt) ↦ elim (Option-cases a.payment_id) [
      | inl no_id ↦ ground arith
      | inr (id, linked) ↦ elim (Option-cases (payment_by_id id db)) [
        | inl no_payment ↦ ground arith
        | inr (p, found_payment) ↦
            ground (arith, settle_outcome-Closes env o w a p o.outcome db found_attempt)
      ]
    ]
  ]
]

settle-Closes :
    (env : Env) (o : PaymentObservation) (db : Db)
    → Ensures (Closes o.reference) (settle_auto_topup_observation env o db)
unfolding settle_auto_topup_observation
settle-Closes env o db = elim (Option-cases (attempt_by_key o.reference db)) [
  | inl unknown_key ↦ ground arith
  | inr (a, found) ↦ ground (arith, settle_in_transaction-Closes env a.tenant_id o db)
]

-- Nothing happened.
abbrev pub IsIgnored : Db → Settled → Db → Type 0
IsIgnored s r t = (r ≡ Settled.ignored) × (t ≡ s)

settle_outcome-IsIgnored :
    (env : Env) (o : PaymentObservation) (w : Wallet) (a : Attempt) (p : Payment) (r : Outcome)
    (db : Db)
    → a.status ≡ AttemptStatus.succeeded
    → r ≢ Outcome.succeeded
    → Ensures (IsIgnored db) (settle_outcome env o w a p r db)
unfolding settle_outcome
settle_outcome-IsIgnored env o w a p Outcome.succeeded db h late = absurd (late refl)
settle_outcome-IsIgnored env o w a p Outcome.failed db h late = ground arith
settle_outcome-IsIgnored env o w a p Outcome.pending db h late = ground arith

settle_in_transaction-IsIgnored :
    (env : Env) (tenant_id : String) (o : PaymentObservation) (a : Attempt) (db : Db)
    → attempt_by_key o.reference db ≡ some a
    → a.status ≡ AttemptStatus.succeeded
    → o.outcome ≢ Outcome.succeeded
    → Ensures (IsIgnored db) (settle_in_transaction env tenant_id o db)
unfolding settle_in_transaction
settle_in_transaction-IsIgnored env tenant_id o a db found_attempt h late =
    elim (Option-cases (wallet_of tenant_id db)) [
      | inl no_wallet ↦ ground arith
      | inr (w, found_wallet) ↦ elim (Option-cases a.payment_id) [
        | inl no_id ↦ ground arith
        | inr (id, linked) ↦ elim (Option-cases (payment_by_id id db)) [
          | inl no_payment ↦ ground arith
          | inr (p, found_payment) ↦
              ground (arith, settle_outcome-IsIgnored env o w a p o.outcome db h late)
        ]
      ]
    ]

settle-IsIgnored :
    (env : Env) (o : PaymentObservation) (db : Db)
    → HasSucceeded o.reference db
    → o.outcome ≢ Outcome.succeeded
    → Ensures (IsIgnored db) (settle_auto_topup_observation env o db)
unfolding settle_auto_topup_observation
settle-IsIgnored env o db (a, found, h) late =
    ground (arith, settle_in_transaction-IsIgnored env a.tenant_id o a db found h late)

-- Once evidence has settled an attempt as a success, a failure or a pending report of the same
-- reference that comes later is thrown out or ignored: if the settlement returns, it returns
-- `ignored`, and neither the wallet nor the payment nor the attempt has changed.
pub success_is_final :
    (env env' : Env) (o o' : PaymentObservation) (i : Bool) (n : Option FinalNotification)
    (db t : Db)
    → settle_auto_topup_observation env o db ≡ ok (Settled.succeeded i n, t)
    → o'.reference ≡ o.reference
    → o'.outcome ≢ Outcome.succeeded
    → Ensures (IsIgnored t) (settle_auto_topup_observation env' o' t)
success_is_final env env' o o' i n db t done same late =
    let closed : HasSucceeded o.reference t = rw done at (settle-Closes env o db) in
    settle-IsIgnored env' o' t (rw same closed) late
