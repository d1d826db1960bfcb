-- ===== src/AutoTopup/Withdrawn.antt =====
-- The attempts that `cancelUnsentAutoTopups` of server/utils/auto-topup-attempts.ts cancels, told by
-- what is known of their charges.
use telroi_ai_app.Base.Rows.{All, find, update_where}
use telroi_ai_app.AutoTopup.Attempts.{
  cancelled_attempt, is_dispatch_evidence, is_pending, is_unsent, is_zero, is_cancellable,
}
use telroi_ai_app.Db.{Attempt, AttemptStatus, Payment, PaymentStatus}
use telroi_ai_app.Base.{
  ℕ, zero, suc, String, ◌≡◌, refl, ◌≢◌, ◌⊎◌, inl, inr, true, false, not, Option, none, some, List,
  [], ◌∷◌, eq_iff, Bool-cases, is_some, arith, ◌==◌,
}

-- The statuses of an attempt that waits to be sent.
pub data Waits : AttemptStatus → Type 0 where
  pending : Waits AttemptStatus.pending
  processing : Waits AttemptStatus.processing
  ready : Waits AttemptStatus.ready

-- A payment that says nothing about a charge: another reference's, or a pending one without credit.
abbrev pub IsSilent : String → Payment → Type 0
IsSilent key p = (p.reference ≢ key) ⊎ ((p.status ≡ PaymentStatus.pending) × (p.credited_at ≡ none))

-- An attempt of a workspace that waits, and of which there is no trace of a charge, on itself or on
-- a payment.
pub record NeverSent (tenant_id : String) (payments : List Payment) (a : Attempt) : Type 0 where
  pub own : a.tenant_id ≡ tenant_id
  pub waits : Waits a.status
  pub untried : a.attempts ≡ 0
  pub undispatched : a.dispatched_at ≡ none
  pub never_tried : a.last_attempt_at ≡ none
  pub unreferenced : a.provider_reference ≡ none
  pub unpaid : All (IsSilent a.idempotency_key) payments

-- The same attempt, cancelled for a reason and not to be tried again.
abbrev pub IsCancelled : String → Attempt → Attempt → Type 0
IsCancelled reason a b =
    (b.id ≡ a.id)
    × (b.status ≡ AttemptStatus.cancelled)
    × (b.cancellation_reason ≡ some reason)
    × (b.retryable ≡ false)
    × (b.claim_token ≡ none)
    × (b.next_attempt_at ≡ none)

-- The second list is the first one with the attempts that were never sent cancelled, and no other
-- attempt touched.
pub data Withdrawn (tenant_id reason : String) (payments : List Payment)
    : List Attempt → List Attempt → Type 0 where
  done : Withdrawn tenant_id reason payments [] []
  cancel :
      {xs ys : List Attempt} (a b : Attempt)
      → NeverSent tenant_id payments a
      → IsCancelled reason a b
      → Withdrawn tenant_id reason payments xs ys
      → Withdrawn tenant_id reason payments (a ∷ xs) (b ∷ ys)
  keep :
      {xs ys : List Attempt} (a : Attempt)
      → ¬ NeverSent tenant_id payments a
      → Withdrawn tenant_id reason payments xs ys
      → Withdrawn tenant_id reason payments (a ∷ xs) (a ∷ ys)

unsent-Waits : (s : AttemptStatus) → is_unsent s ≡ true → Waits s
unsent-Waits AttemptStatus.pending h = Waits.pending
unsent-Waits AttemptStatus.processing h = Waits.processing
unsent-Waits AttemptStatus.ready h = Waits.ready
unsent-Waits AttemptStatus.dispatching h = absurd (ground (arith, h))
unsent-Waits AttemptStatus.succeeded h = absurd (ground (arith, h))
unsent-Waits AttemptStatus.failed h = absurd (ground (arith, h))
unsent-Waits AttemptStatus.cancelled h = absurd (ground (arith, h))
unsent-Waits AttemptStatus.uncertain h = absurd (ground (arith, h))
unsent-Waits AttemptStatus.needs_review h = absurd (ground (arith, h))

Waits-unsent : (s : AttemptStatus) → Waits s → is_unsent s ≡ true
Waits-unsent s Waits.pending = refl
Waits-unsent s Waits.processing = refl
Waits-unsent s Waits.ready = refl

pending_status : (s : PaymentStatus) → is_pending s ≡ true → s ≡ PaymentStatus.pending
pending_status PaymentStatus.pending h = refl
pending_status PaymentStatus.succeeded h = absurd (ground (arith, h))
pending_status PaymentStatus.failed h = absurd (ground (arith, h))

none_given : {A : Type 0} (o : Option A) → not (is_some o) ≡ true → o ≡ none
none_given none h = refl
none_given (some x) h = absurd (ground (arith, h))

no_evidence-IsSilent :
    (key : String) (p : Payment) → is_dispatch_evidence key p ≡ false → IsSilent key p
no_evidence-IsSilent key p h = elim (Bool-cases (p.reference == key)) [
  | inr other ↦ inl (λ same. absurd (ground (arith, (eq_iff p.reference key).1 same, other)))
  | inl here ↦
      let both : (is_pending p.status ≡ true) × (not (is_some p.credited_at) ≡ true) =
        ground (arith, h, here) in
      inr (pending_status p.status both.0, none_given p.credited_at both.1)
]

IsSilent-no_evidence :
    (key : String) (p : Payment) → IsSilent key p → is_dispatch_evidence key p ≡ false
IsSilent-no_evidence key p (inl other) = elim (Bool-cases (p.reference == key)) [
  | inl here ↦ absurd (other ((eq_iff p.reference key).0 here))
  | inr further ↦ rw further refl
]
IsSilent-no_evidence key p (inr (waits, uncredited)) = rw (waits, uncredited) (ground arith)

no_find-All :
    (key : String) (ps : List Payment)
    → find (is_dispatch_evidence key) ps ≡ none
    → All (IsSilent key) ps
no_find-All key [] h = tt
no_find-All key (p ∷ ps) h = elim (Bool-cases (is_dispatch_evidence key p)) [
  | inl here ↦ absurd (ground (arith, rw here at h))
  | inr silent ↦ (no_evidence-IsSilent key p silent, no_find-All key ps (rw silent at h))
]

All-no_find :
    (key : String) (ps : List Payment)
    → All (IsSilent key) ps
    → find (is_dispatch_evidence key) ps ≡ none
All-no_find key [] h = refl
All-no_find key (p ∷ ps) h = rw (IsSilent-no_evidence key p h.0) (All-no_find key ps h.1)

cancellable-NeverSent :
    (payments : List Payment) (tenant_id : String) (a : Attempt)
    → is_cancellable payments tenant_id none a ≡ true
    → NeverSent tenant_id payments a
unfolding is_cancellable
cancellable-NeverSent payments tenant_id a h = record {
  own = (eq_iff a.tenant_id tenant_id).0 (ground (arith, h));
  waits = unsent-Waits a.status (ground (arith, h));
  untried = zero_tries a.attempts (ground (arith, h));
  undispatched = none_given a.dispatched_at (ground (arith, h));
  never_tried = none_given a.last_attempt_at (ground (arith, h));
  unreferenced = none_given a.provider_reference (ground (arith, h));
  unpaid =
      no_find-All a.idempotency_key payments
        (none_given (find (is_dispatch_evidence a.idempotency_key) payments) (ground (arith, h)));
}
  where
    zero_tries : (n : ℕ) → is_zero n ≡ true → n ≡ 0
    zero_tries zero e = refl
    zero_tries (suc n) e = absurd (ground (arith, e))

NeverSent-cancellable :
    (payments : List Payment) (tenant_id : String) (a : Attempt)
    → NeverSent tenant_id payments a
    → is_cancellable payments tenant_id none a ≡ true
unfolding is_cancellable
NeverSent-cancellable payments tenant_id a h =
    let own = (eq_iff a.tenant_id tenant_id).1 h.own in
    let waits = Waits-unsent a.status h.waits in
    let silent = All-no_find a.idempotency_key payments h.unpaid in
    rw (own, waits, h.untried, h.undispatched, h.never_tried, h.unreferenced, silent) refl

pub update-Withdrawn :
    (payments : List Payment) (tenant_id reason : String) (now : ℕ) (xs : List Attempt)
    → Withdrawn tenant_id reason payments xs
        (update_where (is_cancellable payments tenant_id none) (cancelled_attempt reason now) xs)
update-Withdrawn payments tenant_id reason now [] = done
update-Withdrawn payments tenant_id reason now (a ∷ xs) =
    let rest = update-Withdrawn payments tenant_id reason now xs in
    elim (Bool-cases (is_cancellable payments tenant_id none a)) [
      | inl may ↦ rw may (
          cancel a (cancelled_attempt reason now a) (cancellable-NeverSent payments tenant_id a may)
            (refl, refl, refl, refl, refl, refl) rest)
      | inr may_not ↦ rw may_not (
          keep a
            (λ h. absurd (ground (arith, NeverSent-cancellable payments tenant_id a h, may_not)))
            rest)
    ]
