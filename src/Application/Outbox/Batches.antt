-- ===== src/Application/Outbox/Batches.antt =====
-- What a batch of the relay calls, and how long an event waits.
use distributed_wallet_ledge.Prelude.{
  ℕ, suc, ◌+◌, ◌≤◌, ◌<◌, ◌≡◌, ◌⊎◌, ap, ◌==◌, refl, true, false, ℤ, pos, negsuc, List, [], ◌∷◌, Text,
  arith, Bool-cases, inl, inr,
}
use distributed_wallet_ledge.Errors.{Error, Result, ok, err}
use distributed_wallet_ledge.Domain.Ids.{EventId}
use distributed_wallet_ledge.Domain.Hold.{Time}
use distributed_wallet_ledge.Domain.OutboxEvent.{OutboxEvent, pending}
use distributed_wallet_ledge.Application.Holds.{Port}
use distributed_wallet_ledge.Application.Wallets.{wrapping}
use distributed_wallet_ledge.Application.Outbox.{
  ExponentialBackoff, OutboxRepository, capped, drawn, next_delay, is_pending, is_pending-eq,
  is_eligible, not_published, counted, settle, process_event, process_events,
}

capped-le : (max_interval : ℕ) (z : ℤ) → capped max_interval z ≤ max_interval
capped-le max_interval (negsuc n) = omega arith
capped-le max_interval (pos n) = ground arith

drawn-le : (delay : ℕ) (r : Result ℕ) → ((m : ℕ) → r ≡ ok m → m < delay) → drawn delay r ≤ delay
drawn-le delay (ok m) fair = let below = fair m refl in omega (arith, below)
drawn-le delay (err e) fair = omega arith

-- Whatever the floats and the random source answer, the delay is never above the maximal interval,
-- if `rand.Int` with the bound `n` answers a number below `n`.
pub next_delay-bounded :
    (scaled : ℕ → ℕ → ℤ) (random : ℕ → Result ℕ) (b : ExponentialBackoff) (retry_count : ℕ)
    → ((n m : ℕ) → random n ≡ ok m → m < n)
    → next_delay scaled random b retry_count ≤ b.max_interval
unfolding next_delay
next_delay-bounded scaled random b retry_count fair =
    let delay = capped b.max_interval (scaled b.initial_interval retry_count) in
    ground (
      arith,
      capped-le b.max_interval (scaled b.initial_interval retry_count),
      drawn-le delay (random delay) (fair delay),
    )

-- A call of the relay, with its answer.
pub data Call : Type 0 where
  released : EventId → Time → Result (Unit {0}) → Call
  published : OutboxEvent → Result (Unit {0}) → Call
  marked_published : EventId → Time → Result (Unit {0}) → Call
  marked_failed : EventId → Text → Time → Result (Unit {0}) → Call

abbrev pub Log : Type 0
Log = List Call

abbrev pub log_call {ℓ} :
    {S : Type ℓ}
    → (Result (Unit {0}) → Call)
    → S × Result (Unit {0})
    → Log
    → (S × Log) × Result (Unit {0})
log_call call (s, r) log = ((s, call r ∷ log), r)

-- The repository and the publisher with a log of the calls beside the state, newest first.
module _ {ℓ} {S : Type ℓ} where
  abbrev pub logged_repository : OutboxRepository S → OutboxRepository (S × Log)
  logged_repository repo = record {
    fetch_pending = λ m n (s, log). let (s', r) = repo.fetch_pending m n s in ((s', log), r);
    release_claim = λ id t (s, log). log_call (released id t) (repo.release_claim id t s) log;
    mark_published =
        λ id t (s, log). log_call (marked_published id t) (repo.mark_published id t s) log;
    mark_failed =
        λ id text t (s, log). log_call (marked_failed id text t) (repo.mark_failed id text t s) log;
  }

  abbrev pub logged_publisher :
      (OutboxEvent → Port S (Unit {0})) → OutboxEvent → Port (S × Log) (Unit {0})
  logged_publisher publish e (s, log) = log_call (published e) (publish e s) log

-- An event is due when it is pending, has never been retried, or its delay has passed since it was
-- updated; otherwise it waits.
abbrev pub IsDue : ℕ → OutboxEvent → Time → Type 0
IsDue delay e now = (e.status ≡ pending) ⊎ (e.retry_count ≡ 0) ⊎ (e.updated_at + delay ≤ now)

abbrev pub IsEarly : ℕ → OutboxEvent → Time → Type 0
IsEarly delay e now = ¬ (e.status ≡ pending) × (0 < e.retry_count) × (now < e.updated_at + delay)

is_eligible-IsDue :
    (delay : ℕ → ℕ) (e : OutboxEvent) (now : Time)
    → is_eligible delay e now ≡ true
    → IsDue (delay e.retry_count) e now
unfolding is_eligible
is_eligible-IsDue delay e now h = elim (Bool-cases (is_pending e.status)) [
  | inl first ↦ inl (is_pending-eq e.status first)
  | inr claimed ↦ inr (elim (Bool-cases (e.retry_count == 0)) [
    | inl fresh ↦ inl (ground (arith, fresh))
    | inr again ↦ inr (ground (arith, h, claimed, again))
  ])
]

is_eligible-IsEarly :
    (delay : ℕ → ℕ) (e : OutboxEvent) (now : Time)
    → is_eligible delay e now ≡ false
    → IsEarly (delay e.retry_count) e now
unfolding is_eligible
is_eligible-IsEarly delay e now h = (
  (λ first. absurd (ground (arith, h, ap is_pending first))),
  ground (arith, h),
  ground (arith, h),
)

-- The calls and the count by which a batch handles its events, one after the other: an event that
-- has to wait is released with its time; any other is published, and then marked as what came of it.
-- Only what was published and marked counts.
pub data Handles (error_text : Error → Text) (delays : ℕ → ℕ → ℕ) (now : Time)
    : ℕ → List OutboxEvent → Log → ℕ → Log → ℕ → Type 0 where
  done : {i : ℕ} {l : Log} {n : ℕ} → Handles error_text delays now i [] l n l n
  waits :
      {i : ℕ} {e : OutboxEvent} {es : List OutboxEvent} {l l' : Log} {n n' : ℕ}
      (r : Result (Unit {0}))
      → IsEarly (delays i e.retry_count) e now
      → Handles error_text delays now (suc i) es (released e.id e.updated_at r ∷ l) n l' n'
      → Handles error_text delays now i (e ∷ es) l n l' n'
  sends :
      {i : ℕ} {e : OutboxEvent} {es : List OutboxEvent} {l l' : Log} {n n' : ℕ}
      → IsDue (delays i e.retry_count) e now
      → Handles error_text delays now
          (suc i)
          es
          (marked_published e.id now (ok tt) ∷ published e (ok tt) ∷ l)
          (suc n)
          l'
          n'
      → Handles error_text delays now i (e ∷ es) l n l' n'
  sends_unmarked :
      {i : ℕ} {e : OutboxEvent} {es : List OutboxEvent} {l l' : Log} {n n' : ℕ} (f : Error)
      → IsDue (delays i e.retry_count) e now
      → Handles error_text delays now
          (suc i)
          es
          (marked_published e.id now (err f) ∷ published e (ok tt) ∷ l)
          n
          l'
          n'
      → Handles error_text delays now i (e ∷ es) l n l' n'
  fails :
      {i : ℕ} {e : OutboxEvent} {es : List OutboxEvent} {l l' : Log} {n n' : ℕ} (x : Error)
      (r : Result (Unit {0}))
      → IsDue (delays i e.retry_count) e now
      → Handles error_text delays now
          (suc i)
          es
          (marked_failed e.id (error_text x) now r ∷ published e (err x) ∷ l)
          n
          l'
          n'
      → Handles error_text delays now i (e ∷ es) l n l' n'

module _ {ℓ} {S : Type ℓ} (repo : OutboxRepository S) (publish : OutboxEvent → Port S (Unit {0}))
    (error_text : Error → Text) (delays : ℕ → ℕ → ℕ) (now : Time) where
  abbrev batch : ℕ → List OutboxEvent → (S × Log) × ℕ → (S × Log) × ℕ
  batch i =
      process_events (logged_repository repo) (logged_publisher publish) error_text delays i now

  abbrev Rest : ℕ → List OutboxEvent → Log → ℕ → (S × Log) × ℕ → Type 0
  Rest i es l n out = Handles error_text delays now i es l n out.0.1 out.1

  -- `batch` after an event that was published, and marked with an answer `r`.
  marked-Handles :
      (i : ℕ) (e : OutboxEvent) (es : List OutboxEvent) (l : Log) (n : ℕ)
      (out : S × Result (Unit {0}))
      → IsDue (delays i e.retry_count) e now
      → ((l₁ : Log) (s₁ : S) (n₁ : ℕ) → Rest (suc i) es l₁ n₁ (batch (suc i) es ((s₁, l₁), n₁)))
      → Rest i (e ∷ es) l n (
          batch (suc i) es (
            counted
              (logged_repository repo)
              (logged_publisher publish)
              error_text
              n
              (wrapping (log_call (marked_published e.id now) out (published e (ok tt) ∷ l)))))
  marked-Handles i e es l n (s, ok u) due rest = sends due (rest _ s (suc n))
  marked-Handles i e es l n (s, err f) due rest = sends_unmarked f due (rest _ s n)

  unmarked-Handles :
      (i : ℕ) (e : OutboxEvent) (es : List OutboxEvent) (l : Log) (n : ℕ) (x : Error)
      (out : S × Result (Unit {0}))
      → IsDue (delays i e.retry_count) e now
      → ((l₁ : Log) (s₁ : S) (n₁ : ℕ) → Rest (suc i) es l₁ n₁ (batch (suc i) es ((s₁, l₁), n₁)))
      → Rest i (e ∷ es) l n (
          batch (suc i) es (
            counted (logged_repository repo) (logged_publisher publish) error_text n (
              not_published x
                (log_call (marked_failed e.id (error_text x) now) out (published e (err x) ∷ l)))))
  unmarked-Handles i e es l n x (s, ok u) due rest = fails x (ok u) due (rest _ s n)
  unmarked-Handles i e es l n x (s, err f) due rest = fails x (err f) due (rest _ s n)

  published-Handles :
      (i : ℕ) (e : OutboxEvent) (es : List OutboxEvent) (l : Log) (n : ℕ)
      (out : S × Result (Unit {0}))
      → IsDue (delays i e.retry_count) e now
      → ((l₁ : Log) (s₁ : S) (n₁ : ℕ) → Rest (suc i) es l₁ n₁ (batch (suc i) es ((s₁, l₁), n₁)))
      → Rest i (e ∷ es) l n (
          batch (suc i) es (
            counted (logged_repository repo) (logged_publisher publish) error_text n (
              settle
                (logged_repository repo)
                (logged_publisher publish)
                error_text
                e
                now
                (log_call (published e) out l))))
  unfolding settle
  published-Handles i e es l n (s, ok u) due rest =
      marked-Handles i e es l n (repo.mark_published e.id now s) due rest
  published-Handles i e es l n (s, err x) due rest =
      unmarked-Handles i e es l n x (repo.mark_failed e.id (error_text x) now s) due rest

  -- A batch of the relay handles every event that it was handed, one after the other, each with a
  -- delay of its own: an event that is not pending, has been retried and was updated less than its
  -- delay ago is released with the time it had and is not published; any other is published once,
  -- and then marked once, as published or as failed with the error's text, and what the batch returns
  -- counts the events that were published and marked.
  pub process_events-Handles :
      (i : ℕ) (es : List OutboxEvent) (s : S) (l : Log) (n : ℕ)
      → let out =
          process_events
            (logged_repository repo)
            (logged_publisher publish)
            error_text
            delays
            i
            now
            es
            ((s, l), n) in
        Handles error_text delays now i es l n out.0.1 out.1
  unfolding process_events process_event
  process_events-Handles i [] s l n = done
  process_events-Handles i (e ∷ es) s l n = elim (Bool-cases (is_eligible (delays i) e now)) [
    | inl due ↦
        rw (process_events, due)
          (published-Handles i e es l n (publish e s) (is_eligible-IsDue (delays i) e now due)
            (λ l₁ s₁ n₁. process_events-Handles (suc i) es s₁ l₁ n₁))
    | inr early ↦
        let (s₁, r) = repo.release_claim e.id e.updated_at s in
        rw (process_events, early)
          (waits r (is_eligible-IsEarly (delays i) e now early)
            (process_events-Handles (suc i) es s₁ _ n))
  ]
