-- ===== src/Postgres/Reading/Written.antt =====
-- What a transaction that has been written leaves for GetTransactionDetails.
use distributed_wallet_ledge.Prelude.{
  ℕ, suc, ◌≡◌, refl, ap, ◌∙◌, true, false, ◌||◌, ◌=text◌, =text_refl, =text_eq, ℤ, trim_space, List,
  [], ◌∷◌, map, Option, Text, All, arith, Bool-cases, inl, inr,
}
use distributed_wallet_ledge.Errors.{ok, >>=-eq-ok, wrap_error, wrap_error-eq-ok}
use distributed_wallet_ledge.Domain.Posting.{Posting, PostingDirection}
use distributed_wallet_ledge.Domain.Transaction
use distributed_wallet_ledge.Domain.Transaction.{Transaction}
use distributed_wallet_ledge.Domain.Hold.{Time}
use distributed_wallet_ledge.Postgres.Tables.{
  Uuid, TransactionRow, JournalEntryRow, PostingRow, WalletRow, KeyRow, Store,
}
use distributed_wallet_ledge.Postgres.Queries.{
  exists, create_transaction, create_journal_entry, create_posting, create_outbox_event,
  create_idempotency_key,
}
use distributed_wallet_ledge.Postgres.Transactions.{
  to_uuid, optional_uuid, create_postings, create_outbox_events, event_row, write_transaction,
  validate_wallet_balances,
}
use distributed_wallet_ledge.Postgres.Solvency.Frames.{
  create_transaction-SameFunds, create_journal_entry-SameFunds, create_outbox_events-SameFunds,
}
use distributed_wallet_ledge.Postgres.Reading.{
  join_postings, get_transaction_details, read_reversed,
}
use distributed_wallet_ledge.Postgres.Reading.Order.{sort_into}
use distributed_wallet_ledge.Postgres.Reading.Rows.{
  IsCleanId, IsCleanPosting, transaction_row, entry_row, row_of, create_postings-rows,
}

-- Every posting belongs to an entry: the foreign key of `postings`.
abbrev pub IsReferential : Store → Type 0
IsReferential s =
    All
      (λ (r : PostingRow).
        exists (λ (j : JournalEntryRow). j.id =text r.journal_entry_id) s.journal_entries ≡ true)
      s.postings

-- The same transactions and entries.
pub record SameEntries (s s' : Store) : Type 0 where
  pub transactions : s'.transactions ≡ s.transactions
  pub entries : s'.journal_entries ≡ s.journal_entries

SameEntries-trans : {s t u : Store} → SameEntries s t → SameEntries t u → SameEntries s u
SameEntries-trans f g = record {
  transactions = g.transactions ∙ f.transactions;
  entries = g.entries ∙ f.entries;
}

create_posting-SameEntries :
    (id entry account : Uuid) (d : PostingDirection) (amount : ℤ) (s s' : Store)
    → create_posting id entry account d amount s ≡ ok s'
    → SameEntries s s'
unfolding create_posting
create_posting-SameEntries id entry account d amount s s' h = ground arith

create_postings-SameEntries :
    (scan : Text → Option Uuid) (entry : Uuid) (ps : List Posting) (s s' : Store)
    → create_postings scan entry ps s ≡ ok s'
    → SameEntries s s'
unfolding create_postings
create_postings-SameEntries scan entry [] s s' h = ground arith
create_postings-SameEntries scan entry (p ∷ ps) s s' h =
    let (id, _, h₁) = >>=-eq-ok (to_uuid scan p.id) _ h in
    let (account, _, h₂) = >>=-eq-ok (to_uuid scan p.account_id) _ h₁ in
    let write = create_posting id entry account p.direction p.amount.amount_minor_units s in
    let (s₁, wrote, h₃) = >>=-eq-ok (wrap_error write) _ h₂ in
    SameEntries-trans
      (create_posting-SameEntries id entry account p.direction p.amount.amount_minor_units s s₁
        (wrap_error-eq-ok write s₁ wrote))
      (create_postings-SameEntries scan entry ps s₁ s' h₃)

create_outbox_events-SameEntries :
    (now : Time) (event_id : ℕ → Uuid) (n : ℕ) (seen : List Uuid) (locked : List (Text × WalletRow))
    (s s' : Store)
    → create_outbox_events now event_id n seen locked s ≡ ok s'
    → SameEntries s s'
unfolding create_outbox_events create_outbox_event
create_outbox_events-SameEntries now event_id n seen [] s s' h = ground arith
create_outbox_events-SameEntries now event_id n seen ((key, w) ∷ locked) s s' h =
    elim (Bool-cases (exists (λ u. u =text w.id) seen)) [
      | inl old ↦ create_outbox_events-SameEntries now event_id n seen locked s s' (rw old at h)
      | inr new ↦
          let insert = create_outbox_event (event_row now event_id n w) s in
          let (s₁, wrote, rest) = >>=-eq-ok (wrap_error insert) _ (rw new at h) in
          let inserted = wrap_error-eq-ok insert s₁ wrote in
          let same : SameEntries s s₁ = ground arith in
          SameEntries-trans same
            (create_outbox_events-SameEntries now event_id (suc n) (w.id ∷ seen) locked s₁ s' rest)
    ]

pub create_idempotency_key-SameEntries :
    (row : KeyRow) (s s' : Store) → create_idempotency_key row s ≡ ok s' → SameEntries s s'
unfolding create_idempotency_key
create_idempotency_key-SameEntries row s s' h = ground arith

create_transaction-eq :
    (row : TransactionRow) (s s' : Store)
    → create_transaction row s ≡ ok s'
    → (s'.transactions ≡ row ∷ s.transactions) × (s'.journal_entries ≡ s.journal_entries)
unfolding create_transaction
create_transaction-eq row s s' h = ground arith

create_journal_entry-eq :
    (row : JournalEntryRow) (s s' : Store)
    → create_journal_entry row s ≡ ok s'
    → (s'.transactions ≡ s.transactions)
      × (s'.journal_entries ≡ row ∷ s.journal_entries)
      × (exists
            (λ r. r.id =text row.id || r.transaction_id =text row.transaction_id)
            s.journal_entries
          ≡ false)
unfolding create_journal_entry
create_journal_entry-eq row s s' h = ground arith

exists-entry :
    (js : List JournalEntryRow) (u w : Uuid)
    → exists (λ j. j.id =text u || j.transaction_id =text w) js ≡ false
    → exists (λ j. j.id =text u) js ≡ false
exists-entry [] u w h = refl
exists-entry (j ∷ js) u w h = ground (arith, exists-entry js u w)

-- Nothing joins an entry that is new.
entry-taken :
    (js : List JournalEntryRow) (u v w : Uuid)
    → exists (λ j. j.id =text u) js ≡ true
    → exists (λ j. j.id =text v || j.transaction_id =text w) js ≡ false
    → (u =text v) ≡ false
entry-taken js u v w has new = elim (Bool-cases (u =text v)) [
  | inl same ↦
      let here = ap (λ x. exists (λ (j : JournalEntryRow). j.id =text x) js) (=text_eq u v same) in
      absurd (ground (arith, here, has, exists-entry js v w new))
  | inr other ↦ other
]

join_postings-new :
    (t : TransactionRow) (j : JournalEntryRow) (js : List JournalEntryRow) (rs : List PostingRow)
    → All
        (λ (r : PostingRow).
          exists (λ (i : JournalEntryRow). i.id =text r.journal_entry_id) js ≡ true)
        rs
    → exists (λ i. i.id =text j.id || i.transaction_id =text j.transaction_id) js ≡ false
    → join_postings t j rs ≡ []
unfolding join_postings
join_postings-new t j js [] all new = refl
join_postings-new t j js (r ∷ rs) (has, all) new =
    rw (entry-taken js r.journal_entry_id j.id j.transaction_id has new)
      (join_postings-new t j js rs all new)

-- A valid transaction with clean identifiers and a trimmed description.
pub record IsReadable (scan : Text → Option Uuid) (t : Transaction) : Type 0 where
  pub valid : Transaction.validate t ≡ ok tt
  pub clean : IsCleanId scan t.id
  pub entry_clean : IsCleanId scan t.journal_entry.id
  pub postings_clean : All (IsCleanPosting scan) t.journal_entry.postings
  pub trimmed : trim_space t.description ≡ t.description
  pub reverses_canonical :
      optional_uuid scan t.reverses_transaction_id ≡ ok t.reverses_transaction_id
  pub reverses_clean : read_reversed t.reverses_transaction_id ≡ ok t.reverses_transaction_id

-- The three tables that GetTransactionDetails reads.
pub get_transaction_details-eq :
    (t : Transaction) (s : Store) (ts : List TransactionRow) (js : List JournalEntryRow)
    → s.transactions ≡ transaction_row t ∷ ts
    → s.journal_entries ≡ entry_row t ∷ js
    → get_transaction_details t.id s ≡ join_postings (transaction_row t) (entry_row t) s.postings
unfolding get_transaction_details
get_transaction_details-eq t s ts js first second = rw (first, second, =text_refl) refl

-- The four steps that write it.
written-details :
    (scan : Text → Option Uuid) (now : Time) (event_id : ℕ → Uuid) (t : Transaction)
    (locked : List (Text × WalletRow)) (s s₁ s₂ s₃ s' : Store)
    → All (IsCleanPosting scan) t.journal_entry.postings
    → IsReferential s
    → create_transaction (transaction_row t) s ≡ ok s₁
    → create_journal_entry (entry_row t) s₁ ≡ ok s₂
    → create_postings scan t.journal_entry.id t.journal_entry.postings s₂ ≡ ok s₃
    → create_outbox_events now event_id 0 [] locked s₃ ≡ ok s'
    → get_transaction_details t.id s' ≡ map (row_of t) (sort_into t.journal_entry.postings [])
written-details scan now event_id t locked s s₁ s₂ s₃ s' clean owned made entered wrote raised =
    let ps = t.journal_entry.postings in
    let (ts, js) = create_transaction-eq (transaction_row t) s s₁ made in
    let (ts', js', new) = create_journal_entry-eq (entry_row t) s₁ s₂ entered in
    let same =
      SameEntries-trans (create_postings-SameEntries scan t.journal_entry.id ps s₂ s₃ wrote)
        (create_outbox_events-SameEntries now event_id 0 [] locked s₃ s' raised) in
    let after = create_outbox_events-SameFunds now event_id 0 [] locked s₃ s' raised in
    let kept =
      (create_journal_entry-SameFunds (entry_row t) s₁ s₂ entered).same_postings
      ∙ (create_transaction-SameFunds (transaction_row t) s s₁ made).same_postings in
    let none_before =
      ap (join_postings (transaction_row t) (entry_row t)) kept
      ∙ join_postings-new (transaction_row t) (entry_row t) s.journal_entries s.postings owned
          (rw js at new) in
    get_transaction_details-eq t s' s.transactions s.journal_entries (same.transactions ∙ ts' ∙ ts)
      (same.entries ∙ js' ∙ ap (λ x. entry_row t ∷ x) js)
    ∙ ap (join_postings (transaction_row t) (entry_row t)) after.same_postings
    ∙ create_postings-rows scan t ps [] s₂ s₃ clean wrote none_before

pub write_transaction-details :
    (scan : Text → Option Uuid) (now : Time) (event_id : ℕ → Uuid) (t : Transaction)
    (locked : List (Text × WalletRow)) (s s' : Store)
    → IsReadable scan t
    → IsReferential s
    → write_transaction scan now event_id t locked s ≡ ok s'
    → get_transaction_details t.id s' ≡ map (row_of t) (sort_into t.journal_entry.postings [])
unfolding write_transaction to_uuid
write_transaction-details scan now event_id t locked s s' c owned h =
    let ps = t.journal_entry.postings in
    let (_, checked, h₁) = >>=-eq-ok (validate_wallet_balances now ps locked s) _ h in
    let h₂ = rw (c.clean.0, c.reverses_canonical, c.entry_clean.0) at h₁ in
    let (s₁, made, h₃) = >>=-eq-ok (wrap_error (create_transaction (transaction_row t) s)) _ h₂ in
    let (s₂, entered, h₄) = >>=-eq-ok (wrap_error (create_journal_entry (entry_row t) s₁)) _ h₃ in
    let (s₃, wrote, raised) = >>=-eq-ok (create_postings scan t.journal_entry.id ps s₂) _ h₄ in
    written-details scan now event_id t locked s s₁ s₂ s₃ s' c.postings_clean owned
      (wrap_error-eq-ok (create_transaction (transaction_row t) s) s₁ made)
      (wrap_error-eq-ok (create_journal_entry (entry_row t) s₁) s₂ entered) wrote raised
