-- ===== src/Application/Soundness.antt =====
-- The use cases that post, on the store of Postgres.
use distributed_wallet_ledge.Prelude.{
  ℕ, ◌≡◌, refl, sym, ap, ap₂, subst, ◌∙◌, map, false, List, [], ◌∷◌, Option, none, some, Text,
  trim_space, is_empty, All,
}
use distributed_wallet_ledge.Errors.{
  Result, ok, err, fail_if, >>=-eq-ok, checked-eq-ok, ok-injective, fail_if-eq-ok,
  empty_idempotency_key, empty_request_hash,
}
use distributed_wallet_ledge.Domain.Currency.{Currency, new_currency}
use distributed_wallet_ledge.Domain.Money.{Money, new_money}
use distributed_wallet_ledge.Domain.Posting.{Posting, new_posting}
use distributed_wallet_ledge.Domain.JournalEntry.{JournalEntry, new_journal_entry}
use distributed_wallet_ledge.Domain.Transaction
use distributed_wallet_ledge.Domain.Transaction.{Transaction, new_transaction}
use distributed_wallet_ledge.Domain.Transaction.Validity
use distributed_wallet_ledge.Domain.Transaction.Validity.{IsValid}
use distributed_wallet_ledge.Domain.Hold.{Time}
use distributed_wallet_ledge.Postgres.Tables.{Uuid, Store}
use distributed_wallet_ledge.Postgres.Transactions.{Lookups, post}
use distributed_wallet_ledge.Postgres.Solvency.Deltas.{IsCanonical}
use distributed_wallet_ledge.Postgres.Solvency.Invariant.{IsSound}
use distributed_wallet_ledge.Postgres.Solvency.Posts.{post-IsSound}
use distributed_wallet_ledge.Application.PostTransaction.{
  PostingCommand, PostTransactionCommand, LedgerRepository, make_postings, prepare, returned,
  posted_by, execute,
}

-- The port on Postgres: an error rolls the database transaction back.
abbrev pub committed : Store → Result Store → Store × Result (Unit {0})
committed s (ok s') = (s', ok tt)
committed s (err e) = (s, err e)

abbrev pub postgres : (Text → Option Uuid) → Time → (ℕ → Uuid) → Lookups → LedgerRepository Store
postgres scan now event_id seen t key hash s =
    committed s (post scan now event_id seen t key hash s)

-- The command that asks for a posting.
abbrev pub asked : Posting → PostingCommand
asked p = record {
  id = p.id;
  account_id = p.account_id;
  direction = p.direction;
  amount_minor_units = p.amount.amount_minor_units;
}

make_postings-asked :
    (cur : Currency) (cs : List PostingCommand) (ps : List Posting)
    → make_postings cur cs ≡ ok ps
    → map asked ps ≡ cs
unfolding make_postings new_posting new_money
make_postings-asked cur [] ps h = ap (map asked) (sym (ok-injective h))
make_postings-asked cur (c ∷ cs) ps h =
    let (amount, valued, h₁) = >>=-eq-ok (new_money cur c.amount_minor_units) _ h in
    let (p, made, h₂) = >>=-eq-ok (new_posting c.id c.account_id c.direction amount) _ h₁ in
    let (qs, others, h₃) = >>=-eq-ok (make_postings cur cs) _ h₂ in
    let value = (checked-eq-ok _ _ amount valued).1 in
    let same = (checked-eq-ok _ _ p made).1 in
    let asks : asked p ≡ c =
      ap asked (sym same)
      ∙ ap
          (λ (m : Money). record {
            id = c.id;
            account_id = c.account_id;
            direction = c.direction;
            amount_minor_units = m.amount_minor_units;
          })
          (sym value) in
    ap (map asked) (sym (ok-injective h₃)) ∙ ap₂ ◌∷◌ asks (make_postings-asked cur cs qs others)

asked-IsCanonical :
    (scan : Text → Option Uuid) (ps : List Posting)
    → All (λ c. scan c.account_id ≡ some c.account_id) (map asked ps)
    → IsCanonical scan ps
asked-IsCanonical scan [] h = tt
asked-IsCanonical scan (p ∷ ps) (first, rest) = (first, asked-IsCanonical scan ps rest)

-- What the ledger is asked to post.
pub record Prepared (c : PostTransactionCommand) (t : Transaction) (key hash : Text) : Type 0 where
  pub valid : IsValid t
  pub same_id : t.id ≡ c.id
  pub no_reversal : t.reverses_transaction_id ≡ none
  pub key_is : key ≡ trim_space c.idempotency_key
  pub key_given : is_empty key ≡ false
  pub hash_is : hash ≡ trim_space c.request_hash
  pub hash_given : is_empty hash ≡ false
  pub same_postings : map asked t.journal_entry.postings ≡ c.postings

pub prepare-Prepared :
    (c : PostTransactionCommand) (t : Transaction) (key hash : Text)
    → prepare c ≡ ok (t, key, hash)
    → Prepared c t key hash
unfolding prepare new_transaction new_journal_entry
prepare-Prepared c t key hash h =
    let (_, k, h₁) =
      >>=-eq-ok (fail_if (is_empty (trim_space c.idempotency_key)) empty_idempotency_key) _ h in
    let (_, r, h₂) =
      >>=-eq-ok (fail_if (is_empty (trim_space c.request_hash)) empty_request_hash) _ h₁ in
    let (cur, _, h₃) = >>=-eq-ok (new_currency c.currency_code) _ h₂ in
    let (ps, made, h₄) = >>=-eq-ok (make_postings cur c.postings) _ h₃ in
    let (entry, entered, h₅) = >>=-eq-ok (new_journal_entry c.journal_entry_id c.id cur ps) _ h₄ in
    let (t₁, built, h₆) = >>=-eq-ok (new_transaction c.id c.description entry) _ h₅ in
    let (valid, same) = checked-eq-ok _ _ t₁ built in
    let (_, same_entry) = checked-eq-ok _ _ entry entered in
    let out = ok-injective h₆ in
    subst (λ (x : Transaction × Text × Text). Prepared c x.0 x.1 x.2) out
      (record {
        valid =
            (Validity.validate_transaction_iff t₁).0
              (subst (λ u. Transaction.validate u ≡ ok tt) same valid);
        same_id = ap (λ (u : Transaction). u.id) (sym same);
        no_reversal = ap (λ (u : Transaction). u.reverses_transaction_id) (sym same);
        key_is = refl;
        key_given = fail_if-eq-ok _ empty_idempotency_key k;
        hash_is = refl;
        hash_given = fail_if-eq-ok _ empty_request_hash r;
        same_postings =
            ap (λ (u : Transaction). map asked u.journal_entry.postings) (sym same)
            ∙ ap (λ (e : JournalEntry). map asked e.postings) (sym same_entry)
            ∙ make_postings-asked cur c.postings ps made;
      })

committed-IsSound :
    (now : Time) (t : Transaction) (s : Store) (r : Result Store)
    → IsSound now s
    → ((s' : Store) → r ≡ ok s' → IsSound now s')
    → IsSound now (returned t (committed s r)).0
committed-IsSound now t s (ok s') old new = new s' refl
committed-IsSound now t s (err e) old new = old

posted_by-IsSound :
    (scan : Text → Option Uuid) (now : Time) (event_id : ℕ → Uuid) (seen : Lookups)
    (c : PostTransactionCommand) (s : Store) (r : Result (Transaction × Text × Text))
    → All (λ p. scan p.account_id ≡ some p.account_id) c.postings
    → prepare c ≡ r
    → IsSound now s
    → IsSound now (posted_by (postgres scan now event_id seen) r s).0
posted_by-IsSound scan now event_id seen c s (err e) canonical h sound = sound
posted_by-IsSound scan now event_id seen c s (ok (t, key, hash)) canonical h sound =
    let p = prepare-Prepared c t key hash h in
    committed-IsSound now t s (post scan now event_id seen t key hash s) sound (λ s' done.
      post-IsSound scan now event_id t p.valid.entry
        (asked-IsCanonical scan t.journal_entry.postings (
          subst (All (λ q. scan q.account_id ≡ some q.account_id)) (sym p.same_postings) canonical))
        seen key hash s s' done sound)

-- On Postgres, `PostTransactionUseCase` keeps a sound store sound, whether it succeeds or fails, for
-- every command that names its accounts by canonical identifiers.
pub execute-IsSound :
    (scan : Text → Option Uuid) (now : Time) (event_id : ℕ → Uuid) (seen : Lookups)
    (c : PostTransactionCommand) (s : Store)
    → All (λ p. scan p.account_id ≡ some p.account_id) c.postings
    → IsSound now s
    → IsSound now (execute (postgres scan now event_id seen) c s).0
unfolding execute
execute-IsSound scan now event_id seen c s canonical sound =
    posted_by-IsSound scan now event_id seen c s (prepare c) canonical refl sound
