-- ===== src/Application/Accounts.antt =====
-- internal/ledger/application/account: create.go and list_entries.go.
pub mod Pages
pub mod Reading
use distributed_wallet_ledge.Prelude.{
  ℕ, zero, suc, ◌+◌, ℤ, pos, negsuc, pos_part, not, ◌||◌, leb, ltb_ℤ, eqb_ℤ, length, take, List, [],
  ◌∷◌, Option, none, some, Text, if◌then◌else◌,
}
use distributed_wallet_ledge.Errors.{
  Result, ok, err, ◌>>=◌, ◌>>◌, fail_if, invalid_id, invalid_page_size,
}
use distributed_wallet_ledge.Domain.Ids.{
  AccountId, PostingId, JournalEntryId, TransactionId, is_zero,
}
use distributed_wallet_ledge.Domain.Currency.{Currency, new_currency}
use distributed_wallet_ledge.Domain.Posting.{PostingDirection}
use distributed_wallet_ledge.Domain.Account.{Account, new_account}
use distributed_wallet_ledge.Domain.Hold.{Time}
use distributed_wallet_ledge.Application.Holds.{Port, then_call, computed, answer}

pub record CreateAccountCommand : Type 0 where
  pub id : AccountId
  pub code : Text
  pub name : Text
  pub currency_code : Text

unfoldable pub make_account : CreateAccountCommand → Result Account
make_account c = do currency ← new_currency c.currency_code; new_account c.id c.code c.name currency

unfoldable pub create_account {ℓ} :
    {S : Type ℓ} → (Account → Port S (Unit {0})) → CreateAccountCommand → Port S Account
unfolding make_account
create_account create c =
    computed (make_account c) (λ account s. then_call (create account s) (λ _. answer account))

pub record AccountEntry : Type 0 where
  pub posting_id : PostingId
  pub journal_entry_id : JournalEntryId
  pub transaction_id : TransactionId
  pub description : Text
  pub currency : Currency
  pub direction : PostingDirection
  pub amount_minor : ℤ
  pub created_at : Time

pub record AccountEntriesCursor : Type 0 where
  pub created_at : Time
  pub posting_id : PostingId

pub record ListAccountEntriesCommand : Type 0 where
  pub account_id : AccountId
  pub limit : ℤ
  pub cursor : Option AccountEntriesCursor

pub record AccountEntriesPage : Type 0 where
  pub entries : List AccountEntry
  pub next_cursor : Option AccountEntriesCursor

-- `DefaultAccountEntriesPageSize` and `MaxAccountEntriesPageSize`.
abbrev pub default_page_size : ℕ
default_page_size = 20

abbrev pub max_page_size : ℕ
max_page_size = 100

abbrev pub page_limit : ℤ → ℤ
page_limit limit = if eqb_ℤ limit (pos 0) then pos default_page_size else limit

-- The guards of `ListAccountEntriesUseCase.Execute`, and the limit.
unfoldable pub check_list : ListAccountEntriesCommand → Result ℕ
check_list c = do
  fail_if (is_zero c.account_id) invalid_id
  let limit = page_limit c.limit
  fail_if (ltb_ℤ limit (pos 1) || ltb_ℤ (pos max_page_size) limit) invalid_page_size
  ok (pos_part limit)

abbrev pub cursor_of : AccountEntry → AccountEntriesCursor
cursor_of e = record { created_at = e.created_at; posting_id = e.posting_id }

-- The cursor of the last entry of a list.
abbrev pub last_cursor : List AccountEntry → Option AccountEntriesCursor
last_cursor [] = none
last_cursor (e ∷ []) = some (cursor_of e)
last_cursor (e ∷ f ∷ es) = last_cursor (f ∷ es)

-- The page of the entries that were fetched, one more than the limit where there are so many.
unfoldable pub page_of : ℕ → List AccountEntry → AccountEntriesPage
page_of limit entries =
    if leb (length entries) limit
    then record { entries = entries; next_cursor = none }
    else record { entries = take limit entries; next_cursor = last_cursor (take limit entries) }

unfoldable pub list_account_entries {ℓ} :
    {S : Type ℓ}
    → (AccountId → ℕ → Option AccountEntriesCursor → Port S (List AccountEntry))
    → ListAccountEntriesCommand
    → Port S AccountEntriesPage
unfolding check_list page_of
list_account_entries list_entries c = computed (check_list c) (λ limit s.
    then_call (list_entries c.account_id (limit + 1) c.cursor s)
      (λ entries. answer (page_of limit entries)))
