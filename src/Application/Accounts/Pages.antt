-- ===== src/Application/Accounts/Pages.antt =====
-- Reading an account page by page.
use distributed_wallet_ledge.Prelude.{
  ℕ, zero, suc, ◌≤◌, ◌<◌, ◌≡◌, refl, sym, ap, subst, ◌∙◌, false, leb, length, take, List, [], ◌∷◌,
  ◌++◌, Option, none, some, Text, All, arith,
}
use distributed_wallet_ledge.Errors.{Result, ok, err, ◌>>=◌, >>=-eq-ok, ok-injective, message}
use distributed_wallet_ledge.Domain.Ids.{AccountId, new_id}
use distributed_wallet_ledge.Domain.Currency.{new_currency}
use distributed_wallet_ledge.Postgres.Tables.{Uuid}
use distributed_wallet_ledge.Postgres.Accounts.{
  AccountEntryRow, map_account_entry, map_account_entries, list_entries,
}
use distributed_wallet_ledge.Application.Holds.{Port}
use distributed_wallet_ledge.Application.Accounts.{
  AccountEntry, AccountEntriesCursor, AccountEntriesPage, ListAccountEntriesCommand, cursor_of,
  last_cursor, page_of, list_account_entries,
}

-- A client that follows the cursors, with fuel.
abbrev pub next_page :
    AccountEntriesPage
    → (AccountEntriesCursor → Result (List AccountEntry))
    → Result (List AccountEntry)
next_page page read = elim page.next_cursor [
  | none ↦ ok page.entries
  | some cursor ↦ read cursor >>= (λ rest. ok (page.entries ++ rest))
]

unfoldable pub read_all {ℓ} :
    {S : Type ℓ}
    → (AccountId → ℕ → Option AccountEntriesCursor → Port S (List AccountEntry))
    → ℕ
    → ListAccountEntriesCommand
    → S
    → Result (List AccountEntry)
read_all list_entries zero c s = err message
read_all list_entries (suc n) c s = (list_account_entries list_entries c s).1 >>= (λ page.
    next_page page (λ cursor. read_all list_entries n (record c { cursor = some cursor }) s))

-- The identifier of a row in the form that the constructors leave, canonical.
abbrev pub IsCleanRow : (Text → Option Uuid) → AccountEntryRow → Type 0
IsCleanRow scan r =
    (new_id r.posting_id ≡ ok r.posting_id) × (scan r.posting_id ≡ some r.posting_id)

map_account_entry-cursor :
    (scan : Text → Option Uuid) (r : AccountEntryRow) (e : AccountEntry)
    → IsCleanRow scan r
    → map_account_entry r ≡ ok e
    → cursor_of e ≡ record { created_at = r.created_at; posting_id = r.posting_id }
unfolding map_account_entry
map_account_entry-cursor scan r e (clean, _) h =
    let (id, named, h₁) = >>=-eq-ok (new_id r.posting_id) _ h in
    let (_, _, h₂) = >>=-eq-ok (new_id r.journal_entry_id) _ h₁ in
    let (_, _, h₃) = >>=-eq-ok (new_id r.transaction_id) _ h₂ in
    let (_, _, h₄) = >>=-eq-ok (new_currency r.currency) _ h₃ in
    ap cursor_of (sym (ok-injective h₄))
    ∙ ap (λ u. record { created_at = r.created_at; posting_id = u })
        (ok-injective (sym named ∙ clean))

pub map_account_entries-take :
    (n : ℕ) (rows : List AccountEntryRow) (es : List AccountEntry)
    → map_account_entries rows ≡ ok es
    → map_account_entries (take n rows) ≡ ok (take n es)
unfolding map_account_entries
map_account_entries-take zero rows es h = refl
map_account_entries-take (suc n) [] es h = ap (λ x. ok (take (suc n) x)) (ok-injective h)
map_account_entries-take (suc n) (r ∷ rows) es h =
    let (e, one, h₁) = >>=-eq-ok (map_account_entry r) _ h in
    let (fs, others, h₂) = >>=-eq-ok (map_account_entries rows) _ h₁ in
    subst (λ x. map_account_entries (take (suc n) (r ∷ rows)) ≡ ok (take (suc n) x))
      (ok-injective h₂) (rw (one, map_account_entries-take n rows fs others) refl)

-- The rows on both sides of a full page.
pub record Split (n : ℕ) (rows : List AccountEntryRow) (es : List AccountEntry) : Type 0 where
  pub shown : List AccountEntryRow
  pub last_row : AccountEntryRow
  pub left : List AccountEntryRow
  pub entries : List AccountEntry
  pub rows_are : rows ≡ shown ++ last_row ∷ left
  pub left_maps : map_account_entries left ≡ ok entries
  pub entries_are : es ≡ take n es ++ entries
  pub fewer : length entries < length es
  pub cursor_is :
      last_cursor (take n es)
      ≡ some (record { created_at = last_row.created_at; posting_id = last_row.posting_id })

last_cursor-cons :
    (n : ℕ) (e : AccountEntry) (fs : List AccountEntry)
    → n < length fs
    → last_cursor (e ∷ take (suc n) fs) ≡ last_cursor (take (suc n) fs)
last_cursor-cons n e [] h = absurd (omega arith)
last_cursor-cons n e (f ∷ fs) h = refl

Split-cons :
    (n : ℕ) (r : AccountEntryRow) (e : AccountEntry) (rows : List AccountEntryRow)
    (fs : List AccountEntry)
    → n < length fs
    → Split (suc n) rows fs
    → Split (suc (suc n)) (r ∷ rows) (e ∷ fs)
Split-cons n r e rows fs long s = record {
  shown = r ∷ s.shown;
  last_row = s.last_row;
  left = s.left;
  entries = s.entries;
  rows_are = ap (λ x. r ∷ x) s.rows_are;
  left_maps = s.left_maps;
  entries_are = ap (λ x. e ∷ x) s.entries_are;
  fewer = let below = s.fewer in omega (arith, below);
  cursor_is = last_cursor-cons n e fs long ∙ s.cursor_is;
}

pub Split-page :
    (scan : Text → Option Uuid) (n : ℕ) (rows : List AccountEntryRow) (es : List AccountEntry)
    → All (IsCleanRow scan) rows
    → map_account_entries rows ≡ ok es
    → n < length es
    → Split (suc n) rows es
unfolding map_account_entries
Split-page scan n [] es clean h long =
    let none_left = ap length (ok-injective h) in absurd (omega (arith, none_left, long))
Split-page scan zero (r ∷ rows) es (first, rest) h long =
    let (e, one, h₁) = >>=-eq-ok (map_account_entry r) _ h in
    let (fs, others, h₂) = >>=-eq-ok (map_account_entries rows) _ h₁ in
    subst (λ x. Split 1 (r ∷ rows) x) (ok-injective h₂)
      (record {
        shown = [];
        last_row = r;
        left = rows;
        entries = fs;
        rows_are = refl;
        left_maps = others;
        entries_are = refl;
        fewer = omega arith;
        cursor_is = ap some (map_account_entry-cursor scan r e first one);
      })
Split-page scan (suc n) (r ∷ rows) es (first, rest) h long =
    let (e, one, h₁) = >>=-eq-ok (map_account_entry r) _ h in
    let (fs, others, h₂) = >>=-eq-ok (map_account_entries rows) _ h₁ in
    let size = ap length (ok-injective h₂) in
    let long' : n < length fs = omega (arith, size, long) in
    subst (λ x. Split (suc (suc n)) (r ∷ rows) x) (ok-injective h₂)
      (Split-cons n r e rows fs long' (Split-page scan n rows fs rest others long'))

take-short : (n : ℕ) (es : List AccountEntry) → length es ≤ n → take (suc n) es ≡ es
take-short n [] h = refl
take-short zero (e ∷ es) h = absurd (omega arith)
take-short (suc n) (e ∷ es) h = ap (λ x. e ∷ x) (take-short n es (omega arith))

take-take : (n : ℕ) (es : List AccountEntry) → take n (take (suc n) es) ≡ take n es
take-take zero es = refl
take-take (suc n) [] = refl
take-take (suc n) (e ∷ es) = ap (λ x. e ∷ x) (take-take n es)

length-take : (n : ℕ) (es : List AccountEntry) → n < length es → length (take (suc n) es) ≡ suc n
length-take n [] h = absurd (omega arith)
length-take zero (e ∷ es) h = refl
length-take (suc n) (e ∷ es) h = ap suc (length-take n es (omega arith))

pub page_of-last :
    (n : ℕ) (es : List AccountEntry)
    → length es ≤ n
    → page_of n (take (suc n) es) ≡ record { entries = es; next_cursor = none }
unfolding page_of
page_of-last n es h = rw (take-short n es h) (ground arith)

pub page_of-more :
    (n : ℕ) (es : List AccountEntry)
    → n < length es
    → page_of n (take (suc n) es)
      ≡ record { entries = take n es; next_cursor = last_cursor (take n es) }
unfolding page_of
page_of-more n es h =
    let full : leb (length (take (suc n) es)) n ≡ false = rw (length-take n es h) (ground arith) in
    rw (full, take-take n es) refl
