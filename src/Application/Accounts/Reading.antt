-- ===== src/Application/Accounts/Reading.antt =====
-- Following the cursors of an account's pages on Postgres.
use mathlib.Core.List.{append_assoc}
use distributed_wallet_ledge.Prelude.{
  ℕ, zero, suc, ◌+◌, ◌<◌, ◌≡◌, refl, sym, ap, subst, ◌∙◌, leb, length, take, List, [], ◌∷◌, ◌++◌,
  Option, none, some, Text, All, arith, Bool-cases, inl, inr, leb→le, ℤ,
}
use distributed_wallet_ledge.Errors.{ok}
use distributed_wallet_ledge.Domain.Ids.{AccountId}
use distributed_wallet_ledge.Domain.Hold.{Time}
use distributed_wallet_ledge.Postgres.Tables.{Uuid, Store}
use distributed_wallet_ledge.Postgres.Transactions.{to_uuid}
use distributed_wallet_ledge.Postgres.Accounts.{
  AccountEntryRow, entries_in, rows_after, map_account_entries, page_rows, list_entries,
}
use distributed_wallet_ledge.Postgres.Accounts.Order.{AreOrdered, All-middle, rows_after-split}
use distributed_wallet_ledge.Postgres.Accounts.Keys.{AreKeyed, account_entries-AreOrdered}
use distributed_wallet_ledge.Application.Holds.{Port}
use distributed_wallet_ledge.Application.Accounts.{
  AccountEntry, AccountEntriesCursor, ListAccountEntriesCommand, check_list, page_of,
  list_account_entries,
}
use distributed_wallet_ledge.Application.Accounts.Pages.{
  read_all, IsCleanRow, Split, Split-page, page_of-last, page_of-more, map_account_entries-take,
}

-- The repository on Postgres as the port.
abbrev pub entries_port :
    (Text → Option Uuid)
    → (Uuid → Time)
    → AccountId
    → ℕ
    → Option AccountEntriesCursor
    → Port Store (List AccountEntry)
entries_port scan created_at a n cursor s = (s, list_entries scan created_at a n cursor s)

All-suffix :
    (P : AccountEntryRow → Type 0) (xs ys : List AccountEntryRow) → All P (xs ++ ys) → All P ys
All-suffix P [] ys h = h
All-suffix P (x ∷ xs) ys (first, rest) = All-suffix P xs ys rest

module _ (scan : Text → Option Uuid) (created_at : Uuid → Time) (c : ListAccountEntriesCommand)
    (u : Uuid) (s : Store) (m : ℕ) (named : scan c.account_id ≡ some u)
    (checked : check_list c ≡ ok (suc m)) (ordered : AreOrdered (entries_in created_at u s))
    (clean : All (IsCleanRow scan) (entries_in created_at u s)) where
  abbrev all_rows : List AccountEntryRow
  all_rows = entries_in created_at u s

  abbrev at_cursor : Option AccountEntriesCursor → ListAccountEntriesCommand
  at_cursor cursor = record c { cursor = cursor }

  page-eq :
      (cursor : Option AccountEntriesCursor) (rest : List AccountEntryRow) (es : List AccountEntry)
      → page_rows scan cursor all_rows ≡ ok rest
      → map_account_entries rest ≡ ok es
      → list_account_entries (entries_port scan created_at) (at_cursor cursor) s
        ≡ (s, ok (page_of (suc m) (take (suc (suc m)) es)))
  unfolding list_account_entries list_entries to_uuid check_list
  page-eq cursor rest es rows maps =
      let one_more : suc m + 1 ≡ suc (suc m) = omega arith in
      rw (checked, named, one_more, rows, map_account_entries-take (suc (suc m)) rest es maps) refl

  next_rows :
      (xs rest : List AccountEntryRow) (es : List AccountEntry)
      → all_rows ≡ xs ++ rest
      → (p : Split (suc m) rest es)
      → page_rows scan
          (some (record { created_at = p.last_row.created_at; posting_id = p.last_row.posting_id }))
          all_rows
        ≡ ok p.left
  unfolding to_uuid
  next_rows xs rest es split p =
      let whole : all_rows ≡ (xs ++ p.shown) ++ p.last_row ∷ p.left =
        split
        ∙ ap (λ x. xs ++ x) p.rows_are
        ∙ sym (append_assoc xs p.shown (p.last_row ∷ p.left)) in
      let canonical =
        (All-middle (IsCleanRow scan) (xs ++ p.shown) p.last_row p.left
          (subst (All (IsCleanRow scan)) whole clean)).1 in
      let after =
        rows_after-split (xs ++ p.shown) p.last_row p.left (subst AreOrdered whole ordered) in
      rw canonical
        (ap ok (ap (rows_after p.last_row.created_at p.last_row.posting_id) whole ∙ after))

  regrouped :
      (xs rest : List AccountEntryRow) (es : List AccountEntry)
      → all_rows ≡ xs ++ rest
      → (p : Split (suc m) rest es) → all_rows ≡ (xs ++ (p.shown ++ p.last_row ∷ [])) ++ p.left
  regrouped xs rest es split p =
      split
      ∙ ap (λ x. xs ++ x) (p.rows_are ∙ sym (append_assoc p.shown (p.last_row ∷ []) p.left))
      ∙ sym (append_assoc xs (p.shown ++ p.last_row ∷ []) p.left)

  read_from :
      (n : ℕ) (cursor : Option AccountEntriesCursor) (xs rest : List AccountEntryRow)
      (es : List AccountEntry)
      → all_rows ≡ xs ++ rest
      → page_rows scan cursor all_rows ≡ ok rest
      → map_account_entries rest ≡ ok es
      → length es < n
      → read_all (entries_port scan created_at) n (at_cursor cursor) s ≡ ok es
  unfolding read_all
  read_from zero cursor xs rest es split rows maps enough = absurd (omega arith)
  read_from (suc n) cursor xs rest es split rows maps enough =
      let page = page-eq cursor rest es rows maps in
      elim (Bool-cases (leb (length es) (suc m))) [
        | inl short ↦ rw (page, page_of-last (suc m) es (leb→le (length es) (suc m) short)) refl
        | inr long ↦
            let more : suc m < length es = ground arith in
            let p =
              Split-page scan m rest es
                (All-suffix (IsCleanRow scan) xs rest (subst (All (IsCleanRow scan)) split clean))
                maps (omega (arith, more)) in
            let fewer = p.fewer in
            let rest_read =
              read_from n
                (some (record {
                  created_at = p.last_row.created_at;
                  posting_id = p.last_row.posting_id;
                }))
                (xs ++ (p.shown ++ p.last_row ∷ [])) p.left p.entries (regrouped xs rest es split p)
                (next_rows xs rest es split p) p.left_maps (omega (arith, fewer, enough)) in
            rw (page, page_of-more (suc m) es more, p.cursor_is, rest_read)
              (ap ok (sym p.entries_are))
      ]

-- A client that asks for the entries of an account page by page, with the cursor of each page, reads
-- each entry once, in the order `created_at DESC, id DESC`: its pages put together are all the
-- entries, for every limit that is accepted, and it is through after at most one page more than there are entries, if the postings
-- have their primary key, the entries can be mapped, and their identifiers are canonical.
pub read_all-entries :
    (scan : Text → Option Uuid) (created_at : Uuid → Time) (account_id : AccountId) (limit : ℤ)
    (u : Uuid) (s : Store) (m : ℕ) (es : List AccountEntry)
    → scan account_id ≡ some u
    → check_list (record { account_id = account_id; limit = limit; cursor = none }) ≡ ok (suc m)
    → AreKeyed s.postings
    → All (IsCleanRow scan) (entries_in created_at u s)
    → map_account_entries (entries_in created_at u s) ≡ ok es
    → read_all
        (entries_port scan created_at)
        (suc (length es))
        (record { account_id = account_id; limit = limit; cursor = none })
        s
      ≡ ok es
read_all-entries scan created_at account_id limit u s m es named checked keyed clean maps =
    read_from scan created_at (record { account_id = account_id; limit = limit; cursor = none }) u s
      m named checked
      (account_entries-AreOrdered created_at u s.transactions s.journal_entries s.postings keyed)
      clean (suc (length es)) none [] (entries_in created_at u s) es refl refl maps (omega arith)
