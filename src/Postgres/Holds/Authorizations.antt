-- ===== src/Postgres/Holds/Authorizations.antt =====
-- What `Authorize` does to the funds.
use distributed_wallet_ledge.Prelude.{
  zero, suc, ◌≡◌, refl, sym, ap, subst, false, not, ◌=text◌, ◌∷◌, Option, none, some, Text, arith,
  ℤ, pos, negsuc, ltb_ℤ, ◌-64◌,
}
use distributed_wallet_ledge.Errors.{
  Result, ok, err, fail_if, >>=-eq-ok, or_fail, ok-injective, fail_if-eq-ok, wrap_error,
  wrap_error-eq-ok, hold_idempotency_conflict, insufficient_funds, wallet_not_found,
}
use distributed_wallet_ledge.Domain.Posting.{is_debit, is_credit}
use distributed_wallet_ledge.Domain.Hold.{Hold, Time}
use distributed_wallet_ledge.Postgres.Tables.{Uuid, HoldRow, WalletRow, Store}
use distributed_wallet_ledge.Postgres.Queries.{
  get_wallet_by_id, get_wallet_hold_by_idempotency_key, active_holds, posted, get_ledger_balance,
  LedgerBalance, create_wallet_hold,
}
use distributed_wallet_ledge.Postgres.Transactions.{to_uuid}
use distributed_wallet_ledge.Postgres.Holds.{
  existing_or_new, mapped, authorize_in_transaction, authorize,
}
use distributed_wallet_ledge.Postgres.Holds.Captures.{or_fail-eq-ok}
use distributed_wallet_ledge.Postgres.Solvency.Invariant.{
  IsSolvent-covers, covers-IsSolvent, IsSound,
}
use distributed_wallet_ledge.Postgres.Solvency.Writes.{get_ledger_balance-eq}
use distributed_wallet_ledge.Postgres.Holds.Owners.{
  HasWalletKeys, find-has_wallet, available_fits, grown_fits,
}

-- What a successful insertion of a hold has done.
record Inserted (w : Uuid) (amount : ℤ) (s s' : Store) (row : HoldRow) : Type 0 where
  amount_is : amount ≡ pos row.amount_minor_units
  names : row.wallet_id ≡ w
  grown : s'.wallet_holds ≡ row ∷ s.wallet_holds
  same_wallets : s'.wallets ≡ s.wallets
  same_postings : s'.postings ≡ s.postings

create_wallet_hold-Inserted :
    (now : Time) (id w : Uuid) (amount : ℤ) (currency key hash : Text) (expires : Time)
    (s s' : Store) (row : HoldRow)
    → create_wallet_hold now id w amount currency key hash expires s ≡ ok (s', row)
    → Inserted w amount s s' row
unfolding create_wallet_hold
create_wallet_hold-Inserted now id w (pos zero) currency key hash expires s s' row h = cc
create_wallet_hold-Inserted now id w (negsuc n) currency key hash expires s s' row h = cc
create_wallet_hold-Inserted now id w (pos (suc n)) currency key hash expires s s' row h =
    ground arith

Inserted-IsSound :
    (now : Time) (w : WalletRow) (u : Uuid) (amount : ℤ) (s s' : Store) (row : HoldRow)
    (b : LedgerBalance)
    → HasWalletKeys s.wallets
    → get_wallet_by_id u s ≡ some w
    → get_ledger_balance now w.ledger_account_id s ≡ ok b
    → ltb_ℤ (b.total_credits -64 b.total_debits -64 b.active_holds) amount ≡ false
    → Inserted w.id amount s s' row
    → IsSound now s
    → IsSound now s'
unfolding get_wallet_by_id active_holds
Inserted-IsSound now w u amount s s' row b keys found read enough i (solvent, even) =
    let (b_eq, bounded) = get_ledger_balance-eq now w.ledger_account_id s b read in
    let own = find-has_wallet u s.wallets w found in
    let enough' : ltb_ℤ
          (pos (posted is_credit w.ledger_account_id s.postings)
            -64 pos (posted is_debit w.ledger_account_id s.postings)
            -64 pos (active_holds now w.ledger_account_id s.wallets s.wallet_holds))
          (pos row.amount_minor_units)
        ≡ false =
      rw (b_eq, i.amount_is) at enough in
    let fits =
      available_fits (posted is_credit w.ledger_account_id s.postings)
        (posted is_debit w.ledger_account_id s.postings)
        (active_holds now w.ledger_account_id s.wallets s.wallet_holds) row.amount_minor_units
        bounded (IsSolvent-covers now s w.ledger_account_id solvent own) enough' in
    rw (i.same_postings, i.same_wallets, i.grown)
      (
        covers-IsSolvent now (record s { wallet_holds = row ∷ s.wallet_holds })
            (λ a wallet.
              grown_fits now w u a s row keys found i.names fits
                (IsSolvent-covers now s a solvent wallet)),
        even,
      )

existing_or_new-IsSound :
    (scan : Text → Option Uuid) (now : Time) (hold : Hold) (id u : Uuid) (w : WalletRow)
    (key hash : Text) (o : Option HoldRow) (s : Store) (p : Store × HoldRow)
    → HasWalletKeys s.wallets
    → get_wallet_by_id u s ≡ some w
    → existing_or_new scan now hold id w key hash o s ≡ ok p
    → IsSound now s
    → IsSound now p.0
unfolding existing_or_new
existing_or_new-IsSound scan now hold id u w key hash (some row) s p keys found h sound =
    let (_, _, h₁) =
      >>=-eq-ok (fail_if (not (row.request_hash =text hash)) hold_idempotency_conflict) _ h in
    subst (λ (q : Store × HoldRow). IsSound now q.0) (ok-injective h₁) sound
existing_or_new-IsSound scan now hold id u w key hash none s p keys found h sound =
    let (b, read, h₁) = >>=-eq-ok (wrap_error (get_ledger_balance now w.ledger_account_id s)) _ h in
    let (_, enough, h₂) =
      >>=-eq-ok
        (fail_if
          (ltb_ℤ (b.total_credits -64 b.total_debits -64 b.active_holds)
            hold.amount.amount_minor_units)
          insufficient_funds)
        _ h₁ in
    let insert =
      create_wallet_hold now id w.id hold.amount.amount_minor_units hold.amount.currency.code key
        hash hold.expires_at s in
    let made =
      create_wallet_hold-Inserted now id w.id hold.amount.amount_minor_units
        hold.amount.currency.code key hash hold.expires_at s p.0 p.1
        (wrap_error-eq-ok insert p h₂) in
    Inserted-IsSound now w u hold.amount.amount_minor_units s p.0 p.1 b keys found
      (wrap_error-eq-ok (get_ledger_balance now w.ledger_account_id s) b read)
      (fail_if-eq-ok _ insufficient_funds enough) made sound

mapped-IsSound :
    (scan : Text → Option Uuid) (now : Time) (s : Store) (r : Result (Store × HoldRow))
    → IsSound now s
    → ((p : Store × HoldRow) → r ≡ ok p → IsSound now p.0)
    → IsSound now (mapped s r).0
mapped-IsSound scan now s (ok p) old new = new p refl
mapped-IsSound scan now s (err e) old new = old

-- `Authorize` keeps a sound store sound, whether it succeeds or fails: when the wallets have their
-- primary key, what is held after it still fits in what the account holds.
pub authorize-IsSound :
    (scan : Text → Option Uuid) (now : Time) (hold : Hold) (key hash : Text) (s : Store)
    → HasWalletKeys s.wallets
    → IsSound now s
    → IsSound now (authorize scan now hold key hash s).0
unfolding authorize authorize_in_transaction
authorize-IsSound scan now hold key hash s keys sound =
    mapped-IsSound scan now s (authorize_in_transaction scan now hold key hash s) sound (λ p h.
      let (id, _, h₁) = >>=-eq-ok (to_uuid scan hold.id) _ h in
      let (u, _, h₂) = >>=-eq-ok (to_uuid scan hold.wallet_id) _ h₁ in
      let (w, found, h₃) = >>=-eq-ok (or_fail (get_wallet_by_id u s) wallet_not_found) _ h₂ in
      existing_or_new-IsSound scan now hold id u w key hash
        (get_wallet_hold_by_idempotency_key u key s) s p keys
        (or_fail-eq-ok (get_wallet_by_id u s) wallet_not_found w found) h₃ sound)

existing_or_new-wallets :
    (scan : Text → Option Uuid) (now : Time) (hold : Hold) (id : Uuid) (w : WalletRow)
    (key hash : Text) (o : Option HoldRow) (s : Store) (p : Store × HoldRow)
    → existing_or_new scan now hold id w key hash o s ≡ ok p
    → p.0.wallets ≡ s.wallets
unfolding existing_or_new
existing_or_new-wallets scan now hold id w key hash (some row) s p h =
    let (_, _, h₁) =
      >>=-eq-ok (fail_if (not (row.request_hash =text hash)) hold_idempotency_conflict) _ h in
    ap (λ (q : Store × HoldRow). q.0.wallets) (sym (ok-injective h₁))
existing_or_new-wallets scan now hold id w key hash none s p h =
    let (b, _, h₁) = >>=-eq-ok (wrap_error (get_ledger_balance now w.ledger_account_id s)) _ h in
    let (_, _, h₂) =
      >>=-eq-ok
        (fail_if
          (ltb_ℤ (b.total_credits -64 b.total_debits -64 b.active_holds)
            hold.amount.amount_minor_units)
          insufficient_funds)
        _ h₁ in
    (create_wallet_hold-Inserted now id w.id hold.amount.amount_minor_units
      hold.amount.currency.code key hash hold.expires_at s p.0 p.1
      (wrap_error-eq-ok
        (create_wallet_hold now id w.id hold.amount.amount_minor_units hold.amount.currency.code key
          hash hold.expires_at s)
        p h₂)).same_wallets

mapped-wallets :
    (s : Store) (r : Result (Store × HoldRow))
    → ((p : Store × HoldRow) → r ≡ ok p → p.0.wallets ≡ s.wallets)
    → (mapped s r).0.wallets ≡ s.wallets
mapped-wallets s (ok p) new = new p refl
mapped-wallets s (err e) new = refl

pub authorize-wallets :
    (scan : Text → Option Uuid) (now : Time) (hold : Hold) (key hash : Text) (s : Store)
    → (authorize scan now hold key hash s).0.wallets ≡ s.wallets
unfolding authorize authorize_in_transaction
authorize-wallets scan now hold key hash s =
    mapped-wallets s (authorize_in_transaction scan now hold key hash s) (λ p h.
      let (id, _, h₁) = >>=-eq-ok (to_uuid scan hold.id) _ h in
      let (u, _, h₂) = >>=-eq-ok (to_uuid scan hold.wallet_id) _ h₁ in
      let (w, _, h₃) = >>=-eq-ok (or_fail (get_wallet_by_id u s) wallet_not_found) _ h₂ in
      existing_or_new-wallets scan now hold id w key hash
        (get_wallet_hold_by_idempotency_key u key s) s p h₃)
