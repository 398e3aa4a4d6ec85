-- ===== src/Application/Balance.antt =====
-- internal/ledger/application/wallet/balance.go.
use distributed_wallet_ledge.Prelude.{
  ℕ, ◌+◌, ◌≤◌, ◌≡◌, sym, subst, ◌↔◌, ◌∙◌, ℤ, pos, sub_ℕ, ◌||◌, ltb_ℤ, ◌-64◌, ◌-ℤ◌, wrap64-eq,
  wrap64-FitsInt64, FitsInt64, max_int64, int64_half, arith,
}
use distributed_wallet_ledge.Errors.{Result, ok, ◌>>◌, fail_if, invalid_balance_snapshot}
use distributed_wallet_ledge.Domain.Ids.{WalletId}
use distributed_wallet_ledge.Domain.Currency.{Currency}
use distributed_wallet_ledge.Domain.Wallet
use distributed_wallet_ledge.Domain.Wallet.{Wallet}

pub record LedgerBalanceSnapshot : Type 0 where
  pub total_debits : ℤ
  pub total_credits : ℤ
  pub active_holds_minor_units : ℤ

pub record WalletBalance : Type 0 where
  pub wallet_id : WalletId
  pub currency : Currency
  pub ledger_balance_minor_units : ℤ
  pub available_balance_minor_units : ℤ

unfoldable pub calculate_wallet_balance : Wallet → LedgerBalanceSnapshot → Result WalletBalance
calculate_wallet_balance wallet snapshot = do
  Wallet.validate wallet
  fail_if
      (ltb_ℤ snapshot.total_debits (pos 0)
        || ltb_ℤ snapshot.total_credits (pos 0)
        || ltb_ℤ snapshot.active_holds_minor_units (pos 0))
      invalid_balance_snapshot
  let balance = snapshot.total_credits -64 snapshot.total_debits
  let available_balance = balance -64 snapshot.active_holds_minor_units
  ok (record {
    wallet_id = wallet.id;
    currency = wallet.currency;
    ledger_balance_minor_units = balance;
    available_balance_minor_units = available_balance;
  })

difference-eq : (c d : ℕ) → c ≤ max_int64 → d ≤ max_int64 → pos c -64 pos d ≡ sub_ℕ c d
unfolding ◌-ℤ◌
difference-eq c d h k = rw (wrap64-eq (pos c -ℤ pos d) (ground arith)) (ground arith)

available_iff :
    (c d k : ℕ)
    → c ≤ max_int64
    → d ≤ max_int64
    → k ≤ max_int64
    → (sub_ℕ c d -64 pos k ≡ sub_ℕ c (d + k)) ↔ (d + k ≤ c + int64_half)
unfolding ◌-ℤ◌
available_iff c d k hc hd hk =
    let whole : sub_ℕ c d -ℤ pos k ≡ sub_ℕ c (d + k) = ground arith in
    (
      λ e.
          let fits : FitsInt64 (sub_ℕ c (d + k)) =
            subst FitsInt64 e (wrap64-FitsInt64 (sub_ℕ c d -ℤ pos k)) in
          ground arith,
      λ h. wrap64-eq (sub_ℕ c d -ℤ pos k) (subst FitsInt64 (sym whole) (ground arith)) ∙ whole,
    )

-- For a valid wallet and totals that a BIGINT holds, `CalculateWalletBalance` succeeds; its ledger
-- balance is credits less debits, and its available balance is that less the holds exactly if
-- debits and holds exceed the credits by no more than 2 ^ 63, beyond which it wraps around.
pub calculate_wallet_balance-exact :
    (w : Wallet) (c d k : ℕ)
    → Wallet.validate w ≡ ok tt
    → c ≤ max_int64
    → d ≤ max_int64
    → k ≤ max_int64
    → (b : WalletBalance) × (calculate_wallet_balance w
          (record { total_debits = pos d; total_credits = pos c; active_holds_minor_units = pos k })
        ≡ ok b)
      × (b.ledger_balance_minor_units ≡ sub_ℕ c d)
      × ((b.available_balance_minor_units ≡ sub_ℕ c (d + k)) ↔ (d + k ≤ c + int64_half))
unfolding calculate_wallet_balance
calculate_wallet_balance-exact w c d k valid hc hd hk = (
  record {
    wallet_id = w.id;
    currency = w.currency;
    ledger_balance_minor_units = pos c -64 pos d;
    available_balance_minor_units = pos c -64 pos d -64 pos k;
  },
  rw valid (ground arith),
  difference-eq c d hc hd,
  rw (difference-eq c d hc hd) (available_iff c d k hc hd hk),
)
