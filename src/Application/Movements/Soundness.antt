-- ===== src/Application/Movements/Soundness.antt =====
-- Deposits, withdrawals and transfers on the store of Postgres.
use distributed_wallet_ledge.Prelude.{
  ℕ, ℤ, Bool, ◌≡◌, refl, sym, ap, subst, ◌∙◌, List, [], ◌∷◌, Text, Option, none, some, All,
  Bool-cases, inl, inr,
}
use distributed_wallet_ledge.Errors.{
  Result, ok, err, >>=-eq-ok, or_fail-eq-ok, checked-eq-ok, ok-injective, wrap_error-eq-ok, or_fail,
  wallet_not_found,
}
use distributed_wallet_ledge.Domain.Ids.{WalletId, AccountId, new_id}
use distributed_wallet_ledge.Domain.Transaction.{Transaction}
use distributed_wallet_ledge.Domain.Wallet.{Wallet, reconstitute_wallet}
use distributed_wallet_ledge.Domain.Hold.{Time}
use distributed_wallet_ledge.Postgres.Tables.{Uuid, Store, WalletRow}
use distributed_wallet_ledge.Postgres.Solvency.Invariant.{IsSound}
use distributed_wallet_ledge.Postgres.Solvency.Posts.{post-wallets}
use distributed_wallet_ledge.Postgres.Queries.{find, get_wallet_by_id}
use distributed_wallet_ledge.Postgres.Transactions.{Lookups, to_uuid, post}
use distributed_wallet_ledge.Postgres.Wallets.{get_by_id, ledger_balance, map_wallet}
use distributed_wallet_ledge.Domain.Currency.{new_currency}
use distributed_wallet_ledge.Application.Balance.{WalletBalance}
use distributed_wallet_ledge.Application.Holds.{Port}
use distributed_wallet_ledge.Application.Ports.{then_call-keeps, computed-keeps}
use distributed_wallet_ledge.Application.PostTransaction.{
  PostTransactionCommand, prepare, returned, posted_by, execute,
}
use distributed_wallet_ledge.Application.Soundness.{postgres, committed, execute-IsSound}
use distributed_wallet_ledge.Application.Movements.{
  MovementPorts, DepositWalletCommand, WithdrawWalletCommand, TransferWalletCommand, check_deposit,
  check_withdrawal, check_transfer, can_deposit, can_withdraw, can_transfer, has_funds,
  deposit_command, withdrawal_command, transfer_command, as_funds, project, deposit, withdraw,
  transfer,
}
use distributed_wallet_ledge.Application.Movements.Crossings.{Movement, move, Crosses}

as_funds-keeps {ℓ κ} :
    {S : Type ℓ} {A : Type 0} (P : S → Type κ) (out : S × Result A) → P out.0 → P (as_funds out).0
as_funds-keeps P (s, ok a) h = h
as_funds-keeps P (s, err e) h = h

-- The clearing account of a movement, where it has one.
abbrev pub Clearing {κ} : (AccountId → Type κ) → Movement → Type κ
Clearing Q (Movement.deposits c) = Q c.clearing_account_id
Clearing Q (Movement.withdraws c) = Q c.clearing_account_id
Clearing Q (Movement.transfers c) = Unit

-- A predicate on states that the ports keep, the poster for accounts that satisfy `Q`.
module _ {ℓ κ} {S : Type ℓ} (ports : MovementPorts S) (P : S → Type κ) (Q : AccountId → Type κ)
    (reads : (id : WalletId) (s : S) → P s → P (ports.get_by_id id s).0)
    (found : (id : WalletId) (s s' : S) (w : Wallet)
      → P s
      → ports.get_by_id id s ≡ (s', ok w)
      → Q w.ledger_account_id)
    (balances : (a : AccountId) (s : S) → P s → P (ports.get_ledger_balance a s).0)
    (posts : (c : PostTransactionCommand) (s : S) (payer payee : AccountId) (z : _)
      → Crosses z payer payee c
      → Q payer
      → Q payee
      → P s
      → P (ports.post c s).0) where
  deposit-keeps :
      (c : DepositWalletCommand) (s : S) → Q c.clearing_account_id → P s → P (deposit ports c s).0
  unfolding deposit deposit_command
  deposit-keeps c s clearing h = computed-keeps P (check_deposit c) _ s h (λ _ _.
      then_call-keeps P (ports.get_by_id c.wallet_id s) _ (reads c.wallet_id s h) (λ w s₁ e h₁.
        computed-keeps P (can_deposit c w) _ s₁ h₁ (λ _ _.
          as_funds-keeps P (ports.post (deposit_command c w) s₁) (
            posts (deposit_command c w) s₁ c.clearing_account_id w.ledger_account_id
              c.amount_minor_units (c.clearing_posting_id, c.wallet_posting_id, refl) clearing
              (found c.wallet_id s s₁ w h e) h₁))))

  project-keeps :
      (projector : Option (WalletId → Port S WalletBalance)) (id : WalletId) (t : Transaction)
      (s : S)
      → ((p : WalletId → Port S WalletBalance) → projector ≡ some p → P (p id s).0)
      → P s
      → P (project projector id t s).0
  project-keeps none id t s keep h = h
  project-keeps (some p) id t s keep h = keep p refl

  withdraw-keeps :
      (projector : Option (WalletId → Port S WalletBalance))
      → ((p : WalletId → Port S WalletBalance) (id : WalletId) (s : S)
          → projector ≡ some p
          → P s
          → P (p id s).0)
      → (c : WithdrawWalletCommand) (s : S) → Q c.clearing_account_id
      → P s
      → P (withdraw ports projector c s).0
  unfolding withdraw withdrawal_command
  withdraw-keeps projector projects c s clearing h =
      computed-keeps P (check_withdrawal c) _ s h (λ _ _.
        then_call-keeps P (ports.get_by_id c.wallet_id s) _ (reads c.wallet_id s h) (λ w s₁ e h₁.
          let owned = found c.wallet_id s s₁ w h e in
          computed-keeps P (can_withdraw c w) _ s₁ h₁ (λ _ _.
            then_call-keeps P (ports.get_ledger_balance w.ledger_account_id s₁) _
              (balances w.ledger_account_id s₁ h₁)
              (λ snapshot s₂ _ h₂.
                computed-keeps P (has_funds c.amount_minor_units w snapshot) _ s₂ h₂ (λ _ _.
                  then_call-keeps P (as_funds (ports.post (withdrawal_command c w) s₂)) _
                    (as_funds-keeps P (ports.post (withdrawal_command c w) s₂) (
                      posts (withdrawal_command c w) s₂ w.ledger_account_id c.clearing_account_id
                        c.amount_minor_units (c.wallet_posting_id, c.clearing_posting_id, refl)
                        owned clearing h₂))
                    (λ t s₃ _ h₃.
                      project-keeps projector c.wallet_id t s₃
                        (λ p is_p. projects p c.wallet_id s₃ is_p h₃) h₃))))))

  transfer-keeps : (c : TransferWalletCommand) (s : S) → P s → P (transfer ports c s).0
  unfolding transfer transfer_command
  transfer-keeps c s h = computed-keeps P (check_transfer c) _ s h (λ _ _.
      then_call-keeps P (ports.get_by_id c.source_wallet_id s) _ (reads c.source_wallet_id s h)
        (λ source s₁ e h₁.
          let pays = found c.source_wallet_id s s₁ source h e in
          then_call-keeps P (ports.get_by_id c.destination_wallet_id s₁) _
            (reads c.destination_wallet_id s₁ h₁)
            (λ destination s₂ e₂ h₂.
              let takes = found c.destination_wallet_id s₁ s₂ destination h₁ e₂ in
              computed-keeps P (can_transfer source destination) _ s₂ h₂ (λ _ _.
                then_call-keeps P (ports.get_ledger_balance source.ledger_account_id s₂) _
                  (balances source.ledger_account_id s₂ h₂)
                  (λ snapshot s₃ _ h₃.
                    computed-keeps P (has_funds c.amount_minor_units source snapshot) _ s₃ h₃
                      (λ _ _.
                        as_funds-keeps P (ports.post (transfer_command c source destination) s₃) (
                          posts (transfer_command c source destination) s₃ source.ledger_account_id
                            destination.ledger_account_id c.amount_minor_units
                            (c.source_posting_id, c.destination_posting_id, refl) pays takes
                            h₃)))))))

  move-keeps :
      (projector : Option (WalletId → Port S WalletBalance))
      → ((p : WalletId → Port S WalletBalance) (id : WalletId) (s : S)
          → projector ≡ some p
          → P s
          → P (p id s).0)
      → (m : Movement) (s : S) → Clearing Q m
      → P s
      → P (move ports projector m s).0
  move-keeps projector projects (Movement.deposits c) s clearing h = deposit-keeps c s clearing h
  move-keeps projector projects (Movement.withdraws c) s clearing h =
      withdraw-keeps projector projects c s clearing h
  move-keeps projector projects (Movement.transfers c) s clearing h = transfer-keeps c s h

find-All {ℓ κ} :
    {A : Type ℓ} (P : A → Type κ) (test : A → Bool) (rows : List A) (r : A)
    → All P rows
    → find test rows ≡ some r
    → P r
find-All P test [] r h e = cc
find-All P test (x ∷ rows) r (first, rest) e = elim (Bool-cases (test x)) [
  | inl hit ↦
      let kept : some x ≡ some r = rw hit at e in let same : x ≡ r = cc in subst P same first
  | inr miss ↦ find-All P test rows r rest (rw miss at e)
]

-- The account of a wallet is in canonical form.
abbrev pub IsCanonicalAccount : (Text → Option Uuid) → AccountId → Type 0
IsCanonicalAccount scan a = (new_id a ≡ ok a) × (scan a ≡ some a)

abbrev pub AreCanonical : (Text → Option Uuid) → List WalletRow → Type 0
AreCanonical scan = All (λ w. IsCanonicalAccount scan w.ledger_account_id)

map_wallet-account :
    (scan : Text → Option Uuid) (row : WalletRow) (w : Wallet)
    → IsCanonicalAccount scan row.ledger_account_id
    → map_wallet row ≡ ok w
    → scan w.ledger_account_id ≡ some w.ledger_account_id
unfolding map_wallet reconstitute_wallet
map_wallet-account scan row w (clean, canonical) h =
    let (id, _, h₁) = >>=-eq-ok (new_id row.id) _ h in
    let (owner, _, h₂) = >>=-eq-ok (new_id row.owner_id) _ h₁ in
    let (account, named, h₃) = >>=-eq-ok (new_id row.ledger_account_id) _ h₂ in
    let (currency, _, h₄) = >>=-eq-ok (new_currency row.currency) _ h₃ in
    let (_, built) = checked-eq-ok _ _ w h₄ in
    let same : row.ledger_account_id ≡ account = ok-injective (sym clean ∙ named) in
    subst (λ (v : Wallet). scan v.ledger_account_id ≡ some v.ledger_account_id) built
      (subst (λ a. scan a ≡ some a) same canonical)

module _ (scan : Text → Option Uuid) (now : Time) (event_id : ℕ → Uuid) (seen : Lookups) where
  -- The ports on Postgres.
  abbrev pub postgres_ports : MovementPorts Store
  postgres_ports = record {
    get_by_id = λ id s. (s, get_by_id scan id s);
    get_ledger_balance = λ a s. (s, ledger_balance scan now a s);
    post = execute (postgres scan now event_id seen);
  }

  committed-wallets :
      (t : Transaction) (s : Store) (r : Result Store)
      → ((s' : Store) → r ≡ ok s' → s'.wallets ≡ s.wallets)
      → (returned t (committed s r)).0.wallets ≡ s.wallets
  committed-wallets t s (ok s') same = same s' refl
  committed-wallets t s (err e) same = refl

  posted_by-wallets :
      (r : Result (Transaction × Text × Text)) (s : Store)
      → (posted_by (postgres scan now event_id seen) r s).0.wallets ≡ s.wallets
  posted_by-wallets (err e) s = refl
  posted_by-wallets (ok (t, key, hash)) s =
      committed-wallets t s (post scan now event_id seen t key hash s)
        (λ s' done. post-wallets scan now event_id t seen key hash s s' done)

  get_by_id-canonical :
      (id : WalletId) (s : Store) (w : Wallet)
      → AreCanonical scan s.wallets
      → get_by_id scan id s ≡ ok w
      → scan w.ledger_account_id ≡ some w.ledger_account_id
  unfolding get_by_id get_wallet_by_id
  get_by_id-canonical id s w canonical h =
      let (u, _, h₁) = >>=-eq-ok (to_uuid scan id) _ h in
      let (row, found, h₂) = >>=-eq-ok (or_fail (get_wallet_by_id u s) wallet_not_found) _ h₁ in
      map_wallet-account scan row w
        (find-All (λ r. IsCanonicalAccount scan r.ledger_account_id) _ s.wallets row canonical
          (or_fail-eq-ok (get_wallet_by_id u s) wallet_not_found row found))
        (wrap_error-eq-ok (map_wallet row) w h₂)

  post-keeps :
      (c : PostTransactionCommand) (s : Store) (payer payee : AccountId) (z : ℤ)
      → Crosses z payer payee c
      → scan payer ≡ some payer
      → scan payee ≡ some payee
      → IsSound now s × AreCanonical scan s.wallets
      → let s' = (execute (postgres scan now event_id seen) c s).0 in
        IsSound now s' × AreCanonical scan s'.wallets
  unfolding execute
  post-keeps c s payer payee z (i, j, crosses) pays takes (sound, canonical) = (
    execute-IsSound scan now event_id seen c s
        (subst (All (λ p. scan p.account_id ≡ some p.account_id)) (sym crosses) (pays, (takes, tt)))
        sound,
    subst (AreCanonical scan) (sym (posted_by-wallets (prepare c) s)) canonical,
  )

  -- On Postgres, deposits, withdrawals and transfers keep a sound store sound, whether they succeed
  -- or fail, if the accounts of the wallets and the clearing account are in canonical form and the
  -- projector leaves the store as it is.
  pub move-IsSound :
      (projector : Option (WalletId → Port Store WalletBalance))
      → ((p : WalletId → Port Store WalletBalance) (id : WalletId) (s : Store)
          → projector ≡ some p
          → (p id s).0 ≡ s)
      → (m : Movement) (s : Store) → AreCanonical scan s.wallets
      → Clearing (λ a. scan a ≡ some a) m
      → IsSound now s
      → IsSound now (move postgres_ports projector m s).0
  move-IsSound projector reads m s canonical clearing sound =
      (move-keeps postgres_ports (λ r. IsSound now r × AreCanonical scan r.wallets)
        (λ a. scan a ≡ some a) (λ id r h. h)
        (λ id r r' w h e. get_by_id-canonical id r w h.1 (ap (λ o. o.1) e)) (λ a r h. h) post-keeps
        projector
        (λ p id r is_p h.
          subst (λ q. IsSound now q × AreCanonical scan q.wallets) (sym (reads p id r is_p)) h)
        m s clearing (sound, canonical)).0
