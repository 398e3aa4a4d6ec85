-- ===== src/Postgres/Solvency/Invariant.antt =====
-- What a sound store is: no wallet is overdrawn, and debits equal credits over the ledger.
use distributed_wallet_ledge.Prelude.{
  All, ◌=text◌, =text_eq, =text_refl, ◌∷◌, ◌+◌, ◌≤◌, ◌≡◌, refl, subst, true, List, [], arith,
  Bool-cases, inl, inr,
}
use distributed_wallet_ledge.Domain.Posting.{is_debit, is_credit}
use distributed_wallet_ledge.Domain.Hold.{Time}
use distributed_wallet_ledge.Postgres.Tables.{Uuid, Store, WalletRow}
use distributed_wallet_ledge.Postgres.Queries.{exists, posted, active_holds}
use distributed_wallet_ledge.Postgres.Solvency.Deltas.{ledger_total}
use distributed_wallet_ledge.Postgres.Solvency.Frames.{SameFunds}
use distributed_wallet_ledge.Postgres.Solvency.Locks.{has_wallet}

-- No wallet's ledger account is overdrawn: what was debited and what is held fits in what was
-- credited.
abbrev pub IsCovered : Time → Store → Uuid → Type 0
IsCovered now s a =
    posted is_debit a s.postings + active_holds now a s.wallets s.wallet_holds
    ≤ posted is_credit a s.postings

abbrev pub IsSolvent : Time → Store → Type 0
IsSolvent now s = All (λ w. IsCovered now s w.ledger_account_id) s.wallets

All-owner :
    (P : Uuid → Type 0) (ws : List WalletRow) (a : Uuid)
    → All (λ w. P w.ledger_account_id) ws
    → exists (λ w. w.ledger_account_id =text a) ws ≡ true
    → P a
All-owner P [] a h found = cc
All-owner P (w ∷ ws) a (first, rest) found = elim (Bool-cases (w.ledger_account_id =text a)) [
  | inl hit ↦ subst P (=text_eq w.ledger_account_id a hit) first
  | inr miss ↦ All-owner P ws a rest (rw miss at found)
]

owners-All :
    (P : Uuid → Type 0) (ws : List WalletRow)
    → ((a : Uuid) → exists (λ w. w.ledger_account_id =text a) ws ≡ true → P a)
    → All (λ w. P w.ledger_account_id) ws
owners-All P [] f = tt
owners-All P (w ∷ ws) f = (
  f w.ledger_account_id (rw (=text_refl w.ledger_account_id) refl),
  owners-All P ws (λ a found. f a (ground (arith, found))),
)

-- The account of a wallet is covered, and if every such account is, the store is solvent.
pub IsSolvent-covers :
    (now : Time) (s : Store) (a : Uuid)
    → IsSolvent now s
    → has_wallet a s ≡ true
    → IsCovered now s a
IsSolvent-covers now s a h wallet = All-owner (IsCovered now s) s.wallets a h wallet

pub covers-IsSolvent :
    (now : Time) (s : Store)
    → ((a : Uuid) → has_wallet a s ≡ true → IsCovered now s a)
    → IsSolvent now s
covers-IsSolvent now s f = owners-All (IsCovered now s) s.wallets f

-- Double entry over the whole ledger.
abbrev pub IsLedgerBalanced : Store → Type 0
IsLedgerBalanced s = ledger_total is_debit s.postings ≡ ledger_total is_credit s.postings

abbrev pub IsSound : Time → Store → Type 0
IsSound now s = IsSolvent now s × IsLedgerBalanced s

pub SameFunds-IsSound :
    (now : Time) (s s' : Store) → SameFunds s s' → IsSound now s → IsSound now s'
SameFunds-IsSound now s s' same =
    rw (same.same_postings, same.same_wallets.wallets, same.same_wallets.holds) (λ h. h)
