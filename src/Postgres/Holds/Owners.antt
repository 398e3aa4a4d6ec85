-- ===== src/Postgres/Holds/Owners.antt =====
-- The wallet that a hold is taken on, and what its account still holds.
use distributed_wallet_ledge.Prelude.{
  ℕ, ◌+◌, ◌-◌, ◌≤◌, ◌≡◌, refl, sym, ap, subst, ◌∙◌, true, false, ◌&&◌, ◌=text◌, =text_eq,
  =text_refl, List, [], ◌∷◌, some, arith, Bool-cases, inl, inr, ℤ, pos, max_int64, ltb_ℤ, ◌-64◌,
  sub_ℕ,
}
use distributed_wallet_ledge.Domain.Posting.{is_debit, is_credit}
use distributed_wallet_ledge.Domain.Hold.{Time}
use distributed_wallet_ledge.Postgres.Tables.{Uuid, HoldRow, WalletRow, Store}
use distributed_wallet_ledge.Postgres.Queries.{find, exists, active_holds, posted}
use distributed_wallet_ledge.Postgres.Holds.Settlement.{find-passes}
use distributed_wallet_ledge.Postgres.Solvency.Arithmetic.{sub64-eq}

-- The primary key of the table of wallets.
abbrev pub HasWalletKeys : List WalletRow → Type 0
HasWalletKeys [] = Unit
HasWalletKeys (w ∷ ws) = (exists (λ v. v.id =text w.id) ws ≡ false) × HasWalletKeys ws

no_owner :
    (u a : Uuid) (ws : List WalletRow)
    → exists (λ v. v.id =text u) ws ≡ false
    → exists (λ v. v.id =text u && v.ledger_account_id =text a) ws ≡ false
no_owner u a [] h = refl
no_owner u a (w ∷ ws) h = ground (arith, no_owner u a ws)

-- The wallet that a hold names is the one that the lookup finds.
owner-eq :
    (u a : Uuid) (ws : List WalletRow) (w : WalletRow)
    → HasWalletKeys ws
    → find (λ v. v.id =text u) ws ≡ some w
    → exists (λ v. v.id =text u && v.ledger_account_id =text a) ws ≡ (w.ledger_account_id =text a)
owner-eq u a [] w keys found = cc
owner-eq u a (v ∷ ws) w (new, keys) found = elim (Bool-cases (v.id =text u)) [
  | inl hit ↦
      let same = =text_eq v.id u hit in
      ground (arith, no_owner u a ws (subst (λ k. exists (λ r. r.id =text k) ws ≡ false) same new))
  | inr miss ↦ ground (arith, owner-eq u a ws w keys (rw miss at found))
]

pub find-has_wallet :
    (u : Uuid) (ws : List WalletRow) (w : WalletRow)
    → find (λ v. v.id =text u) ws ≡ some w
    → exists (λ v. v.ledger_account_id =text w.ledger_account_id) ws ≡ true
find-has_wallet u [] w found = cc
find-has_wallet u (v ∷ ws) w found = elim (Bool-cases (v.id =text u)) [
  | inl hit ↦
      let same : v ≡ w = ground arith in
      rw (ap (λ r. r.ledger_account_id) same, =text_refl w.ledger_account_id) refl
  | inr miss ↦ ground (arith, find-has_wallet u ws w (rw miss at found))
]

-- The comparison of `Authorize`, on a solvent account.
pub available_fits :
    (c d k n : ℕ)
    → c ≤ max_int64
    → d + k ≤ c
    → ltb_ℤ (pos c -64 pos d -64 pos k) (pos n) ≡ false
    → d + (n + k) ≤ c
available_fits c d k n hc solvent h =
    let e₁ = sub64-eq c d hc (omega arith) in
    let e₂ : sub_ℕ c d ≡ pos (c - d) = ground arith in
    let e₃ = sub64-eq (c - d) k (omega arith) (omega arith) in
    let exact = ap (λ (z : ℤ). z -64 pos k) (e₁ ∙ e₂) ∙ e₃ in
    let h' = subst (λ z. ltb_ℤ z (pos n) ≡ false) exact h in ground arith

-- The other accounts do not see the new hold.
pub grown_fits :
    (now : Time) (w : WalletRow) (u a : Uuid) (s : Store) (row : HoldRow)
    → HasWalletKeys s.wallets
    → find (λ v. v.id =text u) s.wallets ≡ some w
    → row.wallet_id ≡ w.id
    → posted is_debit w.ledger_account_id s.postings
        + (row.amount_minor_units + active_holds now w.ledger_account_id s.wallets s.wallet_holds)
      ≤ posted is_credit w.ledger_account_id s.postings
    → posted is_debit a s.postings + active_holds now a s.wallets s.wallet_holds
      ≤ posted is_credit a s.postings
    → posted is_debit a s.postings + active_holds now a s.wallets (row ∷ s.wallet_holds)
      ≤ posted is_credit a s.postings
unfolding active_holds
grown_fits now w u a s row keys found names fits solvent =
    let named = names ∙ =text_eq w.id u (find-passes _ s.wallets w found) in
    let owner =
      subst
        (λ k.
          exists (λ v. v.id =text k && v.ledger_account_id =text a) s.wallets
          ≡ (w.ledger_account_id =text a))
        (sym named) (owner-eq u a s.wallets w keys found) in
    elim (Bool-cases (w.ledger_account_id =text a)) [
      | inl hit ↦
          let fits' =
            subst
              (λ k.
                posted is_debit k s.postings
                  + (row.amount_minor_units + active_holds now k s.wallets s.wallet_holds)
                ≤ posted is_credit k s.postings)
              (=text_eq w.ledger_account_id a hit) fits in
          ground arith
      | inr miss ↦ ground arith
    ]
