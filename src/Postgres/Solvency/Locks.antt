-- ===== src/Postgres/Solvency/Locks.antt =====
-- Which wallets a posting locks, in which order, and what is checked of each.
use distributed_wallet_ledge.Prelude.{
  ◌≡◌, refl, sym, subst, Bool, true, false, ◌||◌, pos, ltb_ℤ, ◌+64◌, ◌-64◌, ◌=text◌, =text_eq, List,
  [], ◌∷◌, Text, Option, none, some, All, arith, Bool-cases, inl, inr, ◌⊎◌,
}
use distributed_wallet_ledge.Errors.{
  ok, fail_if, >>=-eq-ok, wrap_error, wrap_error-eq-ok, fail_if-eq-ok, insufficient_balance,
}
use distributed_wallet_ledge.Domain.Posting.{Posting, PostingDirection}
use distributed_wallet_ledge.Domain.Hold.{Time}
use distributed_wallet_ledge.Domain.Transaction.Mirror.{account_sum}
use distributed_wallet_ledge.Postgres.Tables.{Uuid, Store, WalletRow}
use distributed_wallet_ledge.Postgres.Queries.{
  find, exists, lock_wallet_by_ledger_account_id, get_ledger_balance, LedgerBalance,
}
use distributed_wallet_ledge.Postgres.Transactions.{
  text_lt, insert_key, account_keys, delta_from, to_uuid, lock_keys, validate_wallet_balances,
}
use distributed_wallet_ledge.Postgres.Solvency.Deltas.{IsCanonical}

abbrev pub has_key : Text → List Text → Bool
has_key a keys = exists (λ k. k =text a) keys

has_key-insert_key :
    (a k : Text) (js : List Text) → has_key a (insert_key k js) ≡ (k =text a || has_key a js)
unfolding insert_key
has_key-insert_key a k [] = refl
has_key-insert_key a k (j ∷ js) = ground (arith, =text_eq k j, has_key-insert_key a k js)

-- An account that no key names is not touched.
pub account_sum-untouched :
    (f : PostingDirection → Bool) (a : Text) (ps : List Posting)
    → has_key a (account_keys ps) ≡ false
    → account_sum f a ps ≡ 0
unfolding account_keys
account_sum-untouched f a [] h = refl
account_sum-untouched f a (p ∷ ps) h =
    ground
      (arith, has_key-insert_key a p.account_id (account_keys ps), account_sum-untouched f a ps)

text_lt-total : (s t : Text) → (s =text t) ≡ false → text_lt s t ≡ false → text_lt t s ≡ true
unfolding text_lt
text_lt-total [] [] h k = cc
text_lt-total [] (d ∷ t) h k = cc
text_lt-total (c ∷ s) [] h k = refl
text_lt-total (c ∷ s) (d ∷ t) h k = ground (arith, text_lt-total s t)

-- Strictly ascending.
abbrev pub IsAscending : List Text → Type 0
IsAscending [] = Unit
IsAscending (k ∷ []) = Unit
IsAscending (k ∷ j ∷ js) = (text_lt k j ≡ true) × IsAscending (j ∷ js)

insert_key-IsAscending :
    (k : Text) (js : List Text) → IsAscending js → IsAscending (insert_key k js)
unfolding insert_key
insert_key-IsAscending k [] h = tt
insert_key-IsAscending k (j ∷ []) h = ground (arith, text_lt-total k j)
insert_key-IsAscending k (j ∷ i ∷ is) h =
    ground (arith, text_lt-total k j, insert_key-IsAscending k (i ∷ is) h.1)

-- However the postings are ordered, the accounts to lock are in strictly ascending order.
pub account_keys-IsAscending : (ps : List Posting) → IsAscending (account_keys ps)
unfolding account_keys
account_keys-IsAscending [] = tt
account_keys-IsAscending (p ∷ ps) =
    insert_key-IsAscending p.account_id (account_keys ps) (account_keys-IsAscending ps)

All-insert_key :
    (P : Text → Type 0) (k : Text) (js : List Text) → P k → All P js → All P (insert_key k js)
unfolding insert_key
All-insert_key P k [] pk h = (pk, tt)
All-insert_key P k (j ∷ js) pk h = ground (arith, All-insert_key P k js pk h.1)

pub account_keys-canonical :
    (scan : Text → Option Uuid) (ps : List Posting)
    → IsCanonical scan ps
    → All (λ k. scan k ≡ some k) (account_keys ps)
unfolding account_keys
account_keys-canonical scan [] h = tt
account_keys-canonical scan (p ∷ ps) h =
    All-insert_key (λ k. scan k ≡ some k) p.account_id (account_keys ps) h.0
      (account_keys-canonical scan ps h.1)

abbrev pub Listed : {A : Type 0} → A → List A → Type 0
Listed x [] = ⊥
Listed x (y ∷ ys) = (x ≡ y) ⊎ Listed x ys

pub find-exists {ℓ} :
    {A : Type ℓ} (test : A → Bool) (rs : List A)
    → exists test rs ≡ true
    → (r : A) × (find test rs ≡ some r) × (test r ≡ true)
find-exists test [] h = cc
find-exists test (r ∷ rs) h = elim (Bool-cases (test r)) [
  | inl hit ↦ (r, rw hit, hit)
  | inr miss ↦
      let (q, found, passes) = find-exists test rs (rw miss at h) in (q, rw miss found, passes)
]

-- Whether the ledger account belongs to a wallet.
abbrev pub has_wallet : Uuid → Store → Bool
has_wallet a s = exists (λ w. w.ledger_account_id =text a) s.wallets

abbrev with_wallet : Text → Option WalletRow → List (Text × WalletRow) → List (Text × WalletRow)
with_wallet k none others = others
with_wallet k (some w) others = (k, w) ∷ others

with_wallet-Listed :
    (x : Text × WalletRow) (k : Text) (o : Option WalletRow) (others : List (Text × WalletRow))
    → Listed x others
    → Listed x (with_wallet k o others)
with_wallet-Listed x k none others h = h
with_wallet-Listed x k (some w) others h = inr h

-- Every account of the posting that belongs to a wallet is locked.
pub lock_keys-found :
    (scan : Text → Option Uuid) (keys : List Text) (s : Store) (locked : List (Text × WalletRow))
    (a : Uuid)
    → lock_keys scan keys s ≡ ok locked
    → All (λ k. scan k ≡ some k) keys
    → has_key a keys ≡ true
    → has_wallet a s ≡ true
    → (w : WalletRow) × (w.ledger_account_id ≡ a) × Listed (a, w) locked
unfolding lock_keys to_uuid lock_wallet_by_ledger_account_id
lock_keys-found scan [] s locked a h canon has wallet = cc
lock_keys-found scan (k ∷ keys) s locked a h (canon, rest) has wallet =
    let (account, named, h₁) = >>=-eq-ok (to_uuid scan k) _ h in
    let (others, inner, h₂) = >>=-eq-ok (lock_keys scan keys s) _ h₁ in
    elim (Bool-cases (k =text a)) [
      | inl same ↦
          let (w, found, owner) = find-exists (λ w. w.ledger_account_id =text a) s.wallets wallet in
          let grown : (a, w) ∷ others ≡ locked = ground (arith, =text_eq k a) in
          (w, =text_eq w.ledger_account_id a owner, subst (Listed (a, w)) grown (inl refl))
      | inr new ↦
          let (w, owner, listed) =
            lock_keys-found scan keys s others a inner rest (rw new at has) wallet in
          let grown : with_wallet k (find (λ r. r.ledger_account_id =text k) s.wallets) others
              ≡ locked =
            ground arith in
          (w, owner, subst (Listed (a, w)) grown (with_wallet-Listed (a, w) k _ others listed))
    ]

-- What the check has established of a locked wallet.
abbrev pub Checked : Time → List Posting → Store → Text → WalletRow → Type 0
Checked now ps s key w =
    (b : LedgerBalance) × (get_ledger_balance now w.ledger_account_id s ≡ ok b)
    × (ltb_ℤ
          (b.total_credits
            -64 b.total_debits
            +64 (pos 0 -64 b.active_holds)
            +64 delta_from key ps (pos 0))
          (pos 0)
        ≡ false)

pub validate_wallet_balances-Checked :
    (now : Time) (ps : List Posting) (locked : List (Text × WalletRow)) (s : Store) (key : Text)
    (w : WalletRow)
    → validate_wallet_balances now ps locked s ≡ ok tt
    → Listed (key, w) locked
    → Checked now ps s key w
unfolding validate_wallet_balances
validate_wallet_balances-Checked now ps [] s key w h m = absurd m
validate_wallet_balances-Checked now ps ((k, v) ∷ locked) s key w h m =
    let (b, read, h₁) = >>=-eq-ok (wrap_error (get_ledger_balance now v.ledger_account_id s)) _ h in
    let (_, fine, h₂) =
      >>=-eq-ok
        (fail_if
          (ltb_ℤ
            (b.total_credits
              -64 b.total_debits
              +64 (pos 0 -64 b.active_holds)
              +64 delta_from k ps (pos 0))
            (pos 0))
          insufficient_balance)
        _ h₁ in
    elim m [
      | inl this ↦
          subst (λ x. Checked now ps s x.0 x.1) (sym this)
            (
              b,
              wrap_error-eq-ok (get_ledger_balance now v.ledger_account_id s) b read,
              fail_if-eq-ok _ insufficient_balance fine,
            )
      | inr later ↦ validate_wallet_balances-Checked now ps locked s key w h₂ later
    ]
