-- ===== src/Testing/Handler/Accounts.antt =====
-- Account balances under `change_account_balance`
-- (contract-testing/src/invocation/impls.rs).
use rust_smart_contract.Base.{
  ℕ, ◌+◌, ◌<◌, ◌≡◌, ◌≢◌, ◌∙◌, ◌⊎◌, inl, inr, Option, none, some, arith, ok, err,
}
use rust_smart_contract.Base.Dict.{get?, insert, get?-insert_self, get?-insert_ne}
use rust_smart_contract.Testing.Sdk.{Sdk, u64_mod}
use rust_smart_contract.Testing.Delta.{AmountDelta, negative, insufficient, add_delta}
use rust_smart_contract.Testing.Delta.Laws.{
  InRange, balance_after, apply_to_balance-InRange, apply_to_balance_cases, add_delta-InRange,
  add_delta-insufficient,
}
use rust_smart_contract.Testing.Types.{Account, Changes, AccountChanges}
use rust_smart_contract.Testing.ChangeSet.{current}
use rust_smart_contract.Testing.Handler.{
  Handler, put_account, original_account_balance, change_account_balance,
}

-- An entry of the changeset that stands for a balance.
abbrev pub StandsFor : AccountChanges → ℕ → Type 0
StandsFor e b =
    InRange e.original_balance e.balance_delta
    × (b ≡ balance_after e.original_balance e.balance_delta)

module _ (sdk : Sdk) where
  open sdk use {amount, address_eq}

  -- The balance of an account that the transaction can move: with its changes, or what is
  -- available on chain less the reserved amount.
  abbrev pub AccountHolds : Handler sdk → Changes sdk → ℕ → ℕ → Type 0
  AccountHolds h cur a b =
      (((c : Account sdk) × (get? (address_eq a) cur.accounts ≡ none)
          × (get? (address_eq a) h.chain.accounts ≡ some c)
          × (b ≡ original_account_balance sdk h a c)
          × (b < u64_mod))
        ⊎ ((e : AccountChanges) × (get? (address_eq a) cur.accounts ≡ some e) × StandsFor e b))

  abbrev pub with_account : Changes sdk → ℕ → AccountChanges → Changes sdk
  with_account cur a e = record cur { accounts = insert (address_eq a) e cur.accounts }

  abbrev pub put : Handler sdk → Changes sdk → ℕ → AccountChanges → Handler sdk
  put h cur a e = put_account sdk h cur (address_eq a) e

  -- A change that stays in range succeeds, returns the new balance, and writes one entry.
  pub change_account_balance-ok :
      (h : Handler sdk) (cur : Changes sdk) (a b : ℕ) (d : AmountDelta)
      → current sdk h.changeset ≡ some cur
      → AccountHolds h cur a b
      → InRange b d
      → (e : AccountChanges) × (change_account_balance sdk a d h
          ≡ (ok (balance_after b d), put h cur a e))
        × StandsFor e (balance_after b d)
  unfolding change_account_balance
  change_account_balance-ok h cur a b d top (inl (c, e, k, v, l)) r = (
    record { original_balance = original_account_balance sdk h a c; balance_delta = d },
    ground (arith, apply_to_balance-InRange amount b d r),
    ground arith,
  )
  change_account_balance-ok h cur a b d top (inr (x, e, (i, v))) r =
      let d' = add_delta amount x.balance_delta d in
      (
        record x { balance_delta = d' },
        ground (
          arith,
          add_delta-InRange amount x.original_balance x.balance_delta d i,
          apply_to_balance-InRange amount x.original_balance d',
        ),
        ground (arith, add_delta-InRange amount x.original_balance x.balance_delta d i),
      )

  -- The balance from which an account's changes count.
  abbrev pub original_balance : Handler sdk → Changes sdk → ℕ → Option ℕ
  original_balance h cur a = elim (get? (address_eq a) cur.accounts) [
    | some e ↦ some e.original_balance
    | none ↦ elim (get? (address_eq a) h.chain.accounts) [
      | none ↦ none
      | some c ↦ some (original_account_balance sdk h a c)
    ]
  ]

  -- A withdrawal beyond the balance is refused and changes nothing.
  pub change_account_balance-insufficient :
      (h : Handler sdk) (cur : Changes sdk) (a b d o : ℕ)
      → current sdk h.changeset ≡ some cur
      → AccountHolds h cur a b
      → original_balance h cur a ≡ some o
      → o + d < u64_mod
      → b < d
      → change_account_balance sdk a (negative d) h ≡ (err insufficient, h)
  unfolding change_account_balance
  change_account_balance-insufficient h cur a b d o top (inl (c, e, k, v, l)) q m s =
      ground
        (arith, apply_to_balance_cases amount (negative d) (original_account_balance sdk h a c))
  change_account_balance-insufficient h cur a b d o top (inr (x, e, (i, v))) q m s =
      ground (arith, add_delta-insufficient amount x.original_balance x.balance_delta d i)

  -- A written entry is what every alias of the account holds from then on.
  pub AccountHolds-put_self :
      (h : Handler sdk) (cur : Changes sdk) (a a' b : ℕ) (e : AccountChanges)
      → address_eq a ≡ address_eq a'
      → StandsFor e b
      → AccountHolds (put h cur a e) (with_account cur a e) a' b
  AccountHolds-put_self h cur a a' b e q (r, v) =
      inr (e, rw (← q) (get?-insert_self (address_eq a) e cur.accounts), (r, v))

  -- Other accounts keep theirs.
  pub AccountHolds-put_ne :
      (h : Handler sdk) (cur : Changes sdk) (a a' b : ℕ) (e : AccountChanges)
      → address_eq a ≢ address_eq a'
      → AccountHolds h cur a' b
      → AccountHolds (put h cur a e) (with_account cur a e) a' b
  AccountHolds-put_ne h cur a a' b e n (inl (c, g, k, v, l)) =
      inl (c, get?-insert_ne (address_eq a) (address_eq a') e cur.accounts n ∙ g, k, v, l)
  AccountHolds-put_ne h cur a a' b e n (inr (x, g, (r, v))) =
      inr (x, get?-insert_ne (address_eq a) (address_eq a') e cur.accounts n ∙ g, (r, v))

  pub current-put_account :
      (h : Handler sdk) (cur : Changes sdk) (a : ℕ) (e : AccountChanges)
      → current sdk h.changeset ≡ some cur
      → current sdk (put h cur a e).changeset ≡ some (with_account cur a e)
  current-put_account h cur a e top = ground arith

  pub AccountHolds-bound :
      (h : Handler sdk) (cur : Changes sdk) (a b : ℕ) → AccountHolds h cur a b → b < u64_mod
  AccountHolds-bound h cur a b (inl (c, g, k, v, l)) = l
  AccountHolds-bound h cur a b (inr (x, g, (r, v))) = ground arith
