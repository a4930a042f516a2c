-- ===== src/Testing/Handler/Contracts.antt =====
-- Contract balances under `change_contract_balance`
-- (contract-testing/src/invocation/impls.rs).
use rust_smart_contract.Base.{
  ℕ, ◌+◌, ◌<◌, ◌≡◌, ◌≢◌, ◌∙◌, ◌⊎◌, inl, inr, Option, none, some, arith, ok, err,
}
use rust_smart_contract.Base.Dict.{get?, insert, get?-insert_self, get?-insert_ne}
use rust_smart_contract.Testing.Sdk.{Sdk, u64_mod}
use rust_smart_contract.Testing.Delta.{AmountDelta, negative, insufficient, add_delta}
use rust_smart_contract.Testing.Delta.Laws.{
  InRange, balance_after, apply_to_balance-InRange, apply_to_balance_cases, add_delta-InRange,
  add_delta-insufficient,
}
use rust_smart_contract.Testing.Types.{
  Contract, Changes, ContractChanges, new_contract_changes, contract_current_balance,
}
use rust_smart_contract.Testing.ChangeSet.{current}
use rust_smart_contract.Testing.Handler.{
  Handler, put_contract, change_contract_balance, contract_balance,
}

module _ (sdk : Sdk) where
  -- The balance of a contract as the transaction sees it: with its changes, or as persisted.
  abbrev pub ContractHolds : Handler sdk → Changes sdk → ℕ → ℕ → Type 0
  ContractHolds h cur a b =
      (((c : Contract sdk) × (get? a cur.contracts ≡ none)
          × (get? a h.chain.contracts ≡ some c)
          × (b ≡ c.self_balance)
          × (b < u64_mod))
        ⊎ ((e : ContractChanges sdk) × (get? a cur.contracts ≡ some e)
            × InRange e.self_balance_original e.self_balance_delta
            × (b ≡ balance_after e.self_balance_original e.self_balance_delta)))

  -- Such a balance is what `contract_balance` returns.
  pub contract_balance-ContractHolds :
      (h : Handler sdk) (cur : Changes sdk) (a b : ℕ)
      → current sdk h.changeset ≡ some cur
      → ContractHolds h cur a b
      → contract_balance sdk a h ≡ ok (some b)
  unfolding contract_balance contract_current_balance
  contract_balance-ContractHolds h cur a b top (inl (c, e, k, v, l)) = ground arith
  contract_balance-ContractHolds h cur a b top (inr (x, e, r, v)) =
      ground
        (arith, apply_to_balance-InRange sdk.amount x.self_balance_original x.self_balance_delta r)

  -- An entry of the changeset that stands for a balance.
  abbrev pub StandsFor : ContractChanges sdk → ℕ → Type 0
  StandsFor e b =
      InRange e.self_balance_original e.self_balance_delta
      × (b ≡ balance_after e.self_balance_original e.self_balance_delta)

  abbrev pub with_changes : Changes sdk → ℕ → ContractChanges sdk → Changes sdk
  with_changes cur a e = record cur { contracts = insert a e cur.contracts }

  -- A change that stays in range succeeds, returns the new balance, and writes one entry.
  pub change_contract_balance-ok :
      (h : Handler sdk) (cur : Changes sdk) (a b : ℕ) (d : AmountDelta)
      → current sdk h.changeset ≡ some cur
      → ContractHolds h cur a b
      → InRange b d
      → (e : ContractChanges sdk) × (change_contract_balance sdk a d h
          ≡ (ok (balance_after b d), put_contract sdk h cur a e))
        × StandsFor e (balance_after b d)
  unfolding change_contract_balance
  change_contract_balance-ok h cur a b d top (inl (c, e, k, v, l)) r = (
    record (new_contract_changes sdk c.self_balance) { self_balance_delta = d },
    ground (arith, apply_to_balance-InRange sdk.amount b d r),
    ground arith,
  )
  change_contract_balance-ok h cur a b d top (inr (x, e, i, v)) r =
      let d' = add_delta sdk.amount x.self_balance_delta d in
      (
        record x { self_balance_delta = d' },
        ground (
          arith,
          add_delta-InRange sdk.amount x.self_balance_original x.self_balance_delta d i,
          apply_to_balance-InRange sdk.amount x.self_balance_original d',
        ),
        ground
            (arith, add_delta-InRange sdk.amount x.self_balance_original x.self_balance_delta d i),
      )

  -- What the persisted or original balance is, from which a contract's changes count.
  abbrev pub original_balance : Handler sdk → Changes sdk → ℕ → Option ℕ
  original_balance h cur a = elim (get? a cur.contracts) [
    | some e ↦ some e.self_balance_original
    | none ↦ elim (get? a h.chain.contracts) [ none ↦ none | some c ↦ some c.self_balance ]
  ]

  -- A withdrawal beyond the balance is refused and changes nothing.
  pub change_contract_balance-insufficient :
      (h : Handler sdk) (cur : Changes sdk) (a b d o : ℕ)
      → current sdk h.changeset ≡ some cur
      → ContractHolds h cur a b
      → original_balance h cur a ≡ some o
      → o + d < u64_mod
      → b < d
      → change_contract_balance sdk a (negative d) h ≡ (err insufficient, h)
  unfolding change_contract_balance
  change_contract_balance-insufficient h cur a b d o top (inl (c, e, k, v, l)) q m s =
      ground (arith, apply_to_balance_cases sdk.amount (negative d) c.self_balance)
  change_contract_balance-insufficient h cur a b d o top (inr (x, e, i, v)) q m s =
      ground
        (arith, add_delta-insufficient sdk.amount x.self_balance_original x.self_balance_delta d i)

  -- A written entry is what the contract holds from then on; other contracts keep theirs.
  pub ContractHolds-put_self :
      (h : Handler sdk) (cur : Changes sdk) (a b : ℕ) (e : ContractChanges sdk)
      → StandsFor e b
      → ContractHolds (put_contract sdk h cur a e) (with_changes cur a e) a b
  ContractHolds-put_self h cur a b e (r, v) = inr (e, get?-insert_self a e cur.contracts, r, v)

  pub ContractHolds-put_ne :
      (h : Handler sdk) (cur : Changes sdk) (a a' b : ℕ) (e : ContractChanges sdk)
      → a ≢ a'
      → ContractHolds h cur a' b
      → ContractHolds (put_contract sdk h cur a e) (with_changes cur a e) a' b
  ContractHolds-put_ne h cur a a' b e n (inl (c, g, k, v, l)) =
      inl (c, get?-insert_ne a a' e cur.contracts n ∙ g, k, v, l)
  ContractHolds-put_ne h cur a a' b e n (inr (x, g, r, v)) =
      inr (x, get?-insert_ne a a' e cur.contracts n ∙ g, r, v)

  pub current-put_contract :
      (h : Handler sdk) (cur : Changes sdk) (a : ℕ) (e : ContractChanges sdk)
      → current sdk h.changeset ≡ some cur
      → current sdk (put_contract sdk h cur a e).changeset ≡ some (with_changes cur a e)
  current-put_contract h cur a e top = ground arith

  pub ContractHolds-bound :
      (h : Handler sdk) (cur : Changes sdk) (a b : ℕ) → ContractHolds h cur a b → b < u64_mod
  ContractHolds-bound h cur a b (inl (c, g, k, v, l)) = l
  ContractHolds-bound h cur a b (inr (x, g, r, v)) = ground arith
