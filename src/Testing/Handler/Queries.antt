-- ===== src/Testing/Handler/Queries.antt =====
-- What `account_balance` reports in the course of a transaction
-- (contract-testing/src/invocation/impls.rs).
use rust_smart_contract.Base.{
  ℕ, ◌-◌, ◌≤◌, sym, ◌≡◌, ◌≢◌, none, some, arith, ok, max, ==_refl, ==_ne,
}
use rust_smart_contract.Base.Dict.{get?, get?-insert_self}
use rust_smart_contract.Testing.Sdk.{Sdk}
use rust_smart_contract.Testing.Delta.{AmountDelta}
use rust_smart_contract.Testing.Delta.Laws.{InRange, balance_after, apply_to_balance-InRange}
use rust_smart_contract.Testing.Types.{Account, Changes, account_current_balance}
use rust_smart_contract.Testing.ChangeSet.{current}
use rust_smart_contract.Testing.Handler.{Handler, change_account_balance, account_balance}

module _ (sdk : Sdk) where
  open sdk use {address_eq, available, available_lem, amount}

  reported_after_change :
      (a : ℕ) (d : AmountDelta) (h : Handler sdk) (cur : Changes sdk) (c : Account sdk)
      → current sdk h.changeset ≡ some cur
      → get? (address_eq a) cur.accounts ≡ none
      → get? (address_eq a) h.chain.accounts ≡ some c
      → h.invoker ≢ a
      → InRange (available c.balance) d
      → account_balance sdk a (change_account_balance sdk a d h).1
        ≡ ok (some (record (c.balance) { total = balance_after (available c.balance) d }))
  unfolding account_balance change_account_balance account_current_balance
  reported_after_change a d h cur c top fresh known other r = grind (
    arith,
    ==_ne h.invoker a other,
    apply_to_balance-InRange amount (available c.balance) d r,
    get?-insert_self,
  )

  -- For an account other than the invoker, the balance that is reported before its first change is
  -- the one on chain, and the total that is reported after a change `d` is the part of the total
  -- that is neither staked nor locked, changed by `d`.
  pub account_balance_after_change :
      (a : ℕ) (d : AmountDelta) (h : Handler sdk) (cur : Changes sdk) (c : Account sdk)
      → current sdk h.changeset ≡ some cur
      → get? (address_eq a) cur.accounts ≡ none
      → get? (address_eq a) h.chain.accounts ≡ some c
      → h.invoker ≢ a
      → InRange (c.balance.total - max c.balance.staked c.balance.locked) d
      → (account_balance sdk a h ≡ ok (some c.balance))
        × (account_balance sdk a (change_account_balance sdk a d h).1
            ≡ ok (
                some (record (c.balance) {
                  total = balance_after (c.balance.total - max c.balance.staked c.balance.locked) d;
                })))
  unfolding account_balance
  account_balance_after_change a d h cur c top fresh known other r = (
    ground (arith, ==_ne h.invoker a other),
    rw (available_lem c.balance) at
        (reported_after_change a d h cur c top fresh known other (rw (available_lem c.balance) r)),
  )

  reported_to_invoker :
      (a : ℕ) (d : AmountDelta) (h : Handler sdk) (cur : Changes sdk) (c : Account sdk)
      → current sdk h.changeset ≡ some cur
      → address_eq a ≡ address_eq h.invoker
      → a ≢ h.invoker
      → get? (address_eq a) cur.accounts ≡ none
      → get? (address_eq a) h.chain.accounts ≡ some c
      → InRange (available c.balance) d
      → account_balance sdk h.invoker (change_account_balance sdk a d h).1
        ≡ ok (some (record (c.balance) { total = balance_after (available c.balance) d }))
  unfolding account_balance change_account_balance account_current_balance
  reported_to_invoker a d h cur c top same other fresh known r = grind (
    arith,
    ==_ne h.invoker a (λ e. other (sym e)),
    apply_to_balance-InRange amount (available c.balance) d r,
    get?-insert_self,
  )

  -- The amount reserved for energy is lost by a change through an alias. Before the first change of
  -- the invoker's account the total that is reported to the invoker lacks the reserved amount, and
  -- the total that is reported to another alias does not. After a change `d` through that alias, the
  -- total that is reported to the invoker is the part of the total that is neither staked nor
  -- locked, changed by `d`, and the reserved amount is not taken off. It is assumed that the total
  -- covers the reserved amount, and that the part changed by `d` stays in range.
  pub account_balance_alias :
      (a : ℕ) (d : AmountDelta) (h : Handler sdk) (cur : Changes sdk) (c : Account sdk)
      → current sdk h.changeset ≡ some cur
      → address_eq a ≡ address_eq h.invoker
      → a ≢ h.invoker
      → get? (address_eq a) cur.accounts ≡ none
      → get? (address_eq a) h.chain.accounts ≡ some c
      → h.reserved_amount ≤ c.balance.total
      → InRange (c.balance.total - max c.balance.staked c.balance.locked) d
      → (account_balance sdk h.invoker h
          ≡ ok (some (record (c.balance) { total = c.balance.total - h.reserved_amount })))
        × (account_balance sdk a h ≡ ok (some c.balance))
        × (account_balance sdk h.invoker (change_account_balance sdk a d h).1
            ≡ ok (
                some (record (c.balance) {
                  total = balance_after (c.balance.total - max c.balance.staked c.balance.locked) d;
                })))
  unfolding account_balance
  account_balance_alias a d h cur c top same other fresh known covered r = (
    grind
        (arith, ==_refl h.invoker, amount.subtract_micro_ccd_lem c.balance.total h.reserved_amount),
    ground (arith, ==_ne h.invoker a),
    rw (available_lem c.balance) at (
        reported_to_invoker a d h cur c top same other fresh known
          (rw (available_lem c.balance) r)),
  )
