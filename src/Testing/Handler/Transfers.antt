-- ===== src/Testing/Handler/Transfers.antt =====
-- The three transfers of a running transaction (contract-testing/src/invocation/impls.rs): they
-- move the amount between the two parties and touch nobody else, or they are refused.
use rust_smart_contract.Base.{
  ℕ, ◌+◌, ◌-◌, ◌≤◌, ◌<◌, ◌≡◌, ◌≢◌, refl, sym, ◌∙◌, ◌⊎◌, inl, inr, true, false, some, arith, ok, err,
  if◌then◌else◌,
}
use rust_smart_contract.Base.Dict.{contains_key}
use rust_smart_contract.Testing.Sdk.{Sdk, u64_mod}
use rust_smart_contract.Testing.Delta.{AmountDelta, positive, negative, insufficient}
use rust_smart_contract.Testing.Delta.Laws.{InRange, balance_after}
use rust_smart_contract.Testing.Types.{Changes}
use rust_smart_contract.Testing.ChangeSet.{current}
use rust_smart_contract.Testing.Handler.{
  Handler, put_contract, change_contract_balance, change_account_balance, to_missing, balance_error,
  transfer_from_contract_to_account, transfer_from_contract_to_contract,
  transfer_from_account_to_contract,
}
use rust_smart_contract.Testing.Handler.Contracts
use rust_smart_contract.Testing.Handler.Contracts.{
  ContractHolds, with_changes, change_contract_balance-ok, change_contract_balance-insufficient,
  ContractHolds-put_self, ContractHolds-put_ne, ContractHolds-bound, current-put_contract,
}
use rust_smart_contract.Testing.Handler.Accounts.{
  AccountHolds, with_account, put, change_account_balance-ok, AccountHolds-put_self,
  AccountHolds-put_ne, AccountHolds-bound, current-put_account,
}

module _ (sdk : Sdk) where
  open sdk use {address_eq}

  -- A step of the transaction from the changes `cur` to `cur'`: the contracts outside of `P` and
  -- the accounts outside of `Q` hold what they held, and the chain is not touched.
  pub record Step (P : ℕ → Type 0) (Q : ℕ → Type 0) (h : Handler sdk) (cur : Changes sdk)
      (h' : Handler sdk) (cur' : Changes sdk) : Type 0 where
    pub top : current sdk h'.changeset ≡ some cur'
    pub contracts :
        (a b : ℕ) → ¬ (P a) → ContractHolds sdk h cur a b → ContractHolds sdk h' cur' a b
    pub accounts : (a b : ℕ) → ¬ (Q a) → AccountHolds sdk h cur a b → AccountHolds sdk h' cur' a b
    pub chain : h'.chain ≡ h.chain

  abbrev pub Nobody : ℕ → Type 0
  Nobody _ = ⊥

  contract-Step :
      (h : Handler sdk) (cur : Changes sdk) (a b : ℕ) (d : AmountDelta) (n : ℕ)
      → current sdk h.changeset ≡ some cur
      → ContractHolds sdk h cur a b
      → InRange b d
      → balance_after b d ≡ n
      → (h' : Handler sdk) × (cur' : Changes sdk) × (change_contract_balance sdk a d h ≡ (ok n, h'))
        × ContractHolds sdk h' cur' a n
        × Step (λ c. a ≡ c) Nobody h cur h' cur'
  contract-Step h cur a b d n top holds r q =
      let (e, run, stands) = change_contract_balance-ok sdk h cur a b d top holds r in
      (
        put_contract sdk h cur a e,
        with_changes sdk cur a e,
        rw q at run,
        ContractHolds-put_self sdk h cur a n e (stands.0, sym q ∙ stands.1),
        record {
          top = current-put_contract sdk h cur a e top;
          contracts = λ a' b' n k. ContractHolds-put_ne sdk h cur a a' b' e n k;
          accounts = λ a' b' n k. k;
          chain = refl;
        },
      )

  account-Step :
      (h : Handler sdk) (cur : Changes sdk) (a b : ℕ) (d : AmountDelta) (n : ℕ)
      → current sdk h.changeset ≡ some cur
      → AccountHolds sdk h cur a b
      → InRange b d
      → balance_after b d ≡ n
      → (h' : Handler sdk) × (cur' : Changes sdk) × (change_account_balance sdk a d h ≡ (ok n, h'))
        × ((a' : ℕ) → address_eq a ≡ address_eq a' → AccountHolds sdk h' cur' a' n)
        × Step Nobody (λ c. address_eq a ≡ address_eq c) h cur h' cur'
  account-Step h cur a b d n top holds r q =
      let (e, run, stands) = change_account_balance-ok sdk h cur a b d top holds r in
      (
        put sdk h cur a e,
        with_account sdk cur a e,
        rw q at run,
        λ a' s. AccountHolds-put_self sdk h cur a a' n e s (stands.0, sym q ∙ stands.1),
        record {
          top = current-put_account sdk h cur a e top;
          contracts = λ a' b' n k. k;
          accounts = λ a' b' n k. AccountHolds-put_ne sdk h cur a a' b' e n k;
          chain = refl;
        },
      )

  -- A transfer to an account that exists, of what the contract holds: the contract loses the
  -- amount, the new balance of the contract is returned, and no other contract or account changes.
  -- The address of the transfer holds the amount more than it held before, and every alias of the
  -- account then holds what this address holds, whatever that alias held before. It is assumed that
  -- the new balance of the address is below 2^64.
  pub transfer_from_contract_to_account_moves :
      (value from to : ℕ) (h : Handler sdk) (cur : Changes sdk) (x y : ℕ)
      → current sdk h.changeset ≡ some cur
      → contains_key (address_eq to) h.chain.accounts ≡ true
      → ContractHolds sdk h cur from x
      → AccountHolds sdk h cur to y
      → value ≤ x
      → y + value < u64_mod
      → (h' : Handler sdk) × (cur' : Changes sdk) × (transfer_from_contract_to_account sdk value
            from to h
          ≡ (ok (x - value), h'))
        × ContractHolds sdk h' cur' from (x - value)
        × ((alias : ℕ)
            → address_eq to ≡ address_eq alias
            → AccountHolds sdk h' cur' alias (y + value))
        × Step (λ c. from ≡ c) (λ c. address_eq to ≡ address_eq c) h cur h' cur'
  unfolding transfer_from_contract_to_account
  transfer_from_contract_to_account_moves value from to h cur x y top known hx hy cover fits =
      let (h', cur', run, gone, s) =
        contract-Step h cur from x (negative value) (x - value) top hx
          (omega (arith, ContractHolds-bound sdk h cur from x hx)) (omega arith) in
      let (h'', cur'', run', got, s') =
        account-Step h' cur' to y (positive value) (y + value) s.top (s.accounts to y absurd hy)
          (omega arith) (omega arith) in
      (
        h'',
        cur'',
        rw (known, run, run'),
        s'.contracts from (x - value) absurd gone,
        got,
        record {
          top = s'.top;
          contracts = λ a b n k. s'.contracts a b absurd (s.contracts a b n k);
          accounts = λ a b n k. s'.accounts a b n (s.accounts a b absurd k);
          chain = s'.chain ∙ s.chain;
        },
      )

  -- A transfer between two contracts, of what the first one holds: the first loses the amount, the
  -- second gains it, the new balance of the second is returned, and nobody else changes.
  pub transfer_from_contract_to_contract_moves :
      (value from to : ℕ) (h : Handler sdk) (cur : Changes sdk) (x y : ℕ)
      → current sdk h.changeset ≡ some cur
      → contains_key to h.chain.contracts ≡ true
      → from ≢ to
      → ContractHolds sdk h cur from x
      → ContractHolds sdk h cur to y
      → value ≤ x
      → y + value < u64_mod
      → (h' : Handler sdk) × (cur' : Changes sdk) × (transfer_from_contract_to_contract sdk value
            from to h
          ≡ (ok (y + value), h'))
        × ContractHolds sdk h' cur' from (x - value)
        × ContractHolds sdk h' cur' to (y + value)
        × Step (λ c. (from ≡ c) ⊎ (to ≡ c)) Nobody h cur h' cur'
  unfolding transfer_from_contract_to_contract
  transfer_from_contract_to_contract_moves value from to h cur x y top known ne hx hy cover fits =
      let (h', cur', run, gone, s) =
        contract-Step h cur from x (negative value) (x - value) top hx
          (omega (arith, ContractHolds-bound sdk h cur from x hx)) (omega arith) in
      let (h'', cur'', run', got, s') =
        contract-Step h' cur' to y (positive value) (y + value) s.top (s.contracts to y ne hy)
          (omega arith) (omega arith) in
      (
        h'',
        cur'',
        rw (known, run, run'),
        s'.contracts from (x - value) (λ e. ne (sym e)) gone,
        got,
        record {
          top = s'.top;
          contracts =
              λ a b n k. s'.contracts a b (λ e. n (inr e)) (s.contracts a b (λ e. n (inl e)) k);
          accounts = λ a b n k. s'.accounts a b n (s.accounts a b n k);
          chain = s'.chain ∙ s.chain;
        },
      )

  -- A transfer of a contract to itself, of what it holds, leaves all balances as they are.
  pub transfer_to_itself :
      (value address : ℕ) (h : Handler sdk) (cur : Changes sdk) (x : ℕ)
      → current sdk h.changeset ≡ some cur
      → contains_key address h.chain.contracts ≡ true
      → ContractHolds sdk h cur address x
      → value ≤ x
      → (h' : Handler sdk) × (cur' : Changes sdk) × (transfer_from_contract_to_contract sdk value
            address address h
          ≡ (ok x, h'))
        × ContractHolds sdk h' cur' address x
        × Step (λ c. address ≡ c) Nobody h cur h' cur'
  unfolding transfer_from_contract_to_contract
  transfer_to_itself value address h cur x top known hx cover =
      let small = ContractHolds-bound sdk h cur address x hx in
      let (h', cur', run, gone, s) =
        contract-Step h cur address x (negative value) (x - value) top hx (omega (arith, small))
          (omega arith) in
      let (h'', cur'', run', got, s') =
        contract-Step h' cur' address (x - value) (positive value) x s.top gone
          (omega (arith, small)) (omega arith) in
      (
        h'',
        cur'',
        rw (known, run, run'),
        got,
        record {
          top = s'.top;
          contracts = λ a b n k. s'.contracts a b n (s.contracts a b n k);
          accounts = λ a b n k. s'.accounts a b n (s.accounts a b n k);
          chain = s'.chain ∙ s.chain;
        },
      )

  -- A transfer from an account to a contract, of what the address of the transfer can spend: the
  -- contract gains the amount, its new balance is returned, and nobody else changes. The address
  -- holds the amount less than it held before, and every alias of the account then holds what this
  -- address holds, whatever that alias held before. It is assumed that the contract is on the chain
  -- and that its new balance is below 2^64.
  pub transfer_from_account_to_contract_moves :
      (value from to : ℕ) (h : Handler sdk) (cur : Changes sdk) (x y : ℕ)
      → current sdk h.changeset ≡ some cur
      → contains_key to h.chain.contracts ≡ true
      → AccountHolds sdk h cur from x
      → ContractHolds sdk h cur to y
      → value ≤ x
      → y + value < u64_mod
      → (h' : Handler sdk) × (cur' : Changes sdk) × (transfer_from_account_to_contract sdk value
            from to h
          ≡ (ok (y + value), h'))
        × ((alias : ℕ)
            → address_eq from ≡ address_eq alias
            → AccountHolds sdk h' cur' alias (x - value))
        × ContractHolds sdk h' cur' to (y + value)
        × Step (λ c. to ≡ c) (λ c. address_eq from ≡ address_eq c) h cur h' cur'
  unfolding transfer_from_account_to_contract
  transfer_from_account_to_contract_moves value from to h cur x y top known hx hy cover fits =
      let (h', cur', run, gone, s) =
        account-Step h cur from x (negative value) (x - value) top hx
          (omega (arith, AccountHolds-bound sdk h cur from x hx)) (omega arith) in
      let (h'', cur'', run', got, s') =
        contract-Step h' cur' to y (positive value) (y + value) s.top (s.contracts to y absurd hy)
          (omega arith) (omega arith) in
      (
        h'',
        cur'',
        rw (known, run, run'),
        λ a q. s'.accounts a (x - value) absurd (gone a q),
        got,
        record {
          top = s'.top;
          contracts = λ a b n k. s'.contracts a b n (s.contracts a b absurd k);
          accounts = λ a b n k. s'.accounts a b absurd (s.accounts a b n k);
          chain = s'.chain ∙ s.chain;
        },
      )

  -- A transfer out of a contract whose receiver is not on the chain, or of more than the contract
  -- holds, is refused and changes nothing: with `ToMissing` if the receiver is not on the chain,
  -- however much the contract holds, and else with `Insufficient`. It is assumed that the amount
  -- and the balance from which the changes of the contract count add up to less than 2^64.
  pub transfer_from_contract_refused :
      (value from to account : ℕ) (h : Handler sdk) (cur : Changes sdk) (x o : ℕ)
      → current sdk h.changeset ≡ some cur
      → ContractHolds sdk h cur from x
      → Contracts.original_balance sdk h cur from ≡ some o
      → o + value < u64_mod
      → (contains_key to h.chain.contracts ≡ false) ⊎ (x < value)
      → (contains_key (address_eq account) h.chain.accounts ≡ false) ⊎ (x < value)
      → (transfer_from_contract_to_contract sdk value from to h ≡ (
        err (if contains_key to h.chain.contracts then balance_error insufficient else to_missing),
        h,
      ))
        × (transfer_from_contract_to_account sdk value from account h ≡ (
          err (
              if contains_key (address_eq account) h.chain.accounts
              then balance_error insufficient
              else to_missing),
          h,
        ))
  unfolding transfer_from_contract_to_contract transfer_from_contract_to_account
  transfer_from_contract_refused value from to account h cur x o top hx ho fits no_to no_account =
      let e = change_contract_balance-insufficient sdk h cur from x value o top hx ho fits in
      (
        elim no_to [ inl missing ↦ ground (arith, missing) | inr short ↦ ground (arith, e short) ],
        elim no_account [
          | inl missing ↦ ground (arith, missing)
          | inr short ↦ ground (arith, e short)
        ],
      )
