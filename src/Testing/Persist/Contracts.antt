-- ===== src/Testing/Persist/Contracts.antt =====
-- What `ChangeSet::persist` leaves of the contracts
-- (contract-testing/src/invocation/impls.rs).
use rust_smart_contract.Base.{
  ℕ, ◌≡◌, refl, ◌∙◌, Bool, false, ◌||◌, Option, none, some, [], ◌∷◌, ◌==◌, ok, arith, inl, inr,
  Option-cases,
}
use rust_smart_contract.Base.Dict.{Dict, get?, insert, get?-insert, get?-insert_ne}
use rust_smart_contract.Testing.Sdk.{Sdk}
use rust_smart_contract.Testing.Delta
use rust_smart_contract.Testing.Delta.{apply_to_balance, positive, negative}
use rust_smart_contract.Testing.Delta.Laws.{InRange, balance_after, apply_to_balance-InRange}
use rust_smart_contract.Testing.Types.{Contract, ContractChanges}
use rust_smart_contract.Testing.Persist.{
  freeze_states, persist_contract, persist_contracts, state_changed,
}

module _ (sdk : Sdk) where
  open sdk use {amount, PersistentState, MutableState, freeze, tick_energy}

  -- The frozen states are those of the contracts with a changed state.
  pub get?-freeze_states :
      (d : Dict (ContractChanges sdk)) (a : ℕ) (e : ContractChanges sdk) (s : MutableState)
      → get? a d ≡ some e
      → e.state ≡ some s
      → get? a (freeze_states sdk d).0 ≡ some (freeze s).0
  unfolding freeze_states get?
  get?-freeze_states [] a e s g h = cc
  get?-freeze_states ((k, c) ∷ d) a e s g h = elim (Option-cases c.state) [
    | inl none_saved ↦ ground (arith, get?-freeze_states d a e s)
    | inr (t, saved) ↦
        ground
          (arith, get?-freeze_states d a e s, get?-insert k a (freeze t).0 (freeze_states sdk d).0)
  ]

  -- The contract that the changes `e` leave: balance, module and frozen state.
  abbrev pub after : ContractChanges sdk → Contract sdk → Contract sdk
  after e c = record c {
    self_balance = balance_after e.self_balance_original e.self_balance_delta;
    module_reference = elim e.new_module [ none ↦ c.module_reference | some m ↦ m ];
    state = elim e.state [ none ↦ c.state | some s ↦ (freeze s).0 ];
  }

  persist_contract-after :
      {E : Type 0} (frozen : Dict PersistentState) (a : ℕ) (e : ContractChanges sdk)
      (c : Contract sdk)
      → InRange e.self_balance_original e.self_balance_delta
      → e.self_balance_original ≡ c.self_balance
      → ((s : MutableState) → e.state ≡ some s → get? a frozen ≡ some (freeze s).0)
      → persist_contract sdk {E = E} frozen a e c ≡ ok (after e c)
  unfolding persist_contract Delta.is_zero
  persist_contract-after frozen a e c r o f = elim (Option-cases e.state) [
    | inl same ↦
        ground
          (arith, apply_to_balance-InRange amount e.self_balance_original e.self_balance_delta r)
    | inr (s, saved) ↦ ground (
      arith,
      apply_to_balance-InRange amount e.self_balance_original e.self_balance_delta r,
      f s saved,
    )
  ]

  -- The changes are valid for the persisted contracts: every one is on the chain, its changes
  -- count from the persisted balance and stay in range, and it is listed once.
  abbrev pub Known : Dict (ContractChanges sdk) → Dict (Contract sdk) → Type 0
  Known [] persisted = Unit {0}
  Known ((a, e) ∷ d) persisted =
      ((c : Contract sdk) × (get? a persisted ≡ some c)
        × (e.self_balance_original ≡ c.self_balance))
      × InRange e.self_balance_original e.self_balance_delta
      × (get? a d ≡ none)
      × Known d persisted

  Known-insert :
      (d : Dict (ContractChanges sdk)) (persisted : Dict (Contract sdk)) (k : ℕ) (c : Contract sdk)
      → get? k d ≡ none
      → Known d persisted
      → Known d (insert k c persisted)
  unfolding get?
  Known-insert [] persisted k c new h = tt
  Known-insert ((a, e) ∷ d) persisted k c new ((c', g, o), r, u, rest) = (
    (c', get?-insert_ne k a c persisted (ground arith) ∙ g, o),
    r,
    u,
    Known-insert d persisted k c (ground arith) rest,
  )

  abbrev pub updated : Option (ContractChanges sdk) → Option (Contract sdk) → Option (Contract sdk)
  updated none c = c
  updated (some e) none = none
  updated (some e) (some c) = some (after e c)

  pub persist_contracts-after :
      {E : Type 0} (frozen : Dict PersistentState) (invoked : ℕ) (d : Dict (ContractChanges sdk))
      (persisted : Dict (Contract sdk)) (changed : Bool)
      → Known d persisted
      → ((a : ℕ) (e : ContractChanges sdk) (s : MutableState)
          → get? a d ≡ some e
          → e.state ≡ some s
          → get? a frozen ≡ some (freeze s).0)
      → (persisted' : Dict (Contract sdk)) × (persist_contracts sdk {E = E} frozen invoked d
            (persisted, changed)
          ≡ ok (persisted', changed || state_changed sdk invoked d))
        × ((a : ℕ) → get? a persisted' ≡ updated (get? a d) (get? a persisted))
  unfolding persist_contracts state_changed get?
  persist_contracts-after frozen invoked [] persisted changed h f =
      (persisted, ground arith, λ a. refl)
  persist_contracts-after {E} frozen invoked ((k, e) ∷ d) persisted changed ((c, g, o), r, u, rest)
        f =
      let (p', run, look) =
        persist_contracts-after {E = E} frozen invoked d (insert k (after e c) persisted)
          (changed || elim e.state [ none ↦ false | some _ ↦ k == invoked ])
          (Known-insert d persisted k (after e c) u rest)
          (λ a e' s h m. f a e' s (ground arith) m) in
      (
        p',
        ground (
          arith,
          run,
          persist_contract-after {E = E} frozen k e c r o (λ s m. f k e s (ground arith) m),
        ),
        λ a. ground (arith, look a, get?-insert k a (after e c) persisted),
      )
