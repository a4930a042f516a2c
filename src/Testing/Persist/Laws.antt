-- ===== src/Testing/Persist/Laws.antt =====
-- What `ChangeSet::persist` leaves on the chain, and what it charges
-- (contract-testing/src/invocation/impls.rs).
use rust_smart_contract.Base.{
  ℕ, ◌-◌, ◌≤◌, ◌<◌, ◌≡◌, refl, ◌∙◌, false, Option, none, some, [], ◌∷◌, ok, err, arith,
}
use rust_smart_contract.Base.Dict.{Dict, get?, insert, get?-insert, get?-insert_ne}
use rust_smart_contract.Testing.Sdk.{Sdk}
use rust_smart_contract.Testing.Delta
use rust_smart_contract.Testing.Delta.{apply_to_balance, positive, negative}
use rust_smart_contract.Testing.Delta.Laws.{InRange, balance_after, apply_to_balance-InRange}
use rust_smart_contract.Testing.Types.{Account, Changes, ChangeSet, AccountChanges}
use rust_smart_contract.Testing.ChangeSet.{current}
use rust_smart_contract.Testing.Persist.{
  InsufficientEnergy, insufficient_energy, freeze_states, persist_account, persist_accounts,
  Persisted, persist, state_changed, collect_energy_for_state,
}
use rust_smart_contract.Testing.Persist.Contracts.{
  Known, updated, get?-freeze_states, persist_contracts-after,
}

module _ (sdk : Sdk) where
  open sdk use {amount, PersistentState, MutableState, freeze, tick_energy}

  -- The account that the changes `e` leave.
  abbrev pub after : AccountChanges → Account sdk → Account sdk
  after e c = record c {
    balance = record (c.balance) { total = balance_after c.balance.total e.balance_delta };
  }

  abbrev pub updated_account : Option AccountChanges → Option (Account sdk) → Option (Account sdk)
  updated_account none c = c
  updated_account (some e) none = none
  updated_account (some e) (some c) = some (after e c)

  -- Every changed account is on the chain, its total covers the change, and it is listed once.
  abbrev pub KnownAccounts : Dict AccountChanges → Dict (Account sdk) → Type 0
  KnownAccounts [] persisted = Unit {0}
  KnownAccounts ((a, e) ∷ d) persisted =
      ((c : Account sdk) × (get? a persisted ≡ some c) × InRange c.balance.total e.balance_delta)
      × (get? a d ≡ none)
      × KnownAccounts d persisted

  KnownAccounts-insert :
      (d : Dict AccountChanges) (persisted : Dict (Account sdk)) (k : ℕ) (c : Account sdk)
      → get? k d ≡ none
      → KnownAccounts d persisted
      → KnownAccounts d (insert k c persisted)
  unfolding get?
  KnownAccounts-insert [] persisted k c new h = tt
  KnownAccounts-insert ((a, e) ∷ d) persisted k c new ((c', g, r), u, rest) = (
    (c', get?-insert_ne k a c persisted (ground arith) ∙ g, r),
    u,
    KnownAccounts-insert d persisted k c (ground arith) rest,
  )

  persist_account-after :
      (e : AccountChanges) (c : Account sdk)
      → InRange c.balance.total e.balance_delta
      → persist_account sdk {E = InsufficientEnergy} e c ≡ ok (after e c)
  unfolding persist_account Delta.is_zero
  persist_account-after e c r =
      ground (arith, apply_to_balance-InRange amount c.balance.total e.balance_delta r)

  persist_accounts-after :
      (d : Dict AccountChanges) (persisted : Dict (Account sdk))
      → KnownAccounts d persisted
      → (persisted' : Dict (Account sdk)) × (persist_accounts sdk {E = InsufficientEnergy} d
            persisted
          ≡ ok persisted')
        × ((a : ℕ) → get? a persisted' ≡ updated_account (get? a d) (get? a persisted))
  unfolding persist_accounts get?
  persist_accounts-after [] persisted h = (persisted, refl, λ a. refl)
  persist_accounts-after ((k, e) ∷ d) persisted ((c, g, r), u, rest) =
      let (p', run, look) =
        persist_accounts-after d (insert k (after e c) persisted)
          (KnownAccounts-insert d persisted k (after e c) u rest) in
      (
        p',
        ground (arith, run, persist_account-after e c r),
        λ a. ground (arith, look a, get?-insert k a (after e c) persisted),
      )

  -- If the energy suffices for the new state bytes, `persist` charges it, reports whether the
  -- state of the invoked contract has changed, and writes exactly the topmost changes: every
  -- changed contract gets its balance, module and state, every changed account its total, and the
  -- others stay as they are.
  pub persist_writes :
      (changeset : ChangeSet sdk) (invoked : ℕ) (p : Persisted sdk) (cur : Changes sdk)
      → current sdk changeset ≡ some cur
      → Known sdk cur.contracts p.contracts
      → KnownAccounts cur.accounts p.accounts
      → (freeze_states sdk cur.contracts).1 ≤ p.remaining_energy
      → let (r, p') = persist sdk changeset invoked p in
        (r ≡ ok (state_changed sdk invoked cur.contracts))
        × (p'.remaining_energy ≡ p.remaining_energy - (freeze_states sdk cur.contracts).1)
        × ((a : ℕ) → get? a p'.contracts ≡ updated sdk (get? a cur.contracts) (get? a p.contracts))
        × ((a : ℕ) → get? a p'.accounts ≡ updated_account (get? a cur.accounts) (get? a p.accounts))
  unfolding persist
  persist_writes changeset invoked p cur top known known' enough =
      let (cs, run, look) =
        persist_contracts-after sdk {E = InsufficientEnergy} (freeze_states sdk cur.contracts).0
          invoked cur.contracts p.contracts false known (get?-freeze_states sdk cur.contracts) in
      let (as', run', look') = persist_accounts-after cur.accounts p.accounts known' in
      let charged =
        sdk.tick_energy_enough p.remaining_energy (freeze_states sdk cur.contracts).1 enough in
      (
        ground (arith, run, run', charged),
        ground (arith, run, run', charged),
        λ a. ground (arith, run, run', charged, look a),
        λ a. ground (arith, run, run', charged, look' a),
      )

  -- If it does not suffice, `persist` reports that and writes nothing.
  pub persist_insufficient :
      (changeset : ChangeSet sdk) (invoked : ℕ) (p : Persisted sdk) (cur : Changes sdk)
      → current sdk changeset ≡ some cur
      → p.remaining_energy < (freeze_states sdk cur.contracts).1
      → let (r, p') = persist sdk changeset invoked p in
        (r ≡ err insufficient_energy)
        × (p'.contracts ≡ p.contracts)
        × (p'.accounts ≡ p.accounts)
        × (collect_energy_for_state sdk changeset invoked p.remaining_energy
            ≡ (err insufficient_energy, p'.remaining_energy))
  unfolding persist collect_energy_for_state
  persist_insufficient changeset invoked p cur top short =
      let refused =
        sdk.tick_energy_insufficient p.remaining_energy (freeze_states sdk cur.contracts).1 short in
      (
        ground (arith, refused),
        ground (arith, refused),
        ground (arith, refused),
        ground (arith, refused),
      )

  -- An error of `persist` leaves the chain as it was.
  pub persist_err :
      (cs : ChangeSet sdk) (a : ℕ) (p : Persisted sdk) (e : InsufficientEnergy)
      → (persist sdk cs a p).0 ≡ err e
      → ((persist sdk cs a p).1.accounts ≡ p.accounts)
        × ((persist sdk cs a p).1.contracts ≡ p.contracts)
  unfolding persist
  persist_err cs a p e h = (ground arith, ground arith)
