-- ===== src/Testing/ChangeSet.antt =====
-- `ChangeSet` of contract-testing/src/invocation/impls.rs: a stack of changes with checkpoints.
use rust_smart_contract.Base.{Option, none, some, [], ◌∷◌, Res, ok, panic}
use rust_smart_contract.Testing.Sdk.{Sdk}
use rust_smart_contract.Testing.Types.{Changes, ChangeSet}

module _ (sdk : Sdk) where
  -- `ChangeSet::new`
  unfoldable pub new : ChangeSet sdk
  new = record { contracts = []; accounts = [] } ∷ []

  -- `ChangeSet::current` and `ChangeSet::current_mut`, which `expect` a last element.
  abbrev pub current : ChangeSet sdk → Option (Changes sdk)
  current [] = none
  current (top ∷ rest) = some top

  -- What is written through the reference that `current_mut` returns.
  abbrev pub set_current : Changes sdk → ChangeSet sdk → ChangeSet sdk
  set_current changes [] = []
  set_current changes (top ∷ rest) = changes ∷ rest

  -- `ChangeSet::checkpoint`
  unfoldable pub checkpoint : {E : Type 0} → ChangeSet sdk → Res E (ChangeSet sdk)
  checkpoint [] = panic
  checkpoint (top ∷ rest) = ok (top ∷ top ∷ rest)

  -- `ChangeSet::rollback`
  unfoldable pub rollback : {E : Type 0} → ChangeSet sdk → Res E (ChangeSet sdk)
  rollback [] = panic
  rollback (top ∷ rest) = ok rest
