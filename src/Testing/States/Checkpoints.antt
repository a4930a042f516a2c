-- ===== src/Testing/States/Checkpoints.antt =====
-- Checkpoints: what a rollback after a nested call brings back. A checkpoint is made before every
-- nested call and taken off by the rollback after a call that failed; after one that succeeded it
-- stays (contract-testing/src/invocation/impls.rs).
use mathlib.Core.List.{append_assoc}
use rust_smart_contract.Base.{ℕ, ◌≡◌, refl, sym, ap, ◌∙◌, some, [], ◌∷◌, ◌++◌, arith, ok}
use rust_smart_contract.Testing.Sdk.{Sdk}
use rust_smart_contract.Testing.Delta.{AmountDelta}
use rust_smart_contract.Testing.Types.{Changes, ChangeSet}
use rust_smart_contract.Testing.ChangeSet.{current}
use rust_smart_contract.Testing.Handler.{Handler, change_contract_balance, change_account_balance}
use rust_smart_contract.Testing.Handler.Frame.{
  below, Keeps, change_contract_balance-Keeps, change_account_balance-Keeps,
}
use rust_smart_contract.Testing.States.{
  save_state_changes, save_module_upgrade, checkpoint, rollback,
}

module _ (sdk : Sdk) where
  -- the entries under the topmost one
  abbrev under_top : ChangeSet sdk → ChangeSet sdk
  under_top [] = []
  under_top (top ∷ rest) = rest

  -- `h'` is reached from `h` by the methods that change the handler, in any order and whether they
  -- succeed or not, by anything that leaves changes and chain alone, and by nested calls, whose
  -- checkpoint is rolled back if they fail and stays if they succeed. The list has the changes that
  -- the checkpoints that stayed have saved, the newest first: those at the start of the nested call.
  pub data Reaches : Handler sdk → ChangeSet sdk → Handler sdk → Type 0 where
    here : {h : Handler sdk} → Reaches h [] h
    contract_changed :
        {h t : Handler sdk} {saved : ChangeSet sdk} (a : ℕ) (d : AmountDelta)
        → Reaches h saved t
        → Reaches h saved (change_contract_balance sdk a d t).1
    account_changed :
        {h t : Handler sdk} {saved : ChangeSet sdk} (a : ℕ) (d : AmountDelta)
        → Reaches h saved t
        → Reaches h saved (change_account_balance sdk a d t).1
    state_saved :
        {h t : Handler sdk} {saved : ChangeSet sdk} (a : ℕ) (s : sdk.MutableState)
        → Reaches h saved t
        → Reaches h saved (save_state_changes sdk a s t).1
    module_upgraded :
        {h t : Handler sdk} {saved : ChangeSet sdk} (a m : ℕ)
        → Reaches h saved t
        → Reaches h saved (save_module_upgrade sdk a m t).1
    elsewhere :
        {h t t' : Handler sdk} {saved : ChangeSet sdk}
        → Reaches h saved t
        → t'.changeset ≡ t.changeset
        → t'.chain ≡ t.chain
        → Reaches h saved t'
    failed :
        {h t u : Handler sdk} {saved inner : ChangeSet sdk} (c : Changes sdk)
        → Reaches h saved t
        → current sdk t.changeset ≡ some c
        → Reaches (checkpoint sdk t).1 inner u
        → Reaches h (under_top (inner ++ c ∷ saved)) (rollback sdk u).1
    succeeded :
        {h t u : Handler sdk} {saved inner : ChangeSet sdk} (c : Changes sdk)
        → Reaches h saved t
        → current sdk t.changeset ≡ some c
        → Reaches (checkpoint sdk t).1 inner u
        → Reaches h (inner ++ c ∷ saved) u

  save_state_changes-Keeps :
      (a : ℕ) (s : sdk.MutableState) (h : Handler sdk)
      → Keeps sdk h (save_state_changes sdk a s h).1
  unfolding save_state_changes
  save_state_changes-Keeps a s h = ground arith

  save_module_upgrade-Keeps :
      (a m : ℕ) (h : Handler sdk) → Keeps sdk h (save_module_upgrade sdk a m h).1
  unfolding save_module_upgrade
  save_module_upgrade-Keeps a m h = ground arith

  -- the stack of a handler: the topmost changes, those that were saved, and what was there before
  abbrev Stacked : ChangeSet sdk → ChangeSet sdk → Handler sdk → Handler sdk → Type 0
  Stacked saved rest h u =
      (top : Changes sdk) × (u.changeset ≡ top ∷ (saved ++ rest)) × (u.chain ≡ h.chain)

  Keeps-Stacked :
      (saved rest : ChangeSet sdk) (h t u : Handler sdk)
      → Keeps sdk t u
      → Stacked saved rest h t
      → Stacked saved rest h u
  Keeps-Stacked saved rest h t u k (top, e, c) =
      let (top', e') = below_some u.changeset (saved ++ rest) (k.stack ∙ ap (below sdk) e) in
      (top', e', k.chain ∙ c)
    where
      below_some :
          (s r : ChangeSet sdk) → below sdk s ≡ some r → (top : Changes sdk) × (s ≡ top ∷ r)
      below_some [] r e = ground arith
      below_some (x ∷ s) r e = (x, ground arith)

  -- a checkpoint, and a rollback, on a stack that is known
  checkpoint-stack :
      (h : Handler sdk) (top : Changes sdk) (rest : ChangeSet sdk)
      → h.changeset ≡ top ∷ rest
      → checkpoint sdk h ≡ (ok tt, record h { changeset = top ∷ top ∷ rest })
  unfolding checkpoint
  checkpoint-stack h top rest e = ground arith

  rollback-stack :
      (h : Handler sdk) (top c : Changes sdk) (rest : ChangeSet sdk)
      → h.changeset ≡ top ∷ c ∷ rest
      → rollback sdk h ≡ (ok tt, record h { changeset = c ∷ rest })
  unfolding rollback
  rollback-stack h top c rest e = ground arith

  current-top :
      (s : ChangeSet sdk) (top c : Changes sdk) (rest : ChangeSet sdk)
      → current sdk s ≡ some c
      → s ≡ top ∷ rest
      → s ≡ c ∷ rest
  current-top s top c rest e f = ground arith

  rollback-Stacked :
      (inner saved rest : ChangeSet sdk) (c top : Changes sdk) (h u : Handler sdk)
      → u.changeset ≡ top ∷ ((inner ++ c ∷ saved) ++ rest)
      → u.chain ≡ h.chain
      → Stacked (under_top (inner ++ c ∷ saved)) rest h (rollback sdk u).1
  rollback-Stacked [] saved rest c top h u e k =
      rw (rollback-stack u top c (saved ++ rest) e) (c, refl, k)
  rollback-Stacked (x ∷ inner) saved rest c top h u e k =
      rw (rollback-stack u top x ((inner ++ c ∷ saved) ++ rest) e) (x, refl, k)

  -- the stack in a nested call, after its checkpoint
  nested-Stacked :
      (inner saved rest : ChangeSet sdk) (c : Changes sdk) (h t u : Handler sdk)
      → current sdk t.changeset ≡ some c
      → Stacked saved rest h t
      → ((checkpoint sdk t).1.changeset ≡ c ∷ (c ∷ (saved ++ rest))
          → Stacked inner (c ∷ (saved ++ rest)) (checkpoint sdk t).1 u)
      → Stacked (inner ++ c ∷ saved) rest h u
  nested-Stacked inner saved rest c h t u at (top, e, k) f =
      let made = checkpoint-stack t c (saved ++ rest) (current-top t.changeset top c _ at e) in
      let (top', e', k') = f (rw made refl) in
      (
        top',
        e' ∙ ap (λ (l : ChangeSet sdk). top' ∷ l) (sym (append_assoc inner (c ∷ saved) rest)),
        k' ∙ rw made refl ∙ k,
      )

  pub Reaches-Stacked :
      {h u : Handler sdk} {saved : ChangeSet sdk} (cur : Changes sdk) (rest : ChangeSet sdk)
      → h.changeset ≡ cur ∷ rest
      → Reaches h saved u
      → Stacked saved rest h u
  Reaches-Stacked cur rest s here = (cur, s, refl)
  Reaches-Stacked cur rest s (contract_changed {h = h} {t = t} {saved = saved} a d r) =
      Keeps-Stacked saved rest h t _ (change_contract_balance-Keeps sdk a d t)
        (Reaches-Stacked cur rest s r)
  Reaches-Stacked cur rest s (account_changed {h = h} {t = t} {saved = saved} a d r) =
      Keeps-Stacked saved rest h t _ (change_account_balance-Keeps sdk a d t)
        (Reaches-Stacked cur rest s r)
  Reaches-Stacked cur rest s (state_saved {h = h} {t = t} {saved = saved} a m r) =
      Keeps-Stacked saved rest h t _ (save_state_changes-Keeps a m t) (Reaches-Stacked cur rest s r)
  Reaches-Stacked cur rest s (module_upgraded {h = h} {t = t} {saved = saved} a m r) =
      Keeps-Stacked saved rest h t _ (save_module_upgrade-Keeps a m t)
        (Reaches-Stacked cur rest s r)
  Reaches-Stacked cur rest s (elsewhere r e k) =
      let (top, e', k') = Reaches-Stacked cur rest s r in (top, e ∙ e', k ∙ k')
  Reaches-Stacked cur rest s
        (failed {h = h} {t = t} {u = u} {saved = saved} {inner = inner} c r at q) =
      let (top, e, k) =
        nested-Stacked inner saved rest c h t u at (Reaches-Stacked cur rest s r)
          (λ made. Reaches-Stacked c (c ∷ (saved ++ rest)) made q) in
      rollback-Stacked inner saved rest c top h u e k
  Reaches-Stacked cur rest s
        (succeeded {h = h} {t = t} {u = u} {saved = saved} {inner = inner} c r at q) =
      nested-Stacked inner saved rest c h t u at (Reaches-Stacked cur rest s r)
        (λ made. Reaches-Stacked c (c ∷ (saved ++ rest)) made q)
