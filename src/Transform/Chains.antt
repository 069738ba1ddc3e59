-- ===== src/Transform/Chains.antt =====
-- The linked lists of src/list.h, which is copied from the Linux kernel: the calls that the code
-- makes of it, and what they do to the entries in the order of `list_for_each_entry`.
use librave.Base.{◌≡◌, ◌↔◌, Bool, true, List, [], ◌∷◌, ◌++◌, length}

pub record Chains : Type 1 where
  pub Head : Type 0 → Type 0
  -- `INIT_LIST_HEAD`
  pub init : {A : Type 0} → Head A
  -- `list_add_tail`
  pub add_tail : {A : Type 0} → A → Head A → Head A
  -- `list_empty`
  pub is_empty : {A : Type 0} → Head A → Bool
  -- the entries that `list_for_each_entry` visits
  pub entries : {A : Type 0} → Head A → List A
  -- the same links, behind which the code has changed the entries in place
  pub updated : {A : Type 0} → List A → Head A → Head A

pub record ChainLaws (chains : Chains) : Type 1 where
  pub entries-init : (A : Type 0) → chains.entries (chains.init {A = A}) ≡ []
  pub entries-add_tail :
      {A : Type 0} (a : A) (h : chains.Head A)
      → chains.entries (chains.add_tail a h) ≡ chains.entries h ++ a ∷ []
  pub is_empty_iff :
      {A : Type 0} (h : chains.Head A) → (chains.is_empty h ≡ true) ↔ (chains.entries h ≡ [])
  pub entries-updated :
      {A : Type 0} (xs : List A) (h : chains.Head A)
      → length xs ≡ length (chains.entries h)
      → chains.entries (chains.updated xs h) ≡ xs
