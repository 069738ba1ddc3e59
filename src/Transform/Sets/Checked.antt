-- ===== src/Transform/Sets/Checked.antt =====
-- Reads of destroyed instructions, where they are let through and where there are none.
use librave.Base.{
  ◌≡◌, refl, true, Bool-cases, inl, inr, ok, ◌==◌, ==_iff, Outcome, ◌>>=◌, ok-injective,
}
use librave.Transform.Dr.{Dr}
use librave.Transform.Store.{Store}
use librave.Transform.Sets.{Scan, unstarted, scanned, checked, settled}

module _ {A : Type 0} (dr : Dr) (before after : Store) (result : A) where
  pub checked-lingers : dr.lingers ≡ true → checked dr before after result ≡ ok result
  unfolding checked
  checked-lingers lingers = rw (lingers) refl

  pub checked-same : after.stale ≡ before.stale → checked dr before after result ≡ ok result
  unfolding checked
  checked-same same = elim (Bool-cases dr.lingers) [
    | inl t ↦ rw (t) refl
    | inr t ↦ rw (t, same, (==_iff before.stale before.stale).1 refl) refl
  ]

pub bind_ok : {A : Type 0} (m : Outcome A) → (m >>= λ a. ok a) ≡ m
bind_ok (ok a) = refl
bind_ok Outcome.fault = refl
bind_ok Outcome.out_of_fuel = refl

pub settled-lingers :
    (dr : Dr) (before : Store) (r : Scan dr.Instr) → dr.lingers ≡ true → settled dr before r ≡ ok r
settled-lingers dr before (unstarted store) lingers = refl
settled-lingers dr before (scanned rc c) lingers =
    checked-lingers dr before c.store (scanned rc c) lingers

pub settled-inv :
    (dr : Dr) (before : Store) (r r' : Scan dr.Instr) → settled dr before r ≡ ok r' → r ≡ r'
unfolding checked
settled-inv dr before (unstarted store) r' e = ok-injective e
settled-inv dr before (scanned rc c) r' e = elim (Bool-cases dr.lingers) [
  | inl t ↦ ok-injective (rw (t) at e)
  | inr t ↦ elim (Bool-cases (c.store.stale == before.stale)) [
    | inl t' ↦ ok-injective (rw (t, t') at e)
    | inr t' ↦ let e' = rw (t, t') at e in absurd (cc)
  ]
]
