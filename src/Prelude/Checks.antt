-- ===== src/Prelude/Checks.antt =====
-- What a check decides: it succeeds exactly when a property holds, and fails with one kind of error.
use mathlib.Core.Path.{◌≡◌, refl}
use mathlib.Core.Logic.{◌↔◌, ◌⊎◌, inl, inr}
use mathlib.Core.Bool.{Bool, true, false}
use ruzu.Prelude.Tests.{if◌then◌else◌}
use ruzu.Prelude.Errors.{RuzuError, Result, ok, err, panic, ◌>>◌, guard}

-- Succeeds exactly when the property holds, and fails with the kind of error only.
pub record Decides (kind : RuzuError) (outcome : Result (Unit {0})) (P : Type 0) : Type 0 where
  pub accepted : outcome ≡ ok tt → P
  pub holds : P → outcome ≡ ok tt
  pub refused : (outcome ≡ ok tt) ⊎ (outcome ≡ err kind)

pub >>-Decides :
    (kind : RuzuError) (first second : Result (Unit {0})) {P Q : Type 0}
    → Decides kind first P
    → Decides kind second Q
    → Decides kind (first >> second) (P × Q)
>>-Decides kind (ok done) second p q = record {
  accepted = λ e. (p.accepted refl, q.accepted e);
  holds = λ both. q.holds both.1;
  refused = q.refused;
}
>>-Decides kind (err other) second p q = record {
  accepted = λ e. cc;
  holds = λ both. let e = p.holds both.0 in cc;
  refused = p.refused;
}
>>-Decides kind panic second p q = record {
  accepted = λ e. cc;
  holds = λ both. let e = p.holds both.0 in cc;
  refused = elim p.refused [ inl e ↦ absurd cc | inr e ↦ absurd cc ];
}

pub if-Decides :
    (kind : RuzuError) (b : Bool) (later : Result (Unit {0})) {P Q : Type 0}
    → (b ≡ false) ↔ P
    → Decides kind later Q
    → Decides kind (if b then err kind else later) (P × Q)
if-Decides kind true later p q = record {
  accepted = λ e. cc;
  holds = λ both. (let e = p.1 both.0 in cc);
  refused = inr refl;
}
if-Decides kind false later p q = record {
  accepted = λ e. (p.0 refl, q.accepted e);
  holds = λ both. q.holds both.1;
  refused = q.refused;
}

pub guard-Decides :
    (kind : RuzuError) (b : Bool) {P : Type 0} → (b ≡ true) ↔ P → Decides kind (guard b kind) P
guard-Decides kind true p = record {
  accepted = λ e. p.0 refl;
  holds = λ h. refl;
  refused = inl refl;
}
guard-Decides kind false p = record {
  accepted = λ e. cc;
  holds = λ h. (let e = p.1 h in cc);
  refused = inr refl;
}

-- A loop over the empty list.
pub ok-Decides : (kind : RuzuError) → Decides kind (ok tt) (Unit {0})
ok-Decides kind = record { accepted = λ e. tt; holds = λ e. refl; refused = inl refl }

-- The property in other words.
pub Decides_iff :
    (kind : RuzuError) (outcome : Result (Unit {0})) {P Q : Type 0}
    → Decides kind outcome P
    → P ↔ Q
    → Decides kind outcome Q
Decides_iff kind outcome d e = record {
  accepted = λ h. e.0 (d.accepted h);
  holds = λ q. d.holds (e.1 q);
  refused = d.refused;
}
