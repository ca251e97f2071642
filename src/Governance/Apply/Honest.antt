-- ===== src/Governance/Apply/Honest.antt =====
-- CCGGS §5.3: a placeholder for an unknown ancestor carries no attributes. The constructors of model
-- and the mutators of store/memory keep to that.
use linea_core.Prelude.{◌≡◌, sym, true, [], none, some, inl, inr, In, values, arith, string_Eq}
use mathlib.Core.Path.{subst}
use linea_core.Errors.Ensures.{Ensures, Ensures-bind, Ensures-ok, ensures_rules}
use linea_core.Model.Ids.{EntityId}
use linea_core.Model.Gender
use linea_core.Model.TimeRange.{no_range}
use linea_core.Model.Person.{Person, PersonOptions, new_person, new_unknown_ancestor}
use linea_core.Model.Relationship.{Relationship}
use linea_core.Model.Source.{Source}
use linea_core.Model.Proposal.{Proposal}
use linea_core.Store.Memory.WriteTx
use linea_core.Store.Memory.WriteTx.{WriteTx, Overlay, new_write_tx, commit_state, apply_overlay}
use linea_core.Store.Memory.Effects.{
  put_person-ok, delete_person-ok, put_relationship-ok, delete_relationship-ok, put_source-ok,
  delete_source-ok, put_proposal-ok,
}
use linea_core.Governance.Payload.{PayloadCreatePerson}
use linea_core.Governance.Cycle.Acyclic.{In-values-insert}
use linea_core.Governance.Build.{build_person}

-- A person is known, or a placeholder without a name, a gender, a year or a note.
abbrev pub IsHonest : Person → Type 0
IsHonest p =
    p.unknown ≡ true
    → (p.names ≡ [])
      × (p.gender ≡ Gender.unset)
      × (p.birth ≡ no_range)
      × (p.death ≡ no_range)
      × (p.notes ≡ "")

pub new_person-IsHonest :
    (id : EntityId) (opts : PersonOptions) → Ensures IsHonest (new_person id opts)
unfolding new_person
new_person-IsHonest id opts = record { at = λ p e u. absurd (ground arith) }

new_unknown_ancestor-IsHonest : (id : EntityId) → Ensures IsHonest (new_unknown_ancestor id)
unfolding new_unknown_ancestor
new_unknown_ancestor-IsHonest id = record { at = λ p e u. ground arith }

pub build_person-IsHonest :
    (fresh : EntityId) (pl : PayloadCreatePerson) → Ensures IsHonest (build_person fresh pl)
unfolding build_person
build_person-IsHonest fresh pl =
    search (ensures_rules, new_person-IsHonest, new_unknown_ancestor-IsHonest) depth 8

-- The persons that a transaction has below it, and those that it has put.
pub record IsClean (w : WriteTx) : Type 0 where
  pub below : (p : Person) → In p (values w.base.persons) → IsHonest p
  pub above : (p : Person) → In (some p) (values w.person_over) → IsHonest p

some-injective : {p q : Person} → some p ≡ some q → p ≡ q
some-injective e = cc

module _ {w : WriteTx} (clean : IsClean w) where
  pub put_person-IsClean : (p : Person) → IsHonest p → Ensures IsClean (WriteTx.put_person w p)
  put_person-IsClean p honest = record {
    at = λ x e. rw (put_person-ok w x p e).1 (record {
      below = clean.below;
      above = λ q i. elim (In-values-insert (some q) (some p) p.id w.person_over i) [
        | inl same ↦ subst IsHonest (sym (some-injective same)) honest
        | inr old ↦ clean.above q old
      ];
    });
  }

  pub delete_person-IsClean : (id : EntityId) → Ensures IsClean (WriteTx.delete_person w id)
  delete_person-IsClean id = record {
    at = λ x e. rw (delete_person-ok w x id e).1 (record {
      below = clean.below;
      above = λ q i. elim (In-values-insert (some q) none id w.person_over i) [
        | inl same ↦ absurd (cc)
        | inr old ↦ clean.above q old
      ];
    });
  }

  pub put_relationship-IsClean : (r : Relationship) → Ensures IsClean (WriteTx.put_relationship w r)
  put_relationship-IsClean r = record {
    at = λ x e.
        rw (put_relationship-ok w x r e).3 (record { below = clean.below; above = clean.above });
  }

  pub delete_relationship-IsClean :
      (id : EntityId) → Ensures IsClean (WriteTx.delete_relationship w id)
  delete_relationship-IsClean id = record {
    at = λ x e.
        rw (delete_relationship-ok w x id e).1
          (record { below = clean.below; above = clean.above });
  }

  pub put_source-IsClean : (s : Source) → Ensures IsClean (WriteTx.put_source w s)
  put_source-IsClean s = record {
    at = λ x e. rw (put_source-ok w x s e).1 (record { below = clean.below; above = clean.above });
  }

  pub delete_source-IsClean : (id : EntityId) → Ensures IsClean (WriteTx.delete_source w id)
  delete_source-IsClean id = record {
    at = λ x e.
        rw (delete_source-ok w x id e).1 (record { below = clean.below; above = clean.above });
  }

  pub put_proposal-IsClean : (p : Proposal) → Ensures IsClean (WriteTx.put_proposal w p)
  put_proposal-IsClean p = record {
    at =
        λ x e. rw (put_proposal-ok w x p e).2 (record { below = clean.below; above = clean.above });
  }

pub ruleset clean_rules = (
  ensures_rules, put_person-IsClean, delete_person-IsClean, put_relationship-IsClean,
  delete_relationship-IsClean, put_source-IsClean, delete_source-IsClean, put_proposal-IsClean,
)
