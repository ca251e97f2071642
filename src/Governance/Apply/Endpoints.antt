-- ===== src/Governance/Apply/Endpoints.antt =====
-- Which operations of governance/apply.go keep the endpoints of the edges of store/memory in place.
use linea_core.Prelude.{
  ◌≡◌, sym, ◌∙◌, true, false, List, [], ◌∷◌, none, some, string_Eq, nat_Eq, In, arith, lookup,
  values, keep, In-lookup,
}
use mathlib.Core.Path.{subst}
use text.Mathlib.TextEquality.{eq_iff}
use linea_core.Errors.Ensures.{Ensures}
use linea_core.Model.Ids.{EntityId}
use linea_core.Model.Person.{Person}
use linea_core.Model.Relationship.{Relationship, is_valid}
use linea_core.Model.Source.{Source}
use linea_core.Model.Proposal.{Proposal}
use linea_core.Store.Contents.{Contents, update, is_some}
use linea_core.Store.Memory.State.{
  State, iterate_children, iterate_parents, iterate_marriages, is_child_edge, is_parent_edge,
  is_marriage_of,
}
use linea_core.Store.Memory.WriteTx
use linea_core.Store.Memory.WriteTx.{WriteTx, Overlay, new_write_tx, has_person}
use linea_core.Store.Memory.Effects.{
  put_person-ok, delete_person-ok, put_relationship-ok, delete_relationship-ok, put_source-ok,
  delete_source-ok, put_proposal-ok,
}
use linea_core.Store.Memory.Refines.{contents, seen-insert}
use linea_core.Store.Memory.{writing}
use linea_core.Governance.Cycle.Graph.{In-keep}
use linea_core.Governance.Apply.{touches, has_incident, is_stopped}

-- Every edge stands under its own id, is of a kind that exists, and both its persons are there.
pub record IsWhole (c : Contents) : Type 0 where
  pub at :
      (id : EntityId) (r : Relationship)
      → c.relationships id ≡ some r
      → (r.id ≡ id)
        × (is_valid r.rel_type ≡ true)
        × (is_some (c.persons r.from) ≡ true)
        × (is_some (c.persons r.to) ≡ true)

module _ {c : Contents} (whole : IsWhole c) where
  put_person-IsWhole :
      (k : EntityId) (p : Person) → IsWhole (record c { persons = update c.persons k (some p) })
  put_person-IsWhole k p = record { at = λ id r e. ground (arith, whole.at id r e) }

  put_relationship-IsWhole :
      (s : Relationship)
      → is_valid s.rel_type ≡ true
      → is_some (c.persons s.from) ≡ true
      → is_some (c.persons s.to) ≡ true
      → IsWhole (record c { relationships = update c.relationships s.id (some s) })
  put_relationship-IsWhole s valid from to = record {
    at = λ id r e. ground (arith, whole.at id r, eq_iff s.id id);
  }

  delete_relationship-IsWhole :
      (k : EntityId) → IsWhole (record c { relationships = update c.relationships k none })
  delete_relationship-IsWhole k = record { at = λ id r e. ground (arith, whole.at id r) }

  delete_person-IsWhole :
      (k : EntityId)
      → ((id : EntityId) (r : Relationship) → c.relationships id ≡ some r → touches k r ≡ false)
      → IsWhole (record c { persons = update c.persons k none })
  delete_person-IsWhole k free = record {
    at = λ id r e. ground (
      arith,
      whole.at id r e,
      free id r e,
      eq_iff k r.from,
      eq_iff k r.to,
      eq_iff r.from k,
      eq_iff r.to k,
    );
  }

pub record IsIntact (w : WriteTx) : Type 0 where
  pub whole : IsWhole (contents w)

module _ {w : WriteTx} (intact : IsIntact w) where
  pub put_person-IsIntact : (p : Person) → Ensures IsIntact (WriteTx.put_person w p)
  put_person-IsIntact p = record {
    at = λ x e. rw (put_person-ok w x p e).1 (record {
      whole =
          subst (λ f. IsWhole (record (contents w) { persons = f }))
            (sym (seen-insert w.person_over w.base.persons p.id (some p)))
            (put_person-IsWhole intact.whole p.id p);
    });
  }

  pub delete_person-IsIntact :
      (k : EntityId)
      → ((id : EntityId) (r : Relationship)
          → (contents w).relationships id ≡ some r
          → touches k r ≡ false)
      → Ensures IsIntact (WriteTx.delete_person w k)
  delete_person-IsIntact k free = record {
    at = λ x e. rw (delete_person-ok w x k e).1 (record {
      whole =
          subst (λ f. IsWhole (record (contents w) { persons = f }))
            (sym (seen-insert w.person_over w.base.persons k none))
            (delete_person-IsWhole intact.whole k free);
    });
  }

  has_person-is_some : (k : EntityId) → has_person w k ≡ is_some ((contents w).persons k)
  unfolding has_person
  has_person-is_some k = ground arith

  pub put_relationship-IsIntact :
      (r : Relationship)
      → is_valid r.rel_type ≡ true
      → Ensures IsIntact (WriteTx.put_relationship w r)
  put_relationship-IsIntact r valid = record {
    at = λ x e.
        let (_, from, to, same) = put_relationship-ok w x r e in
        rw same (record {
          whole =
              subst (λ f. IsWhole (record (contents w) { relationships = f }))
                (sym (seen-insert w.rel_over w.base.relationships r.id (some r)))
                (put_relationship-IsWhole intact.whole r valid
                  (sym (has_person-is_some r.from) ∙ from) (sym (has_person-is_some r.to) ∙ to));
        });
  }

  pub delete_relationship-IsIntact :
      (k : EntityId) → Ensures IsIntact (WriteTx.delete_relationship w k)
  delete_relationship-IsIntact k = record {
    at = λ x e. rw (delete_relationship-ok w x k e).1 (record {
      whole =
          subst (λ f. IsWhole (record (contents w) { relationships = f }))
            (sym (seen-insert w.rel_over w.base.relationships k none))
            (delete_relationship-IsWhole intact.whole k);
    });
  }

  pub put_source-IsIntact : (s : Source) → Ensures IsIntact (WriteTx.put_source w s)
  put_source-IsIntact s = record {
    at = λ x e. rw (put_source-ok w x s e).1 (record { whole = record { at = intact.whole.at } });
  }

  pub delete_source-IsIntact : (id : EntityId) → Ensures IsIntact (WriteTx.delete_source w id)
  delete_source-IsIntact id = record {
    at = λ x e.
        rw (delete_source-ok w x id e).1 (record { whole = record { at = intact.whole.at } });
  }

  pub put_proposal-IsIntact : (p : Proposal) → Ensures IsIntact (WriteTx.put_proposal w p)
  put_proposal-IsIntact p = record {
    at = λ x e. rw (put_proposal-ok w x p e).2 (record { whole = record { at = intact.whole.at } });
  }

pub is_stopped-In : {A : Type 0} (xs : List A) (x : A) → is_stopped xs ≡ false → ¬ In x xs
unfolding is_stopped
is_stopped-In [] x h i = i
is_stopped-In (y ∷ xs) x h i = absurd (cc)

-- Where a transaction has just begun, a person without incident edges is touched by none.
pub has_incident-touches :
    (b : State) (k : EntityId)
    → IsIntact (new_write_tx b)
    → has_incident writing (new_write_tx b) k ≡ false
    → (id : EntityId) (r : Relationship) → (contents (new_write_tx b)).relationships id ≡ some r
    → touches k r ≡ false
unfolding has_incident iterate_children iterate_parents iterate_marriages lookup is_valid
has_incident-touches b k intact h id r e =
    let all = values b.relationships in
    let i = In-lookup id r b.relationships e in
    ground (
      arith,
      (intact.whole.at id r e).1,
      is_stopped-In (keep (is_child_edge k) all) r,
      is_stopped-In (keep (is_parent_edge k) all) r,
      is_stopped-In (keep (is_marriage_of k) all) r,
      (In-keep (is_child_edge k) r all).1,
      (In-keep (is_parent_edge k) r all).1,
      (In-keep (is_marriage_of k) r all).1,
    )
