-- ===== src/Examples/Creations.antt =====
-- Accept of governance/apply.go on a proposal to create the person D.
use linea_core.Prelude.{◌≡◌, refl, arith, [], ◌∷◌, none, some, false, lookup, string_Eq, nat_Eq}
use text.Mathlib.TextEquality.{eq_iff}
use linea_core.Prelude.Int.{pos}
use linea_core.Prelude.Text.{trim_space}
use linea_core.Errors.{ok}
use linea_core.Model.TimeRange.{no_range, is_zero}
use linea_core.Model.Person.{new_person}
use linea_core.Model.Proposal.{Proposal, create, person_kind, under_review, accepted}
use linea_core.Store.Memory.State.{get_proposal}
use linea_core.Store.Memory.{Store, store}
use linea_core.Governance.Payload.{Unmarshal, PayloadCreatePerson}
use linea_core.Governance.Build.{build_person, choose_id}
use linea_core.Governance.StateMachine.{transition}
use linea_core.Governance.StateMachine.Lifecycle.{entry}
use linea_core.Governance.Apply.{accept}
use linea_core.Governance.Apply.Creates.{IsCreated, accept-creates}
use linea_core.Examples.{person, proposal, family, family_store}

abbrev birth_of_d : Proposal
birth_of_d = proposal "n" under_review create person_kind

abbrev payload : PayloadCreatePerson
payload = record {
  new_id = "D";
  names = (person "D").names;
  gender = "";
  birth = no_range;
  death = no_range;
  notes = "";
  unknown_ancestor = false;
}

abbrev reads_d : Unmarshal
reads_d = record { person = λ _. some payload; relationship = λ _. none; source = λ _. none }

abbrev expecting : Store
expecting = record family_store { current = record family { proposals = ("n", birth_of_d) ∷ [] } }

abbrev accepted_d : Proposal
accepted_d = record birth_of_d {
  state = accepted;
  history = entry under_review accepted "Y" (pos 1) "" ∷ [];
}

stored_n : get_proposal expecting.current "n" ≡ ok birth_of_d
unfolding get_proposal lookup
stored_n = refl

moved_n : transition birth_of_d accepted "Y" (pos 1) "" ≡ ok accepted_d
unfolding transition
moved_n = refl

built_d : build_person "f" payload ≡ ok (person "D")
unfolding build_person new_person choose_id trim_space is_zero
built_d = refl

accept-creates_example :
    ((accept store expecting reads_d "f" 9 "n" "Y" (pos 1)).0 ≡ ok accepted_d)
    × IsCreated expecting.current "n"
        (person "D")
        accepted_d
        (accept store expecting reads_d "f" 9 "n" "Y" (pos 1)).1.current
accept-creates_example =
    accept-creates expecting reads_d "f" 9 "n" "Y" (pos 1) birth_of_d accepted_d payload
      (person "D") refl stored_n refl (λ e. absurd (ground (arith, e, eq_iff "n" ""))) refl refl
      moved_n refl built_d
