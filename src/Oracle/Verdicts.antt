-- ===== src/Oracle/Verdicts.antt =====
-- What the verdict of project/oracle/cmd/server/main.go says of the nodes.
use lab.Oracle.Types.{RequestState, OracleNode}
use lab.Oracle.Server.{compare_states, agreed_text, verdict, states_of}
use lab.Base.{
  inl, inr, refl, none, some, ◌==◌, if◌then◌else◌, Option-cases, List, String, ◌∷◌, Bool, Option,
  ◌≡◌, [], true, false, arith, ◌⊎◌, string_eq, beq_cases, subst, sym, ap, ◌∙◌,
}

-- The agreed texts of the nodes that have one.
unfoldable pub texts_of : {F : Type 0} → List (Option (RequestState F)) → List String
unfolding agreed_text
texts_of [] = []
texts_of (none ∷ states) = texts_of states
texts_of (some state ∷ states) =
    let rest = texts_of states in elim (agreed_text state) [ none ↦ rest | some text ↦ text ∷ rest ]

-- The loop over the texts only.
unfoldable compare_texts : List String → String → Bool → String × Bool
compare_texts [] final reached = (final, reached)
compare_texts (text ∷ texts) final reached =
    if final == ""
    then compare_texts texts text true
    else if text == final
    then compare_texts texts final reached
    else (final, false)

compare_states-texts_of :
    {F : Type 0} (states : List (Option (RequestState F))) (final : String) (reached : Bool)
    → compare_states states final reached ≡ compare_texts (texts_of states) final reached
unfolding compare_states texts_of compare_texts
compare_states-texts_of [] final reached = refl
compare_states-texts_of (none ∷ states) final reached = compare_states-texts_of states final reached
compare_states-texts_of (some state ∷ states) final reached =
    elim (Option-cases (agreed_text state)) [
      | inl e ↦ rw (e, compare_states, texts_of) (compare_states-texts_of states final reached)
      | inr (text, e) ↦
          rw (e, compare_states, texts_of)
            (rw
              (
                compare_states-texts_of states text true,
                compare_states-texts_of states final reached,
              )
              refl)
    ]

-- Every text of a list is the given one, or empty.
abbrev pub AllSame : String → List String → Type 0
AllSame final [] = Unit
AllSame final (text ∷ texts) = ((text ≡ final) ⊎ (text ≡ "")) × AllSame final texts

-- Every text of a list is the given one.
abbrev pub AreAll : String → List String → Type 0
AreAll final [] = Unit
AreAll final (text ∷ texts) = (text ≡ final) × AreAll final texts

compare_texts-AllSame :
    (texts : List String) (final : String) (reached : Bool)
    → (compare_texts texts final reached).1 ≡ true
    → AllSame (compare_texts texts final reached).0 texts
      × (((final == "") ≡ true) ⊎ (final ≡ (compare_texts texts final reached).0))
unfolding compare_texts
compare_texts-AllSame [] final reached h = (tt, inr refl)
compare_texts-AllSame (text ∷ texts) final reached h = ground (
  arith,
  beq_cases final "",
  beq_cases text final,
  compare_texts-AllSame texts text true,
  compare_texts-AllSame texts final reached,
)

-- Texts that are all the given one, which is not empty, are found equal to it.
compare_texts-AreAll :
    (texts : List String) (final : String)
    → (final == "") ≡ false
    → AreAll final texts
    → compare_texts texts final true ≡ (final, true)
unfolding compare_texts
compare_texts-AreAll [] final n h = refl
compare_texts-AreAll (text ∷ texts) final n h =
    ground (arith, beq_cases text final, compare_texts-AreAll texts final n h.1)

-- When the verdict is that the consensus is reached, every node that has completed the request with a
-- text agreed on the final one, or on an empty one. When one or more nodes have completed it and
-- all of them agreed on one text that is not empty, the verdict is that the consensus is reached, with that text,
-- also where that is a single node.
pub verdict_lem :
    {F : Type 0} (request_id final : String) (texts : List String) (nodes : List (OracleNode F))
    → ((verdict request_id nodes).1 ≡ true
        → AllSame (verdict request_id nodes).0 (texts_of (states_of request_id nodes)))
      × (texts_of (states_of request_id nodes) ≡ final ∷ texts
          → AreAll final texts
          → (final == "") ≡ false
          → verdict request_id nodes ≡ (final, true))
unfolding verdict compare_texts
verdict_lem request_id final texts nodes =
    let states = states_of request_id nodes in
    let same = compare_states-texts_of states "" false in
    (
      λ h.
          subst (λ r. AllSame r.0 (texts_of states)) (sym same)
            (compare_texts-AllSame (texts_of states) "" false (ap (λ r. r.1) (sym same) ∙ h)).0,
      λ e all n.
          same ∙ ap (λ ts. compare_texts ts "" false) e ∙ compare_texts-AreAll texts final n all,
    )
