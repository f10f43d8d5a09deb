-- ===== src/Policy/Review/Agreed.antt =====
-- What the choices of a review take.
use seter.Prelude.{
  ◌≡◌, ◌≢◌, sym, ap, ◌∙◌, ◌⊎◌, inl, inr, Option, none, some, List, ok, bind-eq-ok, seq-eq-ok,
  with_context-eq-ok, context-eq-ok, ok_inj, pair-eq, Bool-cases,
}
use seter.Prelude.Eq.{◌==◌, nat_eq, list_eq}
use seter.Prelude.Text.{Text, text}
use seter.Prelude.Map.{insert}
use seter.Prelude.Map.Laws.{get-insert}
use seter.Registry.{Registry}
use seter.Policy.{EgressPolicy, PolicyFile}
use seter.Policy.Normalize.{normalize, normalize_egress}
use seter.Policy.Validate.{validate, load}
use seter.Policy.Grants.{egress_of, egress_or_default}
use seter.Policy.Render.{render_workspace_preserving}
use seter.Policy.Render.Laws.{egress_of-normalize}
use seter.Audit.{AuditGroup}
use seter.Policy.Review.{review_egress, review}
use seter.Policy.Review.Evidence.{Says, IsReviewOf, prompt-Says}
use seter.Policy.Review.Observed.{review_egress-IsReviewOf}
use seter.Policy.Review.Writing.{
  Ending, no_changes, unchanged, updated, Setting, policy_beq, rendering_asked, render_proposed,
  choose,
}

-- The proposal is the outcome of the questions, in normal form.
review-egress :
    (rules : List Text) (r : Registry) (name : Text) (file : PolicyFile)
    (observations : List AuditGroup) (answers : List (Option Text)) (proposed : PolicyFile)
    (rest : List (Option Text))
    → review rules r name file observations answers ≡ ok (proposed, rest)
    → (q : EgressPolicy) × (review_egress observations (egress_of file name, answers)
        ≡ ok (q, rest))
      × (egress_of proposed name ≡ normalize_egress q)
unfolding review
review-egress rules r name file observations answers proposed rest h =
    let ((q, left), reviewed, h₁) = bind-eq-ok _ _ h in
    let (valid, h₂) = seq-eq-ok _ _ h₁ in
    let (same, same') = pair-eq (ok_inj h₂) in
    let drafted = record file {
      workspaces = insert name (record { egress = q }) file.workspaces;
    } in
    (
      q,
      rw (← same') reviewed,
      ap (λ p. egress_of p name) (sym same)
          ∙ (egress_of-normalize name drafted
              ∙ ap (λ o. normalize_egress (egress_or_default o))
                  (get-insert name _ file.workspaces)),
    )

module _ (setting : Setting) (registry : Registry) (name original : Text)
    (answers : List (Option Text)) where
  -- The text is that of a valid Policy File; it is the rendering of a policy each new grant of which was
  -- observed, validated and consented to; and the line behind the answers of the review consents to it.
  abbrev pub IsAgreed : Text → Type 0
  IsAgreed rendered =
      (parsed : PolicyFile) × (observations : List AuditGroup) × (q : EgressPolicy) × (rest : List
        (Option Text))
      × (result : PolicyFile) × (setting.toml.read_policy original ≡ some parsed)
      × (setting.observations ≡ ok observations)
      × (review_egress observations (egress_of (normalize parsed) name, answers) ≡ ok (q, rest))
      × IsReviewOf observations answers (egress_of (normalize parsed) name) q
      × (render_workspace_preserving setting.toml original name (normalize_egress q) ≡ ok rendered)
      × (setting.toml.read_policy rendered ≡ some result)
      × (validate setting.rules registry (normalize result) ≡ ok tt)
      × Says observations answers (text "y") rest

  rendering_asked-Says :
      (observations : List AuditGroup) (rendered : Text) (rest : List (Option Text))
      (ending : Ending) (choice : Option Text)
      → rendering_asked setting original rendered rest ≡ ok (ending, choice)
      → (choice ≡ none) × (ending ≢ updated)
        ⊎ (choice ≡ some rendered) × Says observations answers (text "y") rest
  rendering_asked-Says observations rendered rest ending choice h =
      elim (Bool-cases (rendered == original)) [
        | inl same ↦
            let e = pair-eq (ok_inj (rw same at h)) in
            inl (sym e.1, λ u. let clash : no_changes ≡ updated = e.0 ∙ u in cc)
        | inr other ↦
            let ((answer, rest'), asked, h₁) = bind-eq-ok _ _ (rw other at h) in
            let said =
              prompt-Says observations answers rest answer rest' (with_context-eq-ok _ _ asked) in
            elim (Bool-cases (answer == text "y")) [
              | inl yes_said ↦
                  let e = pair-eq (ok_inj (rw yes_said at h₁)) in
                  inr (sym e.1, said (text "y") (cc) yes_said)
              | inr no_said ↦
                  let e = pair-eq (ok_inj (rw no_said at h₁)) in
                  inl (sym e.1, λ u. let clash : unchanged ≡ updated = e.0 ∙ u in cc)
            ]
      ]

  -- Moving along an equation between files, or between policies to render.
  of_same_file :
      (observations : List AuditGroup) (p p' : PolicyFile) (q : EgressPolicy)
      → p ≡ p'
      → IsReviewOf observations answers (egress_of p' name) q
      → IsReviewOf observations answers (egress_of p name) q
  of_same_file observations p p' q e h = rw e h

  render_same :
      (p q : EgressPolicy) (rendered : Text)
      → p ≡ q
      → render_workspace_preserving setting.toml original name p ≡ ok rendered
      → render_workspace_preserving setting.toml original name q ≡ ok rendered
  render_same p q rendered e h =
      ap (render_workspace_preserving setting.toml original name) (sym e) ∙ h

  pub choose-IsAgreed :
      (ending : Ending) (choice : Option Text)
      → choose setting registry name original answers ≡ ok (ending, choice)
      → (choice ≡ none) × (ending ≢ updated)
        ⊎ (rendered : Text) × (choice ≡ some rendered) × IsAgreed rendered
  unfolding choose render_proposed load
  choose-IsAgreed ending choice h =
      let (parsed, read, h₁) = bind-eq-ok _ _ h in
      let (initial, loaded, h₂) = bind-eq-ok _ _ h₁ in
      let (observations, observed, h₃) = bind-eq-ok _ _ h₂ in
      let ((proposed, rest), reviewed, h₄) = bind-eq-ok _ _ h₃ in
      let (valid, loads) = seq-eq-ok _ _ (with_context-eq-ok _ _ loaded) in
      let normal : normalize parsed ≡ initial = ok_inj loads in
      let (q, asked, means) =
        review-egress setting.rules registry name initial observations answers proposed rest
          (with_context-eq-ok _ _ reviewed) in
      let of_review =
        review_egress-IsReviewOf observations answers (egress_of initial name) q rest asked in
      elim (Bool-cases (policy_beq proposed initial)) [
        | inl same ↦
            let e = pair-eq (ok_inj (rw same at h₄)) in
            inl (sym e.1, λ u. let clash : no_changes ≡ updated = e.0 ∙ u in cc)
        | inr other ↦
            let (rendered, renders, h₅) = bind-eq-ok _ _ (rw other at h₄) in
            let (result, reads, h₆) = bind-eq-ok _ _ h₅ in
            let (checked, h₇) = seq-eq-ok _ _ h₆ in
            elim (rendering_asked-Says observations rendered rest ending choice h₇) [
              | inl nothing ↦ inl nothing
              | inr (chosen_text, said) ↦ inr (
                rendered,
                chosen_text,
                (
                  parsed,
                  observations,
                  q,
                  rest,
                  result,
                  context-eq-ok _ _ read,
                  with_context-eq-ok _ _ observed,
                  ap (λ f. review_egress observations (egress_of f name, answers)) normal ∙ asked,
                  of_same_file observations (normalize parsed) initial q normal of_review,
                  render_same (egress_of proposed name) (normalize_egress q) rendered means
                      (with_context-eq-ok _ _ renders),
                  context-eq-ok _ _ reads,
                  with_context-eq-ok _ _ checked,
                  said,
                ),
              )
            ]
      ]
