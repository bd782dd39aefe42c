-- ===== src/Chain/Template.antt =====
-- Task and path templates, and the dry run that validates them.
use roundtable.Prelude.{
  ◌++◌, bytes, Bool, false, not, List, [], ◌∷◌, map, Option, none, some, Str, ◌&&◌, ◌||◌, ◌==◌,
  if◌then◌else◌,
}
use roundtable.Api.Meta.{Error}
use roundtable.Api.Chain.{ChainStep, ChainStepStatus}
use roundtable.Chain.World.{World, TemplateData, task_data, path_data, Rendered, text, render_error}

-- strings.Contains(s, "{{")
unfoldable pub has_action : Str → Bool
has_action [] = false
has_action (a ∷ []) = false
has_action (a ∷ b ∷ s) = (a == b'{' && b == b'{') || has_action (b ∷ s)

abbrev pub wrap_error : Str → Rendered → Rendered
wrap_error prefix (text t) = text t
wrap_error prefix (render_error e) = render_error (prefix ++ e)

module _ {C : Type 0} (w : World C) where
  -- With what the caller puts before the text of an error of each kind.
  unfoldable pub render_with : (on_parse on_execute : Str) → TemplateData → Str → Rendered
  render_with on_parse on_execute values source =
      if not (has_action source) then text source else elim (w.template_parse source) [
        | some e ↦ render_error (on_parse ++ e)
        | none ↦ wrap_error on_execute (w.template_execute source values)
      ]

  -- `renderTemplate`, over the statuses as they are when it is called.
  unfoldable pub render_template : List ChainStepStatus → (input task : Str) → Rendered
  unfolding render_with
  render_template statuses input task =
      render_with (bytes "template parse error: ") (bytes "template execute error: ")
        (task_data (map (λ (ss : ChainStepStatus). (ss.name, ss.output, ss.error)) statuses) input)
        task

  unfoldable pub render_output_path : (chain : Str) → ChainStep → Rendered
  unfolding render_with
  render_output_path chain step =
      render_with [] [] (path_data w.date chain step.name) step.output_path

  -- One round of `validateTemplates`: a dry run with empty outputs.
  validate_template : List ChainStep → ChainStep → Option Error
  validate_template steps step =
      if not (has_action step.task) then none else elim (w.template_parse step.task) [
        | some e ↦ some (Error.invalid_template step.name e)
        | none ↦
            elim (w.template_execute step.task
              (task_data (map (λ (s : ChainStep). (s.name, [], [])) steps) [])) [
                | text _ ↦ none
                | render_error e ↦ some (Error.template_execution step.name e)
              ]
      ]

  validate_templates_from : List ChainStep → List ChainStep → Option Error
  validate_templates_from all [] = none
  validate_templates_from all (step ∷ steps) =
      let rest = validate_templates_from all steps in
      elim (validate_template all step) [ some e ↦ some e | none ↦ rest ]

  unfoldable pub validate_templates : List ChainStep → Option Error
  unfolding validate_template validate_templates_from
  validate_templates steps = validate_templates_from steps steps
