-- ===== src/Mission/Assembler/Knights.antt =====
-- The knight that is made for a mission: its spec, from a template or inline, and the object.
use roundtable.Prelude.{
  ℕ, Bool, true, false, List, [], ◌∷◌, ◌++◌, Option, none, some, Str, bytes, ◌⊎◌, inl, inr,
  is_empty, str_eq, if◌then◌else◌,
}
use roundtable.Api.Meta.{Error, plain, wrapped}
use roundtable.Api.Knight.{
  KnightSpec, EnvFromSource, secret_ref, other_source, KnightPhase, KnightStatus, Knight,
  label_mission, label_ephemeral, label_round_table, label_role,
}
use roundtable.Api.RoundTable.{RoundTable}
use roundtable.Api.Mission.{KnightSpecOverrides, MissionKnight, MissionKnightTemplate, Mission}
use roundtable.Nats.Subjects.{task_subject}
use roundtable.Mission.Assembler.Setup.{or_else, or_text}
use roundtable.Mission.Assembler.Label.{sanitize_label_value}
pub mod Laws

-- `%q` of a name, which has nothing to escape.
abbrev pub quoted : Str → Str
quoted s = bytes "\"" ++ s ++ bytes "\""

unfoldable pub mission_template : List MissionKnightTemplate → Str → Option KnightSpec
mission_template [] name = none
mission_template (t ∷ templates) name =
    let rest = mission_template templates name in if str_eq t.name name then some t.spec else rest

-- A map's value by its key, of which it has one.
unfoldable pub table_template : List (Str × KnightSpec) → Str → Option KnightSpec
table_template [] name = none
table_template ((k, spec) ∷ templates) name =
    let rest = table_template templates name in if str_eq k name then some spec else rest

abbrev or_value : {A : Type 0} → Option A → A → A
or_value none a = a
or_value (some b) a = b

abbrev extra : Option (List (Str × Str)) → List (Str × Str)
extra none = []
extra (some env) = env

unfoldable pub apply_spec_overrides : KnightSpec → KnightSpecOverrides → KnightSpec
apply_spec_overrides spec overrides = record spec {
  model = or_text overrides.model spec.model;
  domain = or_text overrides.domain spec.domain;
  skills = or_value overrides.skills spec.skills;
  tools = or_else overrides.tools spec.tools;
  env = spec.env ++ extra overrides.env;
  prompt = or_else overrides.prompt spec.prompt;
  concurrency = or_value overrides.concurrency spec.concurrency;
}

unfoldable pub overridden : Option KnightSpecOverrides → KnightSpec → KnightSpec
unfolding apply_spec_overrides
overridden none spec = spec
overridden (some overrides) spec = apply_spec_overrides spec overrides

unfoldable pub has_secret : List EnvFromSource → (name : Str) → Bool
has_secret [] name = false
has_secret (other_source ∷ sources) name = has_secret sources name
has_secret (secret_ref s ∷ sources) name =
    let rest = has_secret sources name in if str_eq s name then true else rest

-- `appendSecretEnvFrom`, on the sources of the spec.
unfoldable pub append_secret_env_from : List EnvFromSource → (name : Str) → List EnvFromSource
unfolding has_secret
append_secret_env_from sources name =
    if has_secret sources name then sources else sources ++ secret_ref name ∷ []

unfoldable pub append_secrets : List EnvFromSource → (names : List Str) → List EnvFromSource
unfolding append_secret_env_from
append_secrets sources [] = sources
append_secrets sources (name ∷ names) = append_secrets (append_secret_env_from sources name) names

unfoldable pub knight_name : (mission knight : Str) → Str
knight_name mission knight = mission ++ bytes "-" ++ knight

role_label : (role : Str) → List (Str × Str)
role_label role =
    let label = sanitize_label_value role in if is_empty label then [] else (label_role, label) ∷ []

module _ {C : Type 0} where
  unfoldable pub resolve_knight_spec : Mission C → MissionKnight → RoundTable → Error ⊎ KnightSpec
  unfolding mission_template table_template overridden
  resolve_knight_spec mission mk table = elim mk.ephemeral_spec [
    | some spec ↦ inr spec
    | none ↦
        if is_empty mk.template_ref
        then inl (
            plain (
              bytes "ephemeral knight "
              ++ mk.name
              ++ bytes " has neither ephemeralSpec nor templateRef"))
        else elim (or_else (mission_template mission.spec.knight_templates mk.template_ref)
            (table_template table.spec.knight_templates mk.template_ref)) [
              | none ↦ inl (
                  plain (
                    bytes "template "
                    ++ quoted mk.template_ref
                    ++ bytes
                        " not found in mission.spec.knightTemplates or roundTable.spec.knightTemplates"))
              | some spec ↦ inr (overridden mk.spec_overrides spec)
            ]
  ]

  -- The spec as the mission runs it.
  unfoldable pub mission_knight_spec :
      Mission C → MissionKnight → RoundTable → KnightSpec → KnightSpec
  unfolding append_secrets knight_name
  mission_knight_spec mission mk table spec =
      let nats = table.spec.nats in
      record spec {
        nats = record {
          url = nats.url;
          stream = nats.tasks_stream;
          results_stream = nats.results_stream;
          subjects =
              task_subject nats.subject_prefix spec.domain (knight_name mission.name mk.name) ∷ [];
          consumer_name = bytes "msn-" ++ mission.name ++ bytes "-" ++ mk.name;
          max_deliver = 1;
        };
        env_from =
            append_secrets (append_secrets spec.env_from table.spec.secrets) mission.spec.secrets;
        workspace = none;
        service_account_name = bytes "mission-" ++ mission.name;
      }

  unfoldable pub build_ephemeral_knight : Mission C → MissionKnight → RoundTable → Error ⊎ Knight
  unfolding resolve_knight_spec mission_knight_spec knight_name role_label
  build_ephemeral_knight mission mk table = elim (resolve_knight_spec mission mk table) [
    | inl e ↦ inl (wrapped (bytes "failed to resolve knight spec for " ++ quoted mk.name) e)
    | inr spec ↦ inr (record {
      name = knight_name mission.name mk.name;
      namespace = mission.namespace;
      labels =
          (label_mission, mission.name)
          ∷ (label_ephemeral, bytes "true")
          ∷ (label_round_table, table.name)
          ∷ role_label mk.role;
      spec = mission_knight_spec mission mk table spec;
      status = record { phase = KnightPhase.unset; ready = false; total_cost = [] };
    })
  ]
