-- ===== src/Mission/Assembler/Knights/Laws.antt =====
-- The secrets of a knight that is made for a mission.
use roundtable.Prelude.{
  ◌≡◌, refl, ◌⊎◌, inl, inr, Bool, true, false, ◌||◌, List, [], ◌∷◌, ◌++◌, Str, str_eq, str_eq_iff,
  Bool-cases, arith,
}
use roundtable.Util.Strings.{contains_string}
use roundtable.Util.Strings.Distinct.{Distinct, Distinct-append}
use roundtable.Api.Knight.{KnightSpec, EnvFromSource, secret_ref, other_source}
use roundtable.Api.RoundTable.{RoundTable}
use roundtable.Api.Mission.{MissionKnight, Mission}
use roundtable.Mission.Assembler.Knights.{
  has_secret, append_secret_env_from, append_secrets, mission_knight_spec,
}

-- The secrets that the sources name, in order.
abbrev pub secret_names : List EnvFromSource → List Str
secret_names [] = []
secret_names (other_source ∷ sources) = secret_names sources
secret_names (secret_ref s ∷ sources) = s ∷ secret_names sources

contains_string-secret_names :
    (sources : List EnvFromSource) (n : Str)
    → contains_string (secret_names sources) n ≡ has_secret sources n
unfolding contains_string has_secret
contains_string-secret_names [] n = refl
contains_string-secret_names (other_source ∷ sources) n = contains_string-secret_names sources n
contains_string-secret_names (secret_ref s ∷ sources) n =
    ground (arith, contains_string-secret_names sources n)

secret_names-snoc :
    (sources : List EnvFromSource) (name : Str)
    → secret_names (sources ++ secret_ref name ∷ []) ≡ secret_names sources ++ name ∷ []
secret_names-snoc [] name = refl
secret_names-snoc (other_source ∷ sources) name = secret_names-snoc sources name
secret_names-snoc (secret_ref s ∷ sources) name = rw (secret_names-snoc sources name) refl

has_secret-snoc :
    (sources : List EnvFromSource) (name n : Str)
    → has_secret (sources ++ secret_ref name ∷ []) n ≡ (has_secret sources n || str_eq name n)
unfolding has_secret
has_secret-snoc [] name n = ground arith
has_secret-snoc (other_source ∷ sources) name n = has_secret-snoc sources name n
has_secret-snoc (secret_ref s ∷ sources) name n = ground (arith, has_secret-snoc sources name n)

has_secret-append_secret :
    (sources : List EnvFromSource) (name n : Str)
    → has_secret (append_secret_env_from sources name) n ≡ (has_secret sources n || str_eq name n)
unfolding append_secret_env_from
has_secret-append_secret sources name n = elim (Bool-cases (has_secret sources name)) [
  | inr e ↦ rw e (has_secret-snoc sources name n)
  | inl e ↦ rw e (ground (arith, e, known (str_eq name n) refl e))
]
  where
    known :
        (b : Bool)
        → str_eq name n ≡ b
        → has_secret sources name ≡ true
        → (b ≡ false) ⊎ (has_secret sources n ≡ true)
    known true q e = inr (rw (← (str_eq_iff name n).0 q) e)
    known false q e = inl refl

has_secret-append_secrets :
    (sources : List EnvFromSource) (names : List Str) (n : Str)
    → has_secret (append_secrets sources names) n
      ≡ (has_secret sources n || contains_string names n)
unfolding append_secrets contains_string
has_secret-append_secrets sources [] n = ground arith
has_secret-append_secrets sources (name ∷ names) n = ground (
  arith,
  has_secret-append_secrets (append_secret_env_from sources name) names n,
  has_secret-append_secret sources name n,
)

append_secret-Distinct :
    (sources : List EnvFromSource) (name : Str)
    → Distinct (secret_names sources)
    → Distinct (secret_names (append_secret_env_from sources name))
unfolding append_secret_env_from contains_string
append_secret-Distinct sources name d = elim (Bool-cases (has_secret sources name)) [
  | inl e ↦ rw e d
  | inr e ↦
      rw (e, secret_names-snoc sources name)
        (Distinct-append (secret_names sources) (name ∷ []) d (refl, tt)
          (λ n h. apart n (contains_string-secret_names sources n) h e))
]
  where
    apart :
        (n : Str)
        → contains_string (secret_names sources) n ≡ has_secret sources n
        → contains_string (secret_names sources) n ≡ true
        → has_secret sources name ≡ false
        → contains_string (name ∷ []) n ≡ false
    apart n q h e = ground (arith, q, h, e, str_eq_iff name n)

append_secrets-Distinct :
    (sources : List EnvFromSource) (names : List Str)
    → Distinct (secret_names sources)
    → Distinct (secret_names (append_secrets sources names))
unfolding append_secrets
append_secrets-Distinct sources [] d = d
append_secrets-Distinct sources (name ∷ names) d =
    append_secrets-Distinct (append_secret_env_from sources name) names
      (append_secret-Distinct sources name d)

module _ {C : Type 0} (mission : Mission C) (mk : MissionKnight) (table : RoundTable)
    (spec : KnightSpec) where
  -- A knight that is made for a mission takes its variables from exactly the secrets of its spec, of
  -- the round table and of the mission, and, if its spec names none twice, from none twice.
  pub mission_knight_spec-secrets :
      Distinct (secret_names spec.env_from)
      → let sources = (mission_knight_spec mission mk table spec).env_from in
        Distinct (secret_names sources)
        × ((n : Str)
            → has_secret sources n ≡ (
                has_secret spec.env_from n
                || contains_string table.spec.secrets n
                || contains_string mission.spec.secrets n))
  unfolding mission_knight_spec
  mission_knight_spec-secrets d =
      let shared = append_secrets spec.env_from table.spec.secrets in
      (
        append_secrets-Distinct shared mission.spec.secrets
            (append_secrets-Distinct spec.env_from table.spec.secrets d),
        λ n. ground (
          arith,
          has_secret-append_secrets shared mission.spec.secrets n,
          has_secret-append_secrets spec.env_from table.spec.secrets n,
        ),
      )
