-- ===== src/AgentExecution/PhaseCapabilities.antt =====
-- src/domains/agent-execution/phase-capabilities.ts. The code of a failure tells it; its detail is not
-- modelled.
use agent_pool.Prelude.{
  ◌≡◌, ◌⊎◌, inl, inr, refl, subst, Bool, true, false, List, [], ◌∷◌, Option, none, some, Text,
  codes, text_eq, text_eq_sound, Bool-cases, if◌then◌else◌,
}

pub data Capability : Type 0 where
  read grep graphify bash write edit security_tooling : Capability

pub data WriteScope : Type 0 where
  workspace knowledge_sink : WriteScope

pub data CraftsPhase : Type 0 where
  phase_c phase_r phase_a phase_f phase_t phase_s : CraftsPhase

-- A phase may not write at all where it has no scope.
pub record PhaseGrant : Type 0 where
  pub phase : CraftsPhase
  pub capabilities : List Capability
  pub write_scope : Option WriteScope

abbrev pub phase_text : CraftsPhase → Text
phase_text phase_c = codes "C"
phase_text phase_r = codes "R"
phase_text phase_a = codes "A"
phase_text phase_f = codes "F"
phase_text phase_t = codes "T"
phase_text phase_s = codes "S"

-- `GRANTS`.
unfoldable pub grant_of : CraftsPhase → PhaseGrant
grant_of phase_c = record {
  phase = phase_c;
  capabilities = read ∷ grep ∷ graphify ∷ [];
  write_scope = none;
}
grant_of phase_r = record {
  phase = phase_r;
  capabilities = read ∷ grep ∷ graphify ∷ bash ∷ write ∷ edit ∷ [];
  write_scope = some workspace;
}
grant_of phase_a = record {
  phase = phase_a;
  capabilities = read ∷ grep ∷ graphify ∷ [];
  write_scope = none;
}
grant_of phase_f = record {
  phase = phase_f;
  capabilities = read ∷ grep ∷ graphify ∷ bash ∷ write ∷ edit ∷ [];
  write_scope = some workspace;
}
grant_of phase_t = record {
  phase = phase_t;
  capabilities = read ∷ grep ∷ graphify ∷ security_tooling ∷ [];
  write_scope = none;
}
grant_of phase_s = record {
  phase = phase_s;
  capabilities = read ∷ grep ∷ write ∷ edit ∷ [];
  write_scope = some knowledge_sink;
}

abbrev find_phase : Text → List CraftsPhase → Option PhaseGrant
find_phase key [] = none
find_phase key (p ∷ ps) =
    if text_eq (phase_text p) key then some (grant_of p) else find_phase key ps

-- `none` is `UNKNOWN_PHASE`.
unfoldable pub get_phase_grant : Text → Option PhaseGrant
unfolding text_eq
get_phase_grant key =
    find_phase key (phase_c ∷ phase_r ∷ phase_a ∷ phase_f ∷ phase_t ∷ phase_s ∷ [])

abbrev same_capability : Capability → Capability → Bool
same_capability read read = true
same_capability grep grep = true
same_capability graphify graphify = true
same_capability bash bash = true
same_capability write write = true
same_capability edit edit = true
same_capability security_tooling security_tooling = true
same_capability x y = false

abbrev pub includes : List Capability → Capability → Bool
includes [] k = false
includes (x ∷ xs) k = if same_capability x k then true else includes xs k

unfoldable pub phase_has_capability : Text → Capability → Bool
unfolding get_phase_grant
phase_has_capability key k = elim (get_phase_grant key) [
  | none ↦ false
  | some g ↦ includes g.capabilities k
]

pub data AuthorizationFailure : Type 0 where
  unknown_phase capability_denied write_path_out_of_scope : AuthorizationFailure

pub record WriteAuthorization : Type 0 where
  pub phase : CraftsPhase
  pub scope : WriteScope
  pub root : Text

pub data Authorization : Type 0 where
  granted : WriteAuthorization → Authorization
  denied : AuthorizationFailure → Authorization

pub record Roots : Type 0 where
  pub workspace_root : Text
  pub knowledge_sink_root : Option Text

-- An absent sink, and one whose path is the empty string.
abbrev pub in_sink : CraftsPhase → Option Text → Authorization
in_sink p none = denied write_path_out_of_scope
in_sink p (some []) = denied write_path_out_of_scope
in_sink p (some (u ∷ root)) =
    granted (record { phase = p; scope = knowledge_sink; root = u ∷ root })

abbrev pub in_scope : CraftsPhase → Option WriteScope → Roots → Authorization
in_scope p none roots = denied capability_denied
in_scope p (some workspace) roots =
    granted (record { phase = p; scope = workspace; root = roots.workspace_root })
in_scope p (some knowledge_sink) roots = in_sink p roots.knowledge_sink_root

unfoldable pub authorize_write : Text → Roots → Authorization
unfolding get_phase_grant
authorize_write key roots = elim (get_phase_grant key) [
  | none ↦ denied unknown_phase
  | some g ↦
      if includes g.capabilities write
      then in_scope g.phase g.write_scope roots
      else denied capability_denied
]

-- Who may write, and where: the key that asks, the phase in the answer, and the root.
abbrev pub IsWriter : Text → WriteAuthorization → Roots → Type 0
IsWriter key w roots =
    ((((key ≡ codes "R") × (w.phase ≡ phase_r)) ⊎ ((key ≡ codes "F") × (w.phase ≡ phase_f)))
      × (w.scope ≡ workspace)
      × (w.root ≡ roots.workspace_root))
    ⊎ ((key ≡ codes "S")
        × (w.phase ≡ phase_s)
        × (w.scope ≡ knowledge_sink)
        × (roots.knowledge_sink_root ≡ some w.root))

abbrev AreWrites : Text → Authorization → Roots → Type 0
AreWrites key (granted w) roots = IsWriter key w roots
AreWrites key (denied x) roots = Unit

in_sink-AreWrites :
    (o : Option Text) (w : Text)
    → AreWrites
        (codes "S")
        (in_sink phase_s o)
        (record { workspace_root = w; knowledge_sink_root = o })
in_sink-AreWrites none w = tt
in_sink-AreWrites (some []) w = tt
in_sink-AreWrites (some (u ∷ root)) w = inr (refl, refl, refl, refl)

find_phase-grant_of :
    (key : Text) (ps : List CraftsPhase)
    → (find_phase key ps ≡ none)
      ⊎ ((p : CraftsPhase) × (find_phase key ps ≡ some (grant_of p)) × (phase_text p ≡ key))
find_phase-grant_of key [] = inl refl
find_phase-grant_of key (p ∷ ps) = elim (Bool-cases (text_eq (phase_text p) key)) [
  | inl here ↦ inr (p, rw here refl, text_eq_sound (phase_text p) key here)
  | inr other ↦ rw other (find_phase-grant_of key ps)
]

grant_of-AreWrites :
    (p : CraftsPhase) (roots : Roots)
    → AreWrites
        (phase_text p)
        (if includes (grant_of p).capabilities write
          then in_scope (grant_of p).phase (grant_of p).write_scope roots
          else denied capability_denied)
        roots
unfolding grant_of
grant_of-AreWrites phase_c roots = tt
grant_of-AreWrites phase_r roots = inl (inl (refl, refl), refl, refl)
grant_of-AreWrites phase_a roots = tt
grant_of-AreWrites phase_f roots = inl (inr (refl, refl), refl, refl)
grant_of-AreWrites phase_t roots = tt
grant_of-AreWrites phase_s roots = in_sink-AreWrites roots.knowledge_sink_root roots.workspace_root

authorize_write-AreWrites :
    (key : Text) (roots : Roots) → AreWrites key (authorize_write key roots) roots
unfolding authorize_write get_phase_grant
authorize_write-AreWrites key roots =
    elim (find_phase-grant_of key
      (phase_c ∷ phase_r ∷ phase_a ∷ phase_f ∷ phase_t ∷ phase_s ∷ [])) [
        | inl missing ↦ rw missing tt
        | inr (p, found, same) ↦ rw found (
            subst
              (λ k.
                AreWrites k
                  (if includes (grant_of p).capabilities write
                    then in_scope (grant_of p).phase (grant_of p).write_scope roots
                    else denied capability_denied)
                  roots)
              same (grant_of-AreWrites p roots))
      ]

-- A write is granted only where the phase that asks is R or F, in the root of the workspace, or S,
-- in a knowledge sink that is configured, and the answer names that phase.
pub authorize_write-IsWriter :
    (key : Text) (roots : Roots) (w : WriteAuthorization)
    → authorize_write key roots ≡ granted w
    → IsWriter key w roots
authorize_write-IsWriter key roots w e =
    subst (λ o. AreWrites key o roots) e (authorize_write-AreWrites key roots)
