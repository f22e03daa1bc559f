-- ===== src/ModelRouting/Pairing/Choice.antt =====
-- src/domains/model-routing-and-evaluation/model-router.ts: which pair `selectBuilderEvaluatorPair`
-- chooses.
use mathlib.Core.Path.{sym}
use agent_pool.Prelude.{
  ℕ, ◌≡◌, refl, ◌∙◌, inl, inr, Bool, true, false, ◌&&◌, List, [], ◌∷◌, none, some, Text, Bool-cases,
  if◌then◌else◌, arith,
}
use agent_pool.ModelRouting.Router.{
  RoleConfig, RoutingPolicy, RoutingDecision, Routed, routed, failed, failure, Availability,
  candidates_of, select_for_role, pick_candidate, pick_explicit, explicit_model_selected,
  no_valid_builder_evaluator_pair,
}
use agent_pool.ModelRouting.Pairing.{
  building, assessing, Pair, PairOptions, effective, is_unapproved, is_usable, may_pair, construct,
  evaluator_for, pair_from, chosen, select_builder_evaluator_pair,
}

-- A builder and an evaluator.
pub record Choice : Type 0 where
  pub builder : Text
  pub evaluator : Text

-- The decision for a model that is named.
abbrev pub explicit_decision : Text → ℕ → Text → RoutingDecision
explicit_decision r v id = record {
  role = r;
  selected_model = id;
  policy_version = v;
  rationale = explicit_model_selected;
  fallback_behavior = record {
    primary_available = false;
    selected_fallback_index = none;
    skipped_candidates = [];
  };
}

-- The reference: a list of choices in the order of preference, and the first that is allowed.
abbrev pub with_builder : Text → List Text → List Choice → List Choice
with_builder b [] rest = rest
with_builder b (e ∷ es) rest = record { builder = b; evaluator = e } ∷ with_builder b es rest

abbrev pub choices : List Text → List Text → List Choice
choices [] es = []
choices (b ∷ bs) es = with_builder b es (choices bs es)

module _ (policy : RoutingPolicy) (available : Availability) (options : PairOptions) where
  -- The decisions that a choice comes to.
  abbrev pub pair_of : Choice → Pair
  pair_of c = record {
    builder =
        explicit_decision building policy.version (effective options.explicit_builder c.builder);
    evaluator =
        explicit_decision assessing policy.version
          (effective options.explicit_evaluator c.evaluator);
  }

  abbrev pub is_allowed : Choice → Bool
  is_allowed c =
      is_usable available options.explicit_builder c.builder
      && is_usable available options.explicit_evaluator c.evaluator
      && may_pair policy (effective options.explicit_builder c.builder)
          (effective options.explicit_evaluator c.evaluator)

  abbrev pub first_allowed : List Choice → Routed Pair
  first_allowed [] = failed (failure no_valid_builder_evaluator_pair none none)
  first_allowed (c ∷ cs) = if is_allowed c then routed (pair_of c) else first_allowed cs

  module _ (builders evaluators : RoleConfig)
      (has_builders : policy.get_role_config building ≡ some builders)
      (has_evaluators : policy.get_role_config assessing ≡ some evaluators) where
    construct_lem :
        (c : Choice)
        → is_usable available options.explicit_builder c.builder ≡ true
        → is_usable available options.explicit_evaluator c.evaluator ≡ true
        → construct policy available
            (effective options.explicit_builder c.builder)
            (effective options.explicit_evaluator c.evaluator)
          ≡ routed (pair_of c)
    unfolding construct select_for_role pick_candidate pick_explicit is_usable
    construct_lem c usable_b usable_e =
        ground (arith, has_builders, has_evaluators, usable_b, usable_e)

    -- The inner loop, before the choices of the builders that follow.
    evaluator_for-first :
        (b : Text) (es : List Text) (rest : List Choice)
        → is_usable available options.explicit_builder b ≡ true
        → chosen
            (evaluator_for policy available options (effective options.explicit_builder b) es)
            (first_allowed rest)
          ≡ first_allowed (with_builder b es rest)
    unfolding evaluator_for
    evaluator_for-first b [] rest usable = refl
    evaluator_for-first b (e ∷ es) rest usable =
        elim (Bool-cases (is_usable available options.explicit_evaluator e)) [
          | inr lacks ↦ rw (usable, lacks) (evaluator_for-first b es rest usable)
          | inl fits ↦
              elim (Bool-cases (
                may_pair policy (effective options.explicit_builder b)
                  (effective options.explicit_evaluator e))) [
                    | inr bad ↦ rw (usable, fits, bad) (evaluator_for-first b es rest usable)
                    | inl good ↦
                        rw (usable, fits, good)
                          (construct_lem (record { builder = b; evaluator = e }) usable fits)
                  ]
        ]

    no_builder :
        (b : Text) (es : List Text) (rest : List Choice)
        → is_usable available options.explicit_builder b ≡ false
        → first_allowed (with_builder b es rest) ≡ first_allowed rest
    no_builder b [] rest bad = refl
    no_builder b (e ∷ es) rest bad = rw bad (no_builder b es rest bad)

    pair_from-first :
        (bs es : List Text)
        → pair_from policy available options bs es ≡ first_allowed (choices bs es)
    unfolding pair_from
    pair_from-first [] es = refl
    pair_from-first (b ∷ bs) es =
        elim (Bool-cases (is_usable available options.explicit_builder b)) [
          | inr bad ↦ rw bad (pair_from-first bs es ∙ sym (no_builder b es (choices bs es) bad))
          | inl usable ↦
              rw (usable, pair_from-first bs es) (evaluator_for-first b es (choices bs es) usable)
        ]

    -- Where both roles have a configuration and no model that is asked for is unapproved, the
    -- nested loops choose the first pair, in the order of the builders and then of the evaluators,
    -- that is usable, not of one model, and without a downgrade, or fail because there is none.
    pub select_builder_evaluator_pair-first_allowed :
        is_unapproved options.explicit_builder ≡ false
        → is_unapproved options.explicit_evaluator ≡ false
        → select_builder_evaluator_pair policy available options
          ≡ first_allowed (choices (candidates_of builders) (candidates_of evaluators))
    unfolding select_builder_evaluator_pair
    select_builder_evaluator_pair-first_allowed known_b known_e =
        rw (select_builder_evaluator_pair, has_builders, has_evaluators, known_b, known_e)
          (pair_from-first (candidates_of builders) (candidates_of evaluators))
