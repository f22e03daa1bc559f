-- ===== src/ModelRouting/Pairing/Separation.antt =====
-- src/domains/model-routing-and-evaluation/model-router.ts: that the builder and the evaluator of a
-- pair are kept apart.
use agent_pool.Prelude.{
  ◌≤◌, ◌≡◌, ◌≢◌, refl, sym, subst, ◌∙◌, inl, inr, true, List, [], ◌∷◌, Option, none, some, Text,
  text_eq_refl, Bool-cases, Option-cases, arith, &&-eq-true,
}
use agent_pool.ModelRouting.ApprovedModels.{is_approved_id}
use agent_pool.ModelRouting.Router.{
  RoutingPolicy, routed, routed-injective, Availability, has, candidates_of,
}
use agent_pool.ModelRouting.Pairing.{
  building, assessing, Pair, PairOptions, effective, is_unapproved, is_usable, may_pair,
  select_builder_evaluator_pair,
}
use agent_pool.ModelRouting.Pairing.Choice.{
  Choice, choices, pair_of, is_allowed, first_allowed, select_builder_evaluator_pair-first_allowed,
}

-- What the caller asked for is what is used.
abbrev pub Honours : Option Text → Text → Type 0
Honours none id = Unit
Honours (some e) id = id ≡ e

pub record IsSeparate (policy : RoutingPolicy) (available : Availability) (options : PairOptions)
    (p : Pair) : Type 0 where
  pub differ : p.builder.selected_model ≢ p.evaluator.selected_model
  pub no_downgrade :
      policy.get_rank p.builder.selected_model ≤ policy.get_rank p.evaluator.selected_model
  pub builder_available : has available p.builder.selected_model ≡ true
  pub evaluator_available : has available p.evaluator.selected_model ≡ true
  pub builder_approved : is_approved_id p.builder.selected_model ≡ true
  pub evaluator_approved : is_approved_id p.evaluator.selected_model ≡ true
  pub builder_asked : Honours options.explicit_builder p.builder.selected_model
  pub evaluator_asked : Honours options.explicit_evaluator p.evaluator.selected_model

honoured : (explicit : Option Text) (id : Text) → Honours explicit (effective explicit id)
honoured none id = tt
honoured (some e) id = refl

usable-parts :
    (available : Availability) (explicit : Option Text) (id : Text)
    → is_usable available explicit id ≡ true
    → (has available (effective explicit id) ≡ true)
      × (is_approved_id (effective explicit id) ≡ true)
unfolding is_usable
usable-parts available explicit id h = ground (arith, h)

module _ (policy : RoutingPolicy) (available : Availability) (options : PairOptions) where
  allowed-IsSeparate :
      (c : Choice)
      → is_allowed policy available options c ≡ true
      → IsSeparate policy available options (pair_of policy available options c)
  unfolding may_pair
  allowed-IsSeparate c h =
      let (usable, fits) = &&-eq-true _ _ h in
      let (usable_b, usable_e) = &&-eq-true _ _ usable in
      let b = usable-parts available options.explicit_builder c.builder usable_b in
      let e = usable-parts available options.explicit_evaluator c.evaluator usable_e in
      record {
        differ = λ same.
            ground
              (arith, fits, same, text_eq_refl (effective options.explicit_evaluator c.evaluator));
        no_downgrade = ground (arith, fits);
        builder_available = b.0;
        evaluator_available = e.0;
        builder_approved = b.1;
        evaluator_approved = e.1;
        builder_asked = honoured options.explicit_builder c.builder;
        evaluator_asked = honoured options.explicit_evaluator c.evaluator;
      }

  first_allowed-IsSeparate :
      (cs : List Choice) (p : Pair)
      → first_allowed policy available options cs ≡ routed p
      → IsSeparate policy available options p
  first_allowed-IsSeparate [] p e = absurd (ground (arith, e))
  first_allowed-IsSeparate (c ∷ cs) p e =
      elim (Bool-cases (is_allowed policy available options c)) [
        | inl allowed ↦
            subst (IsSeparate policy available options)
              (routed-injective _ p (ground (arith, allowed, e))) (allowed-IsSeparate c allowed)
        | inr other ↦ first_allowed-IsSeparate cs p (ground (arith, other, e))
      ]

  -- The builder and the evaluator of a pair that is selected are different models, both approved
  -- and available, the evaluator ranks no lower than the builder, and each is the model that was
  -- asked for, if one was.
  pub select_builder_evaluator_pair-IsSeparate :
      (p : Pair)
      → select_builder_evaluator_pair policy available options ≡ routed p
      → IsSeparate policy available options p
  unfolding select_builder_evaluator_pair
  select_builder_evaluator_pair-IsSeparate p e =
      elim (Option-cases (policy.get_role_config building)) [
        | inl missing ↦ absurd (ground (arith, e, missing))
        | inr (bs, found_b) ↦ elim (Option-cases (policy.get_role_config assessing)) [
          | inl missing ↦ absurd (ground (arith, e, found_b, missing))
          | inr (es, found_e) ↦ elim (Bool-cases (is_unapproved options.explicit_builder)) [
            | inl bad ↦ absurd (ground (arith, e, found_b, found_e, bad))
            | inr known_b ↦ elim (Bool-cases (is_unapproved options.explicit_evaluator)) [
              | inl bad ↦ absurd (ground (arith, e, found_b, found_e, known_b, bad))
              | inr known_e ↦
                  first_allowed-IsSeparate (choices (candidates_of bs) (candidates_of es)) p (
                    sym (
                      select_builder_evaluator_pair-first_allowed policy available options bs es
                        found_b found_e known_b known_e)
                    ∙ e)
            ]
          ]
        ]
      ]
