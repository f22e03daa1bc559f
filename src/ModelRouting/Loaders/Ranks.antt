-- ===== src/ModelRouting/Loaders/Ranks.antt =====
-- src/domains/model-routing-and-evaluation/bootstrap-policy.ts: the capability ranks of a publication
-- tell the models apart, so the evaluator of a pair outranks its builder.
use agent_pool.Prelude.{
  ◌≡◌, ◌<◌, sym, ap, subst, ◌∙◌, inl, inr, Bool, true, false, not, List, [], ◌∷◌, none, some, Text,
  codes, text_eq, text_eq_sound, Bool-cases, if◌then◌else◌, arith, ◌>>◌, require, >>=-eq-some,
  >>=-cases, require-eq-some,
}
use agent_pool.Js.{Value, Fields, own, keys, every_in, mem_text}
use agent_pool.ModelRouting.ApprovedModels.{is_approved_id, approved_ids}
use agent_pool.ModelRouting.Router.{Availability, routed}
use agent_pool.ModelRouting.Pairing.{Pair, PairOptions, select_builder_evaluator_pair}
use agent_pool.ModelRouting.Pairing.Separation.{select_builder_evaluator_pair-IsSeparate}
use agent_pool.ModelRouting.Policies.{
  Rank, assert_rank, mem_rank, collect_ranks, rank_of, validate_capability_rank, assert_object,
  worker_roles, worker_rules, mandatory_rules,
}
use agent_pool.ModelRouting.Loaders.{
  LoadedPolicy, assert_eval_publication_envelope, worker_actor, worker_publication_fields,
  parse_eval_role_map, parse_eval_rules, policy_of, load_worker_eval_publication,
}

abbrev pub is_ranked : List Rank → Text → Bool
is_ranked [] id = false
is_ranked (r ∷ rs) id = if text_eq r.id id then true else is_ranked rs id

-- Models with one rank are one model.
abbrev pub AreApart : List Rank → Type 0
AreApart rs =
    (x y : Text)
    → is_ranked rs x ≡ true
    → is_ranked rs y ≡ true
    → rank_of rs x ≡ rank_of rs y
    → x ≡ y

rank_of-mem :
    (rs : List Rank) (id : Text) → is_ranked rs id ≡ true → mem_rank (rank_of rs id) rs ≡ true
unfolding rank_of
rank_of-mem [] id h = absurd (ground (arith, h))
rank_of-mem (r ∷ rs) id h = ground (arith, rank_of-mem rs id)

AreApart-cons :
    (r : Rank) (rs : List Rank) → AreApart rs → mem_rank r.rank rs ≡ false → AreApart (r ∷ rs)
unfolding rank_of
AreApart-cons r rs h fresh x y hx hy e = elim (Bool-cases (text_eq r.id x)) [
  | inl is_x ↦ elim (Bool-cases (text_eq r.id y)) [
    | inl is_y ↦ sym (text_eq_sound r.id x is_x) ∙ text_eq_sound r.id y is_y
    | inr other ↦ absurd (ground (arith, hy, e, is_x, other, fresh, rank_of-mem rs y))
  ]
  | inr not_x ↦ elim (Bool-cases (text_eq r.id y)) [
    | inl is_y ↦ absurd (ground (arith, hx, e, is_y, not_x, fresh, rank_of-mem rs x))
    | inr not_y ↦
        h x y (ground (arith, hx, not_x)) (ground (arith, hy, not_y))
          (ground (arith, e, not_x, not_y))
  ]
]

is_ranked-cons :
    (r : Rank) (rs : List Rank) (x : Text) → is_ranked rs x ≡ true → is_ranked (r ∷ rs) x ≡ true
is_ranked-cons r rs x h = ground (arith, h)

collect_ranks-AreApart :
    (fs : Fields) (ranks : List Rank) (ids : List Text) (out : List Rank)
    → AreApart ranks
    → collect_ranks fs ranks ids ≡ some out
    → AreApart out
      × ((x : Text) → is_ranked ranks x ≡ true → is_ranked out x ≡ true)
      × ((x : Text) → mem_text x ids ≡ true → is_ranked out x ≡ true)
unfolding collect_ranks mem_text
collect_ranks-AreApart fs ranks [] out h e =
    let same : ranks ≡ out = ground (arith, e) in
    (
      subst AreApart same h,
      λ x r. ap (λ rs. is_ranked rs x) (sym same) ∙ r,
      λ x m. absurd (ground (arith, m)),
    )
collect_ranks-AreApart fs ranks (id ∷ ids) out h e =
    let (n, _, e1) =
      >>=-eq-some (assert_rank (own fs id))
        (λ n.
          require (not (mem_rank n ranks))
          >> collect_ranks fs (record { id = id; rank = n } ∷ ranks) ids)
        out e in
    let (fresh, e2) = require-eq-some (not (mem_rank n ranks)) _ out e1 in
    let new : Rank = record { id = id; rank = n } in
    let (apart, keeps, has) =
      collect_ranks-AreApart fs (new ∷ ranks) ids out
        (AreApart-cons new ranks h (ground (arith, fresh))) e2 in
    (
      apart,
      λ x r. keeps x (is_ranked-cons new ranks x r),
      λ x m. elim (Bool-cases (text_eq id x)) [
        | inl here ↦ keeps x (ground (arith, here))
        | inr other ↦ has x (ground (arith, m, other))
      ],
    )

validate_capability_rank-AreApart :
    (fs : Fields) (ranks : List Rank)
    → validate_capability_rank fs ≡ some ranks
    → AreApart ranks × ((x : Text) → is_approved_id x ≡ true → is_ranked ranks x ≡ true)
unfolding validate_capability_rank is_approved_id
validate_capability_rank-AreApart fs ranks e =
    let (_, e1) = require-eq-some (every_in approved_ids (keys fs)) _ ranks e in
    let (apart, _, has) =
      collect_ranks-AreApart fs [] approved_ids ranks (λ x y hx hy e. absurd (ground (arith, hx)))
        e1 in
    (apart, has)

publication-ranks :
    (json : Value) (p : LoadedPolicy)
    → load_worker_eval_publication json ≡ some p
    → (fs : Fields) × (ranks : List Rank) × (validate_capability_rank fs ≡ some ranks)
      × (p.ranks ≡ some ranks)
unfolding load_worker_eval_publication
publication-ranks json p loaded = >>=-cases (assert_object json) loaded λ fs _ e.
    >>=-cases (assert_eval_publication_envelope fs worker_actor worker_publication_fields) e
      λ envelope _ e.
        >>=-cases (assert_object (own fs (codes "capability_rank"))) e λ rank_fields _ e.
          >>=-cases (validate_capability_rank rank_fields) e λ ranks valid e.
            >>=-cases (parse_eval_role_map (own fs (codes "roles")) worker_roles) e λ roles _ e.
              >>=-cases (parse_eval_rules (own fs (codes "rules")) worker_rules mandatory_rules) e
                λ rules _ e. (
                  rank_fields,
                  ranks,
                  valid,
                  sym (ap (λ o. elim o [ none ↦ none | some q ↦ q.ranks ]) e),
                )

-- Under a policy that was loaded from a publication for workers, the evaluator of a selected pair
-- has a strictly greater capability rank of the publication than the builder.
pub load_worker_eval_publication-outranks :
    (json : Value) (p : LoadedPolicy) (available : Availability) (options : PairOptions)
    (pair : Pair)
    → load_worker_eval_publication json ≡ some p
    → select_builder_evaluator_pair (policy_of p) available options ≡ routed pair
    → (policy_of p).get_rank pair.builder.selected_model
      < (policy_of p).get_rank pair.evaluator.selected_model
unfolding policy_of
load_worker_eval_publication-outranks json p available options pair loaded chosen =
    let s = select_builder_evaluator_pair-IsSeparate (policy_of p) available options pair chosen in
    let (fs, ranks, valid, kept) = publication-ranks json p loaded in
    let (apart, ranked) = validate_capability_rank-AreApart fs ranks valid in
    let same =
      apart pair.builder.selected_model pair.evaluator.selected_model
        (ranked pair.builder.selected_model s.builder_approved)
        (ranked pair.evaluator.selected_model s.evaluator_approved) in
    ground (arith, kept, s.no_downgrade, s.differ, same)
