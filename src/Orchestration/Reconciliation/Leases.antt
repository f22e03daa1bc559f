-- ===== src/Orchestration/Reconciliation/Leases.antt =====
-- src/domains/orchestration/reconciliation.ts: which leases a reconciliation ends, and which it keeps.
use mathlib.Core.Option
use agent_pool.Prelude.{
  ℕ, ◌≡◌, ◌≤◌, ◌<◌, ◌⊎◌, refl, sym, ap, subst, ◌∙◌, true, false, ltb, inl, inr, Option, none, some,
  Text, codes, text_eq, text_eq_sound, select_one, is_some, Bool-cases, Option-cases, arith,
}
use agent_pool.Js.{is_non_empty_string}
use agent_pool.Orchestration.Store.Schema.{Db, AttemptRecord, LeaseRecord, created, with_state}
use agent_pool.Orchestration.Store.Attempts.{find_attempt}
use agent_pool.Orchestration.Store.Leases.{find_lease, returned, reclaim_lease, reclaim_for}
use agent_pool.Orchestration.Store.Views.{view}
use agent_pool.Orchestration.Store.LeaseInvariant.{view-returned, view-returned_other}
use agent_pool.Orchestration.Store.Leasing.{reclaim_lease_cases}

lease-returned : (db : Db) (a : Text) → find_lease (returned db a) a ≡ none
unfolding view
lease-returned db a = ap (λ v. v.lease) (view-returned db a)

lease-returned_other :
    (db : Db) (b a : Text) → text_eq b a ≡ false → find_lease (returned db b) a ≡ find_lease db a
unfolding view
lease-returned_other db b a other = ap (λ v. v.lease) (view-returned_other db b a other)

attempt-returned :
    (db : Db) (b a : Text)
    → is_some (find_attempt db a) ≡ true
    → is_some (find_attempt (returned db b) a) ≡ true
unfolding view
attempt-returned db b a there = elim (Bool-cases (text_eq b a)) [
  | inr other ↦
      subst (λ o. is_some o ≡ true) (sym (ap (λ v. v.attempt) (view-returned_other db b a other)))
        there
  | inl same ↦
      subst (λ x. is_some (find_attempt (returned db b) x) ≡ true) (text_eq_sound b a same)
        (subst (λ o. is_some o ≡ true) (sym (ap (λ v. v.attempt) (view-returned db b)))
          (mapped (find_attempt db b)
            (subst (λ x. is_some (find_attempt db x) ≡ true) (sym (text_eq_sound b a same)) there)))
]
  where
    mapped :
        (o : Option AttemptRecord)
        → is_some o ≡ true
        → is_some (Option.map (with_state created) o) ≡ true
    mapped none h = h
    mapped (some r) h = refl

module _ (now : ℕ) (a : Text) where
  -- A lease that has not expired stays.
  pub reclaim_lease-keeps :
      (db : Db) (b owner : Text) (l : LeaseRecord)
      → find_lease db a ≡ some l
      → now < l.expires_at
      → find_lease (reclaim_lease db b owner now).0 a ≡ some l
  unfolding find_lease
  reclaim_lease-keeps db b owner l found live =
      reclaim_lease_cases db b owner (λ p. find_lease p.0 a ≡ some l) now (λ _. found)
        (λ r l' _ at_b expired. elim (Bool-cases (text_eq b a)) [
          | inr other ↦ lease-returned_other db b a other ∙ found
          | inl same ↦
              let here = subst (λ x. find_lease db x ≡ some l') (text_eq_sound b a same) at_b in
              let equal : l' ≡ l = ground (arith, here, found) in
              absurd (ground (arith, live, expired, ap (λ x. x.expires_at) equal))
        ])

  pub reclaim_lease-none :
      (db : Db) (b owner : Text)
      → find_lease db a ≡ none
      → find_lease (reclaim_lease db b owner now).0 a ≡ none
  unfolding find_lease
  reclaim_lease-none db b owner gone =
      reclaim_lease_cases db b owner (λ p. find_lease p.0 a ≡ none) now (λ _. gone)
        (λ r l' _ at_b expired. elim (Bool-cases (text_eq b a)) [
          | inr other ↦ lease-returned_other db b a other ∙ gone
          | inl same ↦
              subst (λ x. find_lease (returned db b) x ≡ none) (text_eq_sound b a same)
                (lease-returned db b)
        ])

  -- What is to be ended: the lease of an attempt that is there, which has run out, or is gone.
  abbrev pub IsOver : Db → Type 0
  IsOver db =
      (is_some (find_attempt db a) ≡ true)
      × ((find_lease db a ≡ none)
          ⊎ ((l : LeaseRecord) × (find_lease db a ≡ some l) × (l.expires_at ≤ now)))

  pub reclaim_lease-IsOver :
      (db : Db) (b owner : Text) → IsOver db → IsOver (reclaim_lease db b owner now).0
  unfolding find_lease find_attempt
  reclaim_lease-IsOver db b owner over =
      reclaim_lease_cases db b owner (λ p. IsOver p.0) now (λ _. over)
        (λ r l' _ at_b expired. (
          attempt-returned db b a over.0,
          elim (Bool-cases (text_eq b a)) [
            | inl same ↦ inl (
                subst (λ x. find_lease (returned db b) x ≡ none) (text_eq_sound b a same)
                  (lease-returned db b))
            | inr other ↦ elim over.1 [
              | inl gone ↦ inl (lease-returned_other db b a other ∙ gone)
              | inr (l, found, late) ↦ inr (l, lease-returned_other db b a other ∙ found, late)
            ]
          ],
        ))

  pub reclaim_lease-over :
      (db : Db)
      → IsOver db
      → find_lease (reclaim_lease db a (codes "reconciliation") now).0 a ≡ none
  unfolding find_lease is_non_empty_string reclaim_lease select_one
  reclaim_lease-over db (there, inl gone) = reclaim_lease-none db a (codes "reconciliation") gone
  reclaim_lease-over db (there, inr (l, found, late)) = elim (Option-cases (find_attempt db a)) [
    | inl absent ↦ absurd (ground (arith, there, absent))
    | inr (r, e) ↦
        let past : ltb now l.expires_at ≡ false = ground (arith, late) in
        rw (e, reclaim_lease, found, reclaim_for, past) (lease-returned db a)
  ]
