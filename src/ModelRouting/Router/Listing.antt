-- ===== src/ModelRouting/Router/Listing.antt =====
-- src/domains/model-routing-and-evaluation/model-router.ts: what `validateAvailability` accepts.
use agent_pool.Prelude.{
  ◌≡◌, ◌⊎◌, refl, sym, ap, subst, ◌∙◌, inl, inr, true, false, List, [], ◌∷◌, ◌++◌, Text, codes,
  text_eq, text_eq_refl, Bool-cases, arith,
}
use agent_pool.Js.{Value, Values, Fields, items, own}
use agent_pool.ModelRouting.ApprovedModels.{is_approved_id, get_provider, get_model_name}
use agent_pool.ModelRouting.Router.{
  RoutingFailure, Routed, routed, failed, routed-injective, has, check_full_id, check_entry,
  check_entries, validate_availability,
}

Routed-cases {ℓ} :
    {A : Type ℓ} (r : Routed A)
    → ((f : RoutingFailure) × (r ≡ failed f)) ⊎ ((a : A) × (r ≡ routed a))
Routed-cases (failed f) = inl (f, refl)
Routed-cases (routed a) = inr (a, refl)

-- Approved ids, none of which is among those seen or comes twice.
abbrev pub IsListing : List Text → List Text → Type 0
IsListing seen [] = Unit
IsListing seen (id ∷ ids) =
    (is_approved_id id ≡ true) × (has seen id ≡ false) × IsListing (seen ++ id ∷ []) ids

-- The entry of an id, with its provider and its model.
abbrev pub entry_of : Text → Value
entry_of id = Value.object true (
    Fields.field (codes "fullId") (Value.string id) (
      Fields.field (codes "provider") (Value.string (get_provider id))
        (Fields.field (codes "model") (Value.string (get_model_name id)) Fields.stop)))

abbrev pub entries_of : List Text → Values
entries_of [] = Values.end
entries_of (id ∷ ids) = Values.item (entry_of id) (entries_of ids)

snoc_append : (xs : List Text) (y : Text) (ys : List Text) → (xs ++ y ∷ []) ++ ys ≡ xs ++ y ∷ ys
snoc_append [] y ys = refl
snoc_append (x ∷ xs) y ys = ap (λ zs. x ∷ zs) (snoc_append xs y ys)

append_nil : (xs : List Text) → xs ≡ xs ++ []
append_nil [] = refl
append_nil (x ∷ xs) = ap (λ zs. x ∷ zs) (append_nil xs)

check_entry-entry_of :
    (seen : List Text) (id : Text)
    → is_approved_id id ≡ true
    → has seen id ≡ false
    → check_entry seen (entry_of id) ≡ routed id
unfolding check_entry own text_eq
check_entry-entry_of seen id known fresh =
    ground (arith, known, fresh, text_eq_refl (get_provider id), text_eq_refl (get_model_name id))

check_entries-entries_of :
    (seen ids : List Text)
    → IsListing seen ids
    → check_entries seen (items (entries_of ids)) ≡ routed (seen ++ ids)
unfolding check_entries items
check_entries-entries_of seen [] h = ap routed (append_nil seen)
check_entries-entries_of seen (id ∷ ids) h =
    rw (check_entries, check_entry-entry_of seen id h.0 h.1)
      (check_entries-entries_of (seen ++ id ∷ []) ids h.2 ∙ ap routed (snoc_append seen id ids))

-- The entries that distinct approved ids are written as, with their providers and models, are read
-- back as these ids.
pub validate_availability-entries_of :
    (ids : List Text)
    → IsListing [] ids
    → validate_availability (Value.array (entries_of ids)) ≡ routed ids
unfolding validate_availability
validate_availability-entries_of ids h = check_entries-entries_of [] ids h

check_full_id-IsApproved :
    (seen : List Text) (fs : Fields) (v : Value) (id : Text)
    → check_full_id seen fs v ≡ routed id
    → (is_approved_id id ≡ true) × (has seen id ≡ false)
unfolding check_full_id
check_full_id-IsApproved seen fs (Value.string id') id e = elim (Bool-cases (is_approved_id id')) [
  | inr bad ↦ absurd (ground (arith, e, bad))
  | inl known ↦ elim (Bool-cases (has seen id')) [
    | inl twice ↦ absurd (ground (arith, e, known, twice))
    | inr fresh ↦
        subst (λ i. (is_approved_id i ≡ true) × (has seen i ≡ false))
          (routed-injective id' id (ground (arith, e, known, fresh))) (known, fresh)
  ]
]
check_full_id-IsApproved seen fs v id e = absurd (ground (arith, e))

check_entry-IsApproved :
    (seen : List Text) (v : Value) (id : Text)
    → check_entry seen v ≡ routed id
    → (is_approved_id id ≡ true) × (has seen id ≡ false)
unfolding check_entry
check_entry-IsApproved seen (Value.object p fs) id e =
    check_full_id-IsApproved seen fs (own fs (codes "fullId")) id e
check_entry-IsApproved seen v id e = absurd (ground (arith, e))

check_entries-IsListing :
    (seen : List Text) (vs : List Value) (out : List Text)
    → check_entries seen vs ≡ routed out
    → (ids : List Text) × (out ≡ seen ++ ids) × IsListing seen ids
unfolding check_entries
check_entries-IsListing seen [] out e = ([], ground (arith, e, append_nil seen), tt)
check_entries-IsListing seen (v ∷ vs) out e = elim (Routed-cases (check_entry seen v)) [
  | inl (f, bad) ↦ absurd (ground (arith, e, bad))
  | inr (id, good) ↦
      let (ids, shape, rest) =
        check_entries-IsListing (seen ++ id ∷ []) vs out (ground (arith, e, good)) in
      let here = check_entry-IsApproved seen v id good in
      (id ∷ ids, shape ∙ snoc_append seen id ids, (here.0, here.1, rest))
]

-- A snapshot that is accepted lists distinct approved ids.
pub validate_availability-IsListing :
    (v : Value) (ids : List Text) → validate_availability v ≡ routed ids → IsListing [] ids
unfolding validate_availability
validate_availability-IsListing (Value.array vs) out e =
    let (ids, same, listing) = check_entries-IsListing [] (items vs) out e in
    subst (IsListing []) (sym same) listing
validate_availability-IsListing v out e = absurd (ground (arith, e))
