-- ===== src/Rules/Engine/Grouped.antt =====
-- Grouping by capability loses, adds and changes nothing: the groups together are the requirements in
-- another order, and a group holds only requirements of its capability.
use mathlib.Core.List.{Perm, perm_middle, append_assoc, append-nil}
use mathlib.Core.List.Perm
use core_engine_ge_m.Base.{
  ◌≡◌, refl, sym, subst, String, true, false, List, [], ◌∷◌, ◌++◌, Map, lookup, insert, string_eq,
  ◌==◌, ==-eq, Bool-cases, inl, inr, All, arith,
}
use core_engine_ge_m.Rules.Model.{Requirement}
use core_engine_ge_m.Rules.Engine.{append_to, group}

-- All groups, one after the other.
abbrev pub joined : Map String (List Requirement) → List Requirement
joined [] = []
joined (entry ∷ groups) = entry.1 ++ joined groups

abbrev filed : Requirement → Map String (List Requirement) → Map String (List Requirement)
filed q groups = insert q.capability (append_to (lookup q.capability groups) q) groups

filed-other :
    (q : Requirement) (entry : String × List Requirement) (groups : Map String (List Requirement))
    → (entry.0 == q.capability) ≡ false
    → filed q (entry ∷ groups) ≡ entry ∷ filed q groups
unfolding lookup insert
filed-other q entry groups other = ground arith

filed-same :
    (q : Requirement) (entry : String × List Requirement) (groups : Map String (List Requirement))
    → (entry.0 == q.capability) ≡ true
    → filed q (entry ∷ groups) ≡ (entry.0, entry.1 ++ q ∷ []) ∷ groups
unfolding lookup insert
filed-same q entry groups same = ground arith

joined-filed :
    (q : Requirement) (groups : Map String (List Requirement))
    → Perm (joined (filed q groups)) (q ∷ joined groups)
unfolding lookup insert
joined-filed q [] = Perm.refl _
joined-filed q (entry ∷ groups) = elim (Bool-cases (entry.0 == q.capability)) [
  | inl same ↦
      rw (filed-same q entry groups same, append_assoc) (perm_middle entry.1 (joined groups))
  | inr other ↦ rw (filed-other q entry groups other) (
      Perm.trans (Perm.append_left entry.1 (joined-filed q groups))
        (perm_middle entry.1 (joined groups)))
]

joined-from :
    (requirements : List Requirement) (groups : Map String (List Requirement))
    → Perm (joined (group requirements groups)) (requirements ++ joined groups)
unfolding group
joined-from [] groups = Perm.refl _
joined-from (q ∷ qs) groups =
    Perm.trans (joined-from qs (filed q groups))
      (Perm.trans (Perm.append_left qs (joined-filed q groups)) (perm_middle qs (joined groups)))

-- The groups together are the requirements, in some order.
pub joined-group :
    (requirements : List Requirement) → Perm (joined (group requirements [])) requirements
joined-group requirements =
    subst (λ l. Perm (joined (group requirements [])) l) (append-nil requirements)
      (joined-from requirements [])

module _ {ℓ} (P : Requirement → Type ℓ) where
  -- Each group has its capability, and `P` of its requirements.
  abbrev pub Sorted : Map String (List Requirement) → Type ℓ
  Sorted [] = Unit
  Sorted (entry ∷ groups) = All (λ q. (q.capability ≡ entry.0) × P q) entry.1 × Sorted groups

  All-snoc :
      (k : String) (q : Requirement) (qs : List Requirement)
      → All (λ q. (q.capability ≡ k) × P q) qs
      → (q.capability ≡ k) × P q
      → All (λ q. (q.capability ≡ k) × P q) (qs ++ q ∷ [])
  All-snoc k q [] h p = (p, tt)
  All-snoc k q (x ∷ xs) h p = (h.0, All-snoc k q xs h.1 p)

  filed-Sorted :
      (q : Requirement) (groups : Map String (List Requirement))
      → P q
      → Sorted groups
      → Sorted (filed q groups)
  unfolding lookup insert
  filed-Sorted q [] p s = (((refl, p), tt), tt)
  filed-Sorted q (entry ∷ groups) p s = elim (Bool-cases (entry.0 == q.capability)) [
    | inl same ↦
        rw same (All-snoc entry.0 q entry.1 s.0 (sym (==-eq entry.0 q.capability same), p), s.1)
    | inr other ↦ rw (filed-other q entry groups other) (s.0, filed-Sorted q groups p s.1)
  ]

  pub group-Sorted :
      (requirements : List Requirement) (groups : Map String (List Requirement))
      → All P requirements
      → Sorted groups
      → Sorted (group requirements groups)
  unfolding group
  group-Sorted [] groups h s = s
  group-Sorted (q ∷ qs) groups h s =
      group-Sorted qs (filed q groups) h.1 (filed-Sorted q groups h.0 s)
