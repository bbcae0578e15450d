-- ===== src/Vault/Refs/Below.antt =====
-- What the recursive query of src/nagus/state.py selects.
use nagus.Prelude.{
  ==_iff, ℕ, zero, suc, ◌+◌, ◌≤◌, ◌≡◌, refl, ap, ◌∙◌, List, [], ◌∷◌, ◌++◌, length, length-append,
  true, inl, inr, ◌↔◌, arith,
}
use nagus.Vault.Database.{VaultNodeRef}
use nagus.Vault.Table.{filter, remove}
use nagus.Vault.Table.Members.{
  In, In-append_left, In-append_right, In-append-cases, In-filter, In-split, length-split,
}
use nagus.Vault.Refs.{has_parent, refs_rounds, refs_recursive}

-- The references on the paths that lead down from a node.
pub data Below (refs : List VaultNodeRef) (top_id : ℕ) : VaultNodeRef → Type 0 where
  direct : (ref : VaultNodeRef) → In ref refs → ref.parent_id ≡ top_id → Below refs top_id ref
  deeper :
      (ref next : VaultNodeRef)
      → Below refs top_id ref
      → In next refs
      → next.parent_id ≡ ref.child_id
      → Below refs top_id next

module _ (refs : List VaultNodeRef) (top_id : ℕ) where
  rounds-Below :
      (rounds : ℕ) (queue unseen : List VaultNodeRef)
      → ((ref : VaultNodeRef) → In ref queue → Below refs top_id ref)
      → ((ref : VaultNodeRef) → In ref unseen → In ref refs)
      → (ref : VaultNodeRef) → In ref (refs_rounds rounds queue unseen)
      → Below refs top_id ref
  unfolding refs_rounds
  rounds-Below zero queue unseen q u ref h = absurd h
  rounds-Below (suc rounds) [] unseen q u ref h = absurd h
  rounds-Below (suc rounds) (first ∷ queue) unseen q u ref (inl e) = q ref (inl e)
  rounds-Below (suc rounds) (first ∷ queue) unseen q u ref (inr h) =
      rounds-Below rounds _ _
        (λ r i. elim (In-append-cases r queue _ i) [
          | inl j ↦ q r (inr j)
          | inr j ↦
              let (k, t) = In-filter (has_parent first.child_id) r unseen j in
              deeper first r (q first (inl refl)) (u r k) ((==_iff r.parent_id _).0 t)
        ])
        (λ r i. u r (In-filter _ r unseen i).0) ref h

-- A round takes one row, and moves the others.
round_measure :
    (first : VaultNodeRef) (queue unseen : List VaultNodeRef) (rounds : ℕ)
    → length (first ∷ queue) + length unseen ≤ suc rounds
    → length (queue ++ filter (has_parent first.child_id) unseen)
        + length (remove (has_parent first.child_id) unseen)
      ≤ rounds
round_measure first queue unseen rounds h = omega (
  arith,
  length-append queue (filter (has_parent first.child_id) unseen),
  length-split (has_parent first.child_id) unseen,
)

record Closed (queue unseen result : List VaultNodeRef) : Type 0 where
  takes : (ref : VaultNodeRef) → In ref queue → In ref result
  follows :
      (ref next : VaultNodeRef)
      → In ref result
      → In next unseen
      → next.parent_id ≡ ref.child_id
      → In next result

rounds-Closed :
    (rounds : ℕ) (queue unseen : List VaultNodeRef)
    → length queue + length unseen ≤ rounds
    → Closed queue unseen (refs_rounds rounds queue unseen)
unfolding refs_rounds
rounds-Closed zero [] [] h = record { takes = λ r i. absurd i; follows = λ r n i j e. absurd i }
rounds-Closed zero [] (x ∷ unseen) h = absurd (omega arith)
rounds-Closed zero (x ∷ queue) unseen h = absurd (omega arith)
rounds-Closed (suc rounds) [] unseen h = record {
  takes = λ r i. absurd i;
  follows = λ r n i j e. absurd i;
}
rounds-Closed (suc rounds) (first ∷ queue) unseen h =
    let is_next = has_parent first.child_id in
    let later =
      rounds-Closed rounds (queue ++ filter is_next unseen) (remove is_next unseen)
        (round_measure first queue unseen rounds h) in
    record {
      takes = λ r i. elim i [
        | inl e ↦ inl e
        | inr j ↦ inr (later.takes r (In-append_left r queue _ j))
      ];
      follows = λ r n i j e. elim (In-split is_next n unseen j) [
        | inl (k, t) ↦ inr (later.takes n (In-append_right n queue _ k))
        | inr (k, t) ↦ elim i [
          | inl p ↦
              let q : n.parent_id ≡ first.child_id = e ∙ ap (λ (v : VaultNodeRef). v.child_id) p in
              let u : is_next n ≡ true = (==_iff _ _).1 q in cc
          | inr l ↦ inr (later.follows r n l k e)
        ]
      ];
    }

refs_recursive-Closed :
    (refs : List VaultNodeRef) (top_id : ℕ)
    → Closed
        (filter (has_parent top_id) refs)
        (remove (has_parent top_id) refs)
        (refs_recursive top_id refs)
unfolding refs_recursive
refs_recursive-Closed refs top_id =
    rounds-Closed (length refs) _ _ (omega (arith, length-split (has_parent top_id) refs))

refs_recursive_complete :
    (refs : List VaultNodeRef) (top_id : ℕ) (ref : VaultNodeRef)
    → Below refs top_id ref
    → In ref (refs_recursive top_id refs)
refs_recursive_complete refs top_id ref (direct _ i e) =
    elim (In-split (has_parent top_id) ref refs i) [
      | inl (k, t) ↦ (refs_recursive-Closed refs top_id).takes ref k
      | inr (k, t) ↦ let u : has_parent top_id ref ≡ true = (==_iff _ _).1 e in cc
    ]
refs_recursive_complete refs top_id ref (deeper r _ b i e) =
    let closed = refs_recursive-Closed refs top_id in
    elim (In-split (has_parent top_id) ref refs i) [
      | inl (k, t) ↦ closed.takes ref k
      | inr (k, t) ↦ closed.follows r ref (refs_recursive_complete refs top_id r b) k e
    ]

-- `refs_recursive`, the queue that stands for the recursive query, selects exactly the
-- references on the paths that lead down from the top node.
pub refs_recursive-Below :
    (refs : List VaultNodeRef) (top_id : ℕ) (ref : VaultNodeRef)
    → In ref (refs_recursive top_id refs) ↔ Below refs top_id ref
refs_recursive-Below refs top_id ref = (
  (unfold refs_recursive in
      rounds-Below refs top_id (length refs) _ _
        (λ r i.
          let (k, t) = In-filter (has_parent top_id) r refs i in
          direct r k ((==_iff r.parent_id top_id).0 t))
        (λ r i. (In-filter _ r refs i).0) ref),
  refs_recursive_complete refs top_id ref,
)

rounds_more :
    (rounds rounds' : ℕ) (queue unseen : List VaultNodeRef)
    → length queue + length unseen ≤ rounds
    → length queue + length unseen ≤ rounds'
    → refs_rounds rounds queue unseen ≡ refs_rounds rounds' queue unseen
unfolding refs_rounds
rounds_more zero zero queue unseen h k = refl
rounds_more zero (suc rounds') [] unseen h k = refl
rounds_more (suc rounds) zero [] unseen h k = refl
rounds_more (suc rounds) (suc rounds') [] unseen h k = refl
rounds_more zero (suc rounds') (first ∷ queue) unseen h k = absurd (omega arith)
rounds_more (suc rounds) zero (first ∷ queue) unseen h k = absurd (omega arith)
rounds_more (suc rounds) (suc rounds') (first ∷ queue) unseen h k =
    ap (λ (later : List VaultNodeRef). first ∷ later)
      (rounds_more rounds rounds' _ _ (round_measure first queue unseen rounds h)
        (round_measure first queue unseen rounds' k))

length-rounds :
    (rounds : ℕ) (queue unseen : List VaultNodeRef)
    → length queue + length unseen ≤ rounds
    → length (refs_rounds rounds queue unseen) ≤ length queue + length unseen
unfolding refs_rounds
length-rounds zero queue unseen h = omega arith
length-rounds (suc rounds) [] unseen h = omega arith
length-rounds (suc rounds) (first ∷ queue) unseen h = omega (
  arith,
  length-rounds rounds _ _ (round_measure first queue unseen rounds h),
  length-append queue (filter (has_parent first.child_id) unseen),
  length-split (has_parent first.child_id) unseen,
)

-- As many rounds as there are references are enough for `refs_recursive`: with more rounds the
-- result is the same. It is no longer than the table.
pub refs_recursive-terminates :
    (refs : List VaultNodeRef) (top_id rounds : ℕ)
    → length refs ≤ rounds
    → (refs_rounds rounds (filter (has_parent top_id) refs) (remove (has_parent top_id) refs)
        ≡ refs_recursive top_id refs)
      × (length (refs_recursive top_id refs) ≤ length refs)
unfolding refs_recursive
refs_recursive-terminates refs top_id rounds h =
    let queue = filter (has_parent top_id) refs in
    let unseen = remove (has_parent top_id) refs in
    let split = length-split (has_parent top_id) refs in
    (
      rounds_more rounds (length refs) queue unseen (omega (arith, split)) (omega (arith, split)),
      omega (arith, split, length-rounds (length refs) queue unseen (omega (arith, split))),
    )
