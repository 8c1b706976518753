-- ===== src/Archive/Entry.antt =====
-- What adding one entry to the tree of an archive changes.
use mgdf.Archive.{
  Node, file, folder, Children, no_child, child, get, add_child, set_child, children_of, descend,
  put_back, when_blocked, add_entry, get_child, walk, lookup,
}
use mgdf.Prelude.{
  ℕ, ◌≡◌, refl, sym, ◌⊎◌, inl, inr, Option, none, some, List, [], ◌∷◌, ◌++◌, arith, ltb,
  if◌then◌else◌, Bool-cases, Option-cases, Text, same_text, same_text_refl, same_text→eq,
}

pub get-set_child :
    (p q : Text) (n : Node) (cs : Children)
    → get q (set_child p n cs) ≡ (if same_text p q then some n else get q cs)
unfolding get set_child
get-set_child p q n no_child = refl
get-set_child p q n (child k m cs) = ground (
  arith,
  get-set_child p q n cs,
  same_text→eq k p,
  same_text→eq k q,
  same_text→eq p q,
  same_text_refl k,
)

pub get-add_child :
    (p q : Text) (n : Node) (cs : Children)
    → get q (add_child p n cs)
      ≡ (if same_text p q then (elim (get q cs) [ none ↦ some n | some m ↦ some m ]) else get q cs)
unfolding get add_child
get-add_child p q n no_child = refl
get-add_child p q n (child k m cs) = ground (
  arith,
  get-add_child p q n cs,
  same_text→eq k p,
  same_text→eq k q,
  same_text→eq p q,
  same_text_refl k,
)

lookup-empty : (ps : List Text) (name : Text) → lookup (ps ++ name ∷ []) (folder no_child) ≡ none
unfolding lookup get_child walk get
lookup-empty [] name = refl
lookup-empty (p ∷ ps) name = refl

-- What an addition made, in terms of the folder below the first component.
put_back-some :
    (p : Text) (f : Children → Option Children) (cs cs' : Children)
    → put_back p cs (descend f (children_of (get p cs))) ≡ some cs'
    → (below : Children) × (below' : Children) × (children_of (get p cs) ≡ some below)
      × (f below ≡ some below')
      × (cs' ≡ set_child p (folder below') cs)
unfolding descend put_back
put_back-some p f cs cs' h = elim (Option-cases (children_of (get p cs))) [
  | inl e ↦ absurd (ground (arith, rw e at h))
  | inr (b, e) ↦ elim (Option-cases (f b)) [
    | inl k ↦ absurd (ground (arith, rw (e, k) at h))
    | inr (b', k) ↦
        let g : some (set_child p (folder b') cs) ≡ some cs' = rw (e, k) at h in
        (b, b', e, k, ground (arith, g))
  ]
]

unblocked :
    (p : Text) (ps : List Text) (name : Text) (size : ℕ) (cs cs' : Children)
    → (get p cs ≡ none) ⊎ ((c : Children) × (get p cs ≡ some (folder c)))
    → add_entry (p ∷ ps) name size cs ≡ some cs'
    → put_back p cs (descend (λ below. add_entry ps name size below) (children_of (get p cs)))
      ≡ some cs'
unfolding add_entry when_blocked
unblocked p ps name size cs cs' (inl e) h = rw e (rw e at h)
unblocked p ps name size cs cs' (inr (c, e)) h = rw e (rw e at h)

-- Either a file is in the way of an entry of no size, and nothing has changed; or the entry was added to
-- the folder below.
pub add_entry-cons :
    (p : Text) (ps : List Text) (name : Text) (size : ℕ) (cs cs' : Children)
    → add_entry (p ∷ ps) name size cs ≡ some cs'
    → ((size ≡ 0) × (cs' ≡ cs))
      ⊎ ((below : Children) × (below' : Children) × (children_of (get p cs) ≡ some below)
          × (add_entry ps name size below ≡ some below')
          × (cs' ≡ set_child p (folder below') cs))
unfolding add_entry when_blocked
add_entry-cons p ps name size cs cs' h = elim (Option-cases (get p cs)) [
  | inr (file n, e) ↦ elim (Bool-cases (ltb 0 size)) [
    | inl b ↦ absurd (ground (arith, rw (e, b) at h))
    | inr b ↦ inl (ground (arith, b), ground (arith, rw (e, b) at h))
  ]
  | inl e ↦ inr (
      put_back-some p (λ below. add_entry ps name size below) cs cs'
        (unblocked p ps name size cs cs' (inl e) h))
  | inr (folder c, e) ↦ inr (
      put_back-some p (λ below. add_entry ps name size below) cs cs'
        (unblocked p ps name size cs cs' (inr (c, e)) h))
]

-- The folder below a component, as a lookup sees it.
pub lookup-below :
    (p : Text) (ps : List Text) (name : Text) (cs below : Children)
    → children_of (get p cs) ≡ some below
    → lookup (p ∷ (ps ++ name ∷ [])) (folder cs) ≡ lookup (ps ++ name ∷ []) (folder below)
unfolding lookup get_child walk children_of
lookup-below p ps name cs below h = elim (Option-cases (get p cs)) [
  | inl e ↦
      let b : some no_child ≡ some below = rw e at h in
      let c : no_child ≡ below = ground (arith, b) in rw e (rw (sym c) (sym (lookup-empty ps name)))
  | inr (file size, e) ↦ absurd (ground (arith, rw e at h))
  | inr (folder c, e) ↦
      let b : some c ≡ some below = rw e at h in
      let d : c ≡ below = ground (arith, b) in rw (e, d) refl
]

pub lookup-set_child :
    (p : Text) (ps : List Text) (cs below : Children)
    → lookup (p ∷ ps) (folder (set_child p (folder below) cs)) ≡ lookup ps (folder below)
unfolding lookup get_child walk
lookup-set_child p ps cs below = rw (get-set_child p p (folder below) cs, same_text_refl p) refl
