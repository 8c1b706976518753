-- ===== src/Archive/Lookup.antt =====
-- That the files of an archive are found.
use mgdf.Archive.{
  Node, file, folder, Children, get, set_child, split_path, children_of, descend, add_file,
  add_entry, add_path, map_entries, get_child, walk, lookup,
}
use mgdf.Archive.Entry.{
  get-set_child, get-add_child, add_entry-cons, lookup-below, lookup-set_child,
}
use mgdf.Prelude.{
  ℕ, ◌<◌, ◌≡◌, refl, sym, inl, inr, none, some, List, [], ◌∷◌, ◌++◌, arith, ltb, if◌then◌else◌,
  lt→ltb, Bool-cases, Option-cases, Text, same_text, same_text_refl, same_text→eq,
}

lookup-one : (name : Text) (cs : Children) → lookup (name ∷ []) (folder cs) ≡ get name cs
unfolding lookup get_child walk
lookup-one name cs = elim (Option-cases (get name cs)) [
  | inl e ↦ rw e refl
  | inr (n, e) ↦ rw e refl
]

get-add_file :
    (name q : Text) (size : ℕ) (cs : Children)
    → 0 < size
    → get q (add_file name size cs) ≡ (
        if same_text name q
        then (elim (get q cs) [ none ↦ some (file size) | some m ↦ some m ])
        else get q cs)
unfolding add_file
get-add_file name q size cs lt = rw (lt→ltb 0 size lt) (get-add_child name q (file size) cs)

-- An entry that was added where nothing was is found.
add_entry-found :
    (ps : List Text) (name : Text) (size : ℕ) (cs cs' : Children)
    → 0 < size
    → lookup (ps ++ name ∷ []) (folder cs) ≡ none
    → add_entry ps name size cs ≡ some cs'
    → lookup (ps ++ name ∷ []) (folder cs') ≡ some (file size)
unfolding add_entry
add_entry-found [] name size cs cs' lt n h =
    let e : add_file name size cs ≡ cs' = ground (arith, h) in
    let m : get name cs ≡ none = rw (lookup-one name cs) at n in
    rw (lookup-one name cs', sym e, get-add_file name name size cs lt, same_text_refl name, m) refl
add_entry-found (p ∷ ps) name size cs cs' lt n h = elim (add_entry-cons p ps name size cs cs' h) [
  | inl (z, s) ↦ absurd (omega (arith, z))
  | inr (b, b', e, f, g) ↦
      let n' : lookup (ps ++ name ∷ []) (folder b) ≡ none =
        rw (lookup-below p ps name cs b e) at n in
      rw (g, lookup-set_child p (ps ++ name ∷ []) cs b') (add_entry-found ps name size b b' lt n' f)
]

lookup-found :
    (q : Text) (qs : List Text) (cs : Children) (r : Node)
    → lookup (q ∷ qs) (folder cs) ≡ some r
    → (n : Node) × (get q cs ≡ some n) × (lookup qs n ≡ some r)
unfolding lookup get_child walk
lookup-found q qs cs r l = elim (Option-cases (get q cs)) [
  | inl e ↦ absurd (ground (arith, rw e at l))
  | inr (n, e) ↦ (n, e, rw e at l)
]

lookup-of :
    (q : Text) (qs : List Text) (cs : Children) (n : Node)
    → get q cs ≡ some n
    → lookup (q ∷ qs) (folder cs) ≡ lookup qs n
unfolding lookup get_child walk
lookup-of q qs cs n e = rw e refl

add_file-kept :
    (name q : Text) (size : ℕ) (cs : Children) (n : Node)
    → get q cs ≡ some n
    → get q (add_file name size cs) ≡ some n
unfolding add_file
add_file-kept name q size cs n e = elim (Bool-cases (ltb 0 size)) [
  | inl b ↦ rw (b, get-add_child name q (file size) cs, e) (ground arith)
  | inr b ↦ rw b e
]

folder_of : (n : Node) (b : Children) → children_of (some n) ≡ some b → n ≡ folder b
unfolding children_of
folder_of (file size) b h = absurd (ground (arith, h))
folder_of (folder c) b h = ground (arith, h)

not_file : (cs : Children) (m : ℕ) → ¬ (lookup [] (folder cs) ≡ some (file m))
unfolding lookup
not_file cs m l = ground (arith, l)

-- What is found before an addition is found after it, if it is a file.
add_entry-kept :
    (ps : List Text) (name : Text) (size : ℕ) (cs cs' : Children) (qs : List Text) (m : ℕ)
    → add_entry ps name size cs ≡ some cs'
    → lookup qs (folder cs) ≡ some (file m)
    → lookup qs (folder cs') ≡ some (file m)
unfolding add_entry
add_entry-kept ps name size cs cs' [] m h l = absurd (not_file cs m l)
add_entry-kept [] name size cs cs' (q ∷ qs) m h l =
    let (n, e, f) = lookup-found q qs cs (file m) l in
    let g : add_file name size cs ≡ cs' = ground (arith, h) in
    rw (sym g, lookup-of q qs (add_file name size cs) n (add_file-kept name q size cs n e)) f
add_entry-kept (p ∷ ps) name size cs cs' (q ∷ qs) m h l =
    elim (add_entry-cons p ps name size cs cs' h) [
      | inl (z, s) ↦ rw s l
      | inr (b, b', e, f, g) ↦
          let (n, i, j) = lookup-found q qs cs (file m) l in
          elim (Bool-cases (same_text p q)) [
            | inr d ↦
                let w : get q (set_child p (folder b') cs) ≡ some n =
                  rw (get-set_child p q (folder b') cs, d) i in
                rw (g, lookup-of q qs (set_child p (folder b') cs) n w) j
            | inl d ↦
                let pq : p ≡ q = same_text→eq p q d in
                let c : children_of (some n) ≡ some b = rw (pq, i) at e in
                let k : lookup qs (folder b) ≡ some (file m) = rw (folder_of n b c) at j in
                let w : get q (set_child p (folder b') cs) ≡ some (folder b') =
                  rw (get-set_child p q (folder b') cs, d) refl in
                rw (g, lookup-of q qs (set_child p (folder b') cs) (folder b') w)
                  (add_entry-kept ps name size b b' qs m f k)
          ]
    ]

some-injective : (a b : Children) → some a ≡ some b → a ≡ b
some-injective a b h = ground (arith, h)

map_entries-kept :
    (es : List (Text × ℕ)) (cs cs' : Children) (qs : List Text) (m : ℕ)
    → map_entries es cs ≡ some cs'
    → lookup qs (folder cs) ≡ some (file m)
    → lookup qs (folder cs') ≡ some (file m)
unfolding map_entries descend add_path
map_entries-kept [] cs cs' qs m h l = rw (some-injective cs cs' h) at l
map_entries-kept ((path, size) ∷ es) cs cs' qs m h l =
    let folders = (split_path path).0 in
    let name = (split_path path).1 in
    elim (Option-cases (add_entry folders name size cs)) [
      | inl e ↦ absurd (ground (arith, rw e at h))
      | inr (next, e) ↦
          map_entries-kept es next cs' qs m (rw e at h)
            (add_entry-kept folders name size cs next qs m e l)
    ]

-- An archive that was mapped holds what its entries say: an entry of some size, whose path led to
-- nothing when the loop came to it, is found under its folders and its name as a file of that size when
-- the loop has ended, whatever entries come after it.
pub map_entries-lookup :
    (path : Text) (size : ℕ) (after : List (Text × ℕ)) (before result : Children)
    → 0 < size
    → lookup ((split_path path).0 ++ (split_path path).1 ∷ []) (folder before) ≡ none
    → map_entries ((path, size) ∷ after) before ≡ some result
    → lookup ((split_path path).0 ++ (split_path path).1 ∷ []) (folder result) ≡ some (file size)
unfolding map_entries descend add_path
map_entries-lookup path size after before result lt n h =
    let folders = (split_path path).0 in
    let name = (split_path path).1 in
    elim (Option-cases (add_entry folders name size before)) [
      | inl e ↦ absurd (ground (arith, rw e at h))
      | inr (next, e) ↦
          map_entries-kept after next result (folders ++ name ∷ []) size (rw e at h)
            (add_entry-found folders name size before next lt n e)
    ]
