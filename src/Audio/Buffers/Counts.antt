-- ===== src/Audio/Buffers/Counts.antt =====
-- That a shared buffer has as many references as sounds that hold it.
use mgdf.Prelude.Count.{count}
use mgdf.Audio.Sources.{holds, erase, count-erase}
use mgdf.Audio.Buffers.{
  SharedBuffers, keep_looking, share, references, has_buffer, load, or_load, create_sound_buffer,
  remove_sound_buffer,
}
use mgdf.Prelude.{
  ℕ, suc, ◌-◌, ◌≡◌, refl, ◌⊎◌, inl, inr, true, false, ◌||◌, Option, none, some, List, [], ◌∷◌, ◌++◌,
  arith, ltb, ◌==◌, if◌then◌else◌, ==_refl, Bool-cases, Text, same_text,
}

-- Each id once.
abbrev IsDistinct : SharedBuffers → Type 0
IsDistinct [] = Unit
IsDistinct ((id, source, refs) ∷ bs) = (has_buffer id bs ≡ false) × IsDistinct bs

-- Each buffer has exactly as many references as there are sounds that hold it, and is there exactly if
-- some sound does.
pub record Balanced (bs : SharedBuffers) (held : List ℕ) : Type 0 where
  pub distinct : IsDistinct bs
  pub counted : (id : ℕ) → references id bs ≡ count id held
  pub alive : (id : ℕ) → has_buffer id bs ≡ ltb 0 (count id held)

-- The outcome of a creation: nothing, or one reference more to a buffer of that id.
abbrev IsShared : SharedBuffers → Option (ℕ × SharedBuffers) → Type 0
IsShared bs none = Unit
IsShared bs (some (id, bs')) =
    IsDistinct bs'
    × ((j : ℕ) → references j bs' ≡ (if id == j then suc (references j bs) else references j bs))
    × ((j : ℕ) → has_buffer j bs' ≡ ((id == j) || has_buffer j bs))

references_none : (id : ℕ) (bs : SharedBuffers) → has_buffer id bs ≡ false → references id bs ≡ 0
unfolding references
references_none id [] h = refl
references_none id ((j, source, refs) ∷ bs) h = ground (arith, references_none id bs)

keep_looking-IsShared :
    (k : ℕ) (source : Text) (refs : ℕ) (bs : SharedBuffers) (r : Option (ℕ × SharedBuffers))
    → has_buffer k bs ≡ false
    → (r ≡ none)
      ⊎ ((id : ℕ) × (bs' : SharedBuffers) × (r ≡ some (id, bs')) × (has_buffer id bs ≡ true))
    → IsShared bs r
    → IsShared ((k, source, refs) ∷ bs) (keep_looking (k, source, refs) r)
unfolding keep_looking references
keep_looking-IsShared k source refs bs none h c v = tt
keep_looking-IsShared k source refs bs (some (id, bs')) h (inl c) v = absurd (ground arith)
keep_looking-IsShared k source refs bs (some (id, bs')) h (inr (i, b, c, o)) (d, r, a) =
    ((ground (arith, a k), d), λ j. ground (arith, r j), λ j. ground (arith, a j))

share-cases :
    (name : Text) (bs : SharedBuffers)
    → (share name bs ≡ none)
      ⊎ ((id : ℕ) × (bs' : SharedBuffers) × (share name bs ≡ some (id, bs'))
          × (has_buffer id bs ≡ true))
unfolding share
share-cases name [] = inl refl
share-cases name ((k, source, refs) ∷ bs) = elim (Bool-cases (same_text source name)) [
  | inl e ↦ inr (k, (k, source, suc refs) ∷ bs, ground (arith, e), ground (arith, ==_refl k))
  | inr e ↦ elim (share-cases name bs) [
    | inl n ↦ inl (ground (arith, e, n))
    | inr (id, bs', s, o) ↦
        inr (id, (k, source, refs) ∷ bs', ground (arith, e, s), ground (arith, o))
  ]
]

share-IsShared : (name : Text) (bs : SharedBuffers) → IsDistinct bs → IsShared bs (share name bs)
unfolding share references
share-IsShared name [] d = tt
share-IsShared name ((k, source, refs) ∷ bs) (f, d) = elim (Bool-cases (same_text source name)) [
  | inl e ↦ rw e ((f, d), (λ j. ground arith), λ j. ground arith)
  | inr e ↦ rw e (
      keep_looking-IsShared k source refs bs (share name bs) f (share-cases name bs)
        (share-IsShared name bs d))
]

has_buffer-append :
    (id : ℕ) (name : Text) (j : ℕ) (bs : SharedBuffers)
    → has_buffer j (bs ++ (id, name, 1) ∷ []) ≡ ((id == j) || has_buffer j bs)
has_buffer-append id name j [] = ground arith
has_buffer-append id name j ((k, source, refs) ∷ bs) =
    ground (arith, has_buffer-append id name j bs)

references-append :
    (id : ℕ) (name : Text) (j : ℕ) (bs : SharedBuffers)
    → has_buffer id bs ≡ false
    → references j (bs ++ (id, name, 1) ∷ [])
      ≡ (if id == j then suc (references j bs) else references j bs)
unfolding references
references-append id name j [] h = ground arith
references-append id name j ((k, source, refs) ∷ bs) h =
    ground (arith, references-append id name j bs, references_none id bs)

append-IsDistinct :
    (id : ℕ) (name : Text) (bs : SharedBuffers)
    → has_buffer id bs ≡ false
    → IsDistinct bs
    → IsDistinct (bs ++ (id, name, 1) ∷ [])
append-IsDistinct id name [] h d = (refl, tt)
append-IsDistinct id name ((k, source, refs) ∷ bs) h (f, d) =
    (ground (arith, has_buffer-append id name k bs), append-IsDistinct id name bs (ground arith) d)

load-IsShared :
    (name : Text) (made : Option ℕ) (bs : SharedBuffers)
    → IsDistinct bs
    → ((id : ℕ) → made ≡ some id → has_buffer id bs ≡ false)
    → IsShared bs (load name made bs)
unfolding load
load-IsShared name none bs d f = tt
load-IsShared name (some id) bs d f = rw (f id refl) (
  append-IsDistinct id name bs (f id refl) d,
  (λ j. references-append id name j bs (f id refl)),
  λ j. has_buffer-append id name j bs,
)

-- The sounds that hold a buffer, one more of them after a creation that went well.
abbrev held_after : Option (ℕ × SharedBuffers) → List ℕ → List ℕ
held_after none held = held
held_after (some (id, bs)) held = id ∷ held

abbrev IsBalanced : Option (ℕ × SharedBuffers) → SharedBuffers → List ℕ → Type 0
IsBalanced none bs held = Balanced bs held
IsBalanced (some (id, bs')) bs held = Balanced bs' (id ∷ held)

shared-Balanced :
    (r : Option (ℕ × SharedBuffers)) (bs : SharedBuffers) (held : List ℕ)
    → Balanced bs held
    → IsShared bs r
    → IsBalanced r bs held
shared-Balanced none bs held v s = v
shared-Balanced (some (id, bs')) bs held v (d, r, a) = record {
  distinct = d;
  counted = λ j. ground (arith, r j, v.counted j);
  alive = λ j. ground (arith, a j, v.alive j);
}

-- Creating a sound's buffer keeps the counts right: if each buffer had as many references as sounds that
-- hold it, and was there only if one did, then so it is with the new sound, or without it if the
-- creation fails. A buffer that ALUT makes has an id that is not in use.
create_sound_buffer-Balanced :
    (name : Text) (made : Option ℕ) (bs : SharedBuffers) (held : List ℕ)
    → ((id : ℕ) → made ≡ some id → has_buffer id bs ≡ false)
    → Balanced bs held
    → IsBalanced (create_sound_buffer name made bs) bs held
unfolding create_sound_buffer or_load
create_sound_buffer-Balanced name made bs held f v = elim (share-cases name bs) [
  | inl n ↦
      rw n (shared-Balanced (load name made bs) bs held v (load-IsShared name made bs v.distinct f))
  | inr (id, bs', s, o) ↦
      let w : IsShared bs (some (id, bs')) = rw s at (share-IsShared name bs v.distinct) in
      rw s (shared-Balanced (some (id, bs')) bs held v w)
]

remove-references :
    (id j : ℕ) (bs : SharedBuffers)
    → IsDistinct bs
    → references j (remove_sound_buffer id bs)
      ≡ (if id == j then references j bs - 1 else references j bs)
unfolding remove_sound_buffer references
remove-references id j [] d = ground arith
remove-references id j ((k, source, refs) ∷ bs) (f, d) = elim (Bool-cases (k == id)) [
  | inr e ↦ rw e (ground (arith, e, remove-references id j bs d))
  | inl e ↦ elim (Bool-cases (refs - 1 == 0)) [
    | inl z ↦ rw (e, z) (ground (arith, e, z, references_none k bs f))
    | inr z ↦ rw (e, z) (ground (arith, e))
  ]
]

remove-has_buffer :
    (id j : ℕ) (bs : SharedBuffers)
    → IsDistinct bs
    → has_buffer j (remove_sound_buffer id bs)
      ≡ (if id == j then ltb 1 (references j bs) else has_buffer j bs)
unfolding remove_sound_buffer references
remove-has_buffer id j [] d = ground arith
remove-has_buffer id j ((k, source, refs) ∷ bs) (f, d) =
    ground (arith, remove-has_buffer id j bs d, references_none k bs)

remove-IsDistinct :
    (id : ℕ) (bs : SharedBuffers) → IsDistinct bs → IsDistinct (remove_sound_buffer id bs)
unfolding remove_sound_buffer
remove-IsDistinct id [] d = tt
remove-IsDistinct id ((k, source, refs) ∷ bs) (f, d) = elim (Bool-cases (k == id)) [
  | inr e ↦ rw e (ground (arith, e, remove-has_buffer id k bs d), remove-IsDistinct id bs d)
  | inl e ↦ elim (Bool-cases (refs - 1 == 0)) [ inl z ↦ rw (e, z) d | inr z ↦ rw (e, z) (f, d) ]
]

-- Removing it keeps them right as well: a sound that holds the buffer lets it go, and the buffer goes
-- with its last sound.
remove_sound_buffer-Balanced :
    (id : ℕ) (bs : SharedBuffers) (held : List ℕ)
    → Balanced bs held
    → holds id held ≡ true
    → Balanced (remove_sound_buffer id bs) (erase id held)
remove_sound_buffer-Balanced id bs held v h = record {
  distinct = remove-IsDistinct id bs v.distinct;
  counted = λ j.
      ground (arith, remove-references id j bs v.distinct, v.counted j, count-erase id j held h);
  alive = λ j. ground (
    arith,
    remove-has_buffer id j bs v.distinct,
    v.counted j,
    v.alive j,
    count-erase id j held h,
  );
}
