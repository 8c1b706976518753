-- ===== src/Audio/Streams/Decoder/Channels.antt =====
-- What VorbisStream::DecodeOgg gives: a full buffer or what there was, and six channels in OpenAL's order.
use mgdf.Audio.Streams.{buffer_size_of}
use mgdf.Audio.Streams.Decoder.{set, swap, ◌>>=◌, reorder_at, reorder, reorder_buffer}
use mgdf.Prelude.{
  ℕ, zero, suc, ◌+◌, ◌-◌, ◌*◌, ◌/◌, ◌%◌, ◌^◌, ◌≤◌, ◌≡◌, refl, ap, ◌∙◌, inl, inr, true, false,
  Option, none, some, List, [], ◌∷◌, arith, ltb, lt→ltb, Bool-cases, length,
}

-- Vorbis has FL FC FR RL RR LFE, and OpenAL FL FR FC LFE RL RR.
pub openal_order : List ℕ → List ℕ
openal_order (fl ∷ fc ∷ fr ∷ rl ∷ rr ∷ lfe ∷ rest) =
    fl ∷ fr ∷ fc ∷ lfe ∷ rl ∷ rr ∷ openal_order rest
openal_order xs = xs

onto : ℕ → Option (List ℕ) → Option (List ℕ)
onto x none = none
onto x (some xs) = some (x ∷ xs)

swap-suc : (i j : ℕ) (x : ℕ) (xs : List ℕ) → swap (suc i) (suc j) (x ∷ xs) ≡ onto x (swap i j xs)
unfolding swap set onto
swap-suc i j x xs = ground arith

swap-add :
    (i j k : ℕ) (x : ℕ) (xs : List ℕ)
    → swap (suc i + j) (suc i + k) (x ∷ xs) ≡ onto x (swap (i + j) (i + k) xs)
swap-add i j k x xs =
    let at_j : suc i + j ≡ suc (i + j) = omega arith in
    let at_k : suc i + k ≡ suc (i + k) = omega arith in
    rw (at_j, at_k) (swap-suc (i + j) (i + k) x xs)

>>=-onto :
    (x : ℕ) (r : Option (List ℕ)) (f g : List ℕ → Option (List ℕ))
    → ((ys : List ℕ) → f (x ∷ ys) ≡ onto x (g ys))
    → (onto x r >>= f) ≡ onto x (r >>= g)
unfolding onto
>>=-onto x none f g h = refl
>>=-onto x (some ys) f g h = h ys

reorder_at-suc : (i x : ℕ) (xs : List ℕ) → reorder_at (suc i) (x ∷ xs) ≡ onto x (reorder_at i xs)
unfolding reorder_at
reorder_at-suc i x xs = rw (swap-add i 1 2 x xs) (
    >>=-onto x (swap (i + 1) (i + 2) xs) _ _ (λ ys.
      rw (swap-add i 3 5 x ys)
        (>>=-onto x (swap (i + 3) (i + 5) ys) _ _ (λ zs. swap-add i 4 5 x zs))))

-- The loop leaves what stands before its index alone.
reorder-suc :
    (fuel samples i x : ℕ) (xs : List ℕ)
    → reorder fuel (suc samples) (suc i) (x ∷ xs) ≡ onto x (reorder fuel samples i xs)
unfolding reorder onto
reorder-suc zero samples i x xs = refl
reorder-suc (suc fuel) samples i x xs = elim (Bool-cases (ltb i samples)) [
  | inl e ↦
      let inside : ltb (suc i) (suc samples) ≡ true = ground arith in
      let next : suc i + 6 ≡ suc (i + 6) = omega arith in
      rw (e, inside, next, reorder_at-suc i x xs)
        (>>=-onto x (reorder_at i xs) _ _ (λ ys. reorder-suc fuel samples (i + 6) x ys))
  | inr e ↦ let outside : ltb (suc i) (suc samples) ≡ false = ground arith in rw (e, outside) refl
]

reorder-chunk :
    (fuel n a b c d e f : ℕ) (xs : List ℕ)
    → reorder fuel (suc (suc (suc (suc (suc (suc n)))))) 6 (a ∷ b ∷ c ∷ d ∷ e ∷ f ∷ xs)
      ≡ onto a (onto b (onto c (onto d (onto e (onto f (reorder fuel n 0 xs))))))
reorder-chunk fuel n a b c d e f xs =
    reorder-suc fuel _ 5 a _
    ∙ ap (onto a) (
        reorder-suc fuel _ 4 b _
        ∙ ap (onto b) (
            reorder-suc fuel _ 3 c _
            ∙ ap (onto c) (
                reorder-suc fuel _ 2 d _
                ∙ ap (onto d)
                    (reorder-suc fuel _ 1 e _ ∙ ap (onto e) (reorder-suc fuel n 0 f xs)))))

reorder-openal_order :
    (k fuel : ℕ) (xs : List ℕ)
    → length xs ≡ 6 * k
    → k ≤ fuel
    → reorder fuel (6 * k) 0 xs ≡ some (openal_order xs)
unfolding reorder reorder_at swap set openal_order onto
reorder-openal_order zero fuel (x ∷ xs) h l = absurd (omega arith)
reorder-openal_order zero zero [] h l = refl
reorder-openal_order zero (suc fuel) [] h l = refl
reorder-openal_order (suc k) zero xs h l = absurd (omega arith)
reorder-openal_order (suc k) (suc fuel) [] h l = absurd (omega arith)
reorder-openal_order (suc k) (suc fuel) (a ∷ []) h l = absurd (omega arith)
reorder-openal_order (suc k) (suc fuel) (a ∷ b ∷ []) h l = absurd (omega arith)
reorder-openal_order (suc k) (suc fuel) (a ∷ b ∷ c ∷ []) h l = absurd (omega arith)
reorder-openal_order (suc k) (suc fuel) (a ∷ b ∷ c ∷ d ∷ []) h l = absurd (omega arith)
reorder-openal_order (suc k) (suc fuel) (a ∷ b ∷ c ∷ d ∷ e ∷ []) h l = absurd (omega arith)
reorder-openal_order (suc k) (suc fuel) (a ∷ b ∷ c ∷ d ∷ e ∷ f ∷ xs) h l =
    let more : ltb 0 (6 * suc k) ≡ true = lt→ltb 0 (6 * suc k) (omega arith) in
    let split : 6 * suc k ≡ suc (suc (suc (suc (suc (suc (6 * k)))))) = omega arith in
    rw more (
      rw split (
        reorder-chunk fuel (6 * k) a c b f d e xs
        ∙ rw (reorder-openal_order k fuel xs (omega arith) (omega arith)) refl))

-- The samples of a whole buffer of six channels come out in OpenAL's order, whatever the rate: the loop
-- swaps no sample that is outside of the buffer, since the buffer's size was cut to whole blocks.
pub reorder_buffer-openal_order :
    (rate : ℕ) (xs : List ℕ)
    → length xs ≡ buffer_size_of rate 6 / 2
    → reorder_buffer (buffer_size_of rate 6) xs ≡ some (openal_order xs)
unfolding reorder_buffer buffer_size_of
reorder_buffer-openal_order rate xs h =
    let t = rate * 3 % 2 ^ 32 in
    let k = t / 12 in
    let blocks : (t - t % 12) / 2 ≡ 6 * k = omega arith in
    rw blocks (reorder-openal_order k (6 * k) xs (h ∙ blocks) (omega arith))
