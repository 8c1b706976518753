-- ===== src/Render/Devices/Retries.antt =====
-- How D3DAppFramework::RTReinitD3D ends.
use mgdf.Render.Host.{device_reset}
use mgdf.Render.Devices.{
  App, Run, running, terminated, ◌>>=◌, Attempt, tell, uninit, make_swap_chain, open_device,
  init_d3d, after_attempt, retry, reinit,
}
use mgdf.Prelude.{
  ℕ, zero, suc, ◌+◌, ◌≡◌, refl, sym, ◌∙◌, inl, inr, Bool, true, false, not, ◌&&◌, Option, none,
  some, arith, ltb, if◌then◌else◌, lt→ltb, Bool-cases, if_cases,
}

-- An attempt at which Direct3D is there, and an output.
abbrev is_ready : Attempt → Bool
is_ready t = t.inits && t.has_outputs

-- The first of the next `n` attempts at which it is ready.
unfoldable pub first_ready : ℕ → ℕ → (ℕ → Attempt) → Option ℕ
first_ready zero i answers = none
first_ready (suc n) i answers =
    let later = first_ready n (i + 1) answers in if is_ready (answers i) then some i else later

-- The state in which an attempt is made: after the first one, what the last one left is taken down.
abbrev pub fresh : ℕ → App → App
fresh i a = if ltb 0 i then uninit a else a

-- What is done at an attempt that is ready.
unfoldable pub succeed : Attempt → App → Run
succeed t a = make_swap_chain t (open_device t a) >>= λ b. running (tell device_reset b)

init_d3d_ready :
    (t : Attempt) (a : App)
    → is_ready t ≡ true
    → init_d3d t a ≡ (open_device t a, some (make_swap_chain t (open_device t a)))
unfolding init_d3d
init_d3d_ready t a h =
    let inits : t.inits ≡ true = ground (arith, h) in
    let outputs : t.has_outputs ≡ true = ground (arith, h) in
    if_cases (λ x. x ≡ (open_device t a, some (make_swap_chain t (open_device t a)))) (not t.inits)
      _ _ (λ e. absurd (ground arith))
      (λ _.
        if_cases (λ x. x ≡ (open_device t a, some (make_swap_chain t (open_device t a))))
          (not t.has_outputs) _ _ (λ e. absurd (ground arith)) (λ _. refl))

-- An attempt that is not ready leaves no more than a device behind.
init_d3d_refused :
    (t : Attempt) (a : App)
    → is_ready t ≡ false
    → (b : App) × (init_d3d t a ≡ (b, none)) × (uninit b ≡ uninit a)
unfolding init_d3d uninit
init_d3d_refused t a h = elim (Bool-cases t.inits) [
  | inl e ↦
      let outputs : t.has_outputs ≡ false = ground (arith, h, e) in
      (record a { initialized = true }, rw (e, outputs) refl, refl)
  | inr e ↦ (record a { initialized = false }, rw e refl, refl)
]

-- How the process goes on, by the first attempt that is ready.
abbrev pub EndsAs : (ℕ → Attempt) → App → Run → Option ℕ → Type 0
EndsAs answers a r none = (b : App) × (r ≡ terminated b)
EndsAs answers a r (some k) = r ≡ succeed (answers k) (fresh k a)

uninit-fresh : (i : ℕ) (a : App) → uninit (fresh i a) ≡ uninit a
unfolding uninit
uninit-fresh i a =
    if_cases (λ x. uninit x ≡ uninit a) (ltb 0 i) (uninit a) a (λ _. refl) (λ _. refl)

fresh_suc : (i : ℕ) (a : App) → fresh (i + 1) a ≡ uninit a
fresh_suc i a = let later : ltb 0 (i + 1) ≡ true = lt→ltb 0 (i + 1) (omega arith) in rw later refl

retry-EndsAs :
    (n i : ℕ) (answers : ℕ → Attempt) (a b : App)
    → fresh i b ≡ fresh i a
    → uninit b ≡ uninit a
    → EndsAs answers a (retry n i answers b) (first_ready n i answers)
unfolding retry first_ready after_attempt succeed
retry-EndsAs zero i answers a b e f = (b, refl)
retry-EndsAs (suc n) i answers a b e f = elim (Bool-cases (is_ready (answers i))) [
  | inl ready ↦ rw (ready, e, init_d3d_ready (answers i) (fresh i a) ready) refl
  | inr refused ↦
      let (c, left, same) = init_d3d_refused (answers i) (fresh i a) refused in
      let down = same ∙ uninit-fresh i a in
      let again = fresh_suc i c ∙ down ∙ sym (fresh_suc i a) in
      rw (refused, e, left) (retry-EndsAs n (i + 1) answers a c again down)
]

-- A lost device is set up again at the first of six attempts at which Direct3D and an output are there, from
-- the state that the attempts before it were taken down to; and if there is none, the process ends.
pub reinit-EndsAs :
    (answers : ℕ → Attempt) (a : App)
    → EndsAs answers a (reinit answers a) (first_ready 6 0 answers)
unfolding reinit
reinit-EndsAs answers a = retry-EndsAs 6 0 answers a a refl refl
