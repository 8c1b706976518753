-- ===== src/Statistics/Flushing.antt =====
-- Which statistics the flush thread of the StatisticsManager has sent, and what its end leaves.
use mgdf.Statistics.{
  PushStatistic, Phase, not_started, at_test, waiting, sending, ended, Manager, create,
  set_remote_endpoint, push_common, push, push_string, push_metric, flush_at, flush_step, stop,
  Step, sets_endpoint, pushes_string, pushes_metric, flushes, stops, step, steps,
}
use mgdf.Prelude.{
  ℕ, ◌≡◌, refl, sym, ap, ◌∙◌, inl, inr, Bool, true, false, not, ◌||◌, List, [], ◌∷◌, ◌++◌,
  append-nil, append_assoc, arith, if◌then◌else◌, Bool-cases, if_cases, null, Text,
}

-- The statistics of the requests, in order.
pub sent_of : List (Text × List PushStatistic) → List PushStatistic
sent_of [] = []
sent_of ((endpoint, batch) ∷ rest) = batch ++ sent_of rest

-- The statistics that were pushed, in order.
added : Step → Manager → List PushStatistic
unfolding push_common
added (pushes_string now name value tags) m =
    if m.enabled
    then push_common now tags m (record { name = name; value = value; timestamp = 0; tags = [] })
      ∷ []
    else []
added (pushes_metric now dump) m =
    if m.enabled
    then dump (push_common now [] m (record { name = []; value = []; timestamp = 0; tags = [] }))
      ∷ []
    else []
added _ m = []

pub all_added : List Step → Manager → List PushStatistic
unfolding added
all_added [] m = []
all_added (s ∷ rest) m = added s m ++ all_added rest (step s m)

abbrev is_sending : Phase → Bool
is_sending sending = true
is_sending _ = false

abbrev is_unstarted : Phase → Bool
is_unstarted not_started = true
is_unstarted _ = false

-- `tmp` holds something only while it is sent, and a thread that was started means that it is enabled.
record IsSettled (m : Manager) : Type 0 where
  cleared : (is_sending m.phase || null m.tmp) ≡ true
  on : (m.enabled || is_unstarted m.phase) ≡ true

abbrev pub total : Manager → List PushStatistic
total m = sent_of m.sent ++ (m.tmp ++ m.events)

sent_of-append :
    (xs : List (Text × List PushStatistic)) (e : Text) (b : List PushStatistic)
    → sent_of (xs ++ (e, b) ∷ []) ≡ sent_of xs ++ b
unfolding sent_of
sent_of-append [] e b = append-nil b
sent_of-append ((f, c) ∷ xs) e b =
    ap (λ r. c ++ r) (sent_of-append xs e b) ∙ sym (append_assoc c (sent_of xs) b)

null-nil : {A : Type 0} → (xs : List A) → null xs ≡ true → xs ≡ []
null-nil [] h = refl
null-nil (x ∷ xs) h = ground (arith, h)

flush_at-total :
    (p : Phase) (timeout : Bool) (m : Manager)
    → m.phase ≡ p
    → IsSettled m
    → (total (flush_at p timeout m) ≡ total m) × IsSettled (flush_at p timeout m)
unfolding flush_at
flush_at-total not_started timeout m e v = (refl, v)
flush_at-total ended timeout m e v = (refl, v)
flush_at-total at_test timeout m e v =
    let empty : null m.tmp ≡ true = rw e at v.cleared in
    let on : (m.enabled || false) ≡ true = rw e at v.on in
    (refl, record { cleared = ground (arith, empty); on = ground (arith, on) })
flush_at-total waiting timeout m e v =
    let empty : null m.tmp ≡ true = rw e at v.cleared in
    let on : (m.enabled || false) ≡ true = rw e at v.on in
    let none_left = null-nil m.tmp empty in
    if_cases (λ (r : Manager). (total r ≡ total m) × IsSettled r)
      (timeout || (not m.run || not (null m.events))) _ _
      (λ _. (
        rw none_left (ap (λ r. sent_of m.sent ++ r) (append-nil m.events)),
        record { cleared = refl; on = ground (arith, on) },
      ))
      (λ _. (refl, v))
flush_at-total sending timeout m e v =
    let on : (m.enabled || false) ≡ true = rw e at v.on in
    (
      elim (Bool-cases (null m.tmp)) [
        | inl h ↦ rw (h, null-nil m.tmp h) refl
        | inr h ↦
            rw (h, sent_of-append m.sent m.endpoint m.tmp)
              (append_assoc (sent_of m.sent) m.tmp m.events)
      ],
      record { cleared = refl; on = ground (arith, on) },
    )

push-total :
    (s : PushStatistic) (m : Manager)
    → IsSettled m
    → (total (push s m).0 ≡ total m ++ s ∷ []) × IsSettled (push s m).0
unfolding push
push-total s m v = (
  ap (λ r. sent_of m.sent ++ r) (sym (append_assoc m.tmp m.events (s ∷ [])))
      ∙ sym (append_assoc (sent_of m.sent) (m.tmp ++ m.events) (s ∷ [])),
  record { cleared = v.cleared; on = v.on },
)

push_if-total :
    (b : Bool) (s : PushStatistic) (m : Manager)
    → IsSettled m
    → (total (if b then push s m else (m, false)).0 ≡ total m ++ (if b then s ∷ [] else []))
      × IsSettled (if b then push s m else (m, false)).0
push_if-total true s m v = push-total s m v
push_if-total false s m v = (sym (append-nil (total m)), v)

unstarted-cleared :
    (p : Phase) (b : Bool) → is_unstarted p ≡ true → (is_sending p || b) ≡ true → b ≡ true
unstarted-cleared not_started b h l = l
unstarted-cleared at_test b h l = l
unstarted-cleared waiting b h l = l
unstarted-cleared sending b h l = ground (arith, h)
unstarted-cleared ended b h l = l

endpoint-total :
    (endpoint : Text) (created : Bool) (m : Manager)
    → IsSettled m
    → (total (set_remote_endpoint endpoint created m) ≡ total m)
      × IsSettled (set_remote_endpoint endpoint created m)
unfolding set_remote_endpoint
endpoint-total endpoint created m v = elim (Bool-cases m.enabled) [
  | inl h ↦ rw h (refl, record { cleared = v.cleared; on = refl })
  | inr h ↦
      let fresh : is_unstarted m.phase ≡ true = rw h at v.on in
      let empty = unstarted-cleared m.phase (null m.tmp) fresh v.cleared in
      rw h (
        if_cases (λ (r : Manager). (total r ≡ total m) × IsSettled r) created _ _
          (λ _. (refl, record { cleared = empty; on = refl }))
          (λ _. (refl, record { cleared = v.cleared; on = fresh })))
]

step-total :
    (s : Step) (m : Manager)
    → IsSettled m
    → (total (step s m) ≡ total m ++ added s m) × IsSettled (step s m)
unfolding step added push_string push_metric flush_step stop
step-total (sets_endpoint endpoint created) m v =
    let (same, w) = endpoint-total endpoint created m v in (same ∙ sym (append-nil (total m)), w)
step-total (pushes_string now name value tags) m v = push_if-total m.enabled _ m v
step-total (pushes_metric now dump) m v = push_if-total m.enabled _ m v
step-total (flushes timeout) m v =
    let (same, w) = flush_at-total m.phase timeout m refl v in
    (same ∙ sym (append-nil (total m)), w)
step-total stops m v = (sym (append-nil (total m)), record { cleared = v.cleared; on = v.on })

steps-total :
    (ss : List Step) (m : Manager)
    → IsSettled m
    → (total (steps ss m) ≡ total m ++ all_added ss m) × IsSettled (steps ss m)
unfolding steps all_added
steps-total [] m v = (sym (append-nil (total m)), v)
steps-total (s ∷ rest) m v =
    let (same, w) = step-total s m v in
    let (later, u) = steps-total rest (step s m) w in
    (
      later
          ∙ ap (λ r. r ++ all_added rest (step s m)) same
          ∙ append_assoc (total m) (added s m) (all_added rest (step s m)),
      u,
    )

-- No statistic is lost, sent twice or out of order while the manager lives: after any steps of the game
-- and of the flush thread, in any order, those that were sent, those that are being sent and those that
-- wait are, one after the other, those that were pushed while the manager was enabled.
pub steps-all_added :
    (ss : List Step) (now : ℕ) → total (steps ss (create now)) ≡ all_added ss (create now)
unfolding sent_of
steps-all_added ss now = (steps-total ss (create now) (record { cleared = refl; on = refl })).0

-- The destructor: the flag is cleared, and the flush thread, here in three steps, is joined.
pub destroy : Bool → Manager → Manager
destroy timeout m = flush_step timeout (flush_step timeout (flush_step timeout (stop m)))

abbrev pub is_waiting : Phase → Bool
is_waiting waiting = true
is_waiting _ = false

abbrev pub is_ended : Phase → Bool
is_ended ended = true
is_ended _ = false

destroy-phase :
    (p : Phase) (timeout : Bool) (m : Manager)
    → m.phase ≡ p
    → is_unstarted p ≡ false
    → let d = destroy timeout m in
      (is_ended d.phase ≡ true) × (d.events ≡ (if is_waiting p then [] else m.events))
unfolding destroy flush_step flush_at stop
destroy-phase not_started timeout m e h = ground (arith, h)
destroy-phase at_test timeout m e h = rw e (refl, refl)
destroy-phase waiting true m e h = rw e (refl, refl)
destroy-phase waiting false m e h = rw e (refl, refl)
destroy-phase sending timeout m e h = rw e (refl, refl)
destroy-phase ended timeout m e h = rw e (refl, refl)

destroy-total :
    (timeout : Bool) (m : Manager)
    → IsSettled m
    → (total (destroy timeout m) ≡ total m) × IsSettled (destroy timeout m)
unfolding destroy steps step all_added added
destroy-total timeout m v =
    let (same, w) =
      steps-total (stops ∷ flushes timeout ∷ flushes timeout ∷ flushes timeout ∷ []) m v in
    (same ∙ append-nil (total m), w)

ended-cleared : (p : Phase) (b : Bool) → is_ended p ≡ true → (is_sending p || b) ≡ true → b ≡ true
ended-cleared not_started b h l = l
ended-cleared at_test b h l = l
ended-cleared waiting b h l = l
ended-cleared sending b h l = ground (arith, h)
ended-cleared ended b h l = l

-- The destructor does not wait for ever, and what it leaves unsent: after any steps, if the flush thread
-- was started, it ends within three of its own. Then all that was pushed was sent, in order, if the thread
-- was waiting when the destructor began; but if it was sending, or about to test its flag, the statistics
-- that waited are not sent.
pub destroy-all_added :
    (ss : List Step) (now : ℕ) (timeout : Bool)
    → is_unstarted (steps ss (create now)).phase ≡ false
    → let m = steps ss (create now) in
      let d = destroy timeout m in
      (is_ended d.phase ≡ true)
      × (sent_of d.sent ++ (if is_waiting m.phase then [] else m.events)
          ≡ all_added ss (create now))
unfolding sent_of
destroy-all_added ss now timeout h =
    let m = steps ss (create now) in
    let d = destroy timeout m in
    let (same, v) = steps-total ss (create now) (record { cleared = refl; on = refl }) in
    let (kept, w) = destroy-total timeout m v in
    let (over, left) = destroy-phase m.phase timeout m refl h in
    let empty = null-nil d.tmp (ended-cleared d.phase (null d.tmp) over w.cleared) in
    (over, ap (λ r. sent_of d.sent ++ r) (sym (ap (λ r. r ++ d.events) empty ∙ left)) ∙ kept ∙ same)
