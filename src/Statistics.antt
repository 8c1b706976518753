-- ===== src/Statistics.antt =====
-- StatisticsManager of src/core/core.impl/MGDFStatisticsManagerImpl.cpp: statistics are pushed by the game
-- and sent by the flush thread. A step of that thread ends where it takes or leaves the lock; a statistic
-- is pushed under the lock.
pub mod Flushing
use mgdf.Prelude.{
  ℕ, zero, suc, ◌+◌, ◌-◌, ◌*◌, ◌/◌, ◌%◌, ◌^◌, ◌≤◌, ◌<◌, min, max, ◌≡◌, refl, sym, ap, ◌∙◌, ◌≢◌, ◌↔◌,
  ◌⊎◌, inl, inr, Bool, true, false, not, ◌&&◌, ◌||◌, Option, none, some, List, [], ◌∷◌, ◌++◌, map,
  append-nil, append_assoc, arith, ltb, leb, ◌==◌, if◌then◌else◌, ltb→lt, lt→ltb, ==_iff, ==_refl,
  Bool-cases, if_cases, Option-cases, length, get_elem?, take, drop, keep, any, all, null,
  length-append, length-take, length-drop, length-keep-le, keep-append, Text, codes, same_text,
  same_text_refl, same_text→eq, same_text_ne, find, insert, assign, find-insert, find-assign,
}

pub record PushStatistic : Type 0 where
  pub name : Text
  pub value : Text
  pub timestamp : ℕ
  pub tags : List (Text × Text)

-- Where the flush thread is: before the test of its loop, in `wait_for`, sending without the lock, or
-- at its end; or it was not started.
pub data Phase : Type 0 where
  not_started at_test waiting sending ended : Phase

pub record Manager : Type 0 where
  pub enabled : Bool
  pub run : Bool
  pub endpoint : Text
  pub session_start : ℕ
  pub events : List PushStatistic
  pub phase : Phase
  -- The flush thread's `tmp`, and what was sent: each request with its endpoint.
  pub tmp : List PushStatistic
  pub sent : List (Text × List PushStatistic)

abbrev pub create : ℕ → Manager
create now = record {
  enabled = false;
  run = true;
  endpoint = [];
  session_start = now;
  events = [];
  phase = not_started;
  tmp = [];
  sent = [];
}

-- `SetRemoteEndpoint`; `created` is whether there is a new session id.
set_remote_endpoint : Text → Bool → Manager → Manager
set_remote_endpoint endpoint created m =
    let n = record m { endpoint = endpoint } in
    if m.enabled
    then n
    else if created
    then record n { enabled = true; run = true; phase = at_test }
    else n

insert_tags : List (Text × Text) → List (Text × Text) → List (Text × Text)
insert_tags [] m = m
insert_tags ((name, value) ∷ rest) m = insert_tags rest (insert name value m)

-- The time is a UINT64.
push_common : ℕ → List (Text × Text) → Manager → PushStatistic → PushStatistic
unfolding insert_tags
push_common now tags m s = record s {
  timestamp = (now + 2 ^ 64 - m.session_start) % 2 ^ 64;
  tags = insert_tags tags s.tags;
}

-- SEND_THRESHOLD.
abbrev send_threshold : ℕ
send_threshold = 25

-- A statistic is added; the result is whether the flush thread is notified.
push : PushStatistic → Manager → Manager × Bool
push s m =
    let events = m.events ++ s ∷ [] in
    (record m { events = events }, leb send_threshold (length events))

-- `PushString` at a time.
push_string : ℕ → Text → Text → List (Text × Text) → Manager → Manager × Bool
unfolding push push_common
push_string now name value tags m =
    let s : PushStatistic = record { name = name; value = value; timestamp = 0; tags = [] } in
    if m.enabled then push (push_common now tags m s) m else (m, false)

-- `PushMetric` at a time; `dump` is what `DumpPush` makes of the statistic.
push_metric : ℕ → (PushStatistic → PushStatistic) → Manager → Manager × Bool
unfolding push push_common
push_metric now dump m =
    let s : PushStatistic = record { name = []; value = []; timestamp = 0; tags = [] } in
    if m.enabled then push (dump (push_common now [] m s)) m else (m, false)

-- A step of the flush thread, by where it is; `timeout` is whether `wait_for` has waited for its time.
flush_at : Phase → Bool → Manager → Manager
flush_at not_started timeout m = m
flush_at ended timeout m = m
flush_at at_test timeout m = record m { phase = if m.run then waiting else ended }
flush_at waiting timeout m =
    if timeout || (not m.run || not (null m.events))
    then record m { tmp = m.events; events = []; phase = sending }
    else m
flush_at sending timeout m = record m {
  sent = if null m.tmp then m.sent else m.sent ++ (m.endpoint, m.tmp) ∷ [];
  tmp = [];
  phase = at_test;
}

flush_step : Bool → Manager → Manager
unfolding flush_at
flush_step timeout m = flush_at m.phase timeout m

-- The start of the destructor, which then joins the thread.
stop : Manager → Manager
stop m = record m { run = false }

-- What may happen, with the time and the answers.
pub data Step : Type 0 where
  sets_endpoint : Text → Bool → Step
  pushes_string : ℕ → Text → Text → List (Text × Text) → Step
  pushes_metric : ℕ → (PushStatistic → PushStatistic) → Step
  flushes : Bool → Step
  stops : Step

step : Step → Manager → Manager
unfolding set_remote_endpoint push_string push_metric flush_step stop
step (sets_endpoint endpoint created) m = set_remote_endpoint endpoint created m
step (pushes_string now name value tags) m = (push_string now name value tags m).0
step (pushes_metric now dump) m = (push_metric now dump m).0
step (flushes timeout) m = flush_step timeout m
step stops m = stop m

unfoldable pub steps : List Step → Manager → Manager
unfolding step
steps [] m = m
steps (s ∷ rest) m = steps rest (step s m)
