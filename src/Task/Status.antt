-- ===== src/Task/Status.antt =====
-- novel_crawler/task_engine/models.py: the statuses of a task, the transition table and the gate.
use novel_crawler.Prelude.{Bool, true, false}

pub data TaskStatus : Type 0 where
  created probing waiting_for_user validating ready crawling completed : TaskStatus
  paused recoverable_failed terminal_failed cancelled : TaskStatus

pub data ResumeGate : Type 0 where
  open_gate cleanup : ResumeGate

-- `TERMINAL_STATUSES`, as its membership test.
abbrev pub is_terminal_status : TaskStatus → Bool
is_terminal_status completed = true
is_terminal_status terminal_failed = true
is_terminal_status cancelled = true
is_terminal_status _ = false

-- `ALLOWED_TRANSITIONS`: the frozenset of each status, as its membership test.
unfoldable pub allowed_transitions : TaskStatus → TaskStatus → Bool
allowed_transitions created probing = true
allowed_transitions created paused = true
allowed_transitions created cancelled = true
allowed_transitions probing waiting_for_user = true
allowed_transitions probing validating = true
allowed_transitions probing recoverable_failed = true
allowed_transitions probing paused = true
allowed_transitions probing terminal_failed = true
allowed_transitions probing cancelled = true
allowed_transitions waiting_for_user validating = true
allowed_transitions waiting_for_user crawling = true
allowed_transitions waiting_for_user recoverable_failed = true
allowed_transitions waiting_for_user terminal_failed = true
allowed_transitions waiting_for_user paused = true
allowed_transitions waiting_for_user cancelled = true
allowed_transitions validating probing = true
allowed_transitions validating waiting_for_user = true
allowed_transitions validating ready = true
allowed_transitions validating recoverable_failed = true
allowed_transitions validating paused = true
allowed_transitions validating terminal_failed = true
allowed_transitions validating cancelled = true
allowed_transitions ready crawling = true
allowed_transitions ready paused = true
allowed_transitions ready recoverable_failed = true
allowed_transitions ready terminal_failed = true
allowed_transitions ready cancelled = true
allowed_transitions crawling completed = true
allowed_transitions crawling paused = true
allowed_transitions crawling waiting_for_user = true
allowed_transitions crawling recoverable_failed = true
allowed_transitions crawling terminal_failed = true
allowed_transitions crawling cancelled = true
allowed_transitions paused created = true
allowed_transitions paused probing = true
allowed_transitions paused waiting_for_user = true
allowed_transitions paused validating = true
allowed_transitions paused ready = true
allowed_transitions paused crawling = true
allowed_transitions paused cancelled = true
allowed_transitions recoverable_failed probing = true
allowed_transitions recoverable_failed waiting_for_user = true
allowed_transitions recoverable_failed validating = true
allowed_transitions recoverable_failed ready = true
allowed_transitions recoverable_failed crawling = true
allowed_transitions recoverable_failed terminal_failed = true
allowed_transitions recoverable_failed cancelled = true
allowed_transitions _ _ = false

-- The identity test of the enum, `a is b`.
abbrev pub same_status : TaskStatus → TaskStatus → Bool
same_status created created = true
same_status probing probing = true
same_status waiting_for_user waiting_for_user = true
same_status validating validating = true
same_status ready ready = true
same_status crawling crawling = true
same_status completed completed = true
same_status paused paused = true
same_status recoverable_failed recoverable_failed = true
same_status terminal_failed terminal_failed = true
same_status cancelled cancelled = true
same_status _ _ = false

-- `_RESUMABLE_STATUSES` of repository.py.
abbrev pub is_resumable : TaskStatus → Bool
is_resumable paused = true
is_resumable recoverable_failed = true
is_resumable _ = false

-- `{TERMINAL_FAILED, CANCELLED}`: the exits that a parked or gated task always keeps.
abbrev pub is_abandoned : TaskStatus → Bool
is_abandoned terminal_failed = true
is_abandoned cancelled = true
is_abandoned _ = false

abbrev pub is_cleanup : ResumeGate → Bool
is_cleanup cleanup = true
is_cleanup open_gate = false
