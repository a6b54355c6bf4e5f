-- ===== src/Tests/Receiving.antt =====
-- The receiver of order_service/pkg/pkgports/adapters/receiver/kafka.go, the loop over it and its end, in
-- some runs. A message is its number, and an odd number is not valid.
use l0_wb_tech_school.Base.{
  ℕ, ◌*◌, ◌≤◌, ◌%◌, ◌≡◌, ◌≢◌, refl, true, false, Option, none, some, [], ◌∷◌, arith, nat_beq,
  if◌then◌else◌,
}
use l0_wb_tech_school.Base.Int.{pos}
use l0_wb_tech_school.Receiver.{
  take_retry, read_message, Message, Receiver, blocked, new_receiver, consume,
}
use l0_wb_tech_school.Receiver.Loop.{
  receive, handle, finish_order, idle, requeueing, System, take_early, take_none, read, finish,
  Reaches, here, ◌then◌, new_system,
}
use l0_wb_tech_school.Receiver.Calls.{Bounded}
use l0_wb_tech_school.Receiver.Invariant.{Sound, reachable-Sound}
use l0_wb_tech_school.Receiver.Tried.{tries, tries-le_granted}
use l0_wb_tech_school.Receiver.Blocking.{consume-ne-blocked, IsBlocked, Reaches-IsBlocked}

abbrev validate : ℕ → Option (Unit {0})
validate n = if nat_beq (n % 2) 0 then none else some tt

-- Two retries, one place, a backoff of 10.
abbrev fresh : Receiver ℕ ℕ
fresh = record {
  max_retries = pos 2;
  retries_capacity = 1;
  fixed_backoff = pos 10;
  retry_chan = [];
  committed = [];
  dead_letters = [];
}

abbrev message : ℕ → Message ℕ ℕ
message n = record { value = n; message = n; retry_after = pos 0; total_tries = 0 }

-- A message with an invalid order was read, and it is given up.
abbrev after_one : System ℕ ℕ
after_one = record {
  receiver = record fresh { dead_letters = message 3 ∷ [] };
  consumer = idle;
  in_flight = [];
  received = 3 ∷ [];
}

reads_one : Reaches some validate (new_system (new_receiver (pos 2) 1 (pos 10))) after_one
unfolding new_system new_receiver take_retry receive read_message handle
reads_one = here then take_none (pos 0) refl refl then read (pos 0) (some 3) refl

reachable-Sound_example : Sound after_one
reachable-Sound_example = reachable-Sound some validate (pos 2) 1 (pos 10) reads_one

-- A goroutine that failed: the message waits for its second try.
abbrev after_failure : System ℕ ℕ
after_failure = record {
  receiver = record fresh {
    retry_chan = record { value = 4; message = 4; retry_after = pos 10; total_tries = 1 } ∷ [];
  };
  consumer = idle;
  in_flight = [];
  received = 4 ∷ [];
}

fails_once : Reaches some validate (new_system (new_receiver (pos 2) 1 (pos 10))) after_failure
unfolding new_system new_receiver take_retry receive read_message handle finish_order
fails_once =
    here
    then take_none (pos 0) refl refl
    then read (pos 0) (some 4) refl
    then finish (pos 0) true [] (message 4) [] refl

tries-le_granted_example : tries fails_once ≤ 1 * 3
tries-le_granted_example = tries-le_granted some validate (pos 2) 1 (pos 10) fails_once

consume-ne-blocked_example :
    ((consume some (pos 3) (some 4) fresh).0 ≢ blocked)
    × Bounded (consume some (pos 3) (some 4) fresh).1
consume-ne-blocked_example =
    consume-ne-blocked some (pos 3) (some 4) fresh
      (record { fits = omega arith; queued = tt; dead = tt })

-- The loop took 2 from the channel too early, and the goroutine of 4 failed and took the place.
abbrev early : Message ℕ ℕ
early = record { value = 2; message = 2; retry_after = pos 10; total_tries = 1 }

abbrev later : Message ℕ ℕ
later = record { value = 4; message = 4; retry_after = pos 11; total_tries = 1 }

abbrev stuck : System ℕ ℕ
stuck = record {
  receiver = record fresh { retry_chan = later ∷ [] };
  consumer = requeueing early;
  in_flight = message 6 ∷ [];
  received = 6 ∷ 4 ∷ 2 ∷ [];
}

stuck-IsBlocked : IsBlocked stuck
stuck-IsBlocked = record { waiting = early; at = refl; full = omega arith }

abbrev stuck_later : System ℕ ℕ
stuck_later = record stuck {
  receiver = record fresh { retry_chan = later ∷ []; committed = 6 ∷ [] };
  in_flight = [];
}

stuck_on : Reaches some validate stuck stuck_later
unfolding finish_order
stuck_on = here then finish (pos 5) false [] (message 6) [] refl

Reaches-IsBlocked_example : IsBlocked stuck_later × (stuck_later.received ≡ stuck.received)
Reaches-IsBlocked_example = Reaches-IsBlocked some validate stuck_on stuck-IsBlocked

-- The stuck loop is reached from the start.
stuck_test : Reaches some validate (new_system (new_receiver (pos 2) 1 (pos 10))) stuck
unfolding new_system new_receiver take_retry receive read_message handle finish_order
stuck_test =
    here
    then take_none (pos 0) refl refl
    then read (pos 0) (some 2) refl
    then take_none (pos 0) refl refl
    then read (pos 0) (some 4) refl
    then take_none (pos 0) refl refl
    then read (pos 0) (some 6) refl
    then finish (pos 0) true (message 6 ∷ message 4 ∷ []) (message 2) [] refl
    then take_early (pos 1) refl refl
    then finish (pos 1) true (message 6 ∷ []) (message 4) [] refl
