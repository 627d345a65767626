-- ===== src/Chan/Tests.antt =====
-- The theorems on channels at a concrete channel.
use tailscale_vita.Prelude.{
  ℕ, suc, ◌≡◌, refl, false, List, [], ◌∷◌, ◌++◌, map, length, some, none, max, ok, err, Any, arith,
}
use tailscale_vita.Chan.State.{Shared, returns, bounded, is_full, send_turn, recv_turn}
use tailscale_vita.Chan.Waiting.{
  Sync, idle, Steps, done, next, checks, starts_waiting, sends, receives,
}
use tailscale_vita.Chan.WakeUps.{Covered, idle-Covered, drop_last-wakes_none}
use tailscale_vita.Chan.Order.{
  Action, sends, tries_send, sends_within, receives, clones_receiver, drops_sender, InOrder,
  act_all, start, act_all-bounded-InOrder, recv_turns, recv_turns-closed,
}

abbrev actions : List (Action ℕ)
actions =
    clones_receiver
    ∷ sends 5
    ∷ tries_send 6
    ∷ receives
    ∷ sends_within 7 false
    ∷ receives
    ∷ drops_sender
    ∷ receives
    ∷ []

act_all-bounded-InOrder_example : InOrder (some (max 0 1)) (act_all actions (start (bounded 0)))
act_all-bounded-InOrder_example = act_all-bounded-InOrder 0 actions

abbrev closed : Shared ℕ
closed = record { cap = some 3; queue = 5 ∷ 6 ∷ []; sender_count = 0; receiver_count = 1 }

recv_turns-closed_example :
    recv_turns (suc (length closed.queue)) closed
    ≡ map (λ v. returns (ok v)) closed.queue ++ returns (err tt) ∷ []
recv_turns-closed_example = recv_turns-closed closed refl

-- A receiver that waits, and a sender that has queued a value and is about to notify.
abbrev about_to_notify : Sync ℕ
about_to_notify = record {
  shared = record { cap = some 2; queue = 5 ∷ []; sender_count = 1; receiver_count = 1 };
  waiting = 9 ∷ [];
  woken = 0;
  notifying = 1;
  checking = none;
}

one_waits : Steps (idle (bounded 2)) about_to_notify
unfolding bounded recv_turn send_turn is_full
one_waits = next (checks false 9 (bounded 2) refl (λ e. absurd (cc)) refl) (
    next (starts_waiting 9 refl)
      (next (sends 5 about_to_notify.shared refl (omega arith) refl) done))

idle-Covered_example : Covered about_to_notify
idle-Covered_example = idle-Covered 2 about_to_notify one_waits

drop_last-wakes_none_example :
    (c : Sync ℕ) × Steps (idle (bounded 2)) c
    × (c.shared.sender_count ≡ 0)
    × ((d : Sync ℕ) → Steps c d → Any (λ j. j ≡ 9) d.waiting)
drop_last-wakes_none_example = drop_last-wakes_none 2 9
