-- ===== src/Chan/State.antt =====
-- vita-chan/src/lib.rs: the shared state, and each operation as what it does while it holds the
-- lock. A blocking operation is a loop of turns: `waits` is the call of `wait`, behind which the
-- loop takes another turn on whatever state it then finds.
use tailscale_vita.Prelude.{
  ℕ, ◌+◌, ◌-◌, Bool, false, List, [], ◌∷◌, ◌++◌, length, Option, none, some, Result, ok, err, leb,
  eqb, if◌then◌else◌, max,
}

-- `SendError` and `RecvError` hold the value and nothing.
pub data TrySendError (A : Type 0) : Type 0 where
  full disconnected : A → TrySendError A

pub data TryRecvError : Type 0 where
  empty disconnected : TryRecvError

pub data RecvTimeoutError : Type 0 where
  timeout disconnected : RecvTimeoutError

pub record Shared (A : Type 0) : Type 0 where
  pub cap : Option ℕ
  pub queue : List A
  pub sender_count : ℕ
  pub receiver_count : ℕ

pub data Turn (R : Type 0) : Type 0 where
  returns : R → Turn R
  waits : Turn R

module _ {A : Type 0} where
  abbrev pub new : Option ℕ → Shared A
  new cap = record { cap = cap; queue = []; sender_count = 1; receiver_count = 1 }

  unfoldable pub bounded : ℕ → Shared A
  bounded cap = new (some (max cap 1))

  unfoldable pub unbounded : Shared A
  unbounded = new none

  -- `is_full(g.len())`
  unfoldable pub is_full : Shared A → Bool
  is_full s = elim s.cap [ some c ↦ leb c (length s.queue) | none ↦ false ]

  abbrev pub push_back : A → Shared A → Shared A
  push_back value s = record s { queue = s.queue ++ value ∷ [] }

  unfoldable pub send_turn : A → Shared A → Turn (Result A Unit) × Shared A
  send_turn value s =
      if eqb s.receiver_count 0
      then (returns (err value), s)
      else if is_full s
      then (waits, s)
      else (returns (ok tt), push_back value s)

  unfoldable pub try_send : A → Shared A → Result (TrySendError A) Unit × Shared A
  try_send value s =
      if eqb s.receiver_count 0
      then (err (TrySendError.disconnected value), s)
      else if is_full s
      then (err (full value), s)
      else (ok tt, push_back value s)

  -- `expired` is `remaining.is_zero()`.
  unfoldable pub send_timeout_turn :
      A → (expired : Bool) → Shared A → Turn (Result (TrySendError A) Unit) × Shared A
  send_timeout_turn value expired s =
      if eqb s.receiver_count 0
      then (returns (err (TrySendError.disconnected value)), s)
      else if is_full s
      then (if expired then (returns (err (full value)), s) else (waits, s))
      else (returns (ok tt), push_back value s)

  abbrev pub pop_to : List A → Shared A → Shared A
  pop_to rest s = record s { queue = rest }

  unfoldable pub recv_turn : Shared A → Turn (Result (Unit {0}) A) × Shared A
  recv_turn s = elim s.queue [
    | v ∷ rest ↦ (returns (ok v), pop_to rest s)
    | [] ↦ if eqb s.sender_count 0 then (returns (err tt), s) else (waits, s)
  ]

  unfoldable pub try_recv : Shared A → Result TryRecvError A × Shared A
  try_recv s = elim s.queue [
    | v ∷ rest ↦ (ok v, pop_to rest s)
    | [] ↦ if eqb s.sender_count 0 then (err TryRecvError.disconnected, s) else (err empty, s)
  ]

  unfoldable pub recv_timeout_turn :
      (expired : Bool) → Shared A → Turn (Result RecvTimeoutError A) × Shared A
  recv_timeout_turn expired s = elim s.queue [
    | v ∷ rest ↦ (returns (ok v), pop_to rest s)
    | [] ↦
        if eqb s.sender_count 0
        then (returns (err RecvTimeoutError.disconnected), s)
        else if expired
        then (returns (err timeout), s)
        else (waits, s)
  ]

  -- An `Arc` aborts the program before its count could wrap, and with it these counts.
  unfoldable pub clone_sender : Shared A → Shared A
  clone_sender s = record s { sender_count = s.sender_count + 1 }

  unfoldable pub drop_sender : Shared A → Shared A
  drop_sender s = record s { sender_count = s.sender_count - 1 }

  unfoldable pub clone_receiver : Shared A → Shared A
  clone_receiver s = record s { receiver_count = s.receiver_count + 1 }

  unfoldable pub drop_receiver : Shared A → Shared A
  drop_receiver s = record s { receiver_count = s.receiver_count - 1 }
