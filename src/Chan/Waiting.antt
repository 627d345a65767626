-- ===== src/Chan/Waiting.antt =====
-- vita-chan/src/lib.rs with the condition variable `not_empty`: threads that wait in `recv`, and
-- what wakes them. Spurious wake-ups, which a `Condvar` may have but need not, are left out, and
-- so is `not_full`, behind which senders wait in the same way.
use tailscale_vita.Prelude.{
  ℕ, ◌+◌, ◌-◌, ◌<◌, ◌≡◌, Bool, true, false, List, [], ◌∷◌, ◌++◌, length, Option, none, some, Result,
  ok, eqb, if◌then◌else◌,
}
use tailscale_vita.Chan.State.{
  Shared, returns, waits, send_turn, recv_turn, clone_sender, drop_sender, clone_receiver,
  drop_receiver,
}

-- Threads waiting in `recv`, how many were woken and have not had the lock since, how many senders
-- have queued a value and are about to notify, and the receiver that holds the lock between
-- finding nothing and waiting.
pub record Sync (A : Type 0) : Type 0 where
  pub shared : Shared A
  pub waiting : List ℕ
  pub woken : ℕ
  pub notifying : ℕ
  pub checking : Option ℕ

-- A woken thread is counted off when it takes the lock.
abbrev pub wakes : Bool → ℕ → ℕ
wakes true n = n - 1
wakes false n = n

abbrev pub idle : {A : Type 0} → Shared A → Sync A
idle s = record { shared = s; waiting = []; woken = 0; notifying = 0; checking = none }

module _ {A : Type 0} where
  -- `fetch_sub(1) == 1` and `notify_all`, without the lock.
  unfoldable pub drop_last : Sync A → Sync A
  drop_last c =
      if eqb c.shared.sender_count 1
      then (record c {
        shared = drop_sender c.shared;
        waiting = [];
        woken = c.woken + length c.waiting;
      })
      else record c { shared = drop_sender c.shared }

-- What one thread does between two points at which others may run. What needs the lock needs that
-- no receiver is between its check and its wait.
pub data Step {A : Type 0} : Sync A → Sync A → Type 0 where
  sends :
      {c : Sync A} (v : A) (s : Shared A)
      → c.checking ≡ none
      → 0 < c.shared.sender_count
      → send_turn v c.shared ≡ (returns (ok tt), s)
      → Step c (record c { shared = s; notifying = c.notifying + 1 })
  notifies_one :
      {c : Sync A} (before after : List ℕ) (i : ℕ)
      → 0 < c.notifying
      → c.waiting ≡ before ++ i ∷ after
      → Step c
          (record c { notifying = c.notifying - 1; waiting = before ++ after; woken = c.woken + 1 })
  notifies_none :
      {c : Sync A}
      → 0 < c.notifying
      → c.waiting ≡ []
      → Step c (record c { notifying = c.notifying - 1 })
  receives :
      {c : Sync A} (woke : Bool) (r : Result (Unit {0}) A) (s : Shared A)
      → c.checking ≡ none
      → (woke ≡ true → 0 < c.woken)
      → recv_turn c.shared ≡ (returns r, s)
      → Step c (record c { shared = s; woken = wakes woke c.woken })
  checks :
      {c : Sync A} (woke : Bool) (i : ℕ) (s : Shared A)
      → c.checking ≡ none
      → (woke ≡ true → 0 < c.woken)
      → recv_turn c.shared ≡ (waits, s)
      → Step c (record c { checking = some i; woken = wakes woke c.woken })
  starts_waiting :
      {c : Sync A} (i : ℕ)
      → c.checking ≡ some i
      → Step c (record c { checking = none; waiting = c.waiting ++ i ∷ [] })
  drops_sender : {c : Sync A} → 0 < c.shared.sender_count → Step c (drop_last c)
  clones_sender :
      {c : Sync A}
      → 0 < c.shared.sender_count
      → Step c (record c { shared = clone_sender c.shared })
  clones_receiver : {c : Sync A} → Step c (record c { shared = clone_receiver c.shared })
  drops_receiver : {c : Sync A} → Step c (record c { shared = drop_receiver c.shared })

pub data Steps {A : Type 0} : Sync A → Sync A → Type 0 where
  done : {c : Sync A} → Steps c c
  next : {c d e : Sync A} → Step c d → Steps d e → Steps c e
