-- ===== src/Wg/Pump/Tunn.antt =====
-- pump.rs: `call_tunn`. The vendored `boringtun` is a parameter: what its three calls do to a
-- tunnel's state and what they answer.
use tailscale_vita.Prelude.{ℕ, List}
use tailscale_vita.Wg.Peer.{Peer}
use tailscale_vita.Wg.Engine.State.{Engine, update_cell}

-- `TunnResult`, and a panic, which `catch_unwind` catches.
pub data TunnResult : Type 0 where
  done failed panicked write_to_tunnel_v6 : TunnResult
  write_to_network : List ℕ → TunnResult
  write_to_tunnel_v4 : List ℕ → TunnResult

pub record Boringtun (T : Type 0) : Type 0 where
  pub decapsulate : (datagram : List ℕ) → T → T × TunnResult
  pub encapsulate : (plaintext : List ℕ) → T → T × TunnResult
  pub update_timers : T → T × TunnResult

pub data Outcome : Type 0 where
  done tunnel_v6 : Outcome
  network : List ℕ → Outcome
  tunnel_v4 : List ℕ → Outcome

unfoldable pub outcome_of : TunnResult → Outcome
outcome_of TunnResult.done = done
outcome_of failed = done
outcome_of panicked = done
outcome_of (write_to_network b) = network b
outcome_of (write_to_tunnel_v4 b) = tunnel_v4 b
outcome_of write_to_tunnel_v6 = tunnel_v6

module _ {T : Type 0} where
  unfoldable pub call_tunn : Peer → (T → T × TunnResult) → Engine T → Outcome × Engine T
  unfolding outcome_of
  call_tunn peer op e =
      let (t, r) = op (e.cells peer.our_index).tunn in
      (outcome_of r, update_cell peer (λ c. record c { tunn = t }) e)
