-- ===== src/Cond.antt =====
-- signer/cond/cond.go: a condition variable whose only signal is `Broadcast`.
use horcrux.Prelude.{ℕ, zero, suc, ◌+◌, Bool, ◌≡◌, true, ltb, arith}

-- The channels that the pointer `p` has held are numbered in the order in which `make` made them;
-- `channel` is the one that it holds. `Broadcast` swaps in the next one and closes the old one, so
-- the closed channels are those below.
pub record Cond : Type 0 where
  pub channel : ℕ

unfoldable pub new : Cond
new = record { channel = 0 }

-- `NotifyChan`
unfoldable pub notify_chan : Cond → ℕ
notify_chan c = c.channel

unfoldable pub broadcast : Cond → Cond
broadcast c = record { channel = c.channel + 1 }

-- whether a receive from channel `n` returns
unfoldable pub is_closed : Cond → ℕ → Bool
is_closed c n = ltb n c.channel

-- `WaitWithTimeout`, from the state in which the channel is read under the lock to the one in which
-- the lock is held again: woken by the channel, or by the timer.
pub data Woken (before after : Cond) : Type 0 where
  notified : is_closed after (notify_chan before) ≡ true → Woken before after
  timed_out : Woken before after

-- `n` calls of `Broadcast`
unfoldable pub broadcasts : ℕ → Cond → Cond
broadcasts zero c = c
broadcasts (suc n) c = broadcasts n (broadcast c)

channel-broadcasts : (n : ℕ) (c : Cond) → (broadcasts n c).channel ≡ c.channel + n
unfolding broadcasts broadcast
channel-broadcasts zero c = omega arith
channel-broadcasts (suc n) c = omega (arith, channel-broadcasts n (broadcast c))

-- A channel that was read under the lock is closed exactly when `Broadcast` was called since, however
-- often: no call is lost between the read and the wait, and none that came before wakes it.
pub is_closed-broadcasts : (n : ℕ) (c : Cond) → is_closed (broadcasts n c) (notify_chan c) ≡ ltb 0 n
unfolding is_closed notify_chan
is_closed-broadcasts n c = ground (arith, channel-broadcasts n c)
