-- ===== src/Channel/Receive.antt =====
-- udp_arq/channel.py: `recvfrom`. What the socket has before the timeout ends is a parameter.
use udp_arq_lab.Prelude.{ℕ, Bool, false, not, Option, none, some, List}
use udp_arq_lab.Prelude.Float.{Float, zero_f}
use udp_arq_lab.Prelude.Result.{Result, ok, err, ◌>>◌, require}

-- ValueError and TimeoutError
pub data ReceiveError : Type 0 where
  negative_timeout : ReceiveError
  none_in_time : ReceiveError

module _ {T : Type 0} ⦃f : Float T⦄ where
  -- `timeout is not None and timeout < 0`
  unfoldable pub is_negative : Option T → Bool
  is_negative none = false
  is_negative (some timeout) = f.lt timeout zero_f

  -- With no timeout, `select` returns only when there is a datagram.
  unfoldable pub recvfrom :
      {A : Type 0} → Option T → Option (List ℕ × A) → Result ReceiveError (List ℕ × A)
  recvfrom timeout readable = do
    require (not (is_negative timeout)) negative_timeout
    elim readable [ none ↦ err none_in_time | some datagram ↦ ok datagram ]
